-- ===== src/DataModel/Fields.antt =====
-- data_model/mod.rs: the attributes that a list of fields with optional values stands for.
use ngx_otel_rust.Base.{
  ℕ, zero, suc, ◌≡◌, refl, Option, none, some, List, [], ◌∷◌, ◌++◌, ltb, if◌then◌else◌, is_empty,
  arith,
}
use ngx_otel_rust.Base.Text.{from_utf8_lossy}
use ngx_otel_rust.DataModel.{AnyValue, string, KeyValue}

-- The fields that have a value, in their order.
unfoldable pub present : List (List ℕ × Option AnyValue) → List KeyValue
present [] = []
present ((key, none) ∷ fields) = present fields
present ((key, some v) ∷ fields) = record { key = key; value = v } ∷ present fields

-- A text that is not empty.
unfoldable pub text : List ℕ → Option AnyValue
text [] = none
text (b ∷ bs) = some (string (b ∷ bs))

-- Bytes that are not empty, decoded.
unfoldable pub decoded : List ℕ → Option AnyValue
decoded [] = none
decoded (b ∷ bs) = some (string (from_utf8_lossy (b ∷ bs)))

-- A value that stands only with a number from 1 on.
unfoldable pub positive : ℕ → AnyValue → Option AnyValue
positive zero v = none
positive (suc n) v = some v

pub present_nil : present [] ≡ []
unfolding present
present_nil = refl

module _ (key : List ℕ) (fields : List (List ℕ × Option AnyValue)) where
  pub present-some :
      (v : AnyValue)
      → present ((key, some v) ∷ fields) ≡ (record { key = key; value = v } ∷ []) ++ present fields
  unfolding present
  present-some v = refl

  pub present-text :
      (t : List ℕ)
      → present ((key, text t) ∷ fields)
        ≡ (if is_empty t then [] else record { key = key; value = string t } ∷ []) ++ present fields
  unfolding present text
  present-text [] = refl
  present-text (b ∷ bs) = refl

  pub present-decoded :
      (t : List ℕ)
      → present ((key, decoded t) ∷ fields)
        ≡ (if is_empty t then [] else record { key = key; value = string (from_utf8_lossy t) } ∷ [])
          ++ present fields
  unfolding present decoded
  present-decoded [] = refl
  present-decoded (b ∷ bs) = refl

  pub present-positive :
      (n : ℕ) (v : AnyValue)
      → present ((key, positive n v) ∷ fields)
        ≡ (if ltb 0 n then record { key = key; value = v } ∷ [] else []) ++ present fields
  unfolding present positive
  present-positive zero v = refl
  present-positive (suc n) v = ground arith
