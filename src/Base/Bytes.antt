-- ===== src/Base/Bytes.antt =====
-- Machine words as big-endian and little-endian byte strings.
use Prim.Native.Nat.{ℕ, zero, suc, ◌+◌, ◌*◌, ◌/◌, ◌%◌, ◌^◌, ◌<◌}
use mathlib.Core.Path.{◌≡◌, refl, sym, ap, ap₂, ◌∙◌}
use mathlib.Core.List.{List, [], ◌∷◌, ◌++◌, append-nil, append_assoc}
use native.Mathlib.Nat.{pow-suc}
use native.Mathlib.Omega.{arith}
use ngx_otel_rust.Base.Lists.{length, length-append, All, All-append}

abbrev pub IsByte : ℕ → Type 0
IsByte b = b < 256

-- The low `n` bytes of `v`, the highest first: `to_be_bytes` of a word of `n` bytes.
unfoldable pub be_bytes : ℕ → ℕ → List ℕ
be_bytes zero v = []
be_bytes (suc n) v = be_bytes n (v / 256) ++ (v % 256 ∷ [])

-- `from_be_bytes`, from the left.
be_value : ℕ → List ℕ → ℕ
be_value acc [] = acc
be_value acc (b ∷ bs) = be_value (acc * 256 + b) bs

unfoldable pub from_be : List ℕ → ℕ
unfolding be_value
from_be bs = be_value 0 bs

pub length-be_bytes : (n v : ℕ) → length (be_bytes n v) ≡ n
unfolding be_bytes
length-be_bytes zero v = refl
length-be_bytes (suc n) v =
    length-append (be_bytes n (v / 256)) _ ∙ omega (arith, length-be_bytes n (v / 256))

pub be_bytes-IsByte : (n v : ℕ) → All IsByte (be_bytes n v)
unfolding be_bytes
be_bytes-IsByte zero v = tt
be_bytes-IsByte (suc n) v =
    All-append IsByte (be_bytes n (v / 256)) _ (be_bytes-IsByte n (v / 256)) (omega arith)

be_value-append :
    (acc : ℕ) (xs : List ℕ) (b : ℕ) → be_value acc (xs ++ (b ∷ [])) ≡ be_value acc xs * 256 + b
unfolding be_value
be_value-append acc [] b = refl
be_value-append acc (x ∷ xs) b = be_value-append (acc * 256 + x) xs b

-- A word that fits `n` bytes is read back from them.
pub from_be-be_bytes : (n v : ℕ) → v < 256 ^ n → from_be (be_bytes n v) ≡ v
unfolding from_be be_bytes
from_be-be_bytes zero v h = omega arith
from_be-be_bytes (suc n) v h =
    be_value-append 0 (be_bytes n (v / 256)) (v % 256)
    ∙ omega (arith, from_be-be_bytes n (v / 256) (omega (arith, pow-suc 256 n)))

be_bytes-be_value :
    (k acc : ℕ) (bs : List ℕ)
    → All IsByte bs
    → be_bytes (k + length bs) (be_value acc bs) ≡ be_bytes k acc ++ bs
unfolding be_bytes be_value
be_bytes-be_value k acc [] small =
    let none_more : k + 0 ≡ k = omega arith in rw (none_more) (sym (append-nil (be_bytes k acc)))
be_bytes-be_value k acc (b ∷ bs) small =
    let shift : k + suc (length bs) ≡ suc k + length bs = omega arith in
    let high : (acc * 256 + b) / 256 ≡ acc = omega (arith, small.0) in
    let low : (acc * 256 + b) % 256 ≡ b = omega (arith, small.0) in
    ap (λ n. be_bytes n (be_value (acc * 256 + b) bs)) shift
    ∙ be_bytes-be_value (suc k) (acc * 256 + b) bs small.1
    ∙ ap₂ (λ h l. (be_bytes k h ++ l ∷ []) ++ bs) high low
    ∙ append_assoc (be_bytes k acc) (b ∷ []) bs

-- Bytes that are read as a word are written back from it.
pub be_bytes-from_be :
    (n : ℕ) (bs : List ℕ) → length bs ≡ n → All IsByte bs → be_bytes n (from_be bs) ≡ bs
unfolding from_be be_bytes
be_bytes-from_be n bs size small =
    let whole : n ≡ 0 + length bs = omega (arith, size) in
    ap (λ k. be_bytes k (from_be bs)) whole ∙ be_bytes-be_value 0 0 bs small
