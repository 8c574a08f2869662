-- ===== src/Processor/Filter.antt =====
-- processor/mod.rs: which spans a processor keeps.
use ngx_otel_rust.Base.{
  ℕ, ◌≡◌, refl, ap, Bool, true, false, not, none, some, List, [], ◌∷◌, inl, inr, ◌⊎◌, ◌≢◌, sym, ◌∙◌,
  Option, unwrap_or, Bool-cases, bytes_eq→eq, bytes_eq_refl, bytes_eq, any, arith,
}
use mathlib.Core.Path.{subst}
use ngx_otel_rust.Base.Text.{codes}
use ngx_otel_rust.DataModel.{
  AnyValue, string, bool, int, double, bytes, array, KeyValue, Span, StatusCode,
}
use ngx_otel_rust.DataModel.Payload.{SpansBatch, spans_data}
use ngx_otel_rust.Processor.{
  Processor, noop, status_filter, probe_drop, is_error, url_path_of, keeps_path, retain, process,
}

-- The attribute `url.path` with a string.
abbrev pub path_attr : List ℕ → KeyValue
path_attr path = record { key = codes "url.path"; value = string path }

-- The first attribute of that form has this string.
abbrev pub First : List ℕ → List KeyValue → Type 0
First path [] = ⊥
First path (kv ∷ kvs) =
    (kv ≡ path_attr path) ⊎ (((other : List ℕ) → kv ≢ path_attr other) × First path kvs)

abbrev pub Listed : List ℕ → List (List ℕ) → Type 0
Listed path [] = ⊥
Listed path (p ∷ paths) = (p ≡ path) ⊎ Listed path paths

-- The spans that a processor is configured to drop: those with the status error, or those whose first
-- `url.path` is one of the paths.
abbrev pub Drops : Processor → Span → Type 0
Drops noop span = ⊥
Drops (status_filter false) span = ⊥
Drops (status_filter true) span = span.status_code ≡ StatusCode.error
Drops (probe_drop paths) span = (path : List ℕ) × First path span.attributes × Listed path paths

-- The second list is the first without the elements that are dropped, in the same order.
pub data KeptFrom {A : Type 0} (Dropped : A → Type 0) : List A → List A → Type 0 where
  nil : KeptFrom Dropped [] []
  kept :
      {x : A} {xs ys : List A}
      → ¬ Dropped x
      → KeptFrom Dropped xs ys
      → KeptFrom Dropped (x ∷ xs) (x ∷ ys)
  left_out :
      {x : A} {xs ys : List A} → Dropped x → KeptFrom Dropped xs ys → KeptFrom Dropped (x ∷ xs) ys

module _ {A : Type 0} (keep : A → Bool) (Dropped : A → Type 0)
    (decides : (x : A) → (keep x ≡ true → ¬ Dropped x) × (keep x ≡ false → Dropped x)) where
  retain-KeptFrom : (xs : List A) → KeptFrom Dropped xs (retain keep xs)
  unfolding retain
  retain-KeptFrom [] = nil
  retain-KeptFrom (x ∷ xs) = elim (Bool-cases (keep x)) [
    | inl e ↦ rw e (kept ((decides x).0 e) (retain-KeptFrom xs))
    | inr e ↦ rw e (left_out ((decides x).1 e) (retain-KeptFrom xs))
  ]

retain_again :
    {A : Type 0} (keep : A → Bool) (xs : List A) → retain keep (retain keep xs) ≡ retain keep xs
unfolding retain
retain_again keep [] = refl
retain_again keep (x ∷ xs) = elim (Bool-cases (keep x)) [
  | inl e ↦ rw (e, e) (ap (λ t. x ∷ t) (retain_again keep xs))
  | inr e ↦ rw (e) (retain_again keep xs)
]

abbrev text_of : AnyValue → Option (List ℕ)
text_of (string s) = some s
text_of _ = none

no_text :
    (key : List ℕ) (v : AnyValue)
    → text_of v ≡ none
    → (other : List ℕ) → record { key = key; value = v } ≢ path_attr other
no_text key v none_there other e =
    ground (arith, sym none_there ∙ ap (λ (k : KeyValue). text_of k.value) e)

some_same : (s path : List ℕ) → some s ≡ some path → s ≡ path
some_same s path e = ap (λ o. unwrap_or o []) e

path_found :
    (kv : KeyValue) (kvs : List KeyValue) (s : List ℕ)
    → kv ≡ path_attr s
    → url_path_of (kv ∷ kvs) ≡ some s
unfolding url_path_of
path_found kv kvs s e = ap (λ k. url_path_of (k ∷ kvs)) e

-- One attribute decides, or is passed over.
path_attr-cases :
    (kv : KeyValue)
    → ((path : List ℕ) × (kv ≡ path_attr path))
      ⊎ (((other : List ℕ) → kv ≢ path_attr other)
          × ((kvs : List KeyValue) → url_path_of (kv ∷ kvs) ≡ url_path_of kvs))
unfolding url_path_of
path_attr-cases kv = elim (Bool-cases (bytes_eq kv.key (codes "url.path"))) [
  | inl named ↦ valued kv.key kv.value (bytes_eq→eq kv.key (codes "url.path") named)
  | inr other_key ↦ inr (
    (λ path. λ e.
        ground
          (arith, sym (ap (λ (k : KeyValue). bytes_eq k.key (codes "url.path")) e) ∙ other_key)),
    (λ kvs. rw other_key refl),
  )
]
  where
    valued :
        (key : List ℕ) (v : AnyValue)
        → key ≡ codes "url.path"
        → ((path : List ℕ) × (record { key = key; value = v } ≡ path_attr path))
          ⊎ (((other : List ℕ) → record { key = key; value = v } ≢ path_attr other)
              × ((kvs : List KeyValue)
                  → url_path_of (record { key = key; value = v } ∷ kvs) ≡ url_path_of kvs))
    valued key (string s) named = inl (s, ap (λ k. record { key = k; value = string s }) named)
    valued key (bool b) named = inr (no_text key (bool b) refl, (λ kvs. rw named refl))
    valued key (int n) named = inr (no_text key (int n) refl, (λ kvs. rw named refl))
    valued key (double x) named = inr (no_text key (double x) refl, (λ kvs. rw named refl))
    valued key (bytes bs) named = inr (no_text key (bytes bs) refl, (λ kvs. rw named refl))
    valued key (array vs) named = inr (no_text key (array vs) refl, (λ kvs. rw named refl))

url_path_of-First :
    (path : List ℕ) (kvs : List KeyValue) → First path kvs → url_path_of kvs ≡ some path
url_path_of-First path [] first = elim first [ ]
url_path_of-First path (kv ∷ kvs) first = elim (path_attr-cases kv) [
  | inl (s, e) ↦ elim first [
    | inl same ↦ path_found kv kvs s e ∙ ap (λ (k : KeyValue). text_of k.value) (sym e ∙ same)
    | inr (differs, rest) ↦ absurd (differs s e)
  ]
  | inr (differs, passed) ↦ elim first [
    | inl same ↦ absurd (differs path same)
    | inr (d, rest) ↦ passed kvs ∙ url_path_of-First path kvs rest
  ]
]

First-url_path_of :
    (path : List ℕ) (kvs : List KeyValue) → url_path_of kvs ≡ some path → First path kvs
unfolding url_path_of
First-url_path_of path [] e = ground (arith, e)
First-url_path_of path (kv ∷ kvs) e = elim (path_attr-cases kv) [
  | inl (s, is_path) ↦
      inl (is_path ∙ ap path_attr (some_same s path (sym (path_found kv kvs s is_path) ∙ e)))
  | inr (differs, passed) ↦ inr (differs, First-url_path_of path kvs (sym (passed kvs) ∙ e))
]

Listed-any :
    (path : List ℕ) (paths : List (List ℕ))
    → (Listed path paths → any (λ p. bytes_eq p path) paths ≡ true)
      × (any (λ p. bytes_eq p path) paths ≡ true → Listed path paths)
Listed-any path [] = ((λ h. elim h [ ]), (λ e. ground (arith, e)))
Listed-any path (p ∷ paths) =
    let (to, back) = Listed-any path paths in
    (
      (λ h. elim h [
        | inl e ↦
            (let same : bytes_eq p path ≡ true = ap (λ q. bytes_eq q path) e ∙ bytes_eq_refl path in
              rw same refl)
        | inr later ↦ ground (arith, to later)
      ]),
      (λ e. elim (Bool-cases (bytes_eq p path)) [
        | inl same ↦ inl (bytes_eq→eq p path same)
        | inr differs ↦ inr (back (ground (arith, e, differs)))
      ]),
    )

keeps_path-Drops :
    (paths : List (List ℕ)) (span : Span)
    → (keeps_path paths span ≡ true → ¬ Drops (probe_drop paths) span)
      × (keeps_path paths span ≡ false → Drops (probe_drop paths) span)
unfolding keeps_path
keeps_path-Drops paths span = decided (url_path_of span.attributes) refl
  where
    decided :
        (found : Option (List ℕ))
        → url_path_of span.attributes ≡ found
        → let keeps : Bool = elim found as (λ _. Bool) [
          | some path ↦ not (any (λ p. bytes_eq p path) paths)
          | none ↦ true
        ] in
          (keeps ≡ true → ¬ Drops (probe_drop paths) span)
          × (keeps ≡ false → Drops (probe_drop paths) span)
    decided none e = (
      (λ k. λ d. ground (arith, sym e ∙ url_path_of-First d.0 span.attributes d.1)),
      (λ k. ground (arith, k)),
    )
    decided (some s) e = (
      (λ k. λ d.
          (let same : s ≡ d.0 =
              some_same s d.0 (sym e ∙ url_path_of-First d.0 span.attributes d.1) in
            let listed = (Listed-any s paths).0 (subst (λ t. Listed t paths) (sym same) d.2) in
            ground (arith, k, listed))),
      (λ k. (s, First-url_path_of s span.attributes e, (Listed-any s paths).1 (ground (arith, k)))),
    )

is_error-Drops :
    (span : Span)
    → (not (is_error span.status_code) ≡ true → ¬ Drops (status_filter true) span)
      × (not (is_error span.status_code) ≡ false → Drops (status_filter true) span)
is_error-Drops span = decided span.status_code
  where
    decided :
        (code : StatusCode)
        → (not (is_error code) ≡ true → ¬ (code ≡ StatusCode.error))
          × (not (is_error code) ≡ false → code ≡ StatusCode.error)
    decided StatusCode.unset = ((λ k. λ e. ground (arith, ap is_error e)), (λ k. ground (arith, k)))
    decided StatusCode.ok = ((λ k. λ e. ground (arith, ap is_error e)), (λ k. ground (arith, k)))
    decided StatusCode.error = ((λ k. ground (arith, k)), (λ k. refl))

all_kept : {A : Type 0} (xs : List A) → KeptFrom (λ x. ⊥) xs xs
all_kept [] = nil
all_kept (x ∷ xs) = kept (λ h. h) (all_kept xs)

-- A processor leaves the resource and the scope of a span batch, and keeps in their order exactly the
-- spans that it is not configured to drop: the status filter drops those with the status error when it
-- is switched on, the probe filter those whose first string attribute `url.path` is one of its paths.
-- It changes nothing when it is applied again.
pub process-KeptFrom :
    (processor : Processor) (b : SpansBatch)
    → (b' : SpansBatch) × (process processor (spans_data b) ≡ spans_data b')
      × (b'.resource ≡ b.resource)
      × (b'.scope ≡ b.scope)
      × KeptFrom (Drops processor) b.spans b'.spans
      × (process processor (spans_data b') ≡ spans_data b')
unfolding process
process-KeptFrom noop b = (b, refl, refl, refl, all_kept b.spans, refl)
process-KeptFrom (status_filter false) b = (b, refl, refl, refl, all_kept b.spans, refl)
process-KeptFrom (status_filter true) b = (
  _,
  refl,
  refl,
  refl,
  retain-KeptFrom _ (Drops (status_filter true)) is_error-Drops b.spans,
  ap (λ s. spans_data (record b { spans = s })) (retain_again _ b.spans),
)
process-KeptFrom (probe_drop paths) b = (
  _,
  refl,
  refl,
  refl,
  retain-KeptFrom (keeps_path paths) (Drops (probe_drop paths)) (keeps_path-Drops paths) b.spans,
  ap (λ s. spans_data (record b { spans = s })) (retain_again (keeps_path paths) b.spans),
)
