-- ===== src/Source/Sums.antt =====
-- metric_source/instrumented.rs: the timings and bytes over all attempts.
use ngx_otel_rust.Base.{
  ℕ, ◌+◌, ◌-◌, ◌^◌, ◌≤◌, ◌≡◌, refl, sym, ap, ◌∙◌, inl, inr, Bool, true, false, Bool-cases, Option,
  none, some, List, [], ◌∷◌, ◌==◌, if◌then◌else◌, unwrap_or, min, arith,
}
use mathlib.Core.Path.{subst}
use ngx_otel_rust.Source.{
  UpstreamState, UpstreamSum, ngx_msec_sentinel, saturating_add, accumulate, add_attempt,
  add_attempts, no_attempt, sum_upstream_states,
}

unfoldable pub sum : (xs : List ℕ) → ℕ
sum [] = 0
sum (x ∷ xs) = x + sum xs

-- The values of a field over the attempts at a peer.
unfoldable pub values : (field : UpstreamState → ℕ) (states : List UpstreamState) → List ℕ
values field [] = []
values field (st ∷ states) =
    let rest = values field states in if st.peer_is_null then rest else field st ∷ rest

unfoldable pub measured : (xs : List ℕ) → List ℕ
measured [] = []
measured (x ∷ xs) = let rest = measured xs in if x == ngx_msec_sentinel then rest else x ∷ rest

abbrev pub saturated : ℕ → ℕ
saturated n = min n (2 ^ 64 - 1)

-- None when nothing was measured, else the sum.
unfoldable pub sum_of_measured : (xs : List ℕ) → Option ℕ
sum_of_measured [] = none
sum_of_measured (x ∷ xs) = some (saturated (x + sum xs))

-- What is added to a sum that stands already.
unfoldable onto : (acc : Option ℕ) (xs : List ℕ) → Option ℕ
onto none xs = sum_of_measured xs
onto (some a) xs = some (saturated (a + sum xs))

saturated_step : (a x s : ℕ) → saturated (saturated (a + x) + s) ≡ saturated (a + (x + s))
saturated_step a x s = omega arith

onto_step :
    (acc : Option ℕ) (x : ℕ) (xs : List ℕ)
    → onto (accumulate acc x) (measured xs) ≡ onto acc (measured (x ∷ xs))
unfolding onto accumulate measured saturating_add sum sum_of_measured
onto_step acc x xs = elim (Bool-cases (x == ngx_msec_sentinel)) [
  | inl nothing ↦ rw (nothing) refl
  | inr something ↦ rw (something) (added acc)
]
  where
    added :
        (acc : Option ℕ)
        → onto (some (saturating_add (unwrap_or acc 0) x)) (measured xs)
          ≡ onto acc (x ∷ measured xs)
    added none = ap some (omega arith)
    added (some a) = ap some (saturated_step a x (sum (measured xs)))

-- A sum that stands is a word of 64 bits.
Fits : Option ℕ → Type 0
Fits acc = unwrap_or acc 0 ≤ 2 ^ 64 - 1

accumulate-Fits : (acc : Option ℕ) (x : ℕ) → Fits acc → Fits (accumulate acc x)
unfolding Fits accumulate saturating_add
accumulate-Fits acc x fits = elim (Bool-cases (x == ngx_msec_sentinel)) [
  | inl nothing ↦ rw (nothing) fits
  | inr something ↦ rw (something) (omega arith)
]

onto-nil : (acc : Option ℕ) → Fits acc → onto acc [] ≡ acc
unfolding onto sum sum_of_measured Fits
onto-nil none fits = refl
onto-nil (some a) fits = ap some (omega (arith, fits))

through_if :
    {A : Type 0} (slot : UpstreamSum → A) (skip : Bool) (acc next : UpstreamSum)
    → slot (if skip then acc else next) ≡ (if skip then slot acc else slot next)
through_if slot true acc next = refl
through_if slot false acc next = refl

module _ (field : UpstreamState → ℕ) (slot : UpstreamSum → Option ℕ)
    (step : (acc : UpstreamSum) (st : UpstreamState)
      → slot (add_attempt acc st)
        ≡ (if st.peer_is_null then slot acc else accumulate (slot acc) (field st))) where
  times_lem :
      (states : List UpstreamState) (acc : UpstreamSum)
      → Fits (slot acc)
      → slot (add_attempts acc states) ≡ onto (slot acc) (measured (values field states))
  unfolding add_attempts values measured
  times_lem [] acc fits = sym (onto-nil (slot acc) fits)
  times_lem (st ∷ states) acc fits =
      let vs = values field states in
      let kept : Bool → Option ℕ =
        λ b. onto (slot acc) (measured (if b then vs else field st ∷ vs)) in
      let stepped : Bool → Option ℕ =
        λ b. if b then slot acc else accumulate (slot acc) (field st) in
      elim (Bool-cases st.peer_is_null) [
        | inl marker ↦
            (let same : slot (add_attempt acc st) ≡ slot acc = step acc st ∙ ap stepped marker in
              times_lem states (add_attempt acc st) (subst Fits (sym same) fits)
              ∙ ap (λ o. onto o (measured vs)) same
              ∙ ap kept (sym marker))
        | inr attempt ↦
            (let more : slot (add_attempt acc st) ≡ accumulate (slot acc) (field st) =
                step acc st ∙ ap stepped attempt in
              times_lem states (add_attempt acc st)
                (subst Fits (sym more) (accumulate-Fits (slot acc) (field st) fits))
              ∙ ap (λ o. onto o (measured vs)) more
              ∙ onto_step (slot acc) (field st) vs
              ∙ ap kept (sym attempt))
      ]

bytes_onto : ℕ → List ℕ → ℕ
bytes_onto a xs = saturated (a + sum xs)

module _ (field : UpstreamState → ℕ) (slot : UpstreamSum → ℕ)
    (step : (acc : UpstreamSum) (st : UpstreamState)
      → slot (add_attempt acc st)
        ≡ (if st.peer_is_null then slot acc else saturating_add (slot acc) (field st))) where
  bytes_lem :
      (states : List UpstreamState) (acc : UpstreamSum)
      → slot acc ≤ 2 ^ 64 - 1
      → slot (add_attempts acc states) ≡ bytes_onto (slot acc) (values field states)
  unfolding add_attempts values saturating_add sum bytes_onto
  bytes_lem [] acc fits = omega (arith, fits)
  bytes_lem (st ∷ states) acc fits =
      let vs = values field states in
      let kept : Bool → ℕ = λ b. bytes_onto (slot acc) (if b then vs else field st ∷ vs) in
      let stepped : Bool → ℕ = λ b. if b then slot acc else saturating_add (slot acc) (field st) in
      elim (Bool-cases st.peer_is_null) [
        | inl marker ↦
            (let same : slot (add_attempt acc st) ≡ slot acc = step acc st ∙ ap stepped marker in
              bytes_lem states (add_attempt acc st) (omega (arith, same, fits))
              ∙ ap (λ a. bytes_onto a vs) same
              ∙ ap kept (sym marker))
        | inr attempt ↦
            (let more : slot (add_attempt acc st) ≡ saturating_add (slot acc) (field st) =
                step acc st ∙ ap stepped attempt in
              bytes_lem states (add_attempt acc st) (omega (arith, more))
              ∙ ap (λ a. bytes_onto a vs) more
              ∙ saturated_step (slot acc) (field st) (sum vs)
              ∙ ap kept (sym attempt))
      ]

-- Each timing of `total` is the sum of the values that the attempts at a peer measured, none when
-- there is none; the byte counts are the sums over all of them. Every sum stops at 2 ^ 64 - 1.
unfoldable pub IsSumOf : (states : List UpstreamState) (total : UpstreamSum) → Type 0
IsSumOf states total =
    (total.response_ms ≡ sum_of_measured (measured (values (λ st. st.response_time) states)))
    × (total.header_ms ≡ sum_of_measured (measured (values (λ st. st.header_time) states)))
    × (total.connect_ms ≡ sum_of_measured (measured (values (λ st. st.connect_time) states)))
    × (total.bytes_received ≡ saturated (sum (values (λ st. st.bytes_received) states)))
    × (total.bytes_sent ≡ saturated (sum (values (λ st. st.bytes_sent) states)))

add_attempts-IsSumOf :
    (states : List UpstreamState) → IsSumOf states (add_attempts no_attempt states)
unfolding IsSumOf add_attempt onto bytes_onto Fits
add_attempts-IsSumOf states = (
  times_lem (λ st. st.response_time) (λ t. t.response_ms)
      (λ acc. λ st. through_if (λ t. t.response_ms) st.peer_is_null acc _) states no_attempt
      (omega arith),
  times_lem (λ st. st.header_time) (λ t. t.header_ms)
      (λ acc. λ st. through_if (λ t. t.header_ms) st.peer_is_null acc _) states no_attempt
      (omega arith),
  times_lem (λ st. st.connect_time) (λ t. t.connect_ms)
      (λ acc. λ st. through_if (λ t. t.connect_ms) st.peer_is_null acc _) states no_attempt
      (omega arith),
  bytes_lem (λ st. st.bytes_received) (λ t. t.bytes_received)
        (λ acc. λ st. through_if (λ t. t.bytes_received) st.peer_is_null acc _) states no_attempt
        (omega arith)
      ∙ omega arith,
  bytes_lem (λ st. st.bytes_sent) (λ t. t.bytes_sent)
        (λ acc. λ st. through_if (λ t. t.bytes_sent) st.peer_is_null acc _) states no_attempt
        (omega arith)
      ∙ omega arith,
)

-- With at least one entry, sum_upstream_states gives the sums: for each timing those of the values
-- measured by attempts at a peer, none when there is none, and the sums of their bytes, all of them
-- stopped at 2 ^ 64 - 1.
pub sum_upstream_states-IsSumOf :
    (st : UpstreamState) (states : List UpstreamState)
    → (total : UpstreamSum) × (sum_upstream_states (some (st ∷ states)) ≡ some total)
      × IsSumOf (st ∷ states) total
unfolding sum_upstream_states
sum_upstream_states-IsSumOf st states =
    (add_attempts no_attempt (st ∷ states), refl, add_attempts-IsSumOf (st ∷ states))
