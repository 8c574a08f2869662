-- ===== src/Source/Name.antt =====
-- metric_source/instrumented.rs: the name of a span is the cut text of its method and route.
use ngx_otel_rust.Base.{
  ℕ, zero, suc, ◌+◌, ◌-◌, ◌≤◌, ◌<◌, ◌≡◌, refl, sym, ap, ◌∙◌, inl, inr, Bool-cases, List, [], ◌∷◌,
  ◌++◌, ltb, if◌then◌else◌, length, take, take_all, length-take, is_empty, arith,
}
use ngx_otel_rust.Spans.{max_span_name}
use ngx_otel_rust.Source.{build_span_name}

take_past :
    (n c : ℕ) (m r : List ℕ)
    → length m < n
    → m ++ c ∷ take (n - (length m + 1)) r ≡ take n (m ++ c ∷ r)
take_past zero c m r h = absurd (omega (arith, h))
take_past (suc n) c [] r h = ap (λ k. c ∷ take k r) (omega arith)
take_past (suc n) c (x ∷ m) r h =
    ap (λ t. x ∷ t)
      (ap (λ k. m ++ c ∷ take k r) (omega arith) ∙ take_past n c m r (omega (arith, h)))

take_within : (n : ℕ) (m r : List ℕ) → n ≤ length m → take n (m ++ r) ≡ take n m
take_within zero m r h = refl
take_within (suc n) [] r h = absurd (omega (arith, h))
take_within (suc n) (x ∷ m) r h = ap (λ t. x ∷ t) (take_within n m r (omega (arith, h)))

-- A span is named by its method, a space and its route, or by its method alone when it has no route,
-- cut after 64 bytes.
pub build_span_name_lem :
    (method route : List ℕ)
    → build_span_name method route
      ≡ take max_span_name (if is_empty route then method else method ++ b' ' ∷ route)
unfolding build_span_name
build_span_name_lem method [] =
    elim (Bool-cases (ltb (length (take max_span_name method)) max_span_name)) [
      | inl room ↦ rw (room) refl
      | inr full ↦ rw (full) refl
    ]
build_span_name_lem method (c ∷ route) =
    elim (Bool-cases (ltb (length (take max_span_name method)) max_span_name)) [
      | inl room ↦
          (let short : length method < max_span_name =
              ground (arith, room, length-take max_span_name method) in
            rw (room, take_all max_span_name method (omega (arith, short)))
              (take_past max_span_name b' ' method (c ∷ route) short))
      | inr full ↦
          (let long : max_span_name ≤ length method =
              ground (arith, full, length-take max_span_name method) in
            rw (full) (sym (take_within max_span_name method (b' ' ∷ c ∷ route) long)))
    ]
