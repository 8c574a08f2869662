-- ===== src/Source/Series.antt =====
-- metric_source/instrumented.rs: the points of the request duration, one for each combination or one for
-- all of them.
use ngx_otel_rust.Base.{
  ℕ, zero, suc, ◌+◌, ◌%◌, ◌^◌, ◌≡◌, refl, sym, ap, ◌∙◌, true, false, inl, inr, List, [], ◌∷◌, ◌==◌,
  Bool-cases, length, get_or, arith,
}
use ngx_otel_rust.DataModel.{KeyValue}
use ngx_otel_rust.DataModel.Payload.{Exemplar, ExponentialHistogramDataPoint}
use ngx_otel_rust.Shm.Combo.{combo_index, n_combos}
use ngx_otel_rust.Shm.HttpMethod
use ngx_otel_rust.Shm.StatusClass
use ngx_otel_rust.Shm.ProtoVersion
use ngx_otel_rust.Source.Aggregate.{ExpAgg, add_exp, zero_exp}
use ngx_otel_rust.Source.Metrics.{
  make_exp_dp, combo_exemplars, range, Combination, protos_of, classes_of, methods_of, combinations,
  combo_of, combo_attrs, pushed_point, collapse, base_points, duration_points,
}

-- The observations that the points count.
unfoldable pub observations : (points : List ExponentialHistogramDataPoint) → ℕ
observations [] = 0
observations (p ∷ points) = p.count + observations points

counts : (aggs : List ExpAgg) → ℕ
counts [] = 0
counts (a ∷ aggs) = a.3 + counts aggs

counts_at : (aggs : List ExpAgg) (slots : List ℕ) → ℕ
counts_at aggs [] = 0
counts_at aggs (i ∷ slots) = (get_or aggs i zero_exp).3 + counts_at aggs slots

slots_of : (combos : List Combination) → List ℕ
slots_of [] = []
slots_of (c ∷ combos) = combo_of c ∷ slots_of combos

collapse-counts :
    (all : ExpAgg) (aggs : List ExpAgg)
    → (collapse all aggs).3 % 2 ^ 64 ≡ (all.3 + counts aggs) % 2 ^ 64
unfolding collapse counts add_exp
collapse-counts all [] = omega arith
collapse-counts all (a ∷ aggs) = omega (arith, collapse-counts (add_exp all a) aggs)

-- A combination that counted nothing has no point.
pushed_point-observations :
    (agg : ExpAgg) (attrs : List KeyValue) (exemplars : List Exemplar) (start now : ℕ)
    (later : List ExponentialHistogramDataPoint)
    → observations (pushed_point (make_exp_dp agg attrs exemplars start now) later)
      ≡ agg.3 + observations later
unfolding pushed_point make_exp_dp observations
pushed_point-observations agg attrs exemplars start now later = elim (Bool-cases (agg.3 == 0)) [
  | inl e ↦ (let none_counted : agg.3 ≡ 0 = ground (arith, e) in rw e (omega (arith, none_counted)))
  | inr e ↦ rw e refl
]

base_points-observations :
    (start now : ℕ) (aggs : List ExpAgg) (all : List (ℕ × Exemplar)) (combos : List Combination)
    → observations (base_points start now aggs all combos) ≡ counts_at aggs (slots_of combos)
unfolding base_points counts_at slots_of observations
base_points-observations start now aggs all [] = refl
base_points-observations start now aggs all (c ∷ combos) =
    pushed_point-observations (get_or aggs (combo_of c) zero_exp) (combo_attrs c)
      (combo_exemplars (combo_of c) all) start now (base_points start now aggs all combos)
    ∙ ap (λ n. (get_or aggs (combo_of c) zero_exp).3 + n)
        (base_points-observations start now aggs all combos)

counts_at-later :
    (a : ExpAgg) (aggs : List ExpAgg) (n k : ℕ)
    → counts_at (a ∷ aggs) (range (suc k) n) ≡ counts_at aggs (range k n)
unfolding counts_at range
counts_at-later a aggs zero k = refl
counts_at-later a aggs (suc n) k =
    let next : suc k + 1 ≡ suc (k + 1) = omega arith in
    rw next (ap (λ m. (get_or aggs k zero_exp).3 + m) (counts_at-later a aggs n (k + 1)))

counts_at-range : (aggs : List ExpAgg) → counts_at aggs (range 0 (length aggs)) ≡ counts aggs
unfolding counts_at range counts
counts_at-range [] = refl
counts_at-range (a ∷ aggs) =
    ap (λ m. a.3 + m) (counts_at-later a aggs (length aggs) 0 ∙ counts_at-range aggs)

slots_of-combinations : slots_of combinations ≡ range 0 n_combos
unfolding slots_of combinations methods_of classes_of protos_of combo_index range
    HttpMethod.from_index StatusClass.from_index ProtoVersion.from_index
slots_of-combinations = refl

-- For the aggregates of all 160 combinations, the points of `http.server.request.duration` count the
-- same requests, up to the wrap-around of 64 bits, whether there is one point for each combination that
-- counted any or a single point for all.
pub duration_points-observations :
    (start now : ℕ) (aggs : List ExpAgg) (all : List (ℕ × Exemplar))
    → length aggs ≡ n_combos
    → observations (duration_points start now true aggs all) % 2 ^ 64
      ≡ observations (duration_points start now false aggs all) % 2 ^ 64
unfolding duration_points observations
duration_points-observations start now aggs all size =
    let each : observations (base_points start now aggs all combinations) ≡ counts aggs =
      base_points-observations start now aggs all combinations
      ∙ ap (counts_at aggs) (slots_of-combinations ∙ ap (range 0) (sym size))
      ∙ counts_at-range aggs in
    omega (arith, each, collapse-counts zero_exp aggs)
