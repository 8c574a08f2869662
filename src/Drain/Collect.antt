-- ===== src/Drain/Collect.antt =====
-- drain/mod.rs: which records a drain takes from the rings, in terms of the records that they hold.
use ngx_otel_rust.Base.{
  ℕ, zero, suc, ◌+◌, ◌%◌, ◌^◌, ◌≡◌, refl, ap, ap₂, false, Option, List, [], ◌∷◌, ◌++◌, take, drop,
  arith,
}
use ngx_otel_rust.Ring.{WorkerSignalRing, pop_into, drop_count}
use ngx_otel_rust.Ring.Queue.{Holds}
use ngx_otel_rust.Ring.Pop.{pop_first, pop_nothing}
use ngx_otel_rust.DataModel.Payload.{Resource, Scope}
use ngx_otel_rust.Logs.{parse_access_record}
use ngx_otel_rust.Spans.Parse.{parse_span_record}
use ngx_otel_rust.Drain.{
  keep, drain_ring, drain_rings, LogsZone, collect_log_records, collect_span_records,
}

module _ {ℓ} {A : Type ℓ} where
  -- The records that parse.
  unfoldable pub parsed : (parse : List ℕ → Option A) (records : List (List ℕ)) → List A
  parsed parse [] = []
  parsed parse (x ∷ xs) = keep (parse x) (parsed parse xs)

  drain_ring_lem :
      (parse : List ℕ → Option A) (limit : ℕ) (r : WorkerSignalRing) (q : List (List ℕ))
      → Holds r q
      → ((drain_ring parse limit r).0 ≡ parsed parse (take limit q))
        × Holds (drain_ring parse limit r).1 (drop limit q)
  unfolding drain_ring parsed
  drain_ring_lem parse zero r q v = (refl, v)
  drain_ring_lem parse (suc limit) r [] v =
      let e = pop_nothing r [] v in
      let stopped : (pop_into r []).0 ≡ false = ap (λ t. t.0) e in
      let same : (pop_into r []).2 ≡ r = ap (λ t. t.2) e in
      rw (drain_ring, stopped, same) ((refl, v))
  drain_ring_lem parse (suc limit) r (x ∷ q) v =
      let pop = pop_first r x q [] v in
      let rest = drain_ring_lem parse limit (pop_into r []).2 q pop.2 in
      rw (drain_ring, pop.0, pop.1) ((ap (keep (parse x)) rest.0, rest.1))

  -- The records of the queues that one drain takes.
  unfoldable pub taken :
      (parse : List ℕ → Option A) (limit : ℕ) (queues : List (List (List ℕ))) → List A
  taken parse limit [] = []
  taken parse limit (q ∷ queues) = parsed parse (take limit q) ++ taken parse limit queues

-- Each ring holds the records of its queue, those of each queue from the position `from` on.
unfoldable pub HoldAll :
    (from : ℕ) (rings : List WorkerSignalRing) (queues : List (List (List ℕ))) → Type 0
HoldAll from [] [] = Unit
HoldAll from (r ∷ rings) (q ∷ queues) = Holds r (drop from q) × HoldAll from rings queues
HoldAll from _ _ = ⊥

unfoldable pub total_dropped : (rings : List WorkerSignalRing) → ℕ
total_dropped [] = 0
total_dropped (r ∷ rings) = drop_count r + total_dropped rings

-- When every worker's ring holds the records of a queue, a drain delivers, worker by worker, the parsed
-- ones of the first `limit` records of each queue in their order, reports the sum of the rings' drop
-- counts (modulo 2^64), and leaves in each ring the records after the first `limit`.
pub drain_rings_lem {ℓ} :
    {A : Type ℓ} (parse : List ℕ → Option A) (limit : ℕ) (rings : List WorkerSignalRing)
    (queues : List (List (List ℕ)))
    → HoldAll 0 rings queues
    → let (records, dropped, rings') = drain_rings parse limit rings in
      (records ≡ taken parse limit queues)
      × (dropped ≡ total_dropped rings % 2 ^ 64)
      × HoldAll limit rings' queues
unfolding drain_rings taken HoldAll total_dropped
drain_rings_lem parse limit [] [] v = (refl, refl, tt)
drain_rings_lem parse limit [] (q ∷ queues) v = absurd v
drain_rings_lem parse limit (r ∷ rings) [] v = absurd v
drain_rings_lem parse limit (r ∷ rings) (q ∷ queues) v =
    let mine = drain_ring_lem parse limit r q v.0 in
    let others = drain_rings_lem parse limit rings queues v.1 in
    (ap₂ (λ xs ys. xs ++ ys) mine.0 others.0, omega (arith, others.1), (mine.1, others.2))

-- When every worker's spans ring holds the records of a queue, the collected batch has, worker by worker
-- and in their order, the spans that parse among the first 2,500 records of each queue; the reported
-- count is the sum of the rings' drop counts (modulo 2^64), and each ring keeps exactly the later
-- records.
pub collect_span_records_lem :
    (head : Resource × Scope) (now : ℕ) (rings : List WorkerSignalRing)
    (queues : List (List (List ℕ)))
    → HoldAll 0 rings queues
    → let (batch, dropped, rings') = collect_span_records head now rings in
      (batch.spans ≡ taken (λ buf. parse_span_record buf now) 2500 queues)
      × (dropped ≡ total_dropped rings % 2 ^ 64)
      × HoldAll 2500 rings' queues
unfolding collect_span_records
collect_span_records_lem head now rings queues v =
    drain_rings_lem (λ buf. parse_span_record buf now) 2500 rings queues v

-- The access part does not depend on the error part, and without error export the error rings and tables
-- are untouched.
pub collect_log_records_lem :
    (head : Resource × Scope) (now : ℕ) (zone : LogsZone) (queues : List (List (List ℕ)))
    → HoldAll 0 zone.access queues
    → let (batch, counts, zone') = collect_log_records false head now zone in
      (batch.logs ≡ taken (λ buf. parse_access_record buf now) 2500 queues)
      × (counts.access_dropped ≡ total_dropped zone.access % 2 ^ 64)
      × HoldAll 2500 zone'.access queues
      × (zone'.errors ≡ zone.errors)
unfolding collect_log_records
collect_log_records_lem head now zone queues v =
    let access = drain_rings_lem (λ buf. parse_access_record buf now) 2500 zone.access queues v in
    (access.0, access.1, access.2, refl)
