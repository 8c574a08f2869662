-- ===== src/Drain/Flush.antt =====
-- drain/graceful.rs: what the drain leaves, and what it sends of a queue.
use ngx_otel_rust.Base.{
  ℕ, ◌+◌, ◌%◌, ◌^◌, ◌<◌, ◌≡◌, refl, sym, ap, ap₂, ◌∙◌, inl, inr, ◌⊎◌, true, Option, List, [], ◌∷◌,
  ◌++◌, if◌then◌else◌, Bool-cases, append_assoc, append-nil, arith,
}
use ngx_otel_rust.DataModel.Payload.{MetricsBatch}
use ngx_otel_rust.Exporter.{ControlShm, successor_announced}
use ngx_otel_rust.Policy.{DeliveryOutcome, TransportError}
use ngx_otel_rust.Policy.Retry.{
  Batch, records, account_drops_and_clear, SendResult, delivered, failed, deadline_exceeded,
}
use ngx_otel_rust.Processor.{Processor}
use ngx_otel_rust.Ring.{WorkerSignalRing}
use ngx_otel_rust.Drain.{LogsZone}
use ngx_otel_rust.Drain.Graceful.{
  metrics_signal, logs_signal, traces_signal, Transport, DrainConfig, DrainState, flush_queue,
  drain_metrics, drain_logs_queue, drain_logs_zone, drain_spans_queue, drain_spans_zone,
  graceful_drain,
}

-- A send is delivered, or the flush stops.
SendResult-cases :
    (result : SendResult)
    → ((outcome : DeliveryOutcome) × (result ≡ delivered outcome))
      ⊎ (((e : TransportError) × (result ≡ failed e)) ⊎ (result ≡ deadline_exceeded))
SendResult-cases (delivered outcome) = inl (outcome, refl)
SendResult-cases (failed e) = inr (inl (e, refl))
SendResult-cases deadline_exceeded = inr (inr refl)

abbrev pub bytes_of : List Batch → List (List ℕ)
bytes_of [] = []
bytes_of ((bytes, n) ∷ queue) = bytes ∷ bytes_of queue

-- A sender that keeps the bytes of every attempt.
abbrev pub logged :
    {S : Type 0}
    → (S → List ℕ → SendResult × S)
    → S × List (List ℕ)
    → List ℕ
    → SendResult × (S × List (List ℕ))
logged send (sender, sent) bytes =
    let (result, sender') = send sender bytes in (result, (sender', sent ++ bytes ∷ []))

-- The batches of a queue, in their order, are those that were tried and those that were credited.
abbrev pub Flushed :
    {S : Type 0} → List Batch → ℕ → List (List ℕ) → List Batch × ℕ × (S × List (List ℕ)) → Type 0
Flushed queue dropped sent (queue', dropped', (sender', sent')) =
    (tried : List Batch) × (credited : List Batch) × (tried ++ credited ≡ queue)
    × (sent' ≡ sent ++ bytes_of tried)
    × (dropped' ≡ (dropped + records credited) % 2 ^ 64)
    × (queue' ≡ [])

module _ {S : Type 0} (send : S → List ℕ → SendResult × S) where
  flush_stopped :
      (bytes : List ℕ) (n : ℕ) (queue : List Batch) (dropped : ℕ) (sender : S)
      (sent : List (List ℕ))
      → dropped < 2 ^ 64
      → Flushed ((bytes, n) ∷ queue) dropped sent (
        (account_drops_and_clear queue dropped).0,
        (account_drops_and_clear queue dropped).1,
        (sender, sent ++ bytes ∷ []),
      )
  unfolding account_drops_and_clear
  flush_stopped bytes n queue dropped sender sent small =
      ((bytes, n) ∷ [], queue, refl, refl, ground (arith, small), refl)

  -- From a counter of dropped records that fits 64 bits and with any sender, a flush tries batches from
  -- the front of the queue, each once and in order, credits the records of exactly those that it did not
  -- try to the counter (modulo 2^64), and leaves the queue empty.
  pub flush_queue-Flushed :
      (queue : List Batch) (dropped : ℕ) (sender : S) (sent : List (List ℕ))
      → dropped < 2 ^ 64
      → Flushed queue dropped sent (flush_queue (logged send) queue dropped (sender, sent))
  unfolding flush_queue
  flush_queue-Flushed [] dropped sender sent small =
      ([], [], refl, sym (append-nil sent), omega (arith, small), refl)
  flush_queue-Flushed ((bytes, n) ∷ queue) dropped sender sent small =
      elim (SendResult-cases (send sender bytes).0) [
        | inl (outcome, e) ↦
            (let (tried, credited, whole, sent_all, counted, empty) =
                flush_queue-Flushed queue dropped (send sender bytes).1 (sent ++ bytes ∷ [])
                  small in
              rw (flush_queue, e)
                ((
                  (bytes, n) ∷ tried,
                  credited,
                  ap (λ q. (bytes, n) ∷ q) whole,
                  sent_all ∙ append_assoc sent (bytes ∷ []) (bytes_of tried),
                  counted,
                  empty,
                )))
        | inr (inl (err, e)) ↦
            rw (flush_queue, e)
              (flush_stopped bytes n queue dropped (send sender bytes).1 sent small)
        | inr (inr e) ↦
            rw (flush_queue, e)
              (flush_stopped bytes n queue dropped (send sender bytes).1 sent small)
      ]

module _ {S : Type 0} where
  flush_queue-empty :
      (send : S → List ℕ → SendResult × S) (queue : List Batch) (dropped : ℕ) (sender : S)
      → (flush_queue send queue dropped sender).0 ≡ []
  unfolding flush_queue account_drops_and_clear
  flush_queue-empty send [] dropped sender = refl
  flush_queue-empty send ((bytes, n) ∷ queue) dropped sender =
      elim (SendResult-cases (send sender bytes).0) [
        | inl (outcome, e) ↦
            rw (flush_queue, e) (flush_queue-empty send queue dropped (send sender bytes).1)
        | inr (inl (err, e)) ↦ rw (flush_queue, e) refl
        | inr (inr e) ↦ rw (flush_queue, e) refl
      ]

  -- The zones and what is reported of them.
  abbrev pub zones_of :
      DrainState S → Option LogsZone × Option (List WorkerSignalRing) × ℕ × ℕ × ℕ × ℕ
  zones_of st = (
    st.logs_zone, st.spans_zone, st.access_logs_dropped, st.error_logs_dropped,
    st.error_logs_coalesced_orphaned, st.traces_dropped_records,
  )

  abbrev pub queues_of : DrainState S → List Batch × List Batch × List Batch
  queues_of st = (st.metrics, st.logs, st.spans)

  drain_metrics_frame :
      (transport : Transport S) (cfg : DrainConfig) (collected : MetricsBatch)
      (processor : Processor) (st : DrainState S)
      → let after = drain_metrics transport cfg collected processor st in
        (zones_of after ≡ zones_of st)
        × (queues_of after ≡ (if cfg.metrics_enabled then [] else st.metrics, st.logs, st.spans))
  unfolding drain_metrics
  drain_metrics_frame transport cfg collected processor st = elim (Bool-cases cfg.metrics_enabled) [
    | inl e ↦
        rw
          (
            drain_metrics,
            e,
            flush_queue-empty (transport.send metrics_signal) st.metrics st.dropped_records
                st.sender,
          )
          ((refl, refl))
    | inr e ↦ rw (drain_metrics, e) ((refl, refl))
  ]

  drain_logs_queue_frame :
      (transport : Transport S) (st : DrainState S)
      → let after = drain_logs_queue transport st in
        (zones_of after ≡ zones_of st) × (queues_of after ≡ (st.metrics, [], st.spans))
  unfolding drain_logs_queue
  drain_logs_queue_frame transport st = (
    refl,
    ap (λ q. (st.metrics, q, st.spans))
        (flush_queue-empty (transport.send logs_signal) st.logs st.dropped_records st.sender),
  )

  drain_spans_queue_frame :
      (transport : Transport S) (st : DrainState S)
      → let after = drain_spans_queue transport st in
        (zones_of after ≡ zones_of st) × (queues_of after ≡ (st.metrics, st.logs, []))
  unfolding drain_spans_queue
  drain_spans_queue_frame transport st = (
    refl,
    ap (λ q. (st.metrics, st.logs, q))
        (flush_queue-empty (transport.send traces_signal) st.spans st.dropped_records st.sender),
  )

  -- When a successor is announced, then with any configuration, sender and processor the drain leaves
  -- both zones and the counters reported of them as they were, and it leaves the logs and spans queues
  -- empty, and the metrics queue too if metrics are enabled.
  pub graceful_drain_abdicates :
      (transport : Transport S) (cfg : DrainConfig) (control : Option ControlShm) (my_gen : ℕ)
      (collected : MetricsBatch) (processor : Processor) (st : DrainState S)
      → successor_announced control my_gen ≡ true
      → let after = graceful_drain transport cfg control my_gen collected processor st in
        (zones_of after ≡ zones_of st)
        × (queues_of after ≡ (if cfg.metrics_enabled then [] else st.metrics, [], []))
  unfolding graceful_drain drain_logs_zone drain_spans_zone
  graceful_drain_abdicates transport cfg control my_gen collected processor st announced =
      let st1 = drain_metrics transport cfg collected processor st in
      let st2 = drain_logs_queue transport st1 in
      let frame1 = drain_metrics_frame transport cfg collected processor st in
      let frame2 = drain_logs_queue_frame transport st1 in
      let frame3 = drain_spans_queue_frame transport st2 in
      let metrics1 : st1.metrics ≡ (if cfg.metrics_enabled then [] else st.metrics) =
        ap (λ q. q.0) frame1.1 in
      let metrics2 : st2.metrics ≡ st1.metrics = ap (λ q. q.0) frame2.1 in
      let logs2 : st2.logs ≡ [] = ap (λ q. q.1) frame2.1 in
      rw (announced) (
        (
          frame3.0 ∙ frame2.0 ∙ frame1.0,
          frame3.1 ∙ ap₂ (λ m l. (m, l, [])) (metrics2 ∙ metrics1) logs2,
        ))
