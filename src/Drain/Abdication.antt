-- ===== src/Drain/Abdication.antt =====
-- drain/mod.rs: an exporter that has a successor pops no ring in its periodic ticks.
use ngx_otel_rust.Base.{
  ℕ, zero, suc, ◌+◌, ◌*◌, ◌%◌, ◌^◌, leb, ◌-◌, ◌≡◌, refl, ◌∙◌, inl, inr, ◌⊎◌, Bool, Option, none,
  some, ltb, not, ◌&&◌, ◌||◌, Bool-cases, min,
}
use ngx_otel_rust.Drain.Graceful.{Transport}
use ngx_otel_rust.Drain.Lanes.{World, TickState}
use ngx_otel_rust.Drain.Tick.{
  ShutdownKind, no_shutdown, exiting, terminate, TickConfig, shutdown_poll_interval, sub_interval,
  sleep_loop, heartbeat, healthy_reset, metrics_retry, metrics_fresh, finish_interval, end_interval,
  periodic_tick,
}
use ngx_otel_rust.Policy.{is_deferred}
use ngx_otel_rust.Exporter.{crash_window_secs, ControlShm}
use ngx_otel_rust.Drain.Latch.{SameZones, Ended, HasSuccessor, sub_interval-Ended}

module _ {S : Type 0} (world : World S) (transport : Transport S) (cfg : TickConfig) where
  sleep_loop-SameZones :
      (fuel slept : ℕ) (s st : TickState S)
      → SameZones s st
      → HasSuccessor world transport cfg st
      → SameZones s (sleep_loop world transport cfg fuel slept st).2
  unfolding sleep_loop
  sleep_loop-SameZones zero slept s st h has = h
  sleep_loop-SameZones (suc fuel) slept s st h has = elim (Bool-cases (ltb slept cfg.interval)) [
    | inl e ↦ rw e (
        ended (λ after. λ k. λ left. sleep_loop-SameZones fuel (slept + chunk) s after k left)
          (sub_interval world transport cfg chunk st)
          (sub_interval-Ended world transport cfg st chunk has))
    | inr e ↦ rw e h
  ]
    where
      chunk : ℕ
      chunk = min (cfg.interval - slept) shutdown_poll_interval

      later : (after : TickState S) → SameZones st after → SameZones s after
      later after k = record { logs = k.logs ∙ h.logs; spans = k.spans ∙ h.spans }

      ended :
          ((after : TickState S)
            → SameZones s after
            → HasSuccessor world transport cfg after
            → SameZones s (sleep_loop world transport cfg fuel (slept + chunk) after).2)
          → (round : ShutdownKind × TickState S) → Ended st round
          → SameZones s
              (elim round.0 as (λ _. ShutdownKind × ℕ × TickState S) [
                | no_shutdown ↦ sleep_loop world transport cfg fuel (slept + chunk) round.1
                | exiting ↦ (exiting, slept + chunk, round.1)
                | terminate ↦ (terminate, slept + chunk, round.1)
              ]).2
      ended next (no_shutdown, after) k = next after (later after k.zones) (inl k.latch)
      ended next (exiting, after) k = later after k
      ended next (terminate, after) k = later after k

  metrics-SameZones :
      (s st : TickState S) (deferred : Bool)
      → SameZones s st
      → SameZones s (metrics_retry world transport cfg deferred st)
        × SameZones s (metrics_fresh world transport cfg deferred st)
  unfolding metrics_retry metrics_fresh
  metrics-SameZones s st deferred h = (
    elim (Bool-cases (cfg.drain.metrics_enabled && not deferred)) [
      | inl e ↦ rw e (record { logs = h.logs; spans = h.spans })
      | inr e ↦ rw e h
    ],
    elim (Bool-cases (
        (world.quit st.sender || world.terminate st.sender)
        || not cfg.drain.metrics_enabled
        || deferred)) [ inl e ↦ rw e h | inr e ↦ rw e (record { logs = h.logs; spans = h.spans }) ],
  )

  heartbeat-SameZones :
      (s st : TickState S) → SameZones s st → SameZones s (heartbeat world transport cfg st)
  unfolding heartbeat
  heartbeat-SameZones s st h = beaten (world.control st.sender)
    where
      beaten :
          (control : Option ControlShm)
          → SameZones s (elim control as (λ _. TickState S) [
            | none ↦ st
            | some ctrl ↦ record st {
              sender =
                  world.set_control
                    (record ctrl { version = (ctrl.version + 1) % 2 ^ 64 })
                    st.sender;
            }
          ])
      beaten none = h
      beaten (some ctrl) = record { logs = h.logs; spans = h.spans }

  healthy_reset-SameZones :
      (s st : TickState S) → SameZones s st → SameZones s (healthy_reset world transport cfg st)
  unfolding healthy_reset
  healthy_reset-SameZones s st h =
      elim (Bool-cases (
        not st.crash_counter_reset
        && leb (crash_window_secs * 1000000000)
            (world.now_unix_nano st.sender - cfg.healthy_since_ns))) [
              | inl e ↦ rw e (record { logs = h.logs; spans = h.spans })
              | inr e ↦ rw e h
            ]

  finish_interval-SameZones :
      (s st : TickState S) → SameZones s st → SameZones s (finish_interval world transport cfg st)
  unfolding finish_interval
  finish_interval-SameZones s st h =
      let reset = healthy_reset world transport cfg (heartbeat world transport cfg st) in
      let kept =
        healthy_reset-SameZones s (heartbeat world transport cfg st) (heartbeat-SameZones s st h) in
      let deferred = is_deferred reset.metrics.backoff (world.now_msec reset.sender) in
      (metrics-SameZones s (metrics_retry world transport cfg deferred reset) deferred
        (metrics-SameZones s reset deferred kept).0).1

  -- The graceful drain is apart.
  abbrev pub PopsNothing : TickState S → ShutdownKind × TickState S → Type 0
  PopsNothing s round = (round.0 ≡ exiting) ⊎ SameZones s round.1

  end_interval-PopsNothing :
      (kind : ShutdownKind) (s st : TickState S)
      → SameZones s st
      → PopsNothing s (end_interval world transport cfg kind st)
  unfolding end_interval
  end_interval-PopsNothing terminate s st h = inr h
  end_interval-PopsNothing exiting s st h = elim (Bool-cases (world.terminate st.sender)) [
    | inl e ↦ rw e (inr h)
    | inr e ↦ rw e (inl refl)
  ]
  end_interval-PopsNothing no_shutdown s st h = elim (Bool-cases (world.terminate st.sender)) [
    | inl e ↦ rw e (inr h)
    | inr e ↦ elim (Bool-cases (world.quit st.sender)) [
      | inl q ↦ rw (e, q) (inl refl)
      | inr q ↦ rw (e, q) (inr (finish_interval-SameZones s st h))
    ]
  ]

  -- When the exporter has abdicated, or the control zone shows its successor after the next sleep, a
  -- whole export interval leaves the rings of logs and spans and the coalescing tables as they were,
  -- whatever the sends, the clocks and the signals do; unless it ends with a quit, where the graceful
  -- drain takes over.
  pub periodic_tick-PopsNothing :
      (st : TickState S)
      → HasSuccessor world transport cfg st
      → PopsNothing st (periodic_tick world transport cfg st)
  unfolding periodic_tick
  periodic_tick-PopsNothing st has =
      let (kind, slept, after) = sleep_loop world transport cfg cfg.interval 0 st in
      end_interval-PopsNothing kind st after
        (sleep_loop-SameZones cfg.interval 0 st st (record { logs = refl; spans = refl }) has)
