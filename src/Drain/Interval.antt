-- ===== src/Drain/Interval.antt =====
-- drain/mod.rs: the chunked sleep of one export interval comes to its end.
use ngx_otel_rust.Base.{
  ℕ, zero, suc, ◌+◌, ◌-◌, ◌≤◌, ◌<◌, ◌≡◌, refl, ap, inl, inr, false, Bool-cases, ltb, min, arith,
}
use ngx_otel_rust.Drain.Graceful.{Transport}
use ngx_otel_rust.Drain.Lanes.{World, TickState}
use ngx_otel_rust.Drain.Tick.{
  ShutdownKind, no_shutdown, exiting, terminate, TickConfig, shutdown_poll_interval, sub_interval,
  sleep_loop,
}

-- Without a shutdown the whole interval was slept, and never more.
abbrev pub Slept : {S : Type 0} → ℕ → ShutdownKind × ℕ × TickState S → Type 0
Slept interval (no_shutdown, slept, st) = slept ≡ interval
Slept interval (exiting, slept, st) = slept ≤ interval
Slept interval (terminate, slept, st) = slept ≤ interval

module _ {S : Type 0} (world : World S) (transport : Transport S) (cfg : TickConfig) where
  chunk_of : ℕ → ℕ
  chunk_of slept = min (cfg.interval - slept) shutdown_poll_interval

  chunk_lem :
      (slept : ℕ)
      → slept < cfg.interval
      → (0 < chunk_of slept) × (slept + chunk_of slept ≤ cfg.interval)
  unfolding chunk_of
  chunk_lem slept left = (ground (arith, left), ground (arith, left))

  carried :
      (kind : ShutdownKind) (slept : ℕ) (st : TickState S) (rest : ShutdownKind × ℕ × TickState S)
      → slept ≤ cfg.interval
      → Slept cfg.interval rest
      → Slept cfg.interval (elim kind as (λ _. ShutdownKind × ℕ × TickState S) [
        | no_shutdown ↦ rest
        | exiting ↦ (exiting, slept, st)
        | terminate ↦ (terminate, slept, st)
      ])
  carried no_shutdown slept st rest within h = h
  carried exiting slept st rest within h = within
  carried terminate slept st rest within h = within

  sleep_loop-Slept :
      (fuel slept : ℕ) (st : TickState S)
      → slept ≤ cfg.interval
      → cfg.interval ≤ fuel + slept
      → Slept cfg.interval (sleep_loop world transport cfg fuel slept st)
  unfolding sleep_loop chunk_of
  sleep_loop-Slept zero slept st within enough = omega (arith, within, enough)
  sleep_loop-Slept (suc fuel) slept st within enough = elim (Bool-cases (ltb slept cfg.interval)) [
    | inl e ↦
        (let left : slept < cfg.interval = ground (arith, e) in
          let (some_sleep, room) = chunk_lem slept left in
          let (kind, after) = sub_interval world transport cfg (chunk_of slept) st in
          rw e (
            carried kind (slept + chunk_of slept) after _ room (
              sleep_loop-Slept fuel (slept + chunk_of slept) after room
                (omega (arith, enough, some_sleep)))))
    | inr e ↦ (let over : slept ≡ cfg.interval = ground (arith, e, within) in rw e over)
  ]

  -- Two amounts of fuel that suffice give the same.
  sleep_loop-fuel :
      (f g slept : ℕ) (st : TickState S)
      → slept ≤ cfg.interval
      → cfg.interval ≤ f + slept
      → cfg.interval ≤ g + slept
      → sleep_loop world transport cfg f slept st ≡ sleep_loop world transport cfg g slept st
  unfolding sleep_loop chunk_of
  sleep_loop-fuel zero zero slept st within enough enough' = refl
  sleep_loop-fuel zero (suc g) slept st within enough enough' =
      let over : ltb slept cfg.interval ≡ false = ground (arith, enough) in rw over refl
  sleep_loop-fuel (suc f) zero slept st within enough enough' =
      let over : ltb slept cfg.interval ≡ false = ground (arith, enough') in rw over refl
  sleep_loop-fuel (suc f) (suc g) slept st within enough enough' =
      elim (Bool-cases (ltb slept cfg.interval)) [
        | inl e ↦
            (let left : slept < cfg.interval = ground (arith, e) in
              let (some_sleep, room) = chunk_lem slept left in
              let (kind, after) = sub_interval world transport cfg (chunk_of slept) st in
              rw e (
                ap
                  (λ (rest : ShutdownKind × ℕ × TickState S).
                    (elim kind as (λ _. ShutdownKind × ℕ × TickState S) [
                      | no_shutdown ↦ rest
                      | exiting ↦ (exiting, slept + chunk_of slept, after)
                      | terminate ↦ (terminate, slept + chunk_of slept, after)
                    ]))
                  (sleep_loop-fuel f g (slept + chunk_of slept) after room
                    (omega (arith, enough, some_sleep)) (omega (arith, enough', some_sleep)))))
        | inr e ↦ rw e refl
      ]

  -- The chunked sleep of an interval comes to its end by itself: it sleeps the whole interval, or no
  -- more than it when a signal ends it, and any amount of fuel from the interval's milliseconds on
  -- gives the same result.
  pub sleep_loop_ends :
      (fuel : ℕ) (st : TickState S)
      → cfg.interval ≤ fuel
      → Slept cfg.interval (sleep_loop world transport cfg fuel 0 st)
        × (sleep_loop world transport cfg fuel 0 st
            ≡ sleep_loop world transport cfg cfg.interval 0 st)
  sleep_loop_ends fuel st enough = (
    sleep_loop-Slept fuel 0 st (omega arith) (omega (arith, enough)),
    sleep_loop-fuel fuel cfg.interval 0 st (omega arith) (omega (arith, enough)) (omega arith),
  )
