-- ===== src/Drain/Latch.antt =====
-- drain/mod.rs: one round of the chunked sleep in an exporter that has a successor.
use ngx_otel_rust.Base.{
  ℕ, ◌≡◌, refl, sym, inl, inr, ◌⊎◌, Bool, true, false, not, ◌&&◌, if◌then◌else◌, Bool-cases, arith,
}
use mathlib.Core.Path.{subst}
use ngx_otel_rust.Drain.Graceful.{Transport}
use ngx_otel_rust.Drain.Lanes.{World, TickState}
use ngx_otel_rust.Drain.Tick.{
  ShutdownKind, no_shutdown, exiting, terminate, TickConfig, abdicate, logs_retry, spans_retry,
  logs_fresh, spans_fresh, unless_shutdown, sub_interval,
}
use ngx_otel_rust.Policy.{is_deferred}
use ngx_otel_rust.Exporter.{successor_announced}

-- The zones of the rings are those of before.
pub record SameZones {S : Type 0} (before after : TickState S) : Type 0 where
  pub logs : after.logs_zone ≡ before.logs_zone
  pub spans : after.spans_zone ≡ before.spans_zone

-- And the exporter has given them up.
pub record Latched {S : Type 0} (before after : TickState S) : Type 0 where
  pub latch : after.periodic_abdicated ≡ true
  pub zones : SameZones before after

-- A round that goes on has the latch, one that ends has popped nothing.
abbrev pub Ended : {S : Type 0} → TickState S → ShutdownKind × TickState S → Type 0
Ended s (no_shutdown, st) = Latched s st
Ended s (exiting, st) = SameZones s st
Ended s (terminate, st) = SameZones s st

skipped :
    {A : Type 0}
    → (latch rest : Bool) (x y : A) → latch ≡ true
    → (if not latch && rest then x else y) ≡ y
skipped true rest x y latched = refl
skipped false rest x y latched = absurd (ground (arith, latched))

module _ {S : Type 0} (world : World S) (transport : Transport S) (cfg : TickConfig) where
  -- The latch is set, or the successor shows in the control zone after the next sleep.
  abbrev pub HasSuccessor : TickState S → Type 0
  HasSuccessor st =
      (st.periodic_abdicated ≡ true)
      ⊎ ((chunk : ℕ)
          → successor_announced (world.control (world.sleep chunk st.sender)) cfg.my_gen ≡ true)

  logs_retry-Latched :
      (s st : TickState S) (deferred : Bool)
      → Latched s st
      → Latched s (logs_retry world transport cfg deferred st)
  unfolding logs_retry
  logs_retry-Latched s st true h = h
  logs_retry-Latched s st false h = record {
    latch = h.latch;
    zones = record { logs = h.zones.logs; spans = h.zones.spans };
  }

  spans_retry-Latched :
      (s st : TickState S) (deferred : Bool)
      → Latched s st
      → Latched s (spans_retry world transport cfg deferred st)
  unfolding spans_retry
  spans_retry-Latched s st true h = h
  spans_retry-Latched s st false h = record {
    latch = h.latch;
    zones = record { logs = h.zones.logs; spans = h.zones.spans };
  }

  logs_fresh-Latched :
      (s st : TickState S) (deferred : Bool)
      → Latched s st
      → Latched s (logs_fresh world transport cfg deferred st)
  unfolding logs_fresh
  logs_fresh-Latched s st deferred h =
      subst (Latched s) (sym (skipped st.periodic_abdicated _ _ st h.latch)) h

  spans_fresh-Latched :
      (s st : TickState S) (deferred : Bool)
      → Latched s st
      → Latched s (spans_fresh world transport cfg deferred st)
  unfolding spans_fresh
  spans_fresh-Latched s st deferred h =
      subst (Latched s) (sym (skipped st.periodic_abdicated _ _ st h.latch)) h

  unless_shutdown-Ended :
      (s st : TickState S) (next : ShutdownKind × TickState S)
      → SameZones s st
      → Ended s next
      → Ended s (unless_shutdown world transport cfg st next)
  unfolding unless_shutdown
  unless_shutdown-Ended s st next h k = elim (Bool-cases (world.terminate st.sender)) [
    | inl e ↦ rw e h
    | inr e ↦ elim (Bool-cases (world.quit st.sender)) [ inl q ↦ rw (e, q) h | inr q ↦ rw (e, q) k ]
  ]

  -- The latch is set before the first pop.
  abdicate-Latched :
      (st : TickState S) (chunk : ℕ)
      → HasSuccessor st
      → Latched st
          (abdicate world transport cfg (record st { sender = world.sleep chunk st.sender }))
  unfolding abdicate
  abdicate-Latched st chunk (inl latched) =
      subst (Latched st) (sym (skipped st.periodic_abdicated _ _ _ latched))
        (record { latch = latched; zones = record { logs = refl; spans = refl } })
  abdicate-Latched st chunk (inr announced) =
      announced_is_set st.periodic_abdicated
        (successor_announced (world.control (world.sleep chunk st.sender)) cfg.my_gen) refl
        (announced chunk)
    where
      slept : TickState S
      slept = record st { sender = world.sleep chunk st.sender }

      announced_is_set :
          (latch shown : Bool)
          → st.periodic_abdicated ≡ latch
          → shown ≡ true
          → Latched st
              (if not latch && shown then record slept { periodic_abdicated = true } else slept)
      announced_is_set true shown e shows = record {
        latch = e;
        zones = record { logs = refl; spans = refl };
      }
      announced_is_set false true e shows = record {
        latch = refl;
        zones = record { logs = refl; spans = refl };
      }
      announced_is_set false false e shows = absurd (ground (arith, shows))

  pub sub_interval-Ended :
      (st : TickState S) (chunk : ℕ)
      → HasSuccessor st
      → Ended st (sub_interval world transport cfg chunk st)
  unfolding sub_interval
  sub_interval-Ended st chunk has =
      let slept = record st { sender = world.sleep chunk st.sender } in
      let h1 = abdicate-Latched st chunk has in
      let st1 = abdicate world transport cfg slept in
      let now = world.now_msec st1.sender in
      let logs_deferred = is_deferred st1.logs.backoff now in
      let h2 = logs_retry-Latched st st1 logs_deferred h1 in
      let st2 = logs_retry world transport cfg logs_deferred st1 in
      let h3 = logs_fresh-Latched st st2 logs_deferred h2 in
      let st3 = logs_fresh world transport cfg logs_deferred st2 in
      let spans_deferred = is_deferred st3.spans.backoff now in
      let h4 = spans_retry-Latched st st3 spans_deferred h3 in
      let st4 = spans_retry world transport cfg spans_deferred st3 in
      let h5 = spans_fresh-Latched st st4 spans_deferred h4 in
      unless_shutdown-Ended st slept _ (record { logs = refl; spans = refl })
        (unless_shutdown-Ended st st2 _ h2.zones
          (unless_shutdown-Ended st st3 _ h3.zones (unless_shutdown-Ended st st4 _ h4.zones h5)))
