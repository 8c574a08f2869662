-- ===== src/Ring/Spsc/Order.antt =====
-- logs/ring.rs: whatever the interleaving, records are delivered whole, once and in order.
use ngx_otel_rust.Base.{
  ℕ, ◌^◌, ◌≤◌, ◌<◌, ◌≡◌, refl, Option, none, some, List, [], ◌∷◌, ◌++◌, arith, length,
}
use ngx_otel_rust.Ring.Wrap.{window}
use ngx_otel_rust.Ring.Queue.{queue_bytes}
use ngx_otel_rust.Ring.Spsc.{System, noted, produce, consume, start_of, Reach, start, later}
use ngx_otel_rust.Ring.Spsc.Invariant.{Inv}
use ngx_otel_rust.Ring.Spsc.Produce.{Produces-Inv}
use ngx_otel_rust.Ring.Spsc.Consume.{queue_bytes_split, Consumes-Inv}

abbrev pub SystemInv : System → Type 0
SystemInv s = Inv s.ring s.producer s.consumer s.accepted s.delivered

start-Inv :
    (payload : List ℕ) → 0 < length payload → length payload < 2 ^ 32 → SystemInv (start_of payload)
unfolding window
start-Inv payload some_room small = record {
  pending = [];
  holds = record {
    payload_size = refl;
    cap_pos = some_room;
    cap_u32 = small;
    offsets = refl;
    fits = omega arith;
    no_wrap = omega arith;
    stored = refl;
  };
  total = refl;
  history = refl;
  producing = tt;
  consuming = tt;
}

noted_grows :
    (log : List (List ℕ)) (done : Option (List ℕ)) → queue_bytes log ≤ queue_bytes (noted log done)
noted_grows log none = omega arith
noted_grows log (some x) = omega (arith, queue_bytes_split log (x ∷ []))

pub Reach-Inv :
    {payload : List ℕ} {s : System}
    → 0 < length payload
    → length payload < 2 ^ 32
    → queue_bytes s.accepted < 2 ^ 64
    → Reach payload s
    → SystemInv s
Reach-Inv {payload} some_room small fits start = start-Inv payload some_room small
Reach-Inv some_room small fits (later {s} before (produce {done} move)) =
    let inv = Reach-Inv some_room small (omega (arith, fits, noted_grows s.accepted done)) before in
    Produces-Inv s.consumer s.accepted s.delivered move fits inv
Reach-Inv some_room small fits (later {s} before (consume move)) =
    Consumes-Inv s.producer s.accepted s.delivered move (Reach-Inv some_room small fits before)

-- However the accesses of a producer and a consumer interleave, from an empty ring whose payload
-- has from 1 to 2 ^ 32 - 1 bytes, and while less than 2 ^ 64 bytes were pushed: the records that
-- were popped are the oldest of those that were pushed with success, whole and in their order, and
-- the others with their lengths fit into the payload.
pub delivered_in_order :
    {payload : List ℕ} {s : System}
    → 0 < length payload
    → length payload < 2 ^ 32
    → queue_bytes s.accepted < 2 ^ 64
    → Reach payload s
    → (pending : List (List ℕ)) × (s.accepted ≡ s.delivered ++ pending)
      × (queue_bytes pending ≤ s.ring.cap)
delivered_in_order some_room small fits reach =
    let inv = Reach-Inv some_room small fits reach in (inv.pending, inv.history, inv.holds.fits)
