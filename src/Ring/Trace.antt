-- ===== src/Ring/Trace.antt =====
-- Sequences of calls on a ring of logs/ring.rs against a queue of records bounded in bytes.
use ngx_otel_rust.Base.{
  ℕ, ◌+◌, ◌%◌, ◌^◌, ◌≤◌, ◌<◌, ◌≡◌, refl, ap, ap₂, ◌∙◌, inl, inr, Bool, true, false, List, [], ◌∷◌,
  ◌++◌, arith, ltb, ltb→lt, if◌then◌else◌, Bool-cases, length,
}
use ngx_otel_rust.Ring.{WorkerSignalRing, push, pop_into}
use ngx_otel_rust.Ring.Queue.{
  Holds, queue_bytes, pushed, push_room, pushed-Holds, push_drops, dropped-Holds,
}
use ngx_otel_rust.Ring.Pop.{pop_first, pop_nothing}

-- A call of the producer or of the consumer.
pub data Call : Type 0 where
  produce : List ℕ → Call
  consume : Call

-- The Boolean that the call returns, and the bytes that a pop delivers.
abbrev pub Reply : Type 0
Reply = Bool × List ℕ

unfoldable pub run : WorkerSignalRing → List Call → List Reply
run r [] = []
run r (produce x ∷ calls) = let (ok, r') = push r x in (ok, []) ∷ run r' calls
run r (consume ∷ calls) = let (ok, out, r') = pop_into r [] in (ok, out) ∷ run r' calls

-- The same calls on a queue that holds at most `cap` bytes, four of them for each record's length.
unfoldable pub queue_run : ℕ → List (List ℕ) → List Call → List Reply
queue_run cap q [] = []
queue_run cap q (produce x ∷ calls) =
    let full = queue_run cap q calls in
    let room = queue_run cap (q ++ (x ∷ [])) calls in
    if ltb cap (queue_bytes q + (4 + length x)) then (false, []) ∷ full else (true, []) ∷ room
queue_run cap [] (consume ∷ calls) = (false, []) ∷ queue_run cap [] calls
queue_run cap (x ∷ q) (consume ∷ calls) = (true, x) ∷ queue_run cap q calls

-- The bytes that the calls could add to the write offset.
abbrev pub offered : List Call → ℕ
offered [] = 0
offered (produce x ∷ calls) = 4 + length x + offered calls
offered (consume ∷ calls) = offered calls

-- A pop never moves the write offset and never changes the capacity.
pop_into_frame :
    (r : WorkerSignalRing) (out : List ℕ)
    → ((pop_into r out).2.write_offset ≡ r.write_offset) × ((pop_into r out).2.cap ≡ r.cap)
unfolding pop_into
pop_into_frame r out = ground arith

-- No sequence of calls tells a ring that holds `q` from the queue `q` of at most `cap` bytes, as
-- long as the offsets stay below 2^64.
pub run_refines :
    (calls : List Call) (r : WorkerSignalRing) (q : List (List ℕ))
    → Holds r q
    → r.write_offset + offered calls < 2 ^ 64
    → run r calls ≡ queue_run r.cap q calls
unfolding run queue_run
run_refines [] r q v w = refl
run_refines (produce x ∷ calls) r q v w =
    elim (Bool-cases (ltb r.cap (queue_bytes q + (4 + length x)))) [
      | inl full ↦
          rw (full, push_drops r q x v (ltb→lt _ _ full))
            (ap (λ t. (false, []) ∷ t)
              (run_refines calls (record r { dropped = (r.dropped + 1) % 2 ^ 64 }) q
                (dropped-Holds r q _ v) (omega arith)))
      | inr fits ↦
          let room : queue_bytes q + (4 + length x) ≤ r.cap = ground arith in
          rw (fits, push_room r q x v room (omega arith))
            (ap (λ t. (true, []) ∷ t)
              (run_refines calls (pushed r x) (q ++ (x ∷ []))
                (pushed-Holds r q x v room (omega arith)) (omega arith)))
    ]
run_refines (consume ∷ calls) r [] v w =
    rw (pop_nothing r [] v) (ap (λ t. (false, []) ∷ t) (run_refines calls r [] v w))
run_refines (consume ∷ calls) r (x ∷ q) v w =
    let (ok, out, rest) = pop_first r x q [] v in
    let (same, cap) = pop_into_frame r [] in
    ap₂ ◌∷◌ (cc (ok, out)) (
      run_refines calls (pop_into r []).2 q rest (omega (arith, same))
      ∙ ap (λ c. queue_run c q calls) cap)
