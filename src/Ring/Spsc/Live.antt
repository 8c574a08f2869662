-- ===== src/Ring/Spsc/Live.antt =====
-- logs/ring.rs: the consumer does not wait for the producer.
use ngx_otel_rust.Base.{
  ℕ, ◌^◌, ◌<◌, ◌≡◌, refl, sym, Bool, true, List, [], ◌∷◌, ◌++◌, length, append-nil, append_assoc,
}
use mathlib.Core.Path.{subst}
use ngx_otel_rust.Ring.{WorkerSignalRing, pop_into}
use ngx_otel_rust.Ring.Queue.{queue_bytes, Holds}
use ngx_otel_rust.Ring.Pop.{pop_first}
use ngx_otel_rust.Ring.Spsc.{Producer, waiting, System, Steps, still, onward, Reach}
use ngx_otel_rust.Ring.Spsc.Order.{Reach-Inv}
use ngx_otel_rust.Ring.Spsc.Alone.{quiet_consumer, after_pop, pop_alone}

append_steps : {s t u : System} → Steps s t → Steps t u → Steps s u
append_steps first still = first
append_steps first (onward rest move) = onward (append_steps first rest) move

-- What a pop that answers `true` leaves.
taken :
    (acc del : List (List ℕ)) (p : Producer) (answer : Bool × List ℕ × WorkerSignalRing)
    (x : List ℕ)
    → answer.0 ≡ true
    → answer.1 ≡ x
    → after_pop acc del p answer ≡ quiet_consumer answer.2 acc (del ++ (x ∷ [])) p
taken acc del p (ok, out, r) x answered read = rw (answered, read) refl

pop_all :
    (q : List (List ℕ)) (r : WorkerSignalRing) (acc del : List (List ℕ)) (p : Producer)
    → Holds r q
    → (left : WorkerSignalRing) × Steps
        (quiet_consumer r acc del p)
        (quiet_consumer left acc (del ++ q) p)
pop_all [] r acc del p h = (r, rw (append-nil del) still)
pop_all (x ∷ q) r acc del p h =
    let (answered, read, holds) = pop_first r x q [] h in
    let one =
      subst (Steps (quiet_consumer r acc del p)) (taken acc del p (pop_into r []) x answered read)
        (pop_alone r acc del p h.cap_pos) in
    let (left, rest) = pop_all q (pop_into r []).2 acc (del ++ (x ∷ [])) p holds in
    (
      left,
      append_steps one (
          subst
            (λ d.
              Steps (quiet_consumer (pop_into r []).2 acc (del ++ (x ∷ [])) p)
                (quiet_consumer left acc d p))
            (append_assoc del (x ∷ []) q) rest),
    )

-- From every state that an empty ring of 1 to 2 ^ 32 - 1 payload bytes reaches with less than 2 ^ 64
-- bytes pushed and the consumer at rest, there are accesses after which every record that was pushed
-- with success is delivered, while the producer stands where it stood, be it within a push, and no
-- other record was pushed.
pub pending_is_delivered :
    {payload : List ℕ} {s : System}
    → 0 < length payload
    → length payload < 2 ^ 32
    → queue_bytes s.accepted < 2 ^ 64
    → Reach payload s
    → s.consumer ≡ waiting
    → (left : WorkerSignalRing) × Steps s (quiet_consumer left s.accepted s.accepted s.producer)
pending_is_delivered {s} some_room small fits reach at_rest =
    let inv = Reach-Inv some_room small fits reach in
    let (left, steps) = pop_all inv.pending s.ring s.accepted s.delivered s.producer inv.holds in
    let whole =
      subst
        (λ d.
          Steps (quiet_consumer s.ring s.accepted s.delivered s.producer)
            (quiet_consumer left s.accepted d s.producer))
        (sym inv.history) steps in
    (
      left,
      subst
          (λ c.
            Steps (record s { consumer = c })
              (quiet_consumer left s.accepted s.accepted s.producer))
          (sym at_rest) whole,
    )
