-- ===== src/Ring/Spsc/Alone.antt =====
-- logs/ring.rs: the accesses of one side, with no access of the other between them, are one call.
use ngx_otel_rust.Base.{
  ℕ, ◌+◌, ◌%◌, ◌^◌, ◌≤◌, ◌<◌, ◌≡◌, sym, ap, ◌∙◌, inl, inr, Bool, true, false, Bool-cases, Option,
  none, some, List, [], ◌∷◌, ◌++◌, arith, ltb, if◌then◌else◌, length, set,
}
use mathlib.Core.Path.{subst}
use ngx_otel_rust.Base.Bytes.{be_bytes, length-be_bytes, from_be}
use ngx_otel_rust.Ring.{WorkerSignalRing, wrapping_sub, read_wrap, write_wrap, push, pop_into}
use ngx_otel_rust.Ring.Wrap.{put, put-append, write_wrap-put}
use ngx_otel_rust.Ring.Spsc.{
  Producer, ready, writing, Consumer, waiting, load_offsets, drop_record, has_room, write_byte,
  publish, load_write_offset, too_short, read_length, torn, read_record, release, System, noted,
  produce, consume, Steps, still, onward,
}

-- The producer writes what is left of the frame.
write_all :
    (s t : System) (x : List ℕ) (w at : ℕ) (rest : List ℕ)
    → Steps s (record t { producer = writing x w at rest })
    → (end : ℕ) × Steps s (record t {
      ring = record t.ring { payload = put t.ring.payload t.ring.cap at rest };
      producer = writing x w end [];
    })
unfolding put
write_all s t x w at [] steps = (at, steps)
write_all s t x w at (b ∷ rest) steps =
    write_all s
      (record t { ring = record t.ring { payload = set t.ring.payload (at % t.ring.cap) b } }) x w
      (at + 1) rest (onward steps (produce write_byte))

-- The two copies of `push` write the length and the record.
copies_lem :
    (r : WorkerSignalRing) (x : List ℕ)
    → 0 < r.cap
    → 4 + length x ≤ r.cap
    → put r.payload r.cap r.write_offset (be_bytes 4 (length x % 2 ^ 32) ++ x)
      ≡ write_wrap
          (write_wrap r.payload r.cap r.write_offset (be_bytes 4 (length x % 2 ^ 32)))
          r.cap
          (r.write_offset + 4)
          x
copies_lem r x some_room fits =
    let len = be_bytes 4 (length x % 2 ^ 32) in
    let four = length-be_bytes 4 (length x % 2 ^ 32) in
    put-append r.payload r.cap r.write_offset len x
    ∙ ap (λ k. put (put r.payload r.cap r.write_offset len) r.cap (r.write_offset + k) x) four
    ∙ sym (write_wrap-put _ r.cap (r.write_offset + 4) x some_room (omega (arith, fits)))
    ∙ ap (λ p. write_wrap p r.cap (r.write_offset + 4) x)
        (sym
          (write_wrap-put r.payload r.cap r.write_offset len some_room (omega (arith, fits, four))))

-- The record that a call reports, when it answers `true`.
abbrev pub reported : Bool → List ℕ → Option (List ℕ)
reported ok x = if ok then some x else none

module _ (r : WorkerSignalRing) (acc del : List (List ℕ)) where
  -- The producer does nothing, and the consumer stands anywhere; and the other way round.
  abbrev pub quiet_producer : Consumer → System
  quiet_producer c = record {
    ring = r;
    producer = ready;
    consumer = c;
    accepted = acc;
    delivered = del;
  }

  abbrev pub quiet_consumer : Producer → System
  quiet_consumer p = record {
    ring = r;
    producer = p;
    consumer = waiting;
    accepted = acc;
    delivered = del;
  }

abbrev pub after_push :
    List ℕ → List (List ℕ) → List (List ℕ) → Consumer → Bool × WorkerSignalRing → System
after_push x acc del c (ok, r) = quiet_producer r (noted acc (reported ok x)) del c

abbrev pub after_pop :
    List (List ℕ) → List (List ℕ) → Producer → Bool × List ℕ × WorkerSignalRing → System
after_pop acc del p (ok, out, r) = quiet_consumer r acc (noted del (reported ok out)) p

push_tests :
    (r : WorkerSignalRing) (x : List ℕ)
    → 0 < r.cap
    → (ltb r.cap (wrapping_sub r.write_offset r.read_offset + (4 + length x)) ≡ true
        → push r x ≡ (false, record r { dropped = (r.dropped + 1) % 2 ^ 64 }))
      × (ltb r.cap (wrapping_sub r.write_offset r.read_offset + (4 + length x)) ≡ false
          → push r x ≡ (
            true,
            record r {
              write_offset = (r.write_offset + (4 + length x)) % 2 ^ 64;
              payload = put r.payload r.cap r.write_offset (be_bytes 4 (length x % 2 ^ 32) ++ x);
            },
          ))
unfolding push
push_tests r x some_room = (
  λ full. ground (arith, full, some_room),
  λ room.
      (let fits : 4 + length x ≤ r.cap = ground (arith, room) in
        ground (arith, room, some_room, copies_lem r x some_room fits)),
)

-- Wherever the consumer stands: the accesses of a producer at rest can follow each other to the
-- ring, and to the answer, of one call of `push`.
push_alone :
    (r : WorkerSignalRing) (x : List ℕ) (acc del : List (List ℕ)) (c : Consumer)
    → 0 < r.cap
    → Steps (quiet_producer r acc del c) (after_push x acc del c (push r x))
push_alone r x acc del c some_room =
    let s = quiet_producer r acc del c in
    let loaded = onward still (produce (load_offsets x)) in
    let goal : Bool × WorkerSignalRing → Type 0 = λ a. Steps s (after_push x acc del c a) in
    let tests = push_tests r x some_room in
    elim (Bool-cases (ltb r.cap (wrapping_sub r.write_offset r.read_offset + (4 + length x)))) [
      | inl full ↦ subst goal (sym (tests.0 full)) (onward loaded (produce (drop_record full)))
      | inr room ↦
          (let (end, written) =
              write_all s s x r.write_offset r.write_offset (be_bytes 4 (length x % 2 ^ 32) ++ x)
                (onward loaded (produce (has_room room))) in
            subst goal (sym (tests.1 room)) (onward written (produce publish)))
    ]

pop_tests :
    (r : WorkerSignalRing)
    → 0 < r.cap
    → let available = wrapping_sub r.write_offset r.read_offset in
      let n = from_be (read_wrap r.payload r.cap r.read_offset 4) in
      (ltb available 4 ≡ true → pop_into r [] ≡ (false, [], r))
      × (ltb available 4 ≡ false → ltb available (4 + n) ≡ true → pop_into r [] ≡ (false, [], r))
      × (ltb available 4 ≡ false
          → ltb available (4 + n) ≡ false
          → pop_into r [] ≡ (
            true,
            read_wrap r.payload r.cap (r.read_offset + 4) n,
            record r { read_offset = (r.read_offset + 4 + n) % 2 ^ 64 },
          ))
unfolding pop_into
pop_tests r some_room = (
  λ short. ground (arith, short, some_room),
  λ long. λ torn. ground (arith, long, torn, some_room),
  λ long. λ whole. ground (arith, long, whole, some_room),
)

-- Wherever the producer stands: the accesses of a consumer at rest can follow each other to the
-- ring, and to the answer, of one call of `pop_into`.
pub pop_alone :
    (r : WorkerSignalRing) (acc del : List (List ℕ)) (p : Producer)
    → 0 < r.cap
    → Steps (quiet_consumer r acc del p) (after_pop acc del p (pop_into r []))
pop_alone r acc del p some_room =
    let s = quiet_consumer r acc del p in
    let goal : Bool × List ℕ × WorkerSignalRing → Type 0 = λ a. Steps s (after_pop acc del p a) in
    let available = wrapping_sub r.write_offset r.read_offset in
    let tests = pop_tests r some_room in
    let loaded = onward still (consume load_write_offset) in
    elim (Bool-cases (ltb available 4)) [
      | inl short ↦ subst goal (sym (tests.0 short)) (onward loaded (consume (too_short short)))
      | inr long ↦
          (let read = onward loaded (consume (read_length long)) in
            elim (Bool-cases
              (ltb available (4 + from_be (read_wrap r.payload r.cap r.read_offset 4)))) [
                | inl part ↦
                    subst goal (sym (tests.1 long part)) (onward read (consume (torn part)))
                | inr whole ↦
                    subst goal (sym (tests.2 long whole))
                      (onward (onward read (consume (read_record whole))) (consume release))
              ])
    ]

-- With a positive capacity: wherever the consumer stands, the accesses of a producer at rest can
-- follow each other to the ring, and to the answer, of one call of `push`; and wherever the producer
-- stands, those of a consumer at rest to the ring, and to the answer, of one call of `pop_into`.
pub calls_alone :
    (r : WorkerSignalRing) (x : List ℕ) (acc del : List (List ℕ)) (c : Consumer) (p : Producer)
    → 0 < r.cap
    → Steps (quiet_producer r acc del c) (after_push x acc del c (push r x))
      × Steps (quiet_consumer r acc del p) (after_pop acc del p (pop_into r []))
calls_alone r x acc del c p some_room =
    (push_alone r x acc del c some_room, pop_alone r acc del p some_room)
