-- ===== src/Ring/Spsc/Runs.antt =====
-- logs/ring.rs: a pop between the accesses of a push.
use ngx_otel_rust.Base.{ℕ, ◌≤◌, ◌≡◌, refl, ap, List, [], ◌∷◌, ◌++◌, arith, replicate}
use ngx_otel_rust.Base.Bytes.{be_bytes, from_be}
use ngx_otel_rust.Ring.{WorkerSignalRing, push, pop_into, read_wrap}
use ngx_otel_rust.Ring.Queue.{queue_bytes}
use ngx_otel_rust.Ring.Spsc.{
  System, Steps, waiting, ready, empty_ring, Reach, start, later, produce, consume, load_offsets,
  has_room, write_byte, publish, load_write_offset, read_length, read_record, release,
}
use ngx_otel_rust.Ring.Spsc.Order.{delivered_in_order}
use ngx_otel_rust.Ring.Spsc.Live.{pending_is_delivered}
use ngx_otel_rust.Ring.Spsc.Alone.{
  quiet_producer, quiet_consumer, after_push, after_pop, calls_alone,
}

abbrev payload : List ℕ
payload = replicate 16 0

-- The record 7 is pushed; while 8 is being pushed, 7 is popped; 8 is published.
overlapping :
    (s : System) × Reach payload s
    × (s.accepted ≡ (7 ∷ []) ∷ (8 ∷ []) ∷ [])
    × (s.delivered ≡ (7 ∷ []) ∷ [])
unfolding be_bytes from_be read_wrap
overlapping =
    let loaded = later start (produce (load_offsets (7 ∷ []))) in
    let room = later loaded (produce (has_room refl)) in
    let two = later (later room (produce write_byte)) (produce write_byte) in
    let four = later (later two (produce write_byte)) (produce write_byte) in
    let first = later (later four (produce write_byte)) (produce publish) in
    let seen = later first (consume load_write_offset) in
    let again = later seen (produce (load_offsets (8 ∷ []))) in
    let sized = later (later again (produce (has_room refl))) (consume (read_length refl)) in
    let begun = later (later sized (produce write_byte)) (produce write_byte) in
    let copied = later (later begun (consume (read_record refl))) (produce write_byte) in
    let popped = later copied (consume release) in
    let written = later (later popped (produce write_byte)) (produce write_byte) in
    (_, later written (produce publish), refl, refl)

delivered_in_order_example :
    (pending : List (List ℕ)) × (overlapping.0.accepted ≡ overlapping.0.delivered ++ pending)
    × (queue_bytes pending ≤ overlapping.0.ring.cap)
delivered_in_order_example =
    delivered_in_order (omega arith) (omega arith) (omega (arith, ap queue_bytes overlapping.2))
      overlapping.1

calls_alone_example :
    Steps
      (quiet_producer (empty_ring payload) [] [] waiting)
      (after_push (7 ∷ []) [] [] waiting (push (empty_ring payload) (7 ∷ [])))
    × Steps
        (quiet_consumer (empty_ring payload) [] [] ready)
        (after_pop [] [] ready (pop_into (empty_ring payload) []))
calls_alone_example = calls_alone (empty_ring payload) (7 ∷ []) [] [] waiting ready (omega arith)

pending_is_delivered_example :
    (left : WorkerSignalRing) × Steps overlapping.0
      (quiet_consumer left overlapping.0.accepted overlapping.0.accepted overlapping.0.producer)
unfolding overlapping
pending_is_delivered_example =
    pending_is_delivered (omega arith) (omega arith) (omega (arith, ap queue_bytes overlapping.2))
      overlapping.1 refl
