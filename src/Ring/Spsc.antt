-- ===== src/Ring/Spsc.antt =====
-- logs/ring.rs: `push` and `pop_into` at once, one access of the shared memory at a time.
-- The payload is written byte by byte; each offset is stored after the copy that it publishes.
pub mod Invariant
pub mod Produce
pub mod Consume
pub mod Order
pub mod Alone
pub mod Live
mod Runs
use ngx_otel_rust.Base.{
  ℕ, ◌+◌, ◌%◌, ◌^◌, ◌≡◌, true, false, Option, none, some, List, [], ◌∷◌, ◌++◌, ltb, length, set,
}
use ngx_otel_rust.Base.Bytes.{be_bytes, from_be}
use ngx_otel_rust.Ring.{WorkerSignalRing, wrapping_sub, read_wrap}

-- Where the producer stands in `push`, with the local variables that are live there.
pub data Producer : Type 0 where
  ready : Producer
  loaded : (x : List ℕ) (write_off read_off : ℕ) → Producer
  writing : (x : List ℕ) (write_off at : ℕ) (rest : List ℕ) → Producer

-- Where the consumer stands in `pop_into`.
pub data Consumer : Type 0 where
  waiting : Consumer
  seen : (write_off : ℕ) → Consumer
  sized : (write_off record_len : ℕ) → Consumer
  copied : (record_len : ℕ) (bytes : List ℕ) → Consumer

-- One access of the producer, with the record whose `push` it lets return true.
pub data Produces (r : WorkerSignalRing)
    : Producer → WorkerSignalRing → Producer → Option (List ℕ) → Type 0 where
  load_offsets : (x : List ℕ) → Produces r ready r (loaded x r.write_offset r.read_offset) none
  drop_record :
      {x : List ℕ} {w o : ℕ}
      → ltb r.cap (wrapping_sub w o + (4 + length x)) ≡ true
      → Produces r (loaded x w o) (record r { dropped = (r.dropped + 1) % 2 ^ 64 }) ready none
  has_room :
      {x : List ℕ} {w o : ℕ}
      → ltb r.cap (wrapping_sub w o + (4 + length x)) ≡ false
      → Produces r (loaded x w o) r (writing x w w (be_bytes 4 (length x % 2 ^ 32) ++ x)) none
  write_byte :
      {x rest : List ℕ} {w at b : ℕ}
      → Produces r
          (writing x w at (b ∷ rest))
          (record r { payload = set r.payload (at % r.cap) b })
          (writing x w (at + 1) rest)
          none
  publish :
      {x : List ℕ} {w at : ℕ}
      → Produces r
          (writing x w at [])
          (record r { write_offset = (w + (4 + length x)) % 2 ^ 64 })
          ready
          (some x)

-- One access of the consumer, with the record that it completes in the output. The read offset is
-- its own: only it stores there.
pub data Consumes (r : WorkerSignalRing)
    : Consumer → WorkerSignalRing → Consumer → Option (List ℕ) → Type 0 where
  load_write_offset : Consumes r waiting r (seen r.write_offset) none
  too_short :
      {w : ℕ} → ltb (wrapping_sub w r.read_offset) 4 ≡ true → Consumes r (seen w) r waiting none
  read_length :
      {w : ℕ}
      → ltb (wrapping_sub w r.read_offset) 4 ≡ false
      → Consumes r (seen w) r (sized w (from_be (read_wrap r.payload r.cap r.read_offset 4))) none
  torn :
      {w n : ℕ}
      → ltb (wrapping_sub w r.read_offset) (4 + n) ≡ true
      → Consumes r (sized w n) r waiting none
  read_record :
      {w n : ℕ}
      → ltb (wrapping_sub w r.read_offset) (4 + n) ≡ false
      → Consumes r (sized w n) r (copied n (read_wrap r.payload r.cap (r.read_offset + 4) n)) none
  release :
      {n : ℕ} {bytes : List ℕ}
      → Consumes r
          (copied n bytes)
          (record r { read_offset = (r.read_offset + 4 + n) % 2 ^ 64 })
          waiting
          (some bytes)

-- The ring, both sides, and what they have done: the records that were pushed with success, and
-- the records that were popped, oldest first.
pub record System : Type 0 where
  pub ring : WorkerSignalRing
  pub producer : Producer
  pub consumer : Consumer
  pub accepted : List (List ℕ)
  pub delivered : List (List ℕ)

abbrev pub noted : List (List ℕ) → Option (List ℕ) → List (List ℕ)
noted log none = log
noted log (some x) = log ++ (x ∷ [])

pub data Step (s : System) : System → Type 0 where
  produce :
      {r : WorkerSignalRing} {p : Producer} {done : Option (List ℕ)}
      → Produces s.ring s.producer r p done
      → Step s (record s { ring = r; producer = p; accepted = noted s.accepted done })
  consume :
      {r : WorkerSignalRing} {c : Consumer} {done : Option (List ℕ)}
      → Consumes s.ring s.consumer r c done
      → Step s (record s { ring = r; consumer = c; delivered = noted s.delivered done })

-- A zeroed header over a payload.
abbrev pub empty_ring : List ℕ → WorkerSignalRing
empty_ring payload = record {
  write_offset = 0;
  read_offset = 0;
  dropped = 0;
  cap = length payload;
  payload = payload;
}

abbrev pub start_of : List ℕ → System
start_of payload = record {
  ring = empty_ring payload;
  producer = ready;
  consumer = waiting;
  accepted = [];
  delivered = [];
}

pub data Reach (payload : List ℕ) : System → Type 0 where
  start : Reach payload (start_of payload)
  later : {s t : System} → Reach payload s → Step s t → Reach payload t

-- Some steps in a row.
pub data Steps (s : System) : System → Type 0 where
  still : Steps s s
  onward : {t u : System} → Steps s t → Step t u → Steps s u
