-- ===== src/Ring/Spsc/Invariant.antt =====
-- logs/ring.rs: what holds between the accesses of the producer and of the consumer.
use ngx_otel_rust.Base.{ℕ, ◌+◌, ◌≤◌, ◌≡◌, ap, ◌∙◌, List, [], ◌∷◌, ◌++◌, arith, append_assoc, length}
use ngx_otel_rust.Ring.{WorkerSignalRing}
use ngx_otel_rust.Ring.Wrap.{window}
use ngx_otel_rust.Ring.Queue.{frame, queue_bytes, Holds}
use ngx_otel_rust.Ring.Spsc.{
  Producer, ready, loaded, writing, Consumer, waiting, seen, sized, copied,
}

-- The part of the frame that is written lies behind the write offset, and the whole frame fits in
-- front of the read offset.
pub record Half (r : WorkerSignalRing) (x : List ℕ) (w at : ℕ) (rest : List ℕ) : Type 0 where
  pub own : w ≡ r.write_offset
  pub room : w + (4 + length x) ≤ r.read_offset + r.cap
  pub done : List ℕ
  pub whole : done ++ rest ≡ frame x
  pub place : at ≡ w + length done
  pub written : window r.payload r.cap w (length done) ≡ done

-- A read offset that the producer loaded may be old.
abbrev pub Producing : WorkerSignalRing → Producer → Type 0
Producing r ready = Unit {0}
Producing r (loaded x w o) = (w ≡ r.write_offset) × (o ≤ r.read_offset)
Producing r (writing x w at rest) = Half r x w at rest

-- A write offset that the consumer loaded may be old: behind it are the records of `back`.
pub record Older (read_off : ℕ) (q : List (List ℕ)) (w : ℕ) : Type 0 where
  pub front : List (List ℕ)
  pub back : List (List ℕ)
  pub split : q ≡ front ++ back
  pub edge : w ≡ read_off + queue_bytes front

pub record Sized (read_off : ℕ) (q : List (List ℕ)) (w n : ℕ) : Type 0 where
  pub head : List ℕ
  pub front : List (List ℕ)
  pub back : List (List ℕ)
  pub split : q ≡ head ∷ front ++ back
  pub edge : w ≡ read_off + (4 + length head + queue_bytes front)
  pub len : n ≡ length head

pub record Copied (q : List (List ℕ)) (n : ℕ) (bytes : List ℕ) : Type 0 where
  pub back : List (List ℕ)
  pub split : q ≡ bytes ∷ back
  pub len : n ≡ length bytes

abbrev pub Consuming : ℕ → List (List ℕ) → Consumer → Type 0
Consuming o q waiting = Unit {0}
Consuming o q (seen w) = Older o q w
Consuming o q (sized w n) = Sized o q w n
Consuming o q (copied n bytes) = Copied q n bytes

-- The ring holds what was accepted and is not delivered yet, in that order.
pub record Inv (r : WorkerSignalRing) (p : Producer) (c : Consumer)
    (accepted delivered : List (List ℕ)) : Type 0 where
  pub pending : List (List ℕ)
  pub holds : Holds r pending
  pub total : r.write_offset ≡ queue_bytes accepted
  pub history : accepted ≡ delivered ++ pending
  pub producing : Producing r p
  pub consuming : Consuming r.read_offset pending c

-- A newer record does not disturb the consumer.
pub grown-Consuming :
    (o : ℕ) (q : List (List ℕ)) (x : List ℕ) (c : Consumer)
    → Consuming o q c
    → Consuming o (q ++ (x ∷ [])) c
grown-Consuming o q x waiting h = tt
grown-Consuming o q x (seen w) h = record {
  front = h.front;
  back = h.back ++ (x ∷ []);
  split = ap (λ l. l ++ (x ∷ [])) h.split ∙ append_assoc h.front h.back (x ∷ []);
  edge = h.edge;
}
grown-Consuming o q x (sized w n) h = record {
  head = h.head;
  front = h.front;
  back = h.back ++ (x ∷ []);
  split =
      ap (λ l. l ++ (x ∷ [])) h.split ∙ ap (λ l. h.head ∷ l) (append_assoc h.front h.back (x ∷ []));
  edge = h.edge;
  len = h.len;
}
grown-Consuming o q x (copied n bytes) h = record {
  back = h.back ++ (x ∷ []);
  split = ap (λ l. l ++ (x ∷ [])) h.split;
  len = h.len;
}

-- A read offset that moves on only makes room for the producer.
pub released-Producing :
    (r : WorkerSignalRing) (p : Producer) (o : ℕ)
    → r.read_offset ≤ o
    → Producing r p
    → Producing (record r { read_offset = o }) p
released-Producing r ready o later h = tt
released-Producing r (loaded x w old) o later h = (h.0, omega (arith, h.1, later))
released-Producing r (writing x w at rest) o later h = record {
  own = h.own;
  room = omega (arith, h.room, later);
  done = h.done;
  whole = h.whole;
  place = h.place;
  written = h.written;
}
