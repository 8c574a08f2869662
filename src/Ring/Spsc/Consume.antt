-- ===== src/Ring/Spsc/Consume.antt =====
-- logs/ring.rs: the accesses of the consumer keep the invariant.
use ngx_otel_rust.Base.{
  ℕ, ◌+◌, ◌%◌, ◌^◌, ◌≡◌, sym, ap, ◌∙◌, false, Option, List, [], ◌∷◌, ◌++◌, arith, ltb, append-nil,
  append_assoc, length,
}
use mathlib.Core.Path.{subst}
use ngx_otel_rust.Base.Bytes.{from_be}
use ngx_otel_rust.Ring.{WorkerSignalRing, wrapping_sub, read_wrap}
use ngx_otel_rust.Ring.Queue.{queue_bytes, Holds}
use ngx_otel_rust.Ring.Pop.{head_read, popped-Holds}
use ngx_otel_rust.Ring.Spsc.{
  Producer, noted, Consumer, Consumes, load_write_offset, too_short, read_length, torn, read_record,
  release,
}
use ngx_otel_rust.Ring.Spsc.Invariant.{Sized, Copied, Consuming, Inv, released-Producing}

pub queue_bytes_split : (q s : List (List ℕ)) → queue_bytes (q ++ s) ≡ queue_bytes q + queue_bytes s
queue_bytes_split [] s = omega arith
queue_bytes_split (x ∷ q) s = omega (arith, queue_bytes_split q s)

-- What lies between the read offset and a write offset that may be old.
seen_bytes :
    (r : WorkerSignalRing) (q front back : List (List ℕ)) (w : ℕ)
    → Holds r q
    → q ≡ front ++ back
    → w ≡ r.read_offset + queue_bytes front
    → wrapping_sub w r.read_offset ≡ queue_bytes front
seen_bytes r q front back w v split edge =
    omega (arith, v.offsets, v.no_wrap, edge, queue_bytes_split front back, ap queue_bytes split)

-- At least four bytes are a record: its length is read.
read_length-Sized :
    (r : WorkerSignalRing) (q front back : List (List ℕ)) (w : ℕ)
    → Holds r q
    → q ≡ front ++ back
    → w ≡ r.read_offset + queue_bytes front
    → ltb (wrapping_sub w r.read_offset) 4 ≡ false
    → Sized r.read_offset q w (from_be (read_wrap r.payload r.cap r.read_offset 4))
read_length-Sized r q [] back w v split edge enough =
    let none_seen = seen_bytes r q [] back w v split edge in ground (arith, none_seen, enough)
read_length-Sized r q (x ∷ front) back w v split edge enough = record {
  head = x;
  front = front;
  back = back;
  split = split;
  edge = edge;
  len = (head_read r x (front ++ back) (subst (Holds r) split v)).0;
}

read_record-Copied :
    (r : WorkerSignalRing) (q : List (List ℕ)) (w n : ℕ)
    → Holds r q
    → Sized r.read_offset q w n
    → Copied q n (read_wrap r.payload r.cap (r.read_offset + 4) n)
read_record-Copied r q w n v h =
    let v' = subst (Holds r) h.split v in
    let bytes : read_wrap r.payload r.cap (r.read_offset + 4) n ≡ h.head =
      ap (read_wrap r.payload r.cap (r.read_offset + 4)) h.len
      ∙ (head_read r h.head (h.front ++ h.back) v').1 in
    record {
      back = h.front ++ h.back;
      split = h.split ∙ ap (λ b. b ∷ h.front ++ h.back) (sym bytes);
      len = h.len ∙ ap length (sym bytes);
    }

-- Releasing the record that was copied.
release-Holds :
    (r : WorkerSignalRing) (q : List (List ℕ)) (n : ℕ) (bytes : List ℕ)
    → Holds r q
    → (h : Copied q n bytes)
    → ((r.read_offset + 4 + n) % 2 ^ 64 ≡ r.read_offset + 4 + length bytes)
      × Holds (record r { read_offset = (r.read_offset + 4 + n) % 2 ^ 64 }) h.back
release-Holds r q n bytes v h =
    let v' = subst (Holds r) h.split v in
    let next : (r.read_offset + 4 + n) % 2 ^ 64 ≡ r.read_offset + 4 + length bytes =
      omega (arith, h.len, v'.offsets, v'.no_wrap) in
    (
      next,
      subst (λ o. Holds (record r { read_offset = o }) h.back) (sym next)
          (popped-Holds r bytes h.back v'),
    )

-- A step that delivers nothing and leaves the ring as it is.
still-Inv :
    (r : WorkerSignalRing) (p : Producer) (c c' : Consumer) (acc del : List (List ℕ))
    → (inv : Inv r p c acc del) → Consuming r.read_offset inv.pending c'
    → Inv r p c' acc del
still-Inv r p c c' acc del inv next = record {
  pending = inv.pending;
  holds = inv.holds;
  total = inv.total;
  history = inv.history;
  producing = inv.producing;
  consuming = next;
}

pub Consumes-Inv :
    {r r' : WorkerSignalRing} (p : Producer) {c c' : Consumer} {done : Option (List ℕ)}
    (acc del : List (List ℕ))
    → Consumes r c r' c' done
    → Inv r p c acc del
    → Inv r' p c' acc (noted del done)
Consumes-Inv {r} p acc del load_write_offset inv = still-Inv r p _ _ acc del inv (record {
  front = inv.pending;
  back = [];
  split = sym (append-nil inv.pending);
  edge = inv.holds.offsets;
})
Consumes-Inv {r} p acc del (too_short e) inv = still-Inv r p _ _ acc del inv tt
Consumes-Inv {r} p acc del (read_length {w} e) inv =
    let h = inv.consuming in
    still-Inv r p _ _ acc del inv
      (read_length-Sized r inv.pending h.front h.back w inv.holds h.split h.edge e)
Consumes-Inv {r} p acc del (torn e) inv = still-Inv r p _ _ acc del inv tt
Consumes-Inv {r} p acc del (read_record {w} {n} e) inv =
    still-Inv r p _ _ acc del inv (read_record-Copied r inv.pending w n inv.holds inv.consuming)
Consumes-Inv {r} p acc del (release {n} {bytes}) inv =
    let h = inv.consuming in
    let (next, holds) = release-Holds r inv.pending n bytes inv.holds h in
    record {
      pending = h.back;
      holds = holds;
      total = inv.total;
      history =
          inv.history ∙ ap (λ l. del ++ l) h.split ∙ sym (append_assoc del (bytes ∷ []) h.back);
      producing = released-Producing r p _ (omega (arith, next)) inv.producing;
      consuming = tt;
    }
