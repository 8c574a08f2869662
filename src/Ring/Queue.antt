-- ===== src/Ring/Queue.antt =====
-- logs/ring.rs as a queue of records that is bounded in bytes.
use ngx_otel_rust.Base.{
  ℕ, ◌+◌, ◌%◌, ◌^◌, ◌≤◌, ◌<◌, ◌≡◌, refl, sym, ap, ap₂, ◌∙◌, true, false, List, [], ◌∷◌, ◌++◌, arith,
  length, length-append, append-nil, append_assoc,
}
use ngx_otel_rust.Base.Bytes.{be_bytes, length-be_bytes}
use ngx_otel_rust.Ring.{WorkerSignalRing, push, wrapping_sub, write_wrap}
use ngx_otel_rust.Ring.Wrap.{
  put, window, put-append, length-put, write_wrap-put, window-add, window-put, window-put_above,
}

-- What the ring stores for one record.
abbrev pub frame : List ℕ → List ℕ
frame x = be_bytes 4 (length x) ++ x

abbrev pub frames : List (List ℕ) → List ℕ
frames [] = []
frames (x ∷ q) = frame x ++ frames q

abbrev pub queue_bytes : List (List ℕ) → ℕ
queue_bytes [] = 0
queue_bytes (x ∷ q) = 4 + length x + queue_bytes q

-- The ring holds the records `q`, oldest first.
pub record Holds (r : WorkerSignalRing) (q : List (List ℕ)) : Type 0 where
  pub payload_size : length r.payload ≡ r.cap
  pub cap_pos : 0 < r.cap
  pub cap_u32 : r.cap < 2 ^ 32
  pub offsets : r.write_offset ≡ r.read_offset + queue_bytes q
  pub fits : queue_bytes q ≤ r.cap
  pub no_wrap : r.write_offset < 2 ^ 64
  pub stored : window r.payload r.cap r.read_offset (queue_bytes q) ≡ frames q

frames-append : (q : List (List ℕ)) (x : List ℕ) → frames (q ++ (x ∷ [])) ≡ frames q ++ frame x
frames-append [] x = append-nil (frame x)
frames-append (y ∷ q) x =
    ap (λ t. frame y ++ t) (frames-append q x) ∙ sym (append_assoc (frame y) (frames q) (frame x))

pub queue_bytes-append :
    (q : List (List ℕ)) (x : List ℕ) → queue_bytes (q ++ (x ∷ [])) ≡ queue_bytes q + (4 + length x)
queue_bytes-append [] x = omega arith
queue_bytes-append (y ∷ q) x = omega (arith, queue_bytes-append q x)

pub length-frame : (x : List ℕ) → length (frame x) ≡ 4 + length x
length-frame x =
    length-append (be_bytes 4 (length x)) x ∙ omega (arith, length-be_bytes 4 (length x))

-- The ring after a push that has room.
abbrev pub pushed : WorkerSignalRing → List ℕ → WorkerSignalRing
pushed r x = record r {
  write_offset = r.write_offset + (4 + length x);
  payload = put r.payload r.cap r.write_offset (frame x);
}

pub push_room :
    (r : WorkerSignalRing) (q : List (List ℕ)) (x : List ℕ)
    → Holds r q
    → queue_bytes q + (4 + length x) ≤ r.cap
    → r.write_offset + (4 + length x) < 2 ^ 64
    → push r x ≡ (true, pushed r x)
unfolding push
push_room r q x v room w = ground (arith, used, header, body, payload)
  where
    used : wrapping_sub r.write_offset r.read_offset ≡ queue_bytes q
    used = omega (arith, v.offsets, v.fits, v.cap_u32, v.no_wrap)

    small : length x % 2 ^ 32 ≡ length x
    small = omega (arith, v.cap_u32)

    four : length (be_bytes 4 (length x)) ≡ 4
    four = length-be_bytes 4 (length x)

    header :
        write_wrap r.payload r.cap r.write_offset (be_bytes 4 (length x % 2 ^ 32))
        ≡ put r.payload r.cap r.write_offset (be_bytes 4 (length x))
    header =
        ap (λ k. write_wrap r.payload r.cap r.write_offset (be_bytes 4 k)) small
        ∙ write_wrap-put r.payload r.cap r.write_offset (be_bytes 4 (length x)) v.cap_pos
            (omega (arith, four))

    body :
        write_wrap
          (put r.payload r.cap r.write_offset (be_bytes 4 (length x)))
          r.cap
          (r.write_offset + 4)
          x
        ≡ put
            (put r.payload r.cap r.write_offset (be_bytes 4 (length x)))
            r.cap
            (r.write_offset + 4)
            x
    body = write_wrap-put _ r.cap (r.write_offset + 4) x v.cap_pos (omega arith)

    payload :
        put
          (put r.payload r.cap r.write_offset (be_bytes 4 (length x)))
          r.cap
          (r.write_offset + 4)
          x
        ≡ put r.payload r.cap r.write_offset (frame x)
    payload =
        ap
          (λ k.
            put (put r.payload r.cap r.write_offset (be_bytes 4 (length x))) r.cap
              (r.write_offset + k) x)
          (sym four)
        ∙ sym (put-append r.payload r.cap r.write_offset (be_bytes 4 (length x)) x)

-- A whole frame behind the queue, published by its write offset, is the newest record.
pub published-Holds :
    (r : WorkerSignalRing) (q : List (List ℕ)) (x : List ℕ)
    → Holds r q
    → window r.payload r.cap r.write_offset (4 + length x) ≡ frame x
    → queue_bytes q + (4 + length x) ≤ r.cap
    → r.write_offset + (4 + length x) < 2 ^ 64
    → Holds (record r { write_offset = r.write_offset + (4 + length x) }) (q ++ (x ∷ []))
published-Holds r q x v whole room w = record {
  payload_size = v.payload_size;
  cap_pos = v.cap_pos;
  cap_u32 = v.cap_u32;
  offsets = omega (arith, v.offsets, queue_bytes-append q x);
  fits = omega (arith, queue_bytes-append q x);
  no_wrap = w;
  stored =
      ap (window r.payload r.cap r.read_offset) (queue_bytes-append q x)
      ∙ window-add r.payload r.cap r.read_offset (queue_bytes q) (4 + length x)
      ∙ ap₂ ◌++◌ v.stored
          (ap (λ o. window r.payload r.cap o (4 + length x)) (sym v.offsets) ∙ whole)
      ∙ sym (frames-append q x);
}

-- Bytes written behind the queue leave it alone.
pub put-Holds :
    (r : WorkerSignalRing) (q : List (List ℕ)) (i : ℕ) (bs : List ℕ)
    → Holds r q
    → r.write_offset ≤ i
    → i + length bs ≤ r.read_offset + r.cap
    → Holds (record r { payload = put r.payload r.cap i bs }) q
put-Holds r q i bs v behind room = record {
  payload_size = length-put r.payload r.cap i bs ∙ v.payload_size;
  cap_pos = v.cap_pos;
  cap_u32 = v.cap_u32;
  offsets = v.offsets;
  fits = v.fits;
  no_wrap = v.no_wrap;
  stored =
      window-put_above r.payload r.cap r.read_offset (queue_bytes q) i bs
        (omega (arith, v.offsets, behind)) room
      ∙ v.stored;
}

pub pushed-Holds :
    (r : WorkerSignalRing) (q : List (List ℕ)) (x : List ℕ)
    → Holds r q
    → queue_bytes q + (4 + length x) ≤ r.cap
    → r.write_offset + (4 + length x) < 2 ^ 64
    → Holds (pushed r x) (q ++ (x ∷ []))
pushed-Holds r q x v room w =
    let size = length-frame x in
    let whole =
      ap (window (put r.payload r.cap r.write_offset (frame x)) r.cap r.write_offset) (sym size)
      ∙ window-put r.payload r.cap r.write_offset (frame x) v.cap_pos v.payload_size
          (omega (arith, size)) in
    let kept =
      put-Holds r q r.write_offset (frame x) v (omega arith) (omega (arith, v.offsets, size)) in
    published-Holds (record r { payload = put r.payload r.cap r.write_offset (frame x) }) q x kept
      whole room w

-- A push into a ring with room for the record and its length adds it at the end of the queue.
pub push_accepts :
    (r : WorkerSignalRing) (q : List (List ℕ)) (x : List ℕ)
    → Holds r q
    → queue_bytes q + (4 + length x) ≤ r.cap
    → r.write_offset + (4 + length x) < 2 ^ 64
    → ((push r x).0 ≡ true) × Holds (push r x).1 (q ++ (x ∷ []))
push_accepts r q x v room w = rw (push_room r q x v room w) (refl, pushed-Holds r q x v room w)

-- The counter of drops is no part of the queue.
pub dropped-Holds :
    (r : WorkerSignalRing) (q : List (List ℕ)) (n : ℕ)
    → Holds r q
    → Holds (record r { dropped = n }) q
dropped-Holds r q n v = record {
  payload_size = v.payload_size;
  cap_pos = v.cap_pos;
  cap_u32 = v.cap_u32;
  offsets = v.offsets;
  fits = v.fits;
  no_wrap = v.no_wrap;
  stored = v.stored;
}

-- A push that does not fit only counts a drop.
pub push_drops :
    (r : WorkerSignalRing) (q : List (List ℕ)) (x : List ℕ)
    → Holds r q
    → r.cap < queue_bytes q + (4 + length x)
    → push r x ≡ (false, record r { dropped = (r.dropped + 1) % 2 ^ 64 })
unfolding push
push_drops r q x v full = ground (arith, used)
  where
    used : wrapping_sub r.write_offset r.read_offset ≡ queue_bytes q
    used = omega (arith, v.offsets, v.fits, v.cap_u32, v.no_wrap)
