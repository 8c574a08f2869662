-- ===== src/Ring/Pop.antt =====
-- logs/ring.rs: what `pop_into` reads from a ring that holds a queue of records.
use ngx_otel_rust.Base.{
  ℕ, ◌+◌, ◌%◌, ◌^◌, ◌≡◌, refl, sym, ap, ◌∙◌, true, false, List, [], ◌∷◌, ◌++◌, arith, length,
  append_assoc, append_split,
}
use ngx_otel_rust.Base.Bytes.{be_bytes, from_be, length-be_bytes, from_be-be_bytes}
use ngx_otel_rust.Ring.{WorkerSignalRing, pop_into, wrapping_sub, read_wrap}
use ngx_otel_rust.Ring.Wrap.{window, read_wrap-window, window-add, length-window}
use ngx_otel_rust.Ring.Queue.{frames, queue_bytes, Holds}

-- The parts of a stored record at the head of the queue.
head_parts :
    (r : WorkerSignalRing) (x : List ℕ) (q : List (List ℕ))
    → Holds r (x ∷ q)
    → (window r.payload r.cap r.read_offset 4 ≡ be_bytes 4 (length x))
      × (window r.payload r.cap (r.read_offset + 4) (length x) ≡ x)
      × (window r.payload r.cap (r.read_offset + 4 + length x) (queue_bytes q) ≡ frames q)
head_parts r x q v = (outer.0, inner.0, inner.1)
  where
    w : ℕ → ℕ → List ℕ
    w = window r.payload r.cap

    ro : ℕ
    ro = r.read_offset

    split :
        w ro (queue_bytes (x ∷ q))
        ≡ w ro 4 ++ (w (ro + 4) (length x) ++ w (ro + 4 + length x) (queue_bytes q))
    split =
        let e : 4 + length x + queue_bytes q ≡ 4 + (length x + queue_bytes q) = omega arith in
        ap (w ro) e
        ∙ window-add r.payload r.cap ro 4 (length x + queue_bytes q)
        ∙ ap (λ t. w ro 4 ++ t) (window-add r.payload r.cap (ro + 4) (length x) (queue_bytes q))

    four : length (w ro 4) ≡ length (be_bytes 4 (length x))
    four = length-window r.payload r.cap ro 4 ∙ sym (length-be_bytes 4 (length x))

    outer :
        (w ro 4 ≡ be_bytes 4 (length x))
        × (w (ro + 4) (length x) ++ w (ro + 4 + length x) (queue_bytes q) ≡ x ++ frames q)
    outer =
        append_split (w ro 4) (be_bytes 4 (length x)) _ (x ++ frames q) four
          (sym split ∙ v.stored ∙ append_assoc (be_bytes 4 (length x)) x (frames q))

    inner : (w (ro + 4) (length x) ≡ x) × (w (ro + 4 + length x) (queue_bytes q) ≡ frames q)
    inner =
        append_split (w (ro + 4) (length x)) x _ (frames q)
          (length-window r.payload r.cap (ro + 4) (length x)) outer.1

-- The length and the bytes of the oldest record, as they are read.
pub head_read :
    (r : WorkerSignalRing) (x : List ℕ) (q : List (List ℕ))
    → Holds r (x ∷ q)
    → (from_be (read_wrap r.payload r.cap r.read_offset 4) ≡ length x)
      × (read_wrap r.payload r.cap (r.read_offset + 4) (length x) ≡ x)
head_read r x q v =
    let parts = head_parts r x q v in
    let len =
      ap from_be (
        read_wrap-window r.payload r.cap r.read_offset 4 v.cap_pos v.payload_size
          (omega (arith, v.fits))
        ∙ parts.0)
      ∙ from_be-be_bytes 4 (length x) (omega (arith, v.fits, v.cap_u32)) in
    let bytes =
      read_wrap-window r.payload r.cap (r.read_offset + 4) (length x) v.cap_pos v.payload_size
        (omega (arith, v.fits))
      ∙ parts.1 in
    (len, bytes)

-- The ring after its oldest record is released.
abbrev pub popped : WorkerSignalRing → List ℕ → WorkerSignalRing
popped r x = record r { read_offset = r.read_offset + 4 + length x }

pub popped-Holds :
    (r : WorkerSignalRing) (x : List ℕ) (q : List (List ℕ)) → Holds r (x ∷ q) → Holds (popped r x) q
popped-Holds r x q v = record {
  payload_size = v.payload_size;
  cap_pos = v.cap_pos;
  cap_u32 = v.cap_u32;
  offsets = omega (arith, v.offsets);
  fits = omega (arith, v.fits);
  no_wrap = v.no_wrap;
  stored = (head_parts r x q v).2;
}

-- A pop from a ring that holds a record appends the oldest one to the output and removes it.
pub pop_first :
    (r : WorkerSignalRing) (x : List ℕ) (q : List (List ℕ)) (out : List ℕ)
    → Holds r (x ∷ q)
    → ((pop_into r out).0 ≡ true) × ((pop_into r out).1 ≡ out ++ x) × Holds (pop_into r out).2 q
unfolding pop_into
pop_first r x q out v = rw whole (refl, refl, popped-Holds r x q v)
  where
    available : wrapping_sub r.write_offset r.read_offset ≡ 4 + length x + queue_bytes q
    available = omega (arith, v.offsets, v.fits, v.cap_u32, v.no_wrap)

    next : (r.read_offset + 4 + length x) % 2 ^ 64 ≡ r.read_offset + 4 + length x
    next = omega (arith, v.offsets, v.no_wrap)

    whole : pop_into r out ≡ (true, out ++ x, popped r x)
    whole =
        let (len, bytes) = head_read r x q v in
        ground (arith, available, len, bytes, next, v.cap_pos)

-- A pop from a ring that holds nothing answers `false` and changes neither output nor ring.
pub pop_nothing :
    (r : WorkerSignalRing) (out : List ℕ) → Holds r [] → pop_into r out ≡ (false, out, r)
unfolding pop_into
pop_nothing r out v = ground (arith, available)
  where
    available : wrapping_sub r.write_offset r.read_offset ≡ 0
    available = omega (arith, v.offsets, v.no_wrap)
