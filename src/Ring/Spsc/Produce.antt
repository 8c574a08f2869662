-- ===== src/Ring/Spsc/Produce.antt =====
-- logs/ring.rs: the accesses of the producer keep the invariant.
use ngx_otel_rust.Base.{
  ℕ, suc, ◌+◌, ◌-◌, ◌%◌, ◌^◌, ◌≤◌, ◌<◌, ◌≡◌, refl, sym, ap, ap₂, ◌∙◌, false, Option, List, [], ◌∷◌,
  ◌++◌, arith, ltb, append-nil, append_assoc, length, length-append,
}
use mathlib.Core.Path.{subst}
use ngx_otel_rust.Base.Bytes.{be_bytes}
use ngx_otel_rust.Ring.{WorkerSignalRing, wrapping_sub}
use ngx_otel_rust.Ring.Wrap.{put, window, window-add, window-put, window-put_above}
use ngx_otel_rust.Ring.Queue.{
  frame, queue_bytes, queue_bytes-append, length-frame, Holds, dropped-Holds, put-Holds,
  published-Holds,
}
use ngx_otel_rust.Ring.Spsc.{
  Producer, Consumer, Produces, noted, load_offsets, drop_record, has_room, write_byte, publish,
}
use ngx_otel_rust.Ring.Spsc.Invariant.{Half, Inv, grown-Consuming}

-- The test of the producer, with a read offset that may be old, leaves room for the frame.
room_lem :
    (r : WorkerSignalRing) (q : List (List ℕ)) (x : List ℕ) (o : ℕ)
    → Holds r q
    → o ≤ r.read_offset
    → ltb r.cap (wrapping_sub r.write_offset o + (4 + length x)) ≡ false
    → r.write_offset + (4 + length x) ≤ o + r.cap
room_lem r q x o v old fits = ground (arith, v.offsets, v.no_wrap, fits, used)
  where
    used : wrapping_sub r.write_offset o ≡ r.write_offset - o
    used = omega (arith, v.offsets, v.no_wrap, old)

start-Half :
    (r : WorkerSignalRing) (q : List (List ℕ)) (x : List ℕ) (o : ℕ)
    → Holds r q
    → o ≤ r.read_offset
    → ltb r.cap (wrapping_sub r.write_offset o + (4 + length x)) ≡ false
    → Half r x r.write_offset r.write_offset (be_bytes 4 (length x % 2 ^ 32) ++ x)
unfolding window
start-Half r q x o v old fits =
    let room = room_lem r q x o v old fits in
    let small : length x % 2 ^ 32 ≡ length x = omega (arith, room, old, v.cap_u32, v.offsets) in
    record {
      own = refl;
      room = omega (arith, room, old);
      done = [];
      whole = ap (λ n. be_bytes 4 n ++ x) small;
      place = omega arith;
      written = refl;
    }

-- One more byte of the frame.
write_byte-Half :
    (r : WorkerSignalRing) (q : List (List ℕ)) (x : List ℕ) (w at b : ℕ) (rest : List ℕ)
    → Holds r q
    → Half r x w at (b ∷ rest)
    → (at + 1 ≤ r.read_offset + r.cap)
      × (w ≤ at)
      × Half (record r { payload = put r.payload r.cap at (b ∷ []) }) x w (at + 1) rest
write_byte-Half r q x w at b rest v h = (in_front, omega (arith, h.place), half)
  where
    size : length h.done + suc (length rest) ≡ 4 + length x
    size = sym (length-append h.done (b ∷ rest)) ∙ ap length h.whole ∙ length-frame x

    in_front : at + 1 ≤ r.read_offset + r.cap
    in_front = omega (arith, size, h.room, h.place)

    inside : at + 1 ≤ w + r.cap
    inside = omega (arith, in_front, h.own, v.offsets)

    p' : List ℕ
    p' = put r.payload r.cap at (b ∷ [])

    grown : length (h.done ++ b ∷ []) ≡ length h.done + 1
    grown = length-append h.done (b ∷ [])

    old : window p' r.cap w (length h.done) ≡ h.done
    old =
        window-put_above r.payload r.cap w (length h.done) at (b ∷ []) (omega (arith, h.place))
          (omega (arith, inside))
        ∙ h.written

    new : window p' r.cap (w + length h.done) 1 ≡ b ∷ []
    new =
        ap (λ o. window p' r.cap o 1) (sym h.place)
        ∙ window-put r.payload r.cap at (b ∷ []) v.cap_pos v.payload_size (omega (arith, v.cap_pos))

    half : Half (record r { payload = p' }) x w (at + 1) rest
    half = record {
      own = h.own;
      room = h.room;
      done = h.done ++ b ∷ [];
      whole = append_assoc h.done (b ∷ []) rest ∙ h.whole;
      place = omega (arith, h.place, grown);
      written =
          ap (window p' r.cap w) grown ∙ window-add p' r.cap w (length h.done) 1 ∙ ap₂ ◌++◌ old new;
    }

-- Publishing a frame that is written whole.
publish-Holds :
    (r : WorkerSignalRing) (q : List (List ℕ)) (x : List ℕ) (w at : ℕ)
    → Holds r q
    → Half r x w at []
    → r.write_offset + (4 + length x) < 2 ^ 64
    → Holds (record r { write_offset = (w + (4 + length x)) % 2 ^ 64 }) (q ++ (x ∷ []))
publish-Holds r q x w at v h fits =
    let done : h.done ≡ frame x = sym (append-nil h.done) ∙ h.whole in
    let size : length h.done ≡ 4 + length x = ap length done ∙ length-frame x in
    let whole : window r.payload r.cap r.write_offset (4 + length x) ≡ frame x =
      ap₂ (λ o n. window r.payload r.cap o n) (sym h.own) (sym size) ∙ h.written ∙ done in
    let next : r.write_offset + (4 + length x) ≡ (w + (4 + length x)) % 2 ^ 64 =
      omega (arith, h.own, fits) in
    subst (λ o. Holds (record r { write_offset = o }) (q ++ (x ∷ []))) next
      (published-Holds r q x v whole (omega (arith, h.room, h.own, v.offsets)) fits)

pub Produces-Inv :
    {r r' : WorkerSignalRing} {p p' : Producer} {done : Option (List ℕ)} (c : Consumer)
    (acc del : List (List ℕ))
    → Produces r p r' p' done
    → queue_bytes (noted acc done) < 2 ^ 64
    → Inv r p c acc del
    → Inv r' p' c (noted acc done) del
unfolding put
Produces-Inv {r} c acc del (load_offsets x) fits inv = record {
  pending = inv.pending;
  holds = inv.holds;
  total = inv.total;
  history = inv.history;
  producing = (refl, omega arith);
  consuming = inv.consuming;
}
Produces-Inv {r} c acc del (drop_record full) fits inv = record {
  pending = inv.pending;
  holds = dropped-Holds r inv.pending _ inv.holds;
  total = inv.total;
  history = inv.history;
  producing = tt;
  consuming = inv.consuming;
}
Produces-Inv {r} c acc del (has_room {x} {w} {o} room) fits inv =
    let (own, old) = inv.producing in
    record {
      pending = inv.pending;
      holds = inv.holds;
      total = inv.total;
      history = inv.history;
      producing =
          subst (λ k. Half r x k k (be_bytes 4 (length x % 2 ^ 32) ++ x)) (sym own)
            (start-Half r inv.pending x o inv.holds old
              (subst (λ k. ltb r.cap (wrapping_sub k o + (4 + length x)) ≡ false) own room));
      consuming = inv.consuming;
    }
Produces-Inv {r} c acc del (write_byte {x} {rest} {w} {at} {b}) fits inv =
    let (in_front, behind, half) =
      write_byte-Half r inv.pending x w at b rest inv.holds inv.producing in
    record {
      pending = inv.pending;
      holds =
          put-Holds r inv.pending at (b ∷ []) inv.holds (omega (arith, behind, inv.producing.own))
            in_front;
      total = inv.total;
      history = inv.history;
      producing = half;
      consuming = inv.consuming;
    }
Produces-Inv {r} c acc del (publish {x} {w} {at}) fits inv =
    let h = inv.producing in
    let size = queue_bytes-append acc x in
    let inside : r.write_offset + (4 + length x) < 2 ^ 64 = omega (arith, size, fits, inv.total) in
    record {
      pending = inv.pending ++ (x ∷ []);
      holds = publish-Holds r inv.pending x w at inv.holds h inside;
      total = omega (arith, size, h.own, inv.total, inside);
      history = ap (λ l. l ++ (x ∷ [])) inv.history ∙ append_assoc del inv.pending (x ∷ []);
      producing = tt;
      consuming = grown-Consuming r.read_offset inv.pending x c inv.consuming;
    }
