-- ===== src/Traceparent/RoundTrip.antt =====
-- `parse_traceparent_full` of logs/access.rs against `build_traceparent_value` of
-- metric_source/span_start.rs.
use Prim.Native.Nat.{bit_and}
use mathlib.Core.Path.{subst}
use ngx_otel_rust.Base.{
  ℕ, suc, ◌+◌, ◌*◌, ◌/◌, ◌%◌, ◌<◌, ◌≡◌, ◌≢◌, refl, sym, ap, ap₂, ◌∙◌, true, false, not, ◌&&◌, none,
  some, List, [], ◌∷◌, ◌++◌, arith, length, length-append, length-take, length-drop, some-inj, All,
  get_or, take, drop, replicate, bytes_eq, bytes_eq→eq, bytes_eq_refl, ltb, ◌==◌, Bool-cases, inl,
  inr, take-append-drop, take-append_at, drop-append_at, get_or-append_at, guard-eq-some,
  >>=-eq-some, if◌then◌else◌, drop-add, drop-get_or, drop_all,
}
use ngx_otel_rust.Base.Bytes.{IsByte}
use ngx_otel_rust.Traceparent.{
  hex_nibble, join_nibbles, decode_pairs, parse_traceparent_full, hex_encode_into_slice,
  build_traceparent_value, hex_digit, decode_hex16, decode_hex8,
}
use ngx_otel_rust.Traceparent.Hex.{
  decode_pairs-hex_encode_into_slice, length-hex_encode_into_slice, decode_pairs-eq-some,
  join_parts, low_nibble, hex_nibble-hex_digit, hex_nibble-eq-some, join_nibbles_lem,
}

-- A header of version 00 with the given digits.
abbrev text : List ℕ → List ℕ → ℕ → ℕ → List ℕ
text trace parent x y =
    b'0' ∷ (b'0' ∷ (b'-' ∷ (trace ++ (b'-' ∷ (parent ++ (b'-' ∷ (x ∷ (y ∷ []))))))))

bytes_eq_ne : (xs ys : List ℕ) → xs ≢ ys → bytes_eq xs ys ≡ false
bytes_eq_ne xs ys h = elim (Bool-cases (bytes_eq xs ys)) [
  | inl e ↦ absurd (h (bytes_eq→eq xs ys e))
  | inr e ↦ e
]

-- A header whose parts all pass their tests.
parse_of_parts :
    (header trace parent t p : List ℕ) (hi lo : ℕ)
    → length header ≡ 55
    → get_or header 0 0 ≡ b'0'
    → get_or header 1 0 ≡ b'0'
    → get_or header 2 0 ≡ b'-'
    → take 32 (drop 3 header) ≡ trace
    → get_or header 35 0 ≡ b'-'
    → take 16 (drop 36 header) ≡ parent
    → get_or header 52 0 ≡ b'-'
    → hex_nibble (get_or header 53 0) ≡ some hi
    → hex_nibble (get_or header 54 0) ≡ some lo
    → (if ltb (length trace) 32 then none else decode_pairs 16 trace) ≡ some t
    → (if ltb (length parent) 16 then none else decode_pairs 8 parent) ≡ some p
    → bytes_eq t (replicate 16 0) ≡ false
    → bytes_eq p (replicate 8 0) ≡ false
    → parse_traceparent_full header ≡ some (t, p, join_nibbles hi lo)
unfolding parse_traceparent_full
parse_of_parts header trace parent t p hi lo l h0 h1 h2 tr d1 pa d2 n1 n2 dt dp nt np =
    rw (l, h0, h1, h2, tr, dt, d1, pa, dp, d2, n1, n2, nt, np)

-- A header that is built from 16 and 8 bytes, not all zero, is parsed back.
pub parse_traceparent_full-build_traceparent_value :
    (trace_id span_id : List ℕ) (flags : ℕ)
    → length trace_id ≡ 16
    → length span_id ≡ 8
    → All IsByte trace_id
    → All IsByte span_id
    → flags < 256
    → trace_id ≢ replicate 16 0
    → span_id ≢ replicate 8 0
    → parse_traceparent_full (build_traceparent_value trace_id span_id flags)
      ≡ some (trace_id, span_id, flags)
unfolding build_traceparent_value hex_encode_into_slice
parse_traceparent_full-build_traceparent_value t s f lt ls bt bs bf nt ns =
    parse_of_parts header trace parent t s (f / 16) (f % 16) size refl refl refl
      (take-append_at 32 trace _ lp) (get_or-append_at trace _ 32 0 0 (omega (arith, lp)))
      (ap (take 16) rest ∙ take-append_at 16 parent tail lq)
      (past 17 ∙ get_or-append_at parent tail 16 0 0 (omega (arith, lq)))
      (ap hex_nibble (past 18 ∙ get_or-append_at parent tail 17 1 0 (omega (arith, lq)))
        ∙ hex_nibble-hex_digit (f / 16) (omega arith))
      (ap hex_nibble (past 19 ∙ get_or-append_at parent tail 18 2 0 (omega (arith, lq)))
        ∙ ap (λ k. hex_nibble (hex_digit k)) (low_nibble f bf)
        ∙ hex_nibble-hex_digit (f % 16) (omega arith))
      (rw lp (decoded 16 t lt bt)) (rw lq (decoded 8 s ls bs)) (bytes_eq_ne t (replicate 16 0) nt)
      (bytes_eq_ne s (replicate 8 0) ns)
    ∙ ap (λ k. some (t, s, k)) (join_parts f bf)
  where
    trace : List ℕ
    trace = hex_encode_into_slice t

    parent : List ℕ
    parent = hex_encode_into_slice s

    tail : List ℕ
    tail = b'-' ∷ hex_encode_into_slice (f ∷ [])

    header : List ℕ
    header = b'0' ∷ (b'0' ∷ (b'-' ∷ (trace ++ (b'-' ∷ (parent ++ tail)))))

    lp : length trace ≡ 32
    lp = omega (arith, length-hex_encode_into_slice t)

    lq : length parent ≡ 16
    lq = omega (arith, length-hex_encode_into_slice s)

    size : length header ≡ 55
    size =
        omega
          (arith, length-append trace (b'-' ∷ (parent ++ tail)), length-append parent tail, lp, lq)

    past :
        (k : ℕ)
        → get_or (trace ++ (b'-' ∷ (parent ++ tail))) (32 + k) 0
          ≡ get_or (b'-' ∷ (parent ++ tail)) k 0
    past k = get_or-append_at trace (b'-' ∷ (parent ++ tail)) (32 + k) k 0 (omega (arith, lp))

    decoded :
        (n : ℕ) (bs : List ℕ)
        → length bs ≡ n
        → All IsByte bs
        → decode_pairs n (hex_encode_into_slice bs) ≡ some bs
    decoded n bs l h =
        ap (λ k. decode_pairs k (hex_encode_into_slice bs)) (sym l)
        ∙ decode_pairs-hex_encode_into_slice bs h

    rest : drop 36 header ≡ parent ++ tail
    rest = drop-add 35 1 header ∙ ap (drop 1) (drop-append_at 32 trace (b'-' ∷ (parent ++ tail)) lp)

-- A list of 55 bytes, cut at the places where the parser looks.
cut :
    (h : List ℕ)
    → length h ≡ 55
    → h
      ≡ get_or h 0 0
        ∷ (get_or h 1 0
            ∷ (get_or h 2 0
                ∷ (take 32 (drop 3 h)
                    ++ (get_or h 35 0
                        ∷ (take 16 (drop 36 h)
                            ++ (get_or h 52 0 ∷ (get_or h 53 0 ∷ (get_or h 54 0 ∷ []))))))))
cut h l =
    at 0 (omega arith)
    ∙ ap (λ t. get_or h 0 0 ∷ t) (at 1 (omega arith))
    ∙ ap (λ t. get_or h 0 0 ∷ (get_or h 1 0 ∷ t)) (at 2 (omega arith))
    ∙ ap (λ t. get_or h 0 0 ∷ (get_or h 1 0 ∷ (get_or h 2 0 ∷ t))) middle
  where
    at : (i : ℕ) → i < 55 → drop i h ≡ get_or h i 0 ∷ drop (suc i) h
    at i k = drop-get_or i h 0 (omega arith)

    last : drop 52 h ≡ get_or h 52 0 ∷ (get_or h 53 0 ∷ (get_or h 54 0 ∷ []))
    last =
        at 52 (omega arith)
        ∙ ap (λ t. get_or h 52 0 ∷ t) (at 53 (omega arith))
        ∙ ap (λ t. get_or h 52 0 ∷ (get_or h 53 0 ∷ t)) (at 54 (omega arith))
        ∙ ap (λ t. get_or h 52 0 ∷ (get_or h 53 0 ∷ (get_or h 54 0 ∷ t)))
            (drop_all 55 h (omega arith))

    parent : drop 36 h ≡ take 16 (drop 36 h) ++ drop 52 h
    parent =
        sym (take-append-drop 16 (drop 36 h))
        ∙ ap (λ t. take 16 (drop 36 h) ++ t) (sym (drop-add 36 16 h))

    middle :
        drop 3 h
        ≡ take 32 (drop 3 h)
          ++ (get_or h 35 0
              ∷ (take 16 (drop 36 h) ++ (get_or h 52 0 ∷ (get_or h 53 0 ∷ (get_or h 54 0 ∷ [])))))
    middle =
        sym (take-append-drop 32 (drop 3 h))
        ∙ ap (λ t. take 32 (drop 3 h) ++ t)
            (sym (drop-add 3 32 h)
              ∙ at 35 (omega arith)
              ∙ ap (λ t. get_or h 35 0 ∷ t) (parent ∙ ap (λ t. take 16 (drop 36 h) ++ t) last))

bytes_eq→ne : (xs ys : List ℕ) → not (bytes_eq xs ys) ≡ true → xs ≢ ys
bytes_eq→ne xs ys h e =
    let same : bytes_eq xs ys ≡ true = rw e (bytes_eq_refl ys) in ground (arith, same)

-- What the decoders accept: exactly the digits of `n` bytes.
decoded :
    (n : ℕ) (hex bs : List ℕ)
    → length hex ≡ 2 * n
    → (if ltb (length hex) (2 * n) then none else decode_pairs n hex) ≡ some bs
    → (length bs ≡ n) × (hex_encode_into_slice bs ≡ hex)
decoded n hex bs l e =
    let short : ltb (length hex) (2 * n) ≡ false = ground arith in
    let e' : decode_pairs n hex ≡ some bs = rw short at e in
    let (a, b, c) = decode_pairs-eq-some n hex bs l e' in (a, c)

-- The two digits of the flags.
flag_digits :
    (x y hi lo : ℕ)
    → hex_nibble x ≡ some hi
    → hex_nibble y ≡ some lo
    → hex_encode_into_slice (join_nibbles hi lo ∷ []) ≡ x ∷ (y ∷ [])
unfolding hex_encode_into_slice
flag_digits x y hi lo ex ey =
    let (lh, dh) = hex_nibble-eq-some x hi ex in
    let (ll, dl) = hex_nibble-eq-some y lo ey in
    let j : join_nibbles hi lo ≡ hi * 16 + lo = join_nibbles_lem hi lo lh ll in
    let high : join_nibbles hi lo / 16 ≡ hi = omega (arith, j) in
    let low : bit_and (join_nibbles hi lo) 0xf ≡ lo =
      low_nibble (join_nibbles hi lo) (omega (arith, j)) ∙ omega (arith, j) in
    ap₂ (λ a b. a ∷ (b ∷ [])) (ap hex_digit high ∙ dh) (ap hex_digit low ∙ dl)

abbrev Accepted : List ℕ → List ℕ × List ℕ × ℕ → Type 0
Accepted header r =
    (header ≡ build_traceparent_value r.0 r.1 r.2)
    × (length r.0 ≡ 16)
    × (length r.1 ≡ 8)
    × (r.0 ≢ replicate 16 0)
    × (r.1 ≢ replicate 8 0)

rebuilt :
    (header t s : List ℕ) (hi lo : ℕ)
    → length header ≡ 55
    → (get_or header 0 0 == b'0' && get_or header 1 0 == b'0' && get_or header 2 0 == b'-') ≡ true
    → decode_hex16 (take 32 (drop 3 header)) ≡ some t
    → (get_or header 35 0 == b'-') ≡ true
    → decode_hex8 (take 16 (drop 36 header)) ≡ some s
    → (get_or header 52 0 == b'-') ≡ true
    → hex_nibble (get_or header 53 0) ≡ some hi
    → hex_nibble (get_or header 54 0) ≡ some lo
    → t ≢ replicate 16 0
    → s ≢ replicate 8 0
    → Accepted header (t, s, join_nibbles hi lo)
unfolding build_traceparent_value
rebuilt header t s hi lo l v et d1 es d2 eh el nt ns =
    let a : (length t ≡ 16) × (hex_encode_into_slice t ≡ take 32 (drop 3 header)) =
      decoded 16 (take 32 (drop 3 header)) t
        (omega (arith, length-take 32 (drop 3 header), length-drop 3 header)) et in
    let b : (length s ≡ 8) × (hex_encode_into_slice s ≡ take 16 (drop 36 header)) =
      decoded 8 (take 16 (drop 36 header)) s
        (omega (arith, length-take 16 (drop 36 header), length-drop 36 header)) es in
    let c : hex_encode_into_slice (join_nibbles hi lo ∷ [])
        ≡ get_or header 53 0 ∷ (get_or header 54 0 ∷ []) =
      flag_digits (get_or header 53 0) (get_or header 54 0) hi lo eh el in
    let start : (get_or header 0 0 ≡ b'0')
        × (get_or header 1 0 ≡ b'0')
        × (get_or header 2 0 ≡ b'-') =
      ground arith in
    let e35 : get_or header 35 0 ≡ b'-' = ground arith in
    let e52 : get_or header 52 0 ≡ b'-' = ground arith in
    (cut header l ∙ rw (start.0, start.1, start.2, e35, e52, a.1, b.1, c), a.0, b.0, nt, ns)

-- A header that is accepted is the one that is built from the result, so no other spelling of the
-- ids and flags passes; the ids have 16 and 8 bytes and are not all zero.
pub parse_traceparent_full-eq-some :
    (header trace_id span_id : List ℕ) (flags : ℕ)
    → parse_traceparent_full header ≡ some (trace_id, span_id, flags)
    → (header ≡ build_traceparent_value trace_id span_id flags)
      × (length trace_id ≡ 16)
      × (length span_id ≡ 8)
      × (trace_id ≢ replicate 16 0)
      × (span_id ≢ replicate 8 0)
unfolding parse_traceparent_full
parse_traceparent_full-eq-some header t s f e0 =
    let (long, e1) = guard-eq-some (not (ltb (length header) 55)) _ e0 in
    let (version, e2) =
      guard-eq-some
        (get_or header 0 0 == b'0' && get_or header 1 0 == b'0' && get_or header 2 0 == b'-') _
        e1 in
    let (t', et, e3) = >>=-eq-some (decode_hex16 (take 32 (drop 3 header))) _ e2 in
    let (dash1, e4) = guard-eq-some (get_or header 35 0 == b'-') _ e3 in
    let (s', es, e5) = >>=-eq-some (decode_hex8 (take 16 (drop 36 header))) _ e4 in
    let (dash2, e6) = guard-eq-some (get_or header 52 0 == b'-') _ e5 in
    let (hi, eh, e7) = >>=-eq-some (hex_nibble (get_or header 53 0)) _ e6 in
    let (lo, el, e8) = >>=-eq-some (hex_nibble (get_or header 54 0)) _ e7 in
    let (size, e9) = guard-eq-some (length header == 55) _ e8 in
    let (nt, e10) = guard-eq-some (not (bytes_eq t' (replicate 16 0))) _ e9 in
    let (ns, e11) = guard-eq-some (not (bytes_eq s' (replicate 8 0))) _ e10 in
    subst (Accepted header) (some-inj (t', s', join_nibbles hi lo) (t, s, f) e11) (
      rebuilt header t' s' hi lo (ground arith) version et dash1 es dash2 eh el
        (bytes_eq→ne t' (replicate 16 0) nt) (bytes_eq→ne s' (replicate 8 0) ns))
