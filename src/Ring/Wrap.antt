-- ===== src/Ring/Wrap.antt =====
-- The two-part copies of logs/ring.rs (`write_wrap`, `read_wrap`) against byte-by-byte access
-- at `offset % cap`.
use native.Mathlib.Nat.{
  mod-add-mod, mod-eq_of_lt, mod-eq-sub-mod, mod-lt, div-add-mod, add-zero, zero-add,
}
use ngx_otel_rust.Base.{
  ℕ, zero, suc, ◌+◌, ◌-◌, ◌%◌, ◌≤◌, ◌<◌, ◌≡◌, refl, sym, ap, ap₂, ◌∙◌, ◌≢◌, inl, inr, false, List,
  [], ◌∷◌, ◌++◌, arith, leb, ◌==◌, leb→le, Bool-cases, length, length-set, get_or, get_or-set_self,
  get_or-set_ne, set, take, drop, take-append-drop, length-take, length-drop,
}
use ngx_otel_rust.Ring.{splice, write_wrap, read_wrap}

-- The bytes at logical offsets `off, off + 1, ...`, written and read one at a time.
unfoldable pub put : List ℕ → ℕ → ℕ → List ℕ → List ℕ
put p cap off [] = p
put p cap off (b ∷ bs) = put (set p (off % cap) b) cap (off + 1) bs

unfoldable pub window : List ℕ → ℕ → ℕ → ℕ → List ℕ
window p cap off zero = []
window p cap off (suc n) = get_or p (off % cap) 0 ∷ window p cap (off + 1) n

mod_step : (off cap : ℕ) → off % cap + 1 < cap → (off + 1) % cap ≡ off % cap + 1
mod_step off cap h = sym (mod-add-mod off cap 1) ∙ mod-eq_of_lt h

mod_shift : (off cap k : ℕ) → off % cap + k < cap → (off + k) % cap ≡ off % cap + k
mod_shift off cap k h = sym (mod-add-mod off cap k) ∙ mod-eq_of_lt h

mod_wrap : (off cap : ℕ) → 0 < cap → (off + (cap - off % cap)) % cap ≡ 0
mod_wrap off cap h =
    sym (mod-add-mod off cap (cap - off % cap))
    ∙ ap (λ k. k % cap) (omega (arith, mod-lt off h))
    ∙ mod-eq-sub-mod {n = cap} {m = cap} (omega arith)
    ∙ ap (λ k. k % cap) (omega arith)
    ∙ mod-eq_of_lt h

-- Two logical offsets less than `cap` apart fall on different bytes.
pub mod-ne : (i j cap : ℕ) → i < j → j < i + cap → i % cap ≢ j % cap
mod-ne i j cap h k e = grind (arith, div-add-mod i cap, div-add-mod j cap)

pub put-append :
    (p : List ℕ) (cap off : ℕ) (a b : List ℕ)
    → put p cap off (a ++ b) ≡ put (put p cap off a) cap (off + length a) b
unfolding put
put-append p cap off [] b = ap (λ k. put p cap k b) (omega arith)
put-append p cap off (x ∷ a) b =
    put-append (set p (off % cap) x) cap (off + 1) a b
    ∙ ap (λ k. put (put (set p (off % cap) x) cap (off + 1) a) cap k b) (omega arith)

pub length-put : (p : List ℕ) (cap off : ℕ) (bs : List ℕ) → length (put p cap off bs) ≡ length p
unfolding put
length-put p cap off [] = refl
length-put p cap off (b ∷ bs) =
    length-put (set p (off % cap) b) cap (off + 1) bs ∙ length-set p (off % cap) b

-- A copy that does not reach the end of the payload.
splice-put :
    (p : List ℕ) (cap off : ℕ) (bs : List ℕ)
    → off % cap + length bs ≤ cap
    → splice p (off % cap) bs ≡ put p cap off bs
unfolding splice put
splice-put p cap off [] h = refl
splice-put p cap off (b ∷ []) h = refl
splice-put p cap off (b ∷ (c ∷ bs)) h =
    let e : (off + 1) % cap ≡ off % cap + 1 = mod_step off cap (omega arith) in
    ap (λ k. splice (set p (off % cap) b) k (c ∷ bs)) (sym e)
    ∙ splice-put (set p (off % cap) b) cap (off + 1) (c ∷ bs) (omega (arith, e))

-- `write_wrap` writes each byte at its offset modulo `cap`.
pub write_wrap-put :
    (p : List ℕ) (cap off : ℕ) (bs : List ℕ)
    → 0 < cap
    → length bs ≤ cap
    → write_wrap p cap off bs ≡ put p cap off bs
unfolding write_wrap
write_wrap-put p cap off [] h k = unfold put in refl
write_wrap-put p cap off (b ∷ bs) h k =
    elim (Bool-cases (leb (length (b ∷ bs)) (cap - off % cap))) [
      | inl e ↦ rw e (splice-put p cap off (b ∷ bs) (omega (arith, leb→le _ _ e, mod-lt off h)))
      | inr e ↦ rw e (wrapped (b ∷ bs) k (ground arith))
    ]
  where
    wrapped :
        (ds : List ℕ)
        → length ds ≤ cap
        → cap - off % cap ≤ length ds
        → splice (splice p (off % cap) (take (cap - off % cap) ds)) 0 (drop (cap - off % cap) ds)
          ≡ put p cap off ds
    wrapped ds hl hs =
        let end_space = cap - off % cap in
        let front = take end_space ds in
        let lf : length front ≡ end_space = omega (arith, length-take end_space ds) in
        let z : (off + length front) % cap ≡ 0 =
          ap (λ k. (off + k) % cap) lf ∙ mod_wrap off cap h in
        ap (λ q. splice q 0 (drop end_space ds))
          (splice-put p cap off front (omega (arith, lf, mod-lt off h)))
        ∙ ap (λ k. splice (put p cap off front) k (drop end_space ds)) (sym z)
        ∙ splice-put (put p cap off front) cap (off + length front) (drop end_space ds)
            (omega (arith, z, length-drop end_space ds))
        ∙ sym (put-append p cap off front (drop end_space ds))
        ∙ ap (put p cap off) (take-append-drop end_space ds)

pub window-add :
    (p : List ℕ) (cap off m n : ℕ)
    → window p cap off (m + n) ≡ window p cap off m ++ window p cap (off + m) n
unfolding window
window-add p cap off zero n = rw (zero-add, add-zero)
window-add p cap off (suc m) n =
    let e : suc m + n ≡ suc (m + n) = omega arith in
    let e' : off + 1 + m ≡ off + suc m = omega arith in
    ap (window p cap off) e
    ∙ ap (λ t. get_or p (off % cap) 0 ∷ t) (window-add p cap (off + 1) m n)
    ∙ ap (λ k. get_or p (off % cap) 0 ∷ (window p cap (off + 1) m ++ window p cap k n)) e'

pub length-window : (p : List ℕ) (cap off n : ℕ) → length (window p cap off n) ≡ n
unfolding window
length-window p cap off zero = refl
length-window p cap off (suc n) = ap suc (length-window p cap (off + 1) n)

drop-get_or : (i : ℕ) (p : List ℕ) → i < length p → drop i p ≡ get_or p i 0 ∷ drop (i + 1) p
drop-get_or i [] h = absurd (omega arith)
drop-get_or zero (x ∷ p) h = refl
drop-get_or (suc i) (x ∷ p) h =
    drop-get_or i p (omega arith) ∙ ap (λ k. get_or p i 0 ∷ drop k (x ∷ p)) shift
  where
    shift : suc (i + 1) ≡ suc i + 1
    shift = omega arith

-- A read that does not reach the end of the payload.
take-window :
    (p : List ℕ) (cap off n : ℕ)
    → length p ≡ cap
    → off % cap + n ≤ cap
    → take n (drop (off % cap) p) ≡ window p cap off n
unfolding window
take-window p cap off zero l h = refl
take-window p cap off (suc zero) l h = rw (drop-get_or (off % cap) p (omega arith))
take-window p cap off (suc (suc n)) l h =
    let e : (off + 1) % cap ≡ off % cap + 1 = mod_step off cap (omega arith) in
    ap (take (suc (suc n))) (drop-get_or (off % cap) p (omega arith))
    ∙ ap (λ k. get_or p (off % cap) 0 ∷ take (suc n) (drop k p)) (sym e)
    ∙ ap (λ t. get_or p (off % cap) 0 ∷ t)
        (take-window p cap (off + 1) (suc n) l (omega (arith, e)))

-- `read_wrap` reads each byte at its offset modulo `cap`.
pub read_wrap-window :
    (p : List ℕ) (cap off n : ℕ)
    → 0 < cap
    → length p ≡ cap
    → n ≤ cap
    → read_wrap p cap off n ≡ window p cap off n
unfolding read_wrap
read_wrap-window p cap off zero h l k = unfold window in refl
read_wrap-window p cap off (suc n) h l k = elim (Bool-cases (leb (suc n) (cap - off % cap))) [
  | inl e ↦
      rw (nonzero, e) (take-window p cap off (suc n) l (omega (arith, leb→le _ _ e, mod-lt off h)))
  | inr e ↦ rw (nonzero, e) (wrapped (suc n) k (ground arith))
]
  where
    nonzero : (suc n == 0) ≡ false
    nonzero = ground arith

    wrapped :
        (m : ℕ)
        → m ≤ cap
        → cap - off % cap ≤ m
        → take (cap - off % cap) (drop (off % cap) p) ++ take (m - (cap - off % cap)) p
          ≡ window p cap off m
    wrapped m hm hs =
        let end_space = cap - off % cap in
        let z : (off + end_space) % cap ≡ 0 = mod_wrap off cap h in
        ap (λ t. t ++ take (m - end_space) p)
          (take-window p cap off end_space l (omega (arith, mod-lt off h)))
        ∙ ap (λ k. window p cap off end_space ++ take (m - end_space) (drop k p)) (sym z)
        ∙ ap (λ t. window p cap off end_space ++ t)
            (take-window p cap (off + end_space) (m - end_space) l (omega (arith, z)))
        ∙ sym (window-add p cap off end_space (m - end_space))
        ∙ ap (window p cap off) (omega arith)

window-set :
    (p : List ℕ) (cap off n i b : ℕ)
    → i < off
    → off + n ≤ i + cap
    → window (set p (i % cap) b) cap off n ≡ window p cap off n
unfolding window
window-set p cap off zero i b h k = refl
window-set p cap off (suc n) i b h k =
    ap₂ ◌∷◌ (get_or-set_ne p (i % cap) (off % cap) b 0 (mod-ne i off cap h (omega arith)))
      (window-set p cap (off + 1) n i b (omega arith) (omega arith))

window-set_above :
    (p : List ℕ) (cap off n i b : ℕ)
    → off + n ≤ i
    → i < off + cap
    → window (set p (i % cap) b) cap off n ≡ window p cap off n
unfolding window
window-set_above p cap off zero i b h k = refl
window-set_above p cap off (suc n) i b h k =
    ap₂ ◌∷◌
      (get_or-set_ne p (i % cap) (off % cap) b 0 (λ e. mod-ne off i cap (omega arith) k (sym e)))
      (window-set_above p cap (off + 1) n i b (omega arith) (omega arith))

-- Writing behind a window leaves it alone, as long as the two span at most `cap`.
pub window-put_above :
    (p : List ℕ) (cap off n i : ℕ) (bs : List ℕ)
    → off + n ≤ i
    → i + length bs ≤ off + cap
    → window (put p cap i bs) cap off n ≡ window p cap off n
unfolding put
window-put_above p cap off n i [] h k = refl
window-put_above p cap off n i (b ∷ bs) h k =
    window-put_above (set p (i % cap) b) cap off n (i + 1) bs (omega arith) (omega arith)
    ∙ window-set_above p cap off n i b h (omega arith)

put-keeps :
    (p : List ℕ) (cap i j : ℕ) (bs : List ℕ)
    → j < i
    → i + length bs ≤ j + cap
    → get_or (put p cap i bs) (j % cap) 0 ≡ get_or p (j % cap) 0
unfolding put
put-keeps p cap i j [] h k = refl
put-keeps p cap i j (b ∷ bs) h k =
    put-keeps (set p (i % cap) b) cap (i + 1) j bs (omega arith) (omega arith)
    ∙ get_or-set_ne p (i % cap) (j % cap) b 0 (λ e. mod-ne j i cap h (omega arith) (sym e))

-- What was written is read back.
pub window-put :
    (p : List ℕ) (cap off : ℕ) (bs : List ℕ)
    → 0 < cap
    → length p ≡ cap
    → length bs ≤ cap
    → window (put p cap off bs) cap off (length bs) ≡ bs
unfolding put window
window-put p cap off [] h l k = refl
window-put p cap off (b ∷ bs) h l k =
    ap₂ ◌∷◌
      (put-keeps (set p (off % cap) b) cap (off + 1) off bs (omega arith) (omega arith)
        ∙ get_or-set_self p (off % cap) b 0 (omega (arith, mod-lt off h)))
      (window-put (set p (off % cap) b) cap (off + 1) bs h (length-set p (off % cap) b ∙ l)
        (omega arith))
