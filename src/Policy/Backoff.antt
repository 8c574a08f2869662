-- ===== src/Policy/Backoff.antt =====
-- The exponential backoff of drain/backoff.rs.
use ngx_otel_rust.Base.{
  ℕ, zero, suc, ◌+◌, ◌*◌, ◌-◌, ◌^◌, ◌≤◌, ◌<◌, ◌≡◌, sym, ap, false, arith, ltb, leb, ◌==◌, min,
  ltb→lt, leb→le, Bool-cases, inl, inr,
}
use ngx_otel_rust.Policy.{shl, leading_zeros, backoff_ms}

shl_mono : (x n m : ℕ) → shl x n ≤ shl x (m + n)
unfolding shl
shl_mono x n zero = let e : 0 + n ≡ n = omega arith in omega (arith, ap (shl x) e)
shl_mono x n (suc m) =
    let e : suc m + n ≡ suc (m + n) = omega arith in omega (arith, ap (shl x) e, shl_mono x n m)

pub shl_mono_le : (x n m : ℕ) → n ≤ m → shl x n ≤ shl x m
shl_mono_le x n m h = let e : (m - n) + n ≡ m = omega arith in rw (sym e) (shl_mono x n (m - n))

shl_base : (x y n : ℕ) → x ≤ y → shl x n ≤ shl y n
unfolding shl
shl_base x y zero h = omega arith
shl_base x y (suc n) h = omega (arith, shl_base x y n h)

-- Shifting by the leading zeros sets the top bit, and no more.
shl-leading_zeros :
    (w x : ℕ)
    → 1 ≤ x
    → x < shl 1 w
    → (shl 1 w ≤ 2 * shl x (leading_zeros w x)) × (shl x (leading_zeros w x) < shl 1 w)
unfolding shl leading_zeros
shl-leading_zeros zero x pos h = ground arith
shl-leading_zeros (suc w) x pos h = elim (Bool-cases (ltb x (shl 1 w))) [
  | inl small ↦ rw (small) (ground (arith, shl-leading_zeros w x pos (ltb→lt x (shl 1 w) small)))
  | inr large ↦ rw (large) (ground (arith))
]

-- The delay before retry `n` is the base doubled `n - 1` times and cut at the cap, without wrapping
-- around, for every base of 64 bits above 0 and a cap of at most 2 ^ 63.
pub backoff_ms-min :
    (n base_ms cap_ms : ℕ)
    → 1 ≤ base_ms
    → base_ms < 2 ^ 64
    → cap_ms ≤ 2 ^ 63
    → backoff_ms n base_ms cap_ms ≡ min (shl base_ms (n - 1)) cap_ms
unfolding backoff_ms shl
backoff_ms-min n base_ms cap_ms pos fits cap = elim (Bool-cases (leb lz (n - 1))) [
  | inl deep ↦
      rw (nonzero, deep)
        (ground (arith, top, shl_mono_le base_ms lz (n - 1) (leb→le lz (n - 1) deep)))
  | inr room ↦
      rw (nonzero, room)
        (let small : shl base_ms (n - 1) < 2 ^ 64 =
            omega (arith, top, shl_mono_le base_ms (n - 1) lz (ground (arith, room))) in
          ap (λ k. min k cap_ms) (omega (arith, small)))
]
  where
    lz : ℕ
    lz = leading_zeros 64 base_ms

    nonzero : (base_ms == 0) ≡ false
    nonzero = ground (arith, pos)

    top : (2 ^ 64 ≤ 2 * shl base_ms lz) × (shl base_ms lz < 2 ^ 64)
    top = shl-leading_zeros 64 base_ms pos fits

-- For a base from 1 up to 64 bits and a cap of at most 2 ^ 63, the delay never falls from one
-- failure to the next.
pub backoff_ms_mono :
    (n base_ms cap_ms : ℕ)
    → 1 ≤ base_ms
    → base_ms < 2 ^ 64
    → cap_ms ≤ 2 ^ 63
    → backoff_ms n base_ms cap_ms ≤ backoff_ms (suc n) base_ms cap_ms
backoff_ms_mono n base_ms cap_ms pos fits cap = omega (
  arith,
  backoff_ms-min n base_ms cap_ms pos fits cap,
  backoff_ms-min (suc n) base_ms cap_ms pos fits cap,
  shl_mono_le base_ms (n - 1) (suc n - 1) (omega arith),
)
