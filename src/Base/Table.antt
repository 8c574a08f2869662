-- ===== src/Base/Table.antt =====
-- Equations between two functions on a small range, checked at every value.
use Prim.Native.Nat.{ℕ, zero, suc, ◌<◌}
use mathlib.Core.Path.{◌≡◌, ap, ◌∙◌}
use mathlib.Core.Logic.{inl, inr}
use mathlib.Core.Bool.{Bool, true, ◌&&◌}
use native.Mathlib.Omega.{arith}
use ngx_otel_rust.Base.Tests.{◌==◌, ==_iff, ltb, Bool-cases}

unfoldable pub every_under : (test : ℕ → Bool) (bound : ℕ) → Bool
every_under test zero = true
every_under test (suc bound) = every_under test bound && test bound

-- A test that passes at every value of the range passes at one of them.
pub every_under-at :
    (test : ℕ → Bool) (bound k : ℕ) → k < bound → every_under test bound ≡ true → test k ≡ true
unfolding every_under
every_under-at test zero k inside passed = ground (arith, inside)
every_under-at test (suc bound) k inside passed = elim (Bool-cases (ltb k bound)) [
  | inl lower ↦ every_under-at test bound k (ground (arith, lower)) (ground (arith, passed))
  | inr last ↦
      (let is_bound : k ≡ bound = ground (arith, inside, last) in
        ap test is_bound ∙ ground (arith, passed))
]

pub eq_below :
    (n : ℕ) (f g : ℕ → ℕ) → every_under (λ k. f k == g k) n ≡ true → (k : ℕ) → k < n → f k ≡ g k
eq_below n f g passed k inside =
    (==_iff (f k) (g k)).0 (every_under-at (λ j. f j == g j) n k inside passed)
