-- ===== src/Decimal.antt =====
-- The decimal text of a number, which `format!("{n}")` gives.
pub mod Digits
use ngx_otel_rust.Base.{ℕ, zero, suc, ◌+◌, ◌/◌, ◌%◌, List, [], ◌∷◌, ◌++◌, ltb, if◌then◌else◌}

-- Fuel: one for each digit is enough.
digits : ℕ → ℕ → List ℕ
digits zero n = []
digits (suc f) n =
    let high = digits f (n / 10) in
    if ltb n 10 then (b'0' + n) ∷ [] else high ++ ((b'0' + n % 10) ∷ [])

-- A `u16` has five digits at most.
unfoldable pub decimal_u16 : ℕ → List ℕ
unfolding digits
decimal_u16 n = digits 5 n
