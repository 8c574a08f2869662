-- ===== src/Base/Text.antt =====
-- Rust strings as their bytes: literals, and `String::from_utf8_lossy` of the standard library.
use Prim.Native.Nat.{ℕ, zero, suc, ◌≤◌, ◌<◌}
use Prim.Native.Char.{code}
use Prim.Native.String.{String}
use mathlib.Core.Path.{◌≡◌, refl}
use mathlib.Core.Bool.{Bool, true, false, ◌&&◌, ◌||◌}
use mathlib.Core.List.{List, [], ◌∷◌, ◌++◌}
use native.Mathlib.Omega.{arith}
use ngx_otel_rust.Base.Tests.{ltb, leb, ◌==◌, if◌then◌else◌}
use ngx_otel_rust.Base.Lists.{length, take, drop, get_or, All}

-- The bytes of an ASCII literal.
abbrev pub codes : String → List ℕ
codes String.[] = []
codes (String.◌∷◌ c s) = code c ∷ codes s

abbrev within : ℕ → ℕ → ℕ → Bool
within lo hi b = leb lo b && leb b hi

-- A continuation byte at the front of the rest.
cont_at : List ℕ → ℕ → Bool
cont_at r i = ltb i (length r) && within 0x80 0xbf (get_or r i 0)

-- The second byte that a lead byte of three or four allows.
second_ok : ℕ → List ℕ → Bool
second_ok b r =
    ltb 0 (length r)
    && ((b == 0xe0 && within 0xa0 0xbf (get_or r 0 0))
        || ((within 0xe1 0xec b || within 0xee 0xef b) && within 0x80 0xbf (get_or r 0 0))
        || (b == 0xed && within 0x80 0x9f (get_or r 0 0))
        || (b == 0xf0 && within 0x90 0xbf (get_or r 0 0))
        || (within 0xf1 0xf3 b && within 0x80 0xbf (get_or r 0 0))
        || (b == 0xf4 && within 0x80 0x8f (get_or r 0 0)))

-- Whether the sequence that `b` starts is valid, and how many bytes of the rest it takes; those of
-- an invalid one are replaced together.
utf8_step : ℕ → List ℕ → Bool × ℕ
unfolding cont_at second_ok
utf8_step b r =
    if ltb b 0x80
    then (true, 0)
    else if within 0xc2 0xdf b
    then (if cont_at r 0 then (true, 1) else (false, 0))
    else if within 0xe0 0xef b
    then (if second_ok b r then (if cont_at r 1 then (true, 2) else (false, 1)) else (false, 0))
    else if within 0xf0 0xf4 b
    then (if second_ok b r
        then (if cont_at r 1 then (if cont_at r 2 then (true, 3) else (false, 2)) else (false, 1))
        else (false, 0))
    else (false, 0)

-- Fuel: each round takes a byte at least.
lossy_loop : ℕ → List ℕ → List ℕ
unfolding utf8_step
lossy_loop zero bs = []
lossy_loop (suc f) [] = []
lossy_loop (suc f) (b ∷ r) =
    let step = utf8_step b r in
    let rest = lossy_loop f (drop step.1 r) in
    if step.0 then b ∷ (take step.1 r ++ rest) else 0xef ∷ (0xbf ∷ (0xbd ∷ rest))

unfoldable pub from_utf8_lossy : List ℕ → List ℕ
unfolding lossy_loop
from_utf8_lossy bs = lossy_loop (length bs) bs

abbrev pub IsAscii : ℕ → Type 0
IsAscii b = b < 128

lossy_loop_ascii : (f : ℕ) (bs : List ℕ) → length bs ≤ f → All IsAscii bs → lossy_loop f bs ≡ bs
unfolding lossy_loop
lossy_loop_ascii zero [] h a = refl
lossy_loop_ascii zero (b ∷ r) h a = absurd (omega arith)
lossy_loop_ascii (suc f) [] h a = refl
lossy_loop_ascii (suc f) (b ∷ r) h a = ground (arith, a.0, lossy_loop_ascii f r (omega arith) a.1)

-- ASCII text is kept as it is.
pub from_utf8_lossy_ascii : (bs : List ℕ) → All IsAscii bs → from_utf8_lossy bs ≡ bs
unfolding from_utf8_lossy
from_utf8_lossy_ascii bs a = lossy_loop_ascii (length bs) bs (omega arith) a

replaced : from_utf8_lossy (b'a' ∷ 0xe2 ∷ 0x82 ∷ b'b' ∷ []) ≡ b'a' ∷ 0xef ∷ 0xbf ∷ 0xbd ∷ b'b' ∷ []
unfolding from_utf8_lossy
replaced = refl
