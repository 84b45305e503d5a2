-- ===== src/Base/Float.antt =====
-- 64-bit floats of positive numbers that are neither tiny nor huge: the rounding of a quotient to 53
-- bits, to the nearest and on a tie to the even one. `(m, s)` is `m / 2 ^ s`.
use Prim.Native.Nat.{ℕ, zero, suc, ◌+◌, ◌-◌, ◌*◌, ◌/◌, ◌%◌, ◌^◌, ◌≤◌}
use mathlib.Core.Path.{◌≡◌}
use mathlib.Core.Bool.{◌&&◌, ◌||◌}
use native.Mathlib.Nat.{pow-succ'}
use native.Mathlib.Omega.{arith}
use godwit.Base.Tests.{leb, ltb, nat_beq, if◌then◌else◌}

abbrev pub F64 : Type 0
F64 = ℕ × ℕ

-- The numerator, doubled until the quotient has 53 bits, and how often.
pub normal : ℕ → ℕ → ℕ → ℕ → ℕ × ℕ
normal zero n d s = (n, s)
normal (suc fuel) n d s =
    let rest = normal fuel (n + n) d (suc s) in
    if leb (4_503_599_627_370_496 * d) n then (n, s) else rest

-- `n / d` to the nearest number.
abbrev pub nearest : ℕ → ℕ → ℕ
nearest n d =
    let q = n / d in
    let r = n % d in if ltb (r + r) d || (nat_beq (r + r) d && nat_beq (q % 2) 0) then q else q + 1

-- The float nearest to `n / d`, which is from 2^-68 up to 2^53.
unfoldable pub round : ℕ → ℕ → F64
unfolding normal
round n d = let (n', s) = normal 120 n d 0 in (nearest n' d, s)

unfoldable pub div : F64 → F64 → F64
unfolding round
div (m, s) (m', s') = round (m * 2 ^ s') (m' * 2 ^ s)

-- `ceil`
abbrev pub ceil : F64 → ℕ
ceil (m, s) = (m + (2 ^ s - 1)) / 2 ^ s

-- As many doublings as there is fuel are enough for a quotient that is not too small.
pub normal_reaches :
    (fuel n d s : ℕ)
    → 4_503_599_627_370_496 * d ≤ n * 2 ^ fuel
    → 4_503_599_627_370_496 * d ≤ (normal fuel n d s).0
unfolding normal
normal_reaches zero n d s h = omega (arith, h)
normal_reaches (suc fuel) n d s h =
    let twice : n * 2 ^ suc fuel ≡ (n + n) * 2 ^ fuel = grind (arith, pow-succ' 2 fuel) in
    let ih = normal_reaches fuel (n + n) d (suc s) (omega (arith, twice, h)) in ground (arith, ih)
