-- ===== src/Base/Rounding.antt =====
-- Rounding of a fraction to the nearest whole number.
use Prim.Native.Nat.{ℕ, ◌+◌, ◌*◌, ◌/◌, ◌%◌, ◌≤◌, ◌<◌}
use mathlib.Core.Bool.{◌&&◌, ◌||◌}
use native.Mathlib.Omega.{arith}
use binance.Base.Tests.{ltb, ◌==◌, if◌then◌else◌}

-- The nearest whole number to n / d, the even one of two, as `round` has it.
abbrev pub nearest : ℕ → ℕ → ℕ
nearest n d =
    let q = n / d in
    let r = n % d in if ltb (r + r) d || ((r + r == d) && (q % 2 == 0)) then q else q + 1

-- The rounded number misses the fraction by half a unit at most.
pub nearest_bounds :
    (n d : ℕ) → 0 < d → (2 * n ≤ 2 * (nearest n d * d) + d) × (2 * (nearest n d * d) ≤ 2 * n + d)
nearest_bounds n d h = grind arith
