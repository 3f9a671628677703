-- ===== src/RtradePair/Target.antt =====
-- The price of the order that closes exposure keeps the edge, but for its rounding (strategies/rtrade_pair.py).
use binance.Base.{
  ℕ, ◌+◌, ◌-◌, ◌*◌, ◌≤◌, ◌<◌, ◌≡◌, sym, ap, ◌∙◌, subst, Bool, true, false, ◌||◌, ◌⊎◌, inl, inr,
  none, some, leb, ◌==◌, Bool-cases, arith, if◌then◌else◌,
}
use native.Mathlib.Nat.{mul_comm, mul_assoc, mul-le-mul_right, add-mul}
use binance.Base.Rounding.{nearest, nearest_bounds}
use binance.RtradePair.Types.{Side, buy, sell, Policy}
use binance.RtradePair.Prices.{
  million, rounded, sell_target, buy_target, target, anchored_exit_price,
}

-- A rounded fraction is off by half a tick at most.
rounded_bounds :
    (n d tick : ℕ)
    → 0 < d
    → 0 < tick
    → (2 * n ≤ (2 * rounded n d tick + tick) * d) × (2 * (rounded n d tick * d) ≤ 2 * n + tick * d)
rounded_bounds n d tick positive ticks =
    by_bounds (nearest n (d * tick)) (nearest_bounds n (d * tick) (grind arith))
  where
    by_bounds :
        (q : ℕ)
        → (2 * n ≤ 2 * (q * (d * tick)) + d * tick) × (2 * (q * (d * tick)) ≤ 2 * n + d * tick)
        → (2 * n ≤ (2 * (q * tick) + tick) * d) × (2 * (q * tick * d) ≤ 2 * n + tick * d)
    by_bounds q (low, high) = (grind arith, grind arith)

-- With cost over quantity the average entry price, a sale is at that over 1 - edge less half a tick at least,
-- and a purchase at that times 1 - edge and half a tick at most.
abbrev pub IsAnchored : Side → Policy → ℕ → ℕ → ℕ → Type 0
IsAnchored sell policy cost qty price =
    2 * (cost * million) ≤ (2 * price + policy.tick) * (qty * (million - policy.min_edge))
IsAnchored buy policy cost qty price =
    2 * (price * (qty * million))
    ≤ 2 * (cost * (million - policy.min_edge)) + policy.tick * (qty * million)

mul_pos : (a b : ℕ) → 0 < a → 0 < b → 0 < a * b
mul_pos a b p q = grind arith

swap_last : (a b c : ℕ) → a * b * c ≡ a * c * b
swap_last a b c = mul_assoc a b c ∙ ap (λ x. a * x) (mul_comm b c) ∙ sym (mul_assoc a c b)

-- The larger of two fractions f / g and m / million is met, so the other is met too.
above_smaller : (f g m b : ℕ) → f * million ≤ m * g → 2 * m ≤ b * million → 2 * f ≤ b * g
above_smaller f g m b less bound =
    let scaled : 2 * m * g ≤ b * million * g = mul-le-mul_right g bound in
    omega (arith, scaled, swap_last b million g, mul_assoc 2 m g)

-- The smaller of two is not passed, so the other is not passed either.
below_larger :
    (f g m price tick : ℕ)
    → m * g ≤ f * million
    → 2 * (price * million) ≤ 2 * m + tick * million
    → 2 * (price * g) ≤ 2 * f + tick * g
below_larger f g m price tick less bound =
    let scaled : 2 * (price * million) * g ≤ (2 * m + tick * million) * g =
      mul-le-mul_right g bound in
    omega (
      arith,
      scaled,
      mul_assoc 2 (price * million) g,
      swap_last price million g,
      add-mul (2 * m) (tick * million) g,
      swap_last tick million g,
      mul_assoc 2 m g,
    )

module _ (policy : Policy) (cost qty current : ℕ) (ticks : 0 < policy.tick) where
  sell_target-IsAnchored :
      0 < qty * (million - policy.min_edge)
      → IsAnchored sell policy cost qty (sell_target policy cost qty current)
  sell_target-IsAnchored positive = by_test (Bool-cases (leb (m * g) (cost * million * million)))
    where
      g : ℕ
      g = qty * (million - policy.min_edge)

      m : ℕ
      m = current * (million + policy.adjustment)

      by_test :
          (leb (m * g) (cost * million * million) ≡ true)
            ⊎ (leb (m * g) (cost * million * million) ≡ false)
          → 2 * (cost * million)
            ≤ (2
                  * (if leb (m * g) (cost * million * million)
                      then rounded (cost * million) g policy.tick
                      else rounded m million policy.tick)
                + policy.tick)
              * g
      by_test (inl floor) =
          rw floor (rounded_bounds (cost * million) g policy.tick positive ticks).0
      by_test (inr market) = rw market (
          above_smaller (cost * million) g m (2 * rounded m million policy.tick + policy.tick)
            (ground arith) (rounded_bounds m million policy.tick (omega arith) ticks).0)

  buy_target-IsAnchored :
      0 < qty * million → IsAnchored buy policy cost qty (buy_target policy cost qty current)
  buy_target-IsAnchored positive = by_test (Bool-cases (leb (m * g) (f * million)))
    where
      f : ℕ
      f = cost * (million - policy.min_edge)

      g : ℕ
      g = qty * million

      m : ℕ
      m = current * (million - policy.adjustment)

      by_test :
          (leb (m * g) (f * million) ≡ true) ⊎ (leb (m * g) (f * million) ≡ false)
          → 2
              * ((if leb (m * g) (f * million)
                    then rounded m million policy.tick
                    else rounded f g policy.tick)
                  * g)
            ≤ 2 * f + policy.tick * g
      by_test (inl market) = rw market (
          below_larger f g m (rounded m million policy.tick) policy.tick (ground arith)
            (rounded_bounds m million policy.tick (omega arith) ticks).1)
      by_test (inr ceiling) = rw ceiling (rounded_bounds f g policy.tick positive ticks).1

-- Where a price is given for the order that closes exposure, it keeps the edge to the average entry price but
-- for half a tick, whatever the current price is: a sale times 1 - edge misses that price by at most half a
-- tick times 1 - edge, a purchase passes that price times 1 - edge by at most half a tick.
pub anchored_exit_price-IsAnchored :
    (policy : Policy) (side : Side) (cost qty current price : ℕ)
    → 0 < policy.tick
    → policy.min_edge < million
    → 0 < qty
    → anchored_exit_price policy side cost qty current ≡ some price
    → IsAnchored side policy cost qty price
unfolding anchored_exit_price
anchored_exit_price-IsAnchored policy side cost qty current price ticks edge held given =
    subst (IsAnchored side policy cost qty) (by_test (cost == 0 || current == 0) given)
      (by_side side)
  where
    by_test :
        (b : Bool)
        → (if b then none else some (target side policy cost qty current)) ≡ some price
        → target side policy cost qty current ≡ price
    by_test true same = cc
    by_test false same = cc

    by_side : (s : Side) → IsAnchored s policy cost qty (target s policy cost qty current)
    by_side sell =
        sell_target-IsAnchored policy cost qty current ticks
          (mul_pos qty (million - policy.min_edge) held (omega arith))
    by_side buy =
        buy_target-IsAnchored policy cost qty current ticks (mul_pos qty million held (omega arith))
