-- ===== src/Trailing/Rules.antt =====
-- The rules of the trailing stop on numbers (trailing_core.py).
use binance.Base.{ℕ, ◌+◌, ◌*◌, Bool, ◌&&◌, Option, min, ltb, leb, or_default}
use binance.Base.Rounding.{nearest}

abbrev pub million : ℕ
million = 1_000_000

-- A quantity is a number of 10^-12; eight decimals leave the multiples of 10^4.
abbrev pub eighth_decimal : ℕ
eighth_decimal = 10_000

-- `current <= peak * (1 - trail_pct / 100)`, written without a difference
unfoldable pub should_sell : ℕ → ℕ → ℕ → Bool
should_sell current peak trail =
    ltb 0 peak && ltb 0 trail && leb (current * million + peak * trail) (peak * million)

-- `round(free * sell_fraction, 8)`
unfoldable pub sell_qty : ℕ → ℕ → ℕ
sell_qty free fraction = nearest (free * fraction) (million * eighth_decimal) * eighth_decimal

-- `round(float(rb.get("qty", 0)), 8)`
unfoldable pub rebuy_qty : ℕ → ℕ
rebuy_qty qty = nearest qty eighth_decimal * eighth_decimal

-- `price * (1 + min_profit_pct / 100)`, in millionths of a price
abbrev pub warm_up_from : ℕ → ℕ → ℕ
warm_up_from price min_profit = price * (million + min_profit)

-- `rb["low"] = min(rb.get("low", price), price)`
unfoldable pub lowered : Option ℕ → ℕ → ℕ
lowered low price = min (or_default low price) price

-- `price < rb["low"] * (1 + rebuy_bounce_pct / 100)`
unfoldable pub no_bounce : ℕ → ℕ → ℕ → Bool
no_bounce price low bounce = ltb (price * million) (low * (million + bounce))
