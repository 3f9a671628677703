-- ===== src/RtradePair/Prices.antt =====
-- The prices of the quotes and of the order that closes exposure (strategies/rtrade_pair.py).
use binance.Base.{ℕ, ◌+◌, ◌-◌, ◌*◌, ◌||◌, Option, none, some, leb, ◌==◌, if◌then◌else◌}
use binance.Base.Rounding.{nearest}
use binance.RtradePair.Types.{Side, buy, sell, Policy}

abbrev pub million : ℕ
million = 1_000_000

-- `round(n / d, decimals)`
abbrev pub rounded : ℕ → ℕ → ℕ → ℕ
rounded n d tick = nearest n (d * tick) * tick

abbrev pub quotes : Policy → ℕ → ℕ × ℕ
quotes policy mid = (
  rounded (mid * (million - policy.adjustment)) million policy.tick,
  rounded (mid * (million + policy.adjustment)) million policy.tick,
)

-- The bid and the ask; no price is refused.
unfoldable pub quote_prices : Policy → ℕ → Option (ℕ × ℕ)
quote_prices policy mid = if mid == 0 then none else some (quotes policy mid)

-- `current_price * (1 + adjustment)` or the cost over `1 - edge`, whichever is more; as fractions.
abbrev pub sell_target : Policy → ℕ → ℕ → ℕ → ℕ
sell_target policy cost qty current =
    if leb (current * (million + policy.adjustment) * (qty * (million - policy.min_edge)))
      (cost * million * million)
    then rounded (cost * million) (qty * (million - policy.min_edge)) policy.tick
    else rounded (current * (million + policy.adjustment)) million policy.tick

-- `current_price * (1 - adjustment)` or the cost times `1 - edge`, whichever is less.
abbrev pub buy_target : Policy → ℕ → ℕ → ℕ → ℕ
buy_target policy cost qty current =
    if leb (current * (million - policy.adjustment) * (qty * million))
      (cost * (million - policy.min_edge) * million)
    then rounded (current * (million - policy.adjustment)) million policy.tick
    else rounded (cost * (million - policy.min_edge)) (qty * million) policy.tick

abbrev pub target : Side → Policy → ℕ → ℕ → ℕ → ℕ
target sell = sell_target
target buy = buy_target

-- `anchored_exit_price`; the fill price is cost over quantity. A price that is not positive is refused.
unfoldable pub anchored_exit_price : Policy → Side → ℕ → ℕ → ℕ → Option ℕ
anchored_exit_price policy side cost qty current =
    if cost == 0 || current == 0 then none else some (target side policy cost qty current)
