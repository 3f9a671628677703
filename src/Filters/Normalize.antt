-- ===== src/Filters/Normalize.antt =====
-- `normalize` of `BinanceOrderRules` (providers/binance_filters.py) in the order of its checks.
use binance.Base.{
  ℕ, ◌*◌, ◌/◌, Bool, true, false, not, ◌&&◌, ◌||◌, Option, none, some, max, ltb, ◌==◌,
  if◌then◌else◌,
}
use binance.Filters.Rules.{
  Number, Name, quantity_name, price_name, reference_price_name, business_min_notional_name,
  FilterError, bad_step, quantity_violates, price_violates, below_minimum, exceeds_maximum, Checked,
  ok, error, ◌>>=◌, decimal, Rules,
}

-- `_floor_step`
unfoldable pub floor_step : ℕ → ℕ → Checked ℕ
floor_step value step = if step == 0 then error bad_step else ok (value / step * step)

-- Positive, at least the minimum, and at most the maximum, where 0 is no maximum.
abbrev pub within : ℕ → ℕ → ℕ → Bool
within minimum maximum n = ltb 0 n && not (ltb n minimum) && not (ltb 0 maximum && ltb maximum n)

abbrev pub step_of : Rules → Bool → ℕ
step_of r market = if market then r.market_step else r.lot_step

abbrev pub minimum_of : Rules → Bool → ℕ
minimum_of r market = if market then r.market_min else r.lot_min

abbrev pub maximum_of : Rules → Bool → ℕ
maximum_of r market = if market then r.market_max else r.lot_max

-- `qty`, floored to the step and checked against the limits.
unfoldable pub stepped : Name → FilterError → ℕ → ℕ → ℕ → Number → Checked ℕ
unfolding decimal floor_step
stepped name violates step minimum maximum n = do
  asked ← decimal name false n
  floored ← floor_step asked step
  (if within minimum maximum floored then ok floored else error violates)

abbrev given : Option Number → Number
given none = Number.malformed
given (some n) = n

unfoldable pub limit_price : Rules → Bool → Option Number → Checked (Option ℕ)
unfolding stepped
limit_price r true price = ok none
limit_price r false price = do
  p ← stepped price_name price_violates r.tick_size r.min_price r.max_price (given price)
  ok (some p)

abbrev at_reference : ℕ → Option Number → Checked (Option ℕ)
at_reference qty none = ok none
at_reference qty (some n) = do p ← decimal reference_price_name false n; ok (some (qty * p))

-- The value of the order: at the reference price, or at its own; a limit price is not 0.
unfoldable pub notional_of : ℕ → Option ℕ → Bool → Option Number → Checked (Option ℕ)
unfolding decimal
notional_of qty price true reference = at_reference qty reference
notional_of qty none false reference = ok none
notional_of qty (some p) false reference = at_reference qty (some (Number.number p))

abbrev pub below : ℕ → Option ℕ → Bool
below required none = true
below required (some n) = ltb n required

abbrev pub above : ℕ → Option ℕ → Bool
above most none = true
above most (some n) = ltb most n

abbrev pub required_min : Rules → Bool → ℕ → ℕ
required_min r market business =
    max (if not market || r.min_notional_market then r.min_notional else 0) business

unfoldable pub check_notional : Rules → Bool → ℕ → Option ℕ → Checked (Unit {0})
check_notional r market business notional =
    if ltb 0 (required_min r market business) && below (required_min r market business) notional
    then error below_minimum
    else if ltb 0 r.max_notional
        && (not market || r.max_notional_market)
        && above r.max_notional notional
    then error exceeds_maximum
    else ok tt

unfoldable pub normalize :
    Rules → Number → Option Number → Bool → Option Number → Number → Checked (ℕ × Option ℕ)
unfolding stepped limit_price notional_of check_notional decimal
normalize r quantity price market reference business = do
  qty ←
      stepped quantity_name quantity_violates (step_of r market) (minimum_of r market)
        (maximum_of r market) quantity
  p ← limit_price r market price
  notional ← notional_of qty p market reference
  least ← decimal business_min_notional_name true business
  checked ← check_notional r market least notional
  ok (qty, p)
