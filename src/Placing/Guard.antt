-- ===== src/Placing/Guard.antt =====
-- The guards that know no venue (order_guard.py). Prices are numbers of 10^-8, margins and weights parts of a
-- million, the times of trades milliseconds and the other times whole seconds.
use binance.Base.{
  ℕ, ◌+◌, ◌-◌, ◌*◌, ◌/◌, Bool, true, false, not, ◌||◌, Option, none, some, List, [], ◌∷◌, min, max,
  any, keep_if, length, ltb, leb, ◌==◌, if◌then◌else◌,
}
use binance.Outbox.Types.{Side, million}
use binance.Placing.Types.{is_buy}

-- `diff < profit_percentage`, where `value_diff_to_percent` (utils.py) gives its second argument, a price, as
-- the percentage if the first is 0.
unfoldable pub is_below : Side → ℕ → ℕ → ℕ → Bool
is_below side ref price margin =
    if is_buy side
    then ltb (ref * million) (margin * ref + price * million)
    else if price == 0
    then ltb ref (margin * 10_000)
    else ltb (price * million) (margin * price + ref * million)

-- `profit_guard` against its reference; no reference, or 0, lets every order through.
unfoldable pub profit_guard : Side → ℕ → ℕ → Option ℕ → Bool
unfolding is_below
profit_guard side price margin none = true
profit_guard side price margin (some ref) = (ref == 0) || not (is_below side ref price margin)

abbrev pub lowest : List ℕ → Option ℕ
lowest [] = none
lowest (p ∷ ps) = elim (lowest ps) [ none ↦ some p | some q ↦ some (min p q) ]

abbrev pub highest : List ℕ → Option ℕ
highest [] = none
highest (p ∷ ps) = elim (highest ps) [ none ↦ some p | some q ↦ some (max p q) ]

-- `window_reference`: the prices are those of the orders of the other side in the window.
unfoldable pub window_reference : Side → ℕ → List ℕ → Option ℕ
window_reference side window prices =
    let positive = keep_if (λ p. ltb 0 p) prices in
    if window == 0 then none else if is_buy side then lowest positive else highest positive

pub data Limit : Type 0 where
  within over recent : Limit

abbrev pub is_recent : ℕ → ℕ → Option ℕ → Bool
is_recent now seconds none = false
is_recent now seconds (some time) = leb now (time + seconds * 1_000)

-- `daily_limit_guard` on the times of the trades of the last `window` seconds.
unfoldable pub daily_limit_guard : ℕ → ℕ → ℕ → ℕ → List (Option ℕ) → Limit
daily_limit_guard most window seconds now trades =
    let days = max ((window + 86_399) / 86_400) 1 in
    if ltb (most * days) (length trades)
    then over
    else if any (is_recent now seconds) trades
    then recent
    else within

-- A weight that is missing, not positive or not to be had is no weight; the proxy is asked where the symbol has
-- none, and 0.03 is taken where neither has one.
abbrev pub weight_or : Option ℕ → ℕ → ℕ
weight_or none default = default
weight_or (some w) default = if w == 0 then default else w

abbrev pub weight_of : Option ℕ → Option ℕ → ℕ
weight_of own proxy = weight_or own (weight_or proxy 30_000)

abbrev pub traded_value : List (ℕ × ℕ) → ℕ
traded_value [] = 0
traded_value ((price, qty) ∷ rest) = price * qty + traded_value rest

-- The quantity that is left for the day, rounded down to a unit.
abbrev pub remaining_qty : ℕ → ℕ → ℕ → ℕ → ℕ
remaining_qty weight traded available price =
    if price == 0
    then 0
    else ((traded + available * price) * weight - traded * million) / (price * million)

-- `min` with a number that may be infinite, which is `none`.
abbrev pub at_most : Option ℕ → ℕ → ℕ
at_most none n = n
at_most (some m) n = min m n

-- `weight_limit`
unfoldable pub weight_limit : Option ℕ → ℕ → ℕ → ℕ → List (ℕ × ℕ) → ℕ
weight_limit required available price weight trades =
    at_most required (remaining_qty weight (traded_value trades) available price)
