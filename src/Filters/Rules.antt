-- ===== src/Filters/Rules.antt =====
-- `BinanceOrderRules` (providers/binance_filters.py) and its parser. Decimals are whole numbers of one unit
-- small enough for every step, price and quantity; a notional, their product, is in units of its square.
use binance.Base.{ℕ, Bool, true, false, not, ◌&&◌, Option, none, some, ◌==◌, if◌then◌else◌}

-- A decimal argument: `malformed` is what Decimal refuses, what is not finite, and what is negative.
pub data Number : Type 0 where
  malformed : Number
  number : ℕ → Number

-- The `name` that a refused number is reported under.
pub data Name : Type 0 where
  quantity_name price_name reference_price_name business_min_notional_name : Name
  tick_size_name min_price_name max_price_name step_size_name min_qty_name max_qty_name : Name
  market_step_size_name market_min_qty_name market_max_qty_name : Name
  min_notional_name max_notional_name : Name

-- `BinanceFilterError`, by the place where it is raised.
pub data FilterError : Type 0 where
  missing_metadata mandatory_filters mandatory_assets bad_step : FilterError
  invalid : Name → FilterError
  quantity_violates price_violates below_minimum exceeds_maximum : FilterError

pub data Checked {ℓ} (A : Type ℓ) : Type ℓ where
  ok : A → Checked A
  error : FilterError → Checked A

infixl 5 ◌>>=◌
abbrev pub ◌>>=◌ : {A B : Type 0} → Checked A → (A → Checked B) → Checked B
m >>= f = elim m [ ok a ↦ f a | error e ↦ error e ]

-- `_decimal`; the second argument is `allow_zero`.
unfoldable pub decimal : Name → Bool → Number → Checked ℕ
decimal name allow_zero malformed = error (invalid name)
decimal name allow_zero (number n) = if not allow_zero && n == 0 then error (invalid name) else ok n

pub data RefusalReason : Type 0 where
  below_min_notional filter_unavailable filter_refused : RefusalReason

-- `binance_filter_refusal_reason`
unfoldable pub refusal_reason : FilterError → RefusalReason
refusal_reason below_minimum = below_min_notional
refusal_reason (invalid reference_price_name) = filter_unavailable
refusal_reason _ = filter_refused

pub record Rules : Type 0 where
  pub tick_size : ℕ
  pub min_price : ℕ
  pub max_price : ℕ
  pub lot_step : ℕ
  pub lot_min : ℕ
  pub lot_max : ℕ
  pub market_step : ℕ
  pub market_min : ℕ
  pub market_max : ℕ
  pub min_notional : ℕ
  pub max_notional : ℕ
  pub min_notional_market : Bool
  pub max_notional_market : Bool
  pub base_asset : ℕ
  pub quote_asset : ℕ

-- A row of a filter with a range and a step: PRICE_FILTER, LOT_SIZE or MARKET_LOT_SIZE.
pub record Range : Type 0 where
  pub step : Number
  pub least : Number
  pub most : Number

-- A NOTIONAL row; a MIN_NOTIONAL row has no maximum, which then is 0 and never applied.
pub record Notional : Type 0 where
  pub least : Number
  pub most : Number
  pub least_to_market : Bool
  pub most_to_market : Bool

-- The metadata of a symbol; an asset 0 is a blank text.
pub record SymbolInfo : Type 0 where
  pub price_filter : Option Range
  pub lot_size : Option Range
  pub market_lot_size : Option Range
  pub notional : Option Notional
  pub min_notional_row : Option (Number × Bool)
  pub base : ℕ
  pub quote : ℕ

-- A step that is not positive counts as no market filter.
abbrev market_row : Range → Range → Number → Range
market_row lot market malformed = lot
market_row lot market (number n) = if n == 0 then lot else market

abbrev market_range : Range → Option Range → Range
market_range lot none = lot
market_range lot (some market) = market_row lot market market.step

abbrev notional_limits :
    Option Notional → Option (Number × Bool) → Checked ((ℕ × ℕ) × (Bool × Bool))
notional_limits (some n) row = do
  least ← decimal min_notional_name true n.least
  most ← decimal max_notional_name true n.most
  ok ((least, most), (n.least_to_market, n.most_to_market))
notional_limits none (some (least, to_market)) = do
  least ← decimal min_notional_name true least
  ok ((least, 0), (to_market, false))
notional_limits none none = ok ((0, 0), (false, false))

abbrev both_rows : Option Range → Option Range → Checked (Range × Range)
both_rows (some price) (some lot) = ok (price, lot)
both_rows _ _ = error mandatory_filters

-- `from_symbol_info`; `none` is metadata that is no object.
unfoldable pub from_symbol_info : Option SymbolInfo → Checked Rules
unfolding decimal
from_symbol_info none = error missing_metadata
from_symbol_info (some info) = do
  (price, lot) ← both_rows info.price_filter info.lot_size
  let market = market_range lot info.market_lot_size
  ((min_notional, max_notional), (min_market, max_market)) ←
      notional_limits info.notional info.min_notional_row
  checked ←
      if info.base == 0
      then error mandatory_assets
      else if info.quote == 0
      then error mandatory_assets
      else ok tt
  tick_size ← decimal tick_size_name false price.step
  min_price ← decimal min_price_name true price.least
  max_price ← decimal max_price_name true price.most
  lot_step ← decimal step_size_name false lot.step
  lot_min ← decimal min_qty_name true lot.least
  lot_max ← decimal max_qty_name true lot.most
  market_step ← decimal market_step_size_name false market.step
  market_min ← decimal market_min_qty_name true market.least
  market_max ← decimal market_max_qty_name true market.most
  ok (record {
    tick_size = tick_size;
    min_price = min_price;
    max_price = max_price;
    lot_step = lot_step;
    lot_min = lot_min;
    lot_max = lot_max;
    market_step = market_step;
    market_min = market_min;
    market_max = market_max;
    min_notional = min_notional;
    max_notional = max_notional;
    min_notional_market = min_market;
    max_notional_market = max_market;
    base_asset = info.base;
    quote_asset = info.quote;
  })
