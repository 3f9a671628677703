-- ===== src/Filters/Tests.antt =====
-- The filters at a concrete symbol: steps of 10 for the quantity and 5 for the price.
use binance.Base.{Option, ℕ, ◌≡◌, refl, true, false, inl, inr, none, some, arith}
use binance.Filters.Rules.{number, ok, Rules, decimal}
use binance.Filters.Normalize.{
  normalize, floor_step, stepped, limit_price, notional_of, check_notional,
}
use binance.Filters.Steps.{IsStepped}
use binance.Filters.Market.{IsWorth, normalize-IsWorth}
use binance.Filters.Admitted.{IsAdmitted, normalize-IsAdmitted, normalize-idempotent}

abbrev rules : Rules
rules = record {
  tick_size = 5;
  min_price = 5;
  max_price = 0;
  lot_step = 10;
  lot_min = 20;
  lot_max = 9000;
  market_step = 10;
  market_min = 20;
  market_max = 9000;
  min_notional = 1000;
  max_notional = 0;
  min_notional_market = true;
  max_notional_market = false;
  base_asset = 1;
  quote_asset = 2;
}

let_through :
    normalize rules (number 107) (some (number 53)) false none (number 0) ≡ ok (100, some 50)
unfolding normalize stepped limit_price notional_of check_notional decimal floor_step
let_through = refl

normalize-IsAdmitted_example :
    (n least asked x : ℕ) × (number 107 ≡ number n)
    × (number 0 ≡ number least)
    × (some (number 53) ≡ some (number asked))
    × (some 50 ≡ some x)
    × IsAdmitted rules least n asked 100 x
normalize-IsAdmitted_example =
    normalize-IsAdmitted rules (number 107) (some (number 53)) none (number 0) let_through

admitted : IsAdmitted rules 0 107 53 100 50
admitted = record {
  stepped_qty = record {
    no_more = omega arith;
    nearest = omega arith;
    multiple = (10, refl);
    positive = omega arith;
    at_least = omega arith;
    at_most = inr (omega arith);
  };
  stepped_price = record {
    no_more = omega arith;
    nearest = omega arith;
    multiple = (10, refl);
    positive = omega arith;
    at_least = omega arith;
    at_most = inl refl;
  };
  worth_exchange = omega arith;
  worth_caller = omega arith;
  not_above = inl refl;
}

normalize-idempotent_example :
    normalize rules (number 100) (some (number 50)) false none (number 0) ≡ ok (100, some 50)
normalize-idempotent_example = normalize-idempotent rules none 0 107 53 100 50 admitted

abbrev no_price : Option ℕ
no_price = none

sold_at_market :
    normalize rules (number 107) none true (some (number 53)) (number 900) ≡ ok (100, none)
unfolding normalize stepped limit_price notional_of check_notional decimal floor_step
sold_at_market = refl

normalize-IsWorth_example :
    (n least : ℕ) × (number 107 ≡ number n)
    × (number 900 ≡ number least)
    × (no_price ≡ none)
    × IsStepped 10 20 9000 n 100
    × IsWorth least 100 (some (number 53))
normalize-IsWorth_example =
    normalize-IsWorth rules (number 107) none (some (number 53)) (number 900) sold_at_market
