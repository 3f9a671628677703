-- ===== src/Trailing/Tests.antt =====
-- The trailing stop on a concrete adapter, asset and state.
use binance.Base.{◌≡◌, refl, true, false, none, some, [], ◌∷◌, inl}
use binance.Base.Stateful.{IsReturned}
use binance.Trailing.Types.{
  run, Settings, Item, up, sell, Fill, done, not_terminal, sell_sent, Adapter, Entry, World, Log,
}
use binance.Trailing.Rules.{should_sell, sell_qty}
use binance.Trailing.Pending.{finish_pending}
use binance.Trailing.Process.{check_once}
use binance.Trailing.Orders.{IsSafe}
use binance.Trailing.Ticks.{check_once-IsSafe, check_once-IsReturned}
use binance.Trailing.Fills.{IsFinished, finish_pending-IsFinished}

abbrev settings : Settings
settings = record {
  enabled = true;
  min_notional = 10;
  rebuy_enabled = true;
  rebuy_bounce = 20_000;
  rebuy_skip_if_trend_down = true;
  sell_skip_if_trend_up = false;
  sell_fraction = 1_000_000;
  item_isolation = true;
  min_profit = 0;
}

abbrev item : Item
item = record { key = 1; asset = 2; pair = 3; trail = 100_000 }

abbrev entry : Entry
entry = record { peak = 100; rebuy = none; warmup_at = none; pending = none }

-- The price has fallen to 80 from a peak of 100.
abbrev adapter : Adapter
adapter = record {
  begin_tick = λ l. some true;
  assets = λ l. some (item ∷ []);
  free_qty = λ l asset. some 50_000;
  price = λ l pair. some (some 80);
  trend = λ l pair. some up;
  rebuy_configured_for = none;
  rebuy_enabled_for = none;
  cost_basis = λ l pair. none;
  execute_sell = λ l i qty price peak. done tt;
  execute_rebuy = λ l i qty price rb. done tt;
  reconcile_pending = λ l p. done not_terminal;
  load = λ l. some ((1, entry) ∷ []);
  save = λ l state. true;
  save_raises = λ l state. false;
  log_item_error = λ l key. true;
  log_tick_error = λ l. true;
}

abbrev fill : Fill
fill = record { intent = record { action = sell; rest = 0 }; filled_qty = 40_000; cost = 3_200_000 }

abbrev world : World
world = record { entry = entry; log = [] }

check_once-IsSafe_example : IsSafe settings adapter (check_once settings adapter []).1
check_once-IsSafe_example = check_once-IsSafe settings adapter [] tt

check_once-IsReturned_example : IsReturned (check_once settings adapter []).0
check_once-IsReturned_example =
    check_once-IsReturned settings adapter [] ((λ l key. refl), (λ l. refl)) refl
      (inl (refl, refl, (λ l state. refl)))

finish_pending-IsFinished_example :
    IsFinished settings adapter [] 3 80 fill entry
      (finish_pending settings adapter 3 80 fill world).1.entry
finish_pending-IsFinished_example = finish_pending-IsFinished settings adapter 3 80 fill world

-- The tick sends one sale of the whole free quantity.
sold : Log
sold = (check_once settings adapter []).1

sent_first : Log → Log
sent_first [] = []
sent_first (sell_sent i e qty price ∷ l) = sell_sent i e qty price ∷ []
sent_first (_ ∷ l) = sent_first l

tick_sells : sent_first sold ≡ sell_sent item entry 50_000 80 ∷ []
unfolding sent_first sold check_once should_sell sell_qty run
tick_sells = refl
