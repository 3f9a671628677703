-- ===== src/RtradePair/Tests.antt =====
-- Rounds over concrete venues.
use binance.Base.{
  ℕ, ◌≤◌, ◌-◌, ◌≡◌, ◌≢◌, refl, inl, inr, Bool, true, false, ◌||◌, none, some, List, [], ◌∷◌, ◌==◌,
  arith, if◌then◌else◌,
}
use binance.RtradePair.Types.{
  Side, buy, sell, Pair, stopping, open_order, closed, canceled, Ticket, Policy, complete,
  cancel_call, status_call, asked, exit_sent, market_sent, Log, Venue,
}
use binance.RtradePair.Prices.{quote_prices, anchored_exit_price}
use binance.RtradePair.Orders.{
  net_of, tolerance, side_total, filled, spent, record_first_fill, refresh, cancel_and_reconcile,
  cancel_each,
}
use binance.RtradePair.Start.{start}
use binance.RtradePair.Exit.{ensure_anchored_exit}
use binance.RtradePair.Step.{step, cancel_entry}
use binance.RtradePair.Stop.{submit_hard_stop}
use binance.RtradePair.Ledger.{ticketed, IsSized}
use binance.RtradePair.Rounds.{
  Move, starting, stepping, new_pair, new_world, drive, drive_flat, drive_stops, drive-IsSized,
}
use binance.RtradePair.Target.{IsAnchored, anchored_exit_price-IsAnchored}
use binance.RtradePair.Checkpoint.{incomplete, export_state, load_ticket, from_state}
use binance.RtradePair.Restored.{rebased, from_state-export_state}

abbrev policy : Policy
policy = record {
  adjustment = 20_000;
  quote_ttl = 32;
  fast_fill = 250_000;
  min_edge = 11_500;
  shock_stop = 40_000;
  hard_stop = 80_000;
  tick = 1;
}

abbrev ticket : Side → ℕ → ℕ → ℕ → Ticket
ticket buy price qty revision = record {
  order_id = 1;
  side = buy;
  price = price;
  qty = qty;
  active = true;
  revision = revision;
  is_stop = false;
}
ticket sell price qty revision = record {
  order_id = 2;
  side = sell;
  price = price;
  qty = qty;
  active = true;
  revision = revision;
  is_stop = false;
}

-- Both quotes are filled at once.
abbrev filling : Venue
filling = record {
  current_price = λ l. some 10_000;
  preflight_order = λ l side qty price. some 1;
  place_limit =
      λ l side price qty pair permit revision. some (some (ticket side price qty revision));
  place_market_exit = λ l side qty reason pair permit revision. some none;
  market_exit_allowed = none;
  order_status = λ l id.
      some (record { status = closed; filled_qty = 100_000; cost = 1_000_000_000; fee = 0 });
  cancel = λ l id. some false;
  last_place_failure_reason = λ l side. some none;
  recovery_blocked = λ l. false;
  recover_pair_intents = none;
  pair_recovery_blocked = none;
}

abbrev moves : List Move
moves = starting none 7 0 ∷ stepping 1 ∷ []

drive_completes : (drive filling policy 1 moves (new_world 100_000 buy)).pair.phase ≡ complete
unfolding drive start step quote_prices refresh record_first_fill filled side_total cancel_each
drive_completes = refl

drive_flat_example : net_of (drive filling policy 1 moves (new_world 100_000 buy)).pair ≤ tolerance
unfolding drive start step quote_prices refresh record_first_fill filled side_total cancel_each
drive_flat_example = drive_flat filling policy 1 100_000 buy moves refl

-- The purchase is filled at 10 000, the price falls to 5 000, and the sale is filled by 40 000 while it is
-- canceled for the hard stop; the market order is refused.
abbrev was_canceled : Log → Bool
was_canceled [] = false
was_canceled (asked (cancel_call id) ∷ l) = true
was_canceled (_ ∷ l) = was_canceled l

abbrev falling : Venue
falling = record filling {
  current_price = λ l. some 5_000;
  cancel = λ l id. some true;
  order_status = λ l id.
      if id == 1
      then some (record { status = closed; filled_qty = 100_000; cost = 1_000_000_000; fee = 0 })
      else if was_canceled l
      then some (record { status = canceled; filled_qty = 40_000; cost = 408_000_000; fee = 0 })
      else some (record { status = open_order; filled_qty = 0; cost = 0; fee = 0 });
}

abbrev fallen : List Move
fallen = starting (some 10_000) 7 0 ∷ stepping 20 ∷ []

-- The last order for exposure, of either kind.
last_exit : Log → Log
last_exit [] = []
last_exit (exit_sent side price qty revision bought sold ∷ l) =
    exit_sent side price qty revision bought sold ∷ []
last_exit (_ ∷ l) = last_exit l

last_market : Log → Log
last_market [] = []
last_market (market_sent side qty revision bought sold ∷ l) =
    market_sent side qty revision bought sold ∷ []
last_market (_ ∷ l) = last_market l

-- The market order is for the 60 000 that are left, and the limit order after it for the 100 000 of before.
stop_size :
    last_market (drive falling policy 1 fallen (new_world 100_000 buy)).log
    ≡ market_sent sell 60_000 0 100_000 40_000 ∷ []
unfolding drive start step quote_prices refresh record_first_fill filled side_total cancel_entry
    submit_hard_stop spent cancel_and_reconcile ensure_anchored_exit anchored_exit_price last_market
stop_size = refl

exit_size :
    last_exit (drive falling policy 1 fallen (new_world 100_000 buy)).log
    ≡ exit_sent sell 10_116 100_000 1 100_000 40_000 ∷ []
unfolding drive start step quote_prices refresh record_first_fill filled side_total cancel_entry
    submit_hard_stop spent cancel_and_reconcile ensure_anchored_exit anchored_exit_price last_exit
exit_size = refl

drive_stops_example : ticketed (drive falling policy 1 fallen (new_world 100_000 buy)).log ≤ 2
drive_stops_example = drive_stops falling policy 1 100_000 buy fallen

drive-IsSized_example : IsSized (drive falling policy 1 fallen (new_world 100_000 buy)).log
drive-IsSized_example = drive-IsSized falling policy 1 100_000 buy fallen

-- The sale is canceled unfilled before the purchase is filled; it is forgotten, with its revision.
abbrev was_read : Log → Bool
was_read [] = false
was_read (asked (status_call id) ∷ l) = (id == 1) || was_read l
was_read (_ ∷ l) = was_read l

abbrev forgetting : Venue
forgetting = record filling {
  order_status = λ l id.
      if id == 2
      then some (record { status = canceled; filled_qty = 0; cost = 0; fee = 0 })
      else if was_read l
      then some (record { status = closed; filled_qty = 100_000; cost = 1_000_000_000; fee = 0 })
      else some (record { status = open_order; filled_qty = 0; cost = 0; fee = 0 });
}

-- The order for the exposure is sent under revision 0 again.
exit_revision :
    last_exit
      (drive forgetting policy 1
        (stepping 2 ∷ [])
        (drive forgetting policy 1 moves (new_world 100_000 buy))).log
    ≡ exit_sent sell 10_200 100_000 0 100_000 0 ∷ []
unfolding drive start step quote_prices refresh record_first_fill filled side_total cancel_entry
    submit_hard_stop spent cancel_and_reconcile ensure_anchored_exit anchored_exit_price last_exit
exit_revision = refl

-- The average entry price 100 over 1 - edge is above 101, and rounded down to it.
anchored_below : anchored_exit_price policy sell 100 1 10 ≡ some 101
unfolding anchored_exit_price
anchored_below = refl

anchored_exit_price-IsAnchored_example : IsAnchored sell policy 100 1 101
unfolding anchored_exit_price
anchored_exit_price-IsAnchored_example =
    anchored_exit_price-IsAnchored policy sell 100 1 10 101 (omega arith) (omega arith)
      (omega arith) refl

-- A purchase was filled, and its stop order is sent.
abbrev stopped : Pair
stopped = record (new_pair 100_000 buy) {
  started_at = 40;
  first_fill_at = some 55;
  phase = stopping;
  tickets =
      ticket buy 9_800 100_000 0 ∷ record (ticket sell 9_000 100_000 0) { is_stop = true } ∷ [];
  stop_order = some 2;
}

-- The clock stands at 1500 where what was written at 60 is read.
from_state-export_state_example :
    (from_state 1_500 (export_state 60 stopped) ≡ some (rebased 60 1_500 stopped))
    × (1_500 - (rebased 60 1_500 stopped).started_at ≡ 60 - 40)
from_state-export_state_example =
    from_state-export_state stopped 60 1_500
      (record {
        positive = omega arith;
        tickets = (
          (omega arith, omega arith, omega arith),
          ((omega arith, omega arith, omega arith), tt),
        );
        stop = inr (by_number, refl, inl (refl, refl, tt));
        buys = omega arith;
        sells = omega arith;
      })
      (omega arith)
  where
    by_number : ◌≢◌ {A = ℕ} 1 2
    by_number e = omega arith

-- A checkpoint that older programs wrote while the round was stopping names no stop order.
from_state_older :
    elim (from_state 1_500 (export_state 60 (record stopped { stop_order = none }))) [
      | none ↦ none
      | some p ↦ p.stop_order
    ]
    ≡ some 2
unfolding from_state export_state load_ticket
from_state_older = refl

from_state_incomplete : from_state 1_500 incomplete ≡ none
unfolding from_state
from_state_incomplete = refl
