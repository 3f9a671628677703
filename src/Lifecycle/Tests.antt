-- ===== src/Lifecycle/Tests.antt =====
-- The properties of the order lifecycle at a concrete intent and venue.
use binance.Base.{refl, Bool, true, false, Option, none, some, []}
use binance.Outbox.Types.{buy, open_order, plus, blank, OrderStatus}
use binance.Lifecycle.Effects.{Intent, Log}
use binance.Lifecycle.Submit.{Ending, answered, bare, submit}
use binance.Lifecycle.Reconcile.{Setup, found, seen, reconcile}
use binance.Lifecycle.Ledger.{submit-IsSubmitted, IsSubmitted}
use binance.Lifecycle.Settlement.{IsSettled}
use binance.Lifecycle.Reconciled.{reconcile-IsSettled}

abbrev intent : Intent
intent = record {
  intent_id = 1;
  client_order_id = 2;
  symbol = 5;
  side = buy;
  requested_qty = 100;
  requested_price = some 50;
  created_at = 1000;
  order_id = none;
  submission_outcome = none;
  submission_reason = 0;
  refusal_reason = 0;
  submit_status = none;
  submitted_qty = none;
  submitted_price = none;
  submit_error = 0;
  lookup_misses = 0;
  lookup_error = none;
  status_error = none;
  last_status = none;
  filled_qty = 0;
  terminal_status = none;
  cancel_attempted_at = none;
  cancel_error = none;
}

abbrev durable : Option Intent → Log → Bool
durable p l = true

abbrev venue : Log → Ending
venue l = answered (bare 900)

submit-IsSubmitted_example : IsSubmitted 0 intent (submit durable venue intent [])
submit-IsSubmitted_example = submit-IsSubmitted durable venue intent []

abbrev open_status : OrderStatus
open_status = record {
  status = open_order;
  filled_qty = 40;
  cost = 2000;
  fee = plus 0;
  venue_status = blank;
}

-- An order that stays open past the age limit: it is canceled.
abbrev setup : Setup
setup = record {
  missing_confirmations = 2;
  retry_on_lookup_error = false;
  max_age = some 600;
  durable = durable;
  lookup = λ l. found (bare 900);
  status = λ l. seen open_status;
  cancel = λ l. none;
  clock = λ l. 2000;
}

reconcile-IsSettled_example : IsSettled 0 1 (reconcile setup intent [])
reconcile-IsSettled_example = reconcile-IsSettled setup intent [] refl
