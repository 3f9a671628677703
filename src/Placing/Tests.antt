-- ===== src/Placing/Tests.antt =====
-- `Instrument.place` (instrument.py), its guards and its decision on the quantity, at concrete calls.
use binance.Base.{
  Has, ◌≡◌, ◌+◌, ◌*◌, ◌≤◌, refl, arith, true, false, inl, inr, none, some, [], ◌∷◌, ℕ, or_default,
}
use binance.Outbox.Types.{Rec, sell, own}
use binance.Outbox.Samples.{settings, host, sample}
use binance.Outbox.File.{row, transact, write_nolock}
use binance.Outbox.Response.{body}
use binance.Cooldown.Gate.{reserve, active}
use binance.Placing.Checks.{check_quantity}
use binance.Placing.Slot.{with_slot, on_persist, persist}
use binance.Cooldown.Trade.{reserve_trade}
use binance.Outbox.Enqueue.{
  enqueue_claimed, enqueue, enqueue_on, existing_replacement, drop_superseded,
}
use binance.Outbox.Request.{prepare}
use binance.Outbox.Capacity.{make_room}
use binance.Outbox.Guards.{set_safe_to_discard}
use binance.Outbox.Claim.{begin_claimed_submit}
use binance.Placing.Types.{gives, raises}
use binance.Placing.Guard.{
  weight_of, weight_limit, profit_guard, window_reference, traded_value, daily_limit_guard,
}
use binance.Placing.Bounds.{IsProfitable}
use binance.Placing.Window.{profit_guard-window_reference}
use binance.Placing.Quantity.{
  Wanted, Decision, Market, decide_quantity, fee_cap_quantity, balance_cap_quantity,
}
use binance.Placing.Decided.{IsDecided, decide_quantity-IsDecided}
use binance.Placing.Weighted.{decide_quantity-weight_policy}
use binance.Placing.Setting.{Call, Setting, Sent, Ending, accepted_order_payload}
use binance.Placing.Place.{Placed, Verdict, place}
use binance.Placing.Sending.{IsGuarded, place-IsGuarded}
use binance.Placing.Spacing.{place-excludes}
use binance.Placing.Retained.{Retained}
use binance.Placing.Keeping.{place-keeps}

abbrev market : Market
market = record {
  has_asset = true;
  free_balance = gives (some 300);
  policy_cap = λ requested balance. gives (some (some 150));
  fee_cap = λ available. gives (fee_cap_quantity available 1_000);
  filter_refusal = λ n. gives none;
}

-- Of 180 that are asked for, the policy leaves 150.
decide_capped :
    decide_quantity market sell 100 (Wanted.wanted 180) true
    ≡ gives (record {
      requested = some 180;
      balance_cap = some 300;
      policy_cap = some (some 150);
      fee_cap = some 299;
      final_qty = 150;
      refuse_reason = none;
    })
unfolding decide_quantity fee_cap_quantity
decide_capped = refl

abbrev sale : Call
sale = record {
  symbol = 5;
  side = sell;
  price = 110;
  qty = Wanted.wanted 180;
  client_order_id = some (own 4);
  intent_id = 0;
  kind = none;
  placement = 1;
  caller_owns_retry = false;
  has_permit = false;
  constraint = none;
  bypass = false;
  bypass_reference = false;
  bypass_quantity = false;
  wait_for_trend = true;
  smart = false;
  market = true;
  pair = 0;
}

abbrev venue : Setting
venue = record {
  config = settings;
  host = host;
  provider_name = 1;
  is_binance = true;
  guards_internally = false;
  margin = 20_000;
  most_trades = 3;
  window = 86_400;
  recent_seconds = 60;
  cooldown_seconds = 60;
  client = 2;
  owner = 77;
  side_text = 1;
  enabled_first = gives true;
  internal_answer = raises;
  prepared = gives true;
  preflight = gives tt;
  adjusted = raises;
  trades = gives (some 1_000 ∷ []);
  trades_at = 100_000;
  window_ref = gives (some 100);
  first_fill = raises;
  quote = gives (some 108);
  quantity = λ at_market. market;
  should_wait = gives false;
  early_fill = raises;
  slot_at = 1000;
  enabled_in_slot = gives true;
  enqueued_at = 1000;
  permit = gives true;
  validated = gives tt;
  last_quote = gives (some 107);
  last_fill = raises;
  enabled_last = gives true;
  begun_at = 1001;
  response = gives (body (some 900) none none [] none);
  completed_at = 1003;
  ref_quote = some 107;
  others_before = λ ls. ls;
  others_after = λ ls. ls;
  retries = (1005, λ ls. ls) ∷ [];
  others_in_slot = λ s. s;
}

abbrev first : Placed
first = place venue sale [] []

abbrev order : Sent
order =
    or_default first.sent
      (record { price = 0; qty = Wanted.wanted 0; record_of = none; cooldown = []; file = [] })

abbrev lost : Placed
lost = place (record venue { response = raises }) sale [] []

abbrev lost_order : Sent
lost_order = or_default lost.sent order

abbrev stored : Rec
stored = or_default lost_order.record_of sample

-- The sale is sent and accepted.
sale_order :
    (first.sent ≡ some order)
    × (first.verdict ≡ Verdict.concluded (Ending.accepted (body (some 900) none none [] none)))
unfolding place daily_limit_guard profit_guard decide_quantity fee_cap_quantity check_quantity
    with_slot reserve_trade reserve active on_persist persist enqueue_claimed enqueue prepare
    transact enqueue_on existing_replacement make_room drop_superseded set_safe_to_discard
    write_nolock begin_claimed_submit accepted_order_payload
sale_order = (refl, refl)

-- The answer to the sale is lost, and its record stands in the queue when it is sent.
lost_sale :
    (lost.sent ≡ some lost_order)
    × (lost_order.record_of ≡ some stored)
    × Has (row stored) lost_order.file
unfolding place daily_limit_guard profit_guard decide_quantity fee_cap_quantity check_quantity
    with_slot reserve_trade reserve active on_persist persist enqueue_claimed enqueue prepare
    transact enqueue_on existing_replacement make_room drop_superseded set_safe_to_discard
    write_nolock begin_claimed_submit accepted_order_payload
lost_sale = (refl, refl, inl refl)

place-IsGuarded_example : IsGuarded venue sale [] order
place-IsGuarded_example = place-IsGuarded venue sale [] [] order refl sale_order.0

decide_quantity-IsDecided_example :
    (d : Decision) × IsDecided market sell 100 (Wanted.wanted 180) true d
unfolding decide_quantity fee_cap_quantity
decide_quantity-IsDecided_example =
    (_, decide_quantity-IsDecided market sell 100 (Wanted.wanted 180) true _ refl (omega arith))

decide_quantity-weight_policy_example :
    (balance : ℕ) × (balance_cap_quantity market sell 100 ≡ gives (some balance))
    × ((traded_value ((100, 2) ∷ []) + 13 * 100) * 1_000_000
        ≤ (traded_value ((100, 2) ∷ []) + balance * 100) * 50_000)
unfolding decide_quantity weight_limit fee_cap_quantity
decide_quantity-weight_policy_example =
    decide_quantity-weight_policy market sell 100 (Wanted.wanted 180) (weight_of none (some 50_000))
      ((100, 2) ∷ []) _ refl (omega arith)

profit_guard-window_reference_example : IsProfitable sell 110 20_000 100
unfolding profit_guard window_reference
profit_guard-window_reference_example =
    profit_guard-window_reference sell 110 20_000 3_600 (90 ∷ 0 ∷ 100 ∷ []) 100 refl (omega arith)
      (omega arith) (inr (inr (inl refl))) (omega arith)

place-excludes_example :
    (place (record venue { slot_at = 1059 }) sale first.cooldown first.file).sent ≡ none
unfolding reserve active
place-excludes_example =
    place-excludes venue (record venue { slot_at = 1059 }) sale sale [] [] first.file
      (body (some 900) none none [] none) refl refl refl sale_order.1 refl (omega arith)

place-keeps_example : (kept : Rec) × Retained stored kept × Has (row kept) lost.file
place-keeps_example =
    place-keeps (record venue { response = raises }) sale [] [] lost_order stored lost_sale.0 refl
      lost_sale.1 lost_sale.2 (λ x e. cc) ((λ ls h. h), tt)
