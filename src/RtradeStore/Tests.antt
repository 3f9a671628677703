-- ===== src/RtradeStore/Tests.antt =====
-- Runs of the store of rounds (rtrade_pair_store.py), and the store at concrete inputs.
use binance.Base.{ℕ, ◌≡◌, refl, ◌+◌, Bool, true, false, none, some, [], ◌∷◌}
use binance.Base.Stateful.{returned, raised}
use binance.RtradePair.Types.{buy, sell}
use binance.RtradeStore.Types.{
  missing, number, Intent, PairRecord, Pairs, no_state, no_file, unreadable, stored,
}
use binance.RtradeStore.Validate.{KeyText, valid_intent, valid_pair, valid}
use binance.RtradeStore.Store.{
  read, mutate, persisted, persist_intent, begin, active, prune_terminal,
}
use binance.RtradeStore.Intents.{IsWritten}
use binance.RtradeStore.Refined.{persist_intent-IsRefined}
use binance.RtradeStore.Returned.{persist_intent-IsReturned}

-- The kinds 1 and 2 are limit and market; "limit:BUY" is 11, and so on.
abbrev text : KeyText
text kind buy = 10 + kind
text kind sell = 20 + kind

abbrev wanted : Intent
wanted = record {
  side = none;
  kind = 0;
  client_order_id = 77;
  pair_id = none;
  symbol = none;
  requested_qty = missing;
  qty = number 5;
  requested_price = number 90;
  price = missing;
  order_id = none;
  intent_id = none;
  rest = 0;
}

abbrev round : ℕ → Bool → ℕ → PairRecord
round p ended at = record {
  symbol = 3;
  pair_id = p;
  start_side = some buy;
  qty = number 5;
  phase = 1;
  terminal = ended;
  intents = [];
  state = no_state;
  created_ts = number 1;
  updated_ts = number at;
}

-- Two finished rounds and two open ones; one finished round is kept.
abbrev rounds : Pairs
rounds =
    (1, round 1 true 5) ∷ (2, round 2 false 6) ∷ (3, round 3 true 7) ∷ (4, round 4 false 8) ∷ []

prune_newest :
    prune_terminal 1 rounds ≡ (2, round 2 false 6) ∷ (3, round 3 true 7) ∷ (4, round 4 false 8) ∷ []
unfolding prune_terminal
prune_newest = refl

active_open :
    active text 1 1 (λ _. true) 3 (stored rounds) ≡ some (round 2 false 6 ∷ round 4 false 8 ∷ [])
unfolding active read valid valid_pair
active_open = refl

-- A store that cannot be read is left alone.
begin_unreadable : begin text 1 1 (λ _. true) 9 3 5 buy 5 unreadable ≡ (raised, unreadable)
unfolding begin mutate read
begin_unreadable = refl

begin_fresh : (begin text 1 1 (λ _. true) 9 3 5 buy 5 no_file).0 ≡ returned tt
unfolding begin mutate read valid valid_pair prune_terminal
begin_fresh = refl

persist_intent-IsRefined_example :
    (after : Pairs) × (read text
        (persist_intent text 1 1
          (λ _. true)
          9
          3
          2
          none
          buy
          1
          missing
          (some wanted)
          (stored rounds)).1
      ≡ some after)
    × IsWritten text 2 buy 1 missing (some wanted) rounds after
unfolding persist_intent persisted mutate read valid valid_pair valid_intent prune_terminal
persist_intent-IsRefined_example =
    persist_intent-IsRefined text 1 1 (λ _. true) 9 3 2 none buy 1 missing (some wanted)
      (stored rounds) rounds refl refl refl

persist_intent-IsReturned_example :
    (persist_intent text 1 1 (λ _. true) 9 3 6 none sell 2 missing (some wanted) (stored rounds)).0
    ≡ returned tt
unfolding read valid valid_pair valid_intent
persist_intent-IsReturned_example =
    persist_intent-IsReturned text 1 1 (λ _. true) 9 3 6 none sell 2 missing (some wanted)
      (stored rounds) rounds (λ _. refl) refl refl refl
