-- ===== src/Cooldown/Trade.antt =====
-- lock/trade_cooldown.py: the gate in front of every order, by symbol. An order without a pair takes
-- an exclusive reservation; an order with one takes a leg of its pair.
use binance.Base.{ℕ, Bool, true, Option, [], ◌∷◌, ◌==◌, if◌then◌else◌}
use binance.Cooldown.Gate.{Fields, State, Body, reserve, release, update, slot, last_age}
use binance.Cooldown.Group.{
  side_key, pair_word, reserve_group_member, release_group_member, group_slot,
}

-- The names of the fields; 0 stands for `None` as a value.
abbrev pub symbol_key : ℕ
symbol_key = 2

abbrev pub client_key : ℕ
client_key = 3

abbrev pub order_key : ℕ
order_key = 4

abbrev pub exclusive_fields : ℕ → ℕ → ℕ → Fields
exclusive_fields side symbol client =
    (side_key, side) ∷ (symbol_key, symbol) ∷ (client_key, client) ∷ (order_key, 0) ∷ []

abbrev pair_fields : ℕ → ℕ → Fields
pair_fields symbol client = (side_key, pair_word) ∷ (symbol_key, symbol) ∷ (client_key, client) ∷ []

-- `pair` is 0 for an order without one.
unfoldable pub reserve_trade : ℕ → ℕ → ℕ → ℕ → ℕ → ℕ → ℕ → State → State × Bool
reserve_trade side symbol cooldown client pair now owner s =
    if pair == 0
    then reserve symbol cooldown now owner (exclusive_fields side symbol client) s
    else reserve_group_member symbol cooldown pair side now owner (pair_fields symbol client) s

unfoldable pub trade_slot : ℕ → ℕ → ℕ → ℕ → ℕ → ℕ → ℕ → Body → State → State × Bool
trade_slot side symbol cooldown client pair now owner body s =
    if pair == 0
    then slot symbol cooldown now owner (exclusive_fields side symbol client) body s
    else group_slot symbol cooldown pair side now owner (pair_fields symbol client) body s

unfoldable pub release_trade : ℕ → State → State
release_trade symbol s = release symbol s

unfoldable pub release_pair_leg : ℕ → ℕ → ℕ → State → State × Bool
release_pair_leg symbol pair side s = release_group_member symbol pair side true s

unfoldable pub update_binance_order_id : ℕ → ℕ → State → State
update_binance_order_id symbol order s = update symbol ((order_key, order) ∷ []) s

unfoldable pub get_last_trade_age : ℕ → ℕ → State → Option ℕ
get_last_trade_age symbol now s = last_age symbol now s
