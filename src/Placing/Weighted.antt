-- ===== src/Placing/Weighted.antt =====
-- The decision on a quantity (providers/quantity.py) under the weight policy of a venue (order_guard.py).
use binance.Base.{ℕ, ◌+◌, ◌*◌, ◌≤◌, ◌<◌, List, ◌≡◌, arith, true, Option, some}
use binance.Outbox.Types.{Side, buy, sell, bad_side, million}
use binance.Placing.Types.{Try, gives}
use binance.Placing.Guard.{at_most, weight_limit, remaining_qty, traded_value}
use binance.Placing.Bounds.{remaining_qty_le, at_most_le}
use binance.Placing.Quantity.{Wanted, Decision, Market, balance_cap_quantity, decide_quantity}
use binance.Placing.Decided.{IsDecided, decide_quantity-IsDecided}

-- The default of `policy_cap_quantity` (providers/base.py).
abbrev pub weight_policy : ℕ → ℕ → List (ℕ × ℕ) → Option ℕ → ℕ → Try (Option (Option ℕ))
weight_policy price weight trades requested balance =
    gives (some (some (weight_limit requested balance price weight trades)))

-- Under the weight policy of a venue, the order that is decided on and the trades of the day together stay within
-- the share of the weight in the value that could be traded: the trades and all that the balance allows.
pub decide_quantity-weight_policy :
    (m : Market) (side : Side) (price : ℕ) (asked : Wanted) (weight : ℕ) (trades : List (ℕ × ℕ))
    (d : Decision)
    → decide_quantity
        (record m { policy_cap = weight_policy price weight trades })
        side
        price
        asked
        true
      ≡ gives d
    → 0 < d.final_qty
    → (balance : ℕ) × (balance_cap_quantity m side price ≡ gives (some balance))
      × ((traded_value trades + d.final_qty * price) * million
          ≤ (traded_value trades + balance * price) * weight)
unfolding weight_limit balance_cap_quantity
decide_quantity-weight_policy m side price asked weight trades d h positive =
    let k : IsDecided (record m { policy_cap = weight_policy price weight trades }) side price asked
        true d =
      decide_quantity-IsDecided (record m { policy_cap = weight_policy price weight trades }) side
        price asked true d h positive in
    let left : ℕ = remaining_qty weight (traded_value trades) k.balance price in
    let cut : at_most k.requested left ≤ left = at_most_le k.requested left in
    let within_policy : d.final_qty ≤ at_most k.requested left = k.bounded.in_policy in
    (
      k.balance,
      by_side side k.same_balance,
      remaining_qty_le d.final_qty weight (traded_value trades) k.balance price positive
          (omega arith),
    )
  where
    by_side :
        (x : Side) {b : ℕ}
        → balance_cap_quantity (record m { policy_cap = weight_policy price weight trades }) x price
          ≡ gives (some b)
        → balance_cap_quantity m x price ≡ gives (some b)
    by_side buy e = e
    by_side sell e = e
    by_side bad_side e = e
