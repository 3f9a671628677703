-- ===== src/Placing/Quantity.antt =====
-- The decision on the quantity of an order (providers/quantity.py): a quantity that was asked for, cut down to
-- the balance, the policy and the fees. Quotients are rounded down to a unit.
use binance.Base.{ℕ, ◌+◌, ◌*◌, ◌/◌, Bool, true, false, Option, none, some, min, ◌==◌, if◌then◌else◌}
use binance.Outbox.Types.{Side, bad_side, million}
use binance.Worker.Effects.{Refusal}
use binance.Placing.Types.{
  Try, gives, raises, ◌>>=◌, is_buy, balance_unavailable, insufficient_funds, policy_unavailable,
  qty_zero_after_policy,
}
use binance.Placing.Guard.{at_most}

-- The quantity asked for: none means as much as possible, one that is negative counts as 0.
pub data Wanted : Type 0 where
  unlimited not_finite : Wanted
  wanted : ℕ → Wanted

-- `QuantityDecision`; an infinite bound is `none`, one that was not worked out is the outer `none`.
pub record Decision : Type 0 where
  pub requested : Option ℕ
  pub balance_cap : Option ℕ
  pub policy_cap : Option (Option ℕ)
  pub fee_cap : Option ℕ
  pub final_qty : ℕ
  pub refuse_reason : Option Refusal

-- What the decision asks of the provider: the free balance of the asset that the side spends, where there is
-- one, the bound of the policy, the bound of the fees, and the venue's filters.
pub record Market : Type 0 where
  pub has_asset : Bool
  pub free_balance : Try (Option ℕ)
  pub policy_cap : Option ℕ → ℕ → Try (Option (Option ℕ))
  pub fee_cap : ℕ → Try ℕ
  pub filter_refusal : ℕ → Try (Option Refusal)

abbrev pub per_price : Side → ℕ → Option ℕ → Option ℕ
per_price side price none = none
per_price side price (some balance) = if is_buy side then some (balance / price) else some balance

abbrev pub known_asset : Side → ℕ → Bool → Bool
known_asset side price false = false
known_asset side price true = if is_buy side then (if price == 0 then false else true) else true

-- `balance_cap_quantity`
unfoldable pub balance_cap_quantity : Market → Side → ℕ → Try (Option ℕ)
balance_cap_quantity m bad_side price = raises
balance_cap_quantity m side price =
    if known_asset side price m.has_asset
    then (m.free_balance >>= λ balance. gives (per_price side price balance))
    else gives none

-- `fee_cap_quantity`
unfoldable pub fee_cap_quantity : ℕ → ℕ → ℕ
fee_cap_quantity available rate = available * million / (million + rate)

abbrev pub requested_of : Wanted → Try (Option ℕ)
requested_of unlimited = gives none
requested_of not_finite = raises
requested_of (wanted n) = gives (some n)

abbrev pub refused_at : Option ℕ → Option ℕ → Option ℕ → Refusal → Decision
refused_at requested balance zero reason = record {
  requested = requested;
  balance_cap = balance;
  policy_cap = elim zero [ none ↦ none | some n ↦ some (some n) ];
  fee_cap = zero;
  final_qty = 0;
  refuse_reason = some reason;
}

abbrev pub decided : Option ℕ → ℕ → Option ℕ → ℕ → ℕ → Option Refusal → Decision
decided requested balance policy fee final reason = record {
  requested = requested;
  balance_cap = some balance;
  policy_cap = some policy;
  fee_cap = some fee;
  final_qty = final;
  refuse_reason = reason;
}

abbrev pub with_refusal : Option ℕ → ℕ → Option ℕ → ℕ → ℕ → Option Refusal → Decision
with_refusal requested balance policy fee final none =
    decided requested balance policy fee final none
with_refusal requested balance policy fee final (some refusal) =
    decided requested balance policy fee 0 (some refusal)

-- The least of the four bounds.
abbrev pub least : Option ℕ → ℕ → Option ℕ → ℕ → ℕ
least requested balance policy fee = min (at_most policy (at_most requested balance)) fee

unfoldable pub filtered : Market → Option ℕ → ℕ → Option ℕ → ℕ → ℕ → Try Decision
filtered m requested balance policy fee final =
    if final == 0
    then gives (decided requested balance policy fee 0 (some qty_zero_after_policy))
    else (m.filter_refusal final >>= λ refusal.
        gives (with_refusal requested balance policy fee final refusal))

abbrev pub under_policy : Market → Option ℕ → ℕ → Option (Option ℕ) → Try Decision
under_policy m requested balance none =
    gives (refused_at requested (some balance) none policy_unavailable)
under_policy m requested balance (some policy) = m.fee_cap balance >>= λ fee.
    filtered m requested balance policy fee (least requested balance policy fee)

unfoldable pub under_balance : Market → Bool → Option ℕ → Option ℕ → Try Decision
unfolding filtered
under_balance m apply requested none = gives (refused_at requested none none balance_unavailable)
under_balance m apply requested (some balance) =
    if balance == 0
    then gives (refused_at requested (some 0) (some 0) insufficient_funds)
    else ((if apply then m.policy_cap requested balance else gives (some requested))
        >>= under_policy m requested balance)

-- `decide_quantity`
unfoldable pub decide_quantity : Market → Side → ℕ → Wanted → Bool → Try Decision
unfolding balance_cap_quantity under_balance
decide_quantity m side price asked apply = do
  requested ← requested_of asked
  balance ← balance_cap_quantity m side price
  under_balance m apply requested balance
