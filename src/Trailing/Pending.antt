-- ===== src/Trailing/Pending.antt =====
-- The order in flight of one asset, and the policy of re-buys (trailing_core.py).
use binance.Base.{
  ℕ, ◌-◌, ◌/◌, Bool, true, false, ◌&&◌, Option, none, some, min, ltb, ◌==◌, or_default,
  if◌then◌else◌,
}
use binance.Base.Stateful.{◌>>=◌, ◌>>◌, pure, raise, skip}
use binance.Trailing.Types.{
  Rebuy, Action, sell, rebuy, unknown_action, Pending, Entry, Settings, Log, Fill, Reconciled,
  terminal, not_terminal, policy_call, reconciled, Adapter, Run, Turn, ask, note, change,
  save_state, run,
}
use binance.Trailing.Rules.{eighth_decimal, warm_up_from}

-- The average price of a fill, rounded down to the unit of price.
unfoldable pub average : Fill → ℕ → ℕ
average f price = if ltb 0 f.filled_qty && ltb 0 f.cost then f.cost / f.filled_qty else price

-- `float(rb.get("low") or avg)`
abbrev pub low_or : Option ℕ → ℕ → ℕ
low_or low avg = if or_default low 0 == 0 then avg else or_default low 0

-- A remainder of at most 10^-8 is dropped.
unfoldable pub after_refill : Option Rebuy → ℕ → ℕ → Option Rebuy
after_refill none filled avg = none
after_refill (some rb) filled avg =
    if ltb eighth_decimal (rb.qty - filled)
    then some (record rb { qty = rb.qty - filled; low = some (min (low_or rb.low avg) avg) })
    else none

module _ (s : Settings) (a : Adapter) where
  abbrev pub policy_of : Option (Log → ℕ → Option Bool) → ℕ → Run Bool
  policy_of none pair = pure s.rebuy_enabled
  policy_of (some policy) pair = ask policy_call (λ l. some (or_default (policy l pair) false))

  abbrev pub getter : Bool → Option (Log → ℕ → Option Bool)
  getter true = elim a.rebuy_configured_for [
    | none ↦ a.rebuy_enabled_for
    | some policy ↦ some policy
  ]
  getter false = a.rebuy_enabled_for

  -- `_rebuy_for`
  unfoldable pub rebuy_for : Bool → ℕ → Run Bool
  rebuy_for arm pair = policy_of (getter arm) pair

  abbrev pub arm_rebuy : ℕ → ℕ → Bool → Run (Unit {0})
  arm_rebuy filled avg true =
      change
        (λ e. record e { rebuy = some (record { qty = filled; sell_price = avg; low = some avg }) })
  arm_rebuy filled avg false = skip

  -- `warmup_at` is set from a price if a profit is asked for.
  abbrev pub warm_again : ℕ → Entry → Entry
  warm_again price e =
      if ltb 0 s.min_profit
      then record e { warmup_at = some (warm_up_from price s.min_profit) }
      else e

  unfoldable pub apply_fill : ℕ → ℕ → ℕ → Action → Run (Unit {0})
  unfolding rebuy_for after_refill
  apply_fill pair filled avg sell = do
    change (λ e. record e { peak = avg })
    armed ← rebuy_for true pair
    arm_rebuy filled avg armed
  apply_fill pair filled avg rebuy =
      change (λ e. warm_again avg (record e { rebuy = after_refill e.rebuy filled avg }))
  apply_fill pair filled avg unknown_action = skip

  -- `_finish_pending`
  unfoldable pub finish_pending : ℕ → ℕ → Fill → Run (Unit {0})
  unfolding apply_fill average
  finish_pending pair price f = do
    if ltb 0 f.filled_qty
        then apply_fill pair f.filled_qty (average f price) f.intent.action
        else skip
    change (λ e. record e { pending = none })

  abbrev pub if_saved : Bool → Run Bool
  if_saved true = pure true
  if_saved false = raise

  unfoldable pub on_reconciled : Turn → ℕ → Reconciled → Run Bool
  unfolding finish_pending
  on_reconciled t price (terminal f) = do
    finish_pending t.item.pair price f
    good ← save_state a t
    if_saved good
  on_reconciled t price not_terminal = pure true

  unfoldable pub reconcile_for : Turn → ℕ → Option Pending → Run Bool
  unfolding on_reconciled
  reconcile_for t price none = pure false
  reconcile_for t price (some pending) = do
    note (λ e. reconciled pending)
    answer ← (λ w. run a t (a.reconcile_pending w.log pending) w)
    on_reconciled t price answer

  -- `_reconcile_pending`
  unfoldable pub reconcile_pending : Turn → ℕ → Run Bool
  unfolding reconcile_for
  reconcile_pending t price w = reconcile_for t price w.entry.pending w
