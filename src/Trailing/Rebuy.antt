-- ===== src/Trailing/Rebuy.antt =====
-- The re-buy after a sale (trailing_core.py).
use binance.Base.{ℕ, ◌*◌, Bool, true, false, Option, none, some, is_some, ltb, ◌==◌, if◌then◌else◌}
use binance.Base.Stateful.{returned, ◌>>=◌, ◌>>◌, pure, skip}
use binance.Trailing.Types.{
  Rebuy, Settings, Trend, up, down, trend_call, rebuy_sent, Adapter, Run, Turn, ask, note, change,
  run,
}
use binance.Trailing.Rules.{lowered, no_bounce, rebuy_qty}
use binance.Trailing.Pending.{rebuy_for, warm_again}

abbrev pub is_up : Trend → Bool
is_up up = true
is_up _ = false

abbrev pub is_down : Trend → Bool
is_down down = true
is_down _ = false

abbrev pub unless : Bool → Run (Unit {0}) → Run (Unit {0})
unless b m = if b then skip else m

abbrev pub with_low : Rebuy → ℕ → Rebuy
with_low rb price = record rb { low = some (lowered rb.low price) }

abbrev pub keep_low : Rebuy → ℕ → Run (Unit {0})
keep_low rb price = change (λ e. record e { rebuy = some (with_low rb price) })

abbrev pub has_pending : Run Bool
has_pending w = (returned (is_some w.entry.pending), w)

abbrev pub forget_rebuy : Run (Unit {0})
forget_rebuy = change (λ e. record e { rebuy = none })

module _ (s : Settings) (a : Adapter) where
  -- The trend is asked for only where the setting says so.
  abbrev pub blocked_by_trend : Bool → (Trend → Bool) → ℕ → Run Bool
  blocked_by_trend true bad pair =
      ask trend_call (λ l. a.trend l pair) >>= λ trend. pure (bad trend)
  blocked_by_trend false bad pair = pure false

  abbrev pub send_rebuy : Turn → Rebuy → ℕ → ℕ → Run (Unit {0})
  send_rebuy t rb qty price = do
    note (λ e. rebuy_sent t.item e qty price)
    (λ w. run a t (a.execute_rebuy w.log t.item qty price rb) w)

  unfoldable pub place_rebuy : Turn → Rebuy → ℕ → ℕ → Run (Unit {0})
  place_rebuy t rb qty price =
      if qty == 0
      then forget_rebuy
      else if s.enabled
      then (if ltb (qty * price) s.min_notional then skip else send_rebuy t rb qty price)
      else change (λ e. warm_again s a price (record e { rebuy = none }))

  unfoldable pub on_low : Turn → Rebuy → ℕ → ℕ → Run (Unit {0})
  unfolding place_rebuy
  on_low t rb low price =
      if no_bounce price low s.rebuy_bounce
      then skip
      else (blocked_by_trend s.rebuy_skip_if_trend_down is_down t.item.pair >>= λ blocked.
          unless blocked (place_rebuy t rb (rebuy_qty rb.qty) price))

  -- `_handle_rebuy`
  unfoldable pub handle_rebuy : Turn → ℕ → Option Rebuy → Run (Unit {0})
  unfolding on_low
  handle_rebuy t price none = skip
  handle_rebuy t price (some rb) = do
    keep_low rb price
    on_low t (with_low rb price) (lowered rb.low price) price

  abbrev pub rebuy_if : Turn → ℕ → Rebuy → Bool → Run Bool
  rebuy_if t price rb true = handle_rebuy t price (some rb) >> has_pending
  rebuy_if t price rb false = pure false

  -- The low is kept while the policy forbids to buy. The answer is whether an order is in flight now.
  unfoldable pub try_rebuy : Turn → ℕ → Option Rebuy → Run Bool
  unfolding handle_rebuy rebuy_for
  try_rebuy t price none = pure false
  try_rebuy t price (some rb) = do
    keep_low rb price
    permitted ← rebuy_for s a false t.item.pair
    rebuy_if t price (with_low rb price) permitted
