-- ===== src/Placing/Checks.antt =====
-- The guards of `Instrument.place` (instrument.py), in their order.
use binance.Base.{
  ℕ, ◌+◌, ◌-◌, ◌*◌, Bool, true, not, ◌&&◌, ◌||◌, Option, none, some, List, leb, ◌==◌, is_some,
  or_default, if◌then◌else◌,
}
use binance.Outbox.Types.{cache_not_fresh, trend_deferred, price_unfavorable, million}
use binance.Worker.Effects.{Refusal, execution_disabled, reason_is}
use binance.Placing.Types
use binance.Placing.Types.{
  Try, gives, refuses, raises, ◌>>=◌, ◌>>◌, require, is_buy, guard_check_failed,
}
use binance.Placing.Guard.{within, over, recent, profit_guard, daily_limit_guard}
use binance.Placing.Quantity.{Decision, decide_quantity}
use binance.Placing.Setting.{Call, Setting}

-- A quote that is missing or not positive is no price.
abbrev pub quoted : Option ℕ → Try ℕ
quoted none = refuses Types.market_price_unavailable
quoted (some n) = if n == 0 then refuses Types.market_price_unavailable else gives n

abbrev pub when : Bool → Try (Unit {0}) → Try (Unit {0})
when b m = if b then m else gives tt

abbrev pub reason_of : {A : Type 0} → Try A → Refusal
reason_of (gives a) = guard_check_failed
reason_of (refuses r) = r
reason_of raises = guard_check_failed

-- What the guards before the decision leave: the price, the price of the decision, the reference of the window.
pub record Priced : Type 0 where
  pub price : ℕ
  pub quantity_price : ℕ
  pub window_ref : Option ℕ

module _ (s : Setting) (c : Call) where
  -- The bypass of the reference counts for a purchase only, that of the quantity policy for a sale only.
  abbrev pub checks_profit : Bool
  checks_profit = not c.bypass && not (c.bypass_reference && is_buy c.side)

  abbrev pub applies_policy : Bool
  applies_policy = not (c.bypass || c.bypass_quantity && not (is_buy c.side))

  -- `profit_guard`, which asks for the last opposite fill only where the window gives no reference.
  abbrev pub check_profit : ℕ → Option ℕ → Try (Option ℕ) → Try (Unit {0})
  check_profit price (some ref) fill =
      require (profit_guard c.side price s.margin (some ref)) Types.profit_refused
  check_profit price none fill =
      fill >>= λ ref. require (profit_guard c.side price s.margin ref) Types.profit_refused

  abbrev pub check_constraint : Try (Unit {0})
  check_constraint = elim c.constraint [
    | some none ↦ refuses Types.invalid_price_constraint
    | _ ↦ gives tt
  ]

  abbrev pub check_limit : List (Option ℕ) → Try (Unit {0})
  check_limit trades =
      elim (daily_limit_guard s.most_trades s.window s.recent_seconds s.trades_at trades) [
        | within ↦ gives tt
        | over ↦ refuses Types.daily_limit
        | recent ↦ refuses Types.recent_transaction
      ]

  abbrev pub fresh : Refusal
  fresh = reason_is cache_not_fresh

  -- Before the price: the constraint of a retry, the state of the account, and the venue's own check.
  abbrev pub before_price : Try (Unit {0})
  before_price = do
    check_constraint
    require (not (s.is_binance && c.smart && c.has_permit)) Types.external_permit
    when (s.is_binance && not c.has_permit) (s.prepared >>= λ b. require b fresh)
    when (not s.is_binance) s.preflight

  abbrev pub priced_at : ℕ → Option ℕ → ℕ → Try Priced
  priced_at price ref quantity_price =
      gives (record { price = price; quantity_price = quantity_price; window_ref = ref })

  -- A market order is decided on at the current quote.
  abbrev pub quantity_price_at : ℕ → Try ℕ
  quantity_price_at price = if c.market then (s.quote >>= quoted) else gives price

  abbrev pub with_reference : ℕ → Option ℕ → Try Priced
  with_reference price ref =
      when checks_profit (check_profit price ref s.first_fill)
      >> (quantity_price_at price >>= priced_at price ref)

  abbrev pub reference : Try (Option ℕ)
  reference = if checks_profit then s.window_ref else gives none

  abbrev pub with_trades : ℕ → List (Option ℕ) → Try Priced
  with_trades price trades = check_limit trades >> (reference >>= with_reference price)

  abbrev pub with_price : ℕ → Try Priced
  with_price price = s.trades >>= with_trades price

  -- The guards up to the decision on the quantity.
  unfoldable pub check_price : Try Priced
  check_price = before_price >> ((if c.smart then s.adjusted else gives c.price) >>= with_price)

  abbrev pub decide : Priced → Try Decision
  decide p = decide_quantity (s.quantity c.market) c.side p.quantity_price c.qty applies_policy

  -- A trend gate that cannot be read lets the order through.
  abbrev pub check_trend : Try Bool → Try (Unit {0})
  check_trend (gives true) = refuses (reason_is trend_deferred)
  check_trend _ = gives tt

  -- The guards between the decision and the slot.
  unfoldable pub check_quantity : Priced → Decision → Try (Unit {0})
  check_quantity p d = do
    require (not (d.final_qty == 0)) (or_default d.refuse_reason Types.qty_zero_after_policy)
    when c.wait_for_trend (check_trend s.should_wait)
    when (checks_profit && c.market) (check_profit p.quantity_price p.window_ref s.early_fill)

  abbrev pub take_permit : Try (Unit {0})
  take_permit =
      when (s.is_binance && not c.has_permit) ((s.permit >>= λ b. require b fresh) >> s.validated)

  -- The price of a retry: no worse than the requested one by more than the tolerance.
  abbrev pub is_favorable : ℕ → ℕ → ℕ → Bool
  is_favorable requested tolerance price =
      if is_buy c.side
      then leb (price * million) (requested * (million + tolerance))
      else leb (requested * (million - tolerance)) (price * million)

  abbrev pub check_favorable : Option (Option (ℕ × ℕ)) → ℕ → Try (Unit {0})
  check_favorable (some (some (requested, tolerance))) price =
      require (is_favorable requested tolerance price) (reason_is price_unfavorable)
  check_favorable _ price = gives tt

  -- A market order is held against the quote of the dispatch.
  abbrev pub check_dispatch : Priced → Try (Unit {0})
  check_dispatch p = when (c.market && (checks_profit || is_some c.constraint)) (do
    price ← s.last_quote >>= quoted
    check_favorable c.constraint price
    when checks_profit (check_profit price p.window_ref s.last_fill))

  abbrev pub check_enabled : Try Bool → Try (Unit {0})
  check_enabled enabled = enabled >>= λ b. require b execution_disabled
