-- ===== src/Trailing/Fills.antt =====
-- What a terminal fill leaves of a tranche, and how quantities are rounded (trailing_core.py).
use binance.Base.{
  ℕ, ◌∷◌, ◌+◌, ◌-◌, ◌≤◌, ◌<◌, ◌≡◌, refl, Bool, true, false, ◌⊎◌, inl, inr, Option, none, some, min,
  ltb, or_default, Bool-cases, ltb→lt, arith, if◌then◌else◌,
}
use binance.Trailing.Types.{
  Log, asked, policy_call, Run, change, Rebuy, Action, sell, rebuy, unknown_action, Entry, Settings,
  Fill, Adapter, World,
}
use binance.Base.Stateful.{◌>>=◌, ◌>>◌, skip}
use binance.Trailing.Rules.{warm_up_from, eighth_decimal}
use binance.Trailing.Pending.{
  average, after_refill, low_or, getter, policy_of, arm_rebuy, rebuy_for, apply_fill,
  finish_pending,
}

-- Nothing but dust is left of the tranche, or what is left and what was filled make it up.
abbrev pub IsRefilled : Rebuy → ℕ → ℕ → Option Rebuy → Type 0
IsRefilled rb filled avg none = rb.qty ≤ filled + eighth_decimal
IsRefilled rb filled avg (some rest) =
    (rest.qty + filled ≡ rb.qty)
    × (eighth_decimal < rest.qty)
    × (rest.sell_price ≡ rb.sell_price)
    × ((low : ℕ) × (rest.low ≡ some low) × (low ≤ avg))

after_refill-IsRefilled :
    (rb : Rebuy) (filled avg : ℕ) → IsRefilled rb filled avg (after_refill (some rb) filled avg)
unfolding after_refill
after_refill-IsRefilled rb filled avg = by_rest (Bool-cases (ltb eighth_decimal (rb.qty - filled)))
  where
    by_rest :
        (ltb eighth_decimal (rb.qty - filled) ≡ true)
          ⊎ (ltb eighth_decimal (rb.qty - filled) ≡ false)
        → IsRefilled rb filled avg (after_refill (some rb) filled avg)
    by_rest (inl more) =
        let above : eighth_decimal < rb.qty - filled =
          ltb→lt eighth_decimal (rb.qty - filled) more in
        rw more (omega arith, above, refl, (min (low_or rb.low avg) avg, refl, omega arith))
    by_rest (inr dust) = rw dust (ground arith)

abbrev IsLeft : Option Rebuy → ℕ → ℕ → Option Rebuy → Type 0
IsLeft none filled avg rest = rest ≡ none
IsLeft (some rb) filled avg rest = IsRefilled rb filled avg rest

after_refill-IsLeft :
    (stored : Option Rebuy) (filled avg : ℕ)
    → IsLeft stored filled avg (after_refill stored filled avg)
unfolding after_refill
after_refill-IsLeft none filled avg = refl
after_refill-IsLeft (some rb) filled avg = after_refill-IsRefilled rb filled avg

-- What a policy of the adapter says after a log; the setting where there is none.
abbrev pub allows : Settings → Option (Log → ℕ → Option Bool) → Log → ℕ → Bool
allows s none l pair = s.rebuy_enabled
allows s (some policy) l pair = or_default (policy l pair) false

abbrev pub tranche_if : Bool → ℕ → ℕ → Option Rebuy → Option Rebuy
tranche_if true filled avg old = some (record { qty = filled; sell_price = avg; low = some avg })
tranche_if false filled avg old = old

abbrev pub warmed_if : Bool → ℕ → ℕ → Option ℕ → Option ℕ
warmed_if true avg profit old = some (warm_up_from avg profit)
warmed_if false avg profit old = old

module _ (s : Settings) (a : Adapter) (l : Log) (pair : ℕ) where
  -- How the entry of an asset changes by a terminal order with a fill, or with none.
  abbrev pub IsAccounted : Action → Bool → ℕ → ℕ → Entry → Entry → Type 0
  IsAccounted sell true filled avg e e' =
      (e'.peak ≡ avg)
      × (e'.warmup_at ≡ e.warmup_at)
      × (e'.rebuy ≡ tranche_if (allows s (getter s a true) l pair) filled avg e.rebuy)
  IsAccounted rebuy true filled avg e e' =
      (e'.peak ≡ e.peak)
      × IsLeft e.rebuy filled avg e'.rebuy
      × (e'.warmup_at ≡ warmed_if (ltb 0 s.min_profit) avg s.min_profit e.warmup_at)
  IsAccounted _ _ filled avg e e' =
      (e'.peak ≡ e.peak) × (e'.rebuy ≡ e.rebuy) × (e'.warmup_at ≡ e.warmup_at)

  abbrev pub IsFinished : ℕ → Fill → Entry → Entry → Type 0
  IsFinished price f e e' =
      (e'.pending ≡ none)
      × IsAccounted f.intent.action (ltb 0 f.filled_qty) f.filled_qty (average f price) e e'

-- A terminal order leaves no order in flight, and its fill is counted once. A sale moves the peak to its
-- average price and, where the configured policy of the adapter, or else its dynamic one, or else the setting
-- allows re-buys, opens a tranche of exactly what was sold; otherwise the old tranche stays. A re-buy keeps
-- the peak, restarts the warm-up from its average price where a profit is asked for, and leaves the rest of
-- the tranche, with a low not above its average price, or drops it where nothing but dust is left. Without a
-- fill, and for any other action, nothing else changes.
pub finish_pending-IsFinished :
    (s : Settings) (a : Adapter) (pair price : ℕ) (f : Fill) (w : World)
    → IsFinished s a w.log pair price f w.entry (finish_pending s a pair price f w).1.entry
unfolding finish_pending apply_fill rebuy_for
finish_pending-IsFinished s a pair price f w = by_size (ltb 0 f.filled_qty) f.intent.action
  where
    end : Run (Unit {0})
    end = change (λ e. record e { pending = none })

    avg : ℕ
    avg = average f price

    by_permission :
        (b : Bool) (l : Log)
        → let e' =
            ((arm_rebuy s a f.filled_qty avg b >> end)
              (record { entry = record w.entry { peak = avg }; log = l })).1.entry in
          (e'.pending ≡ none)
          × ((e'.peak ≡ avg)
              × (e'.warmup_at ≡ w.entry.warmup_at)
              × (e'.rebuy ≡ tranche_if b f.filled_qty avg w.entry.rebuy))
    by_permission true l = (refl, (refl, refl, refl))
    by_permission false l = (refl, (refl, refl, refl))

    by_policy :
        (policy : Option (Log → ℕ → Option Bool))
        → let e' =
            (((policy_of s a policy pair >>= arm_rebuy s a f.filled_qty avg) >> end)
              (record { entry = record w.entry { peak = avg }; log = w.log })).1.entry in
          (e'.pending ≡ none)
          × ((e'.peak ≡ avg)
              × (e'.warmup_at ≡ w.entry.warmup_at)
              × (e'.rebuy ≡ tranche_if (allows s policy w.log pair) f.filled_qty avg w.entry.rebuy))
    by_policy none = by_permission s.rebuy_enabled w.log
    by_policy (some policy) =
        by_permission (or_default (policy w.log pair) false) (asked policy_call ∷ w.log)

    refilled : Entry
    refilled = record w.entry { rebuy = after_refill w.entry.rebuy f.filled_qty avg }

    by_profit :
        (b : Bool)
        → let e' =
            if b
            then record refilled { warmup_at = some (warm_up_from avg s.min_profit) }
            else refilled in
          (e'.peak ≡ w.entry.peak)
          × IsLeft w.entry.rebuy f.filled_qty avg e'.rebuy
          × (e'.warmup_at ≡ warmed_if b avg s.min_profit w.entry.warmup_at)
    by_profit true = (refl, after_refill-IsLeft w.entry.rebuy f.filled_qty avg, refl)
    by_profit false = (refl, after_refill-IsLeft w.entry.rebuy f.filled_qty avg, refl)

    by_size :
        (b : Bool) (action : Action)
        → let e' =
            (((if b then apply_fill s a pair f.filled_qty avg action else skip) >> end)
              w).1.entry in
          (e'.pending ≡ none) × IsAccounted s a w.log pair action b f.filled_qty avg w.entry e'
    by_size false sell = (refl, (refl, refl, refl))
    by_size false rebuy = (refl, (refl, refl, refl))
    by_size false unknown_action = (refl, (refl, refl, refl))
    by_size true unknown_action = (refl, (refl, refl, refl))
    by_size true sell = by_policy (getter s a true)
    by_size true rebuy = (refl, by_profit (ltb 0 s.min_profit))
