-- ===== src/Trailing/Sent.antt =====
-- The sale and the re-buy of one asset keep the log safe (trailing_core.py).
use binance.Base.{
  ℕ, ◌*◌, ◌≡◌, refl, Bool, true, false, ◌&&◌, inl, inr, Option, none, some, ◌∷◌, ltb, leb, ◌==◌,
  max, arith, if◌then◌else◌,
}
use binance.Base.Stateful.{◌>>=◌, ◌>>◌, skip, pure, if-at}
use binance.Trailing.Types.{
  Rebuy, Settings, Trend, trend_call, asked, Log, Adapter, World, Run, Turn, change, or_raise,
}
use binance.Trailing.Rules.{million, should_sell, no_bounce, rebuy_qty, sell_qty, lowered}
use binance.Trailing.Rebuy.{
  is_up, is_down, blocked_by_trend, unless, send_rebuy, place_rebuy, on_low, with_low, handle_rebuy,
}
use binance.Trailing.Process.{send_sell, place_sell, at_peak, trail_stop, warm_up, guard_position}
use binance.Trailing.Orders.{IsTrendFine, IsSafe, Safe, run-Keeps}

module _ (s : Settings) (a : Adapter) where
  abbrev pub Clear : World → Type 0
  Clear w = Safe s a w × (w.entry.pending ≡ none)

  -- The rest runs with the same entry, and with a log from which the trend is known to be fine.
  unless_blocked-Safe :
      (filter : Bool) (bad : Trend → Bool) (pair : ℕ) (k : Run (Unit {0})) (w : World)
      → Safe s a w
      → ((l : Log)
          → IsTrendFine s a filter bad pair l
          → IsSafe s a l
          → Safe s a (k (record w { log = l })).1)
      → Safe s a ((blocked_by_trend s a filter bad pair >>= λ blocked. unless blocked k) w).1
  unless_blocked-Safe false bad pair k w safe rest = rest w.log (inl refl) safe
  unless_blocked-Safe true bad pair k w safe rest = by_trend (a.trend w.log pair) refl
    where
      asking : World
      asking = record w { log = asked trend_call ∷ w.log }

      by_trend :
          (o : Option Trend)
          → a.trend w.log pair ≡ o
          → Safe s a
              ((((λ (v : World). or_raise o asking) >>= (λ trend. pure (bad trend))) >>= λ blocked.
                  unless blocked k)
                w).1
      by_trend none e = safe
      by_trend (some trend) e =
          if-at (λ o. Safe s a o.1) (bad trend) skip k asking (λ _. safe)
            (λ fine. rest asking.log (inr (w.log, trend, refl, e, fine)) safe)

  place_sell-Safe :
      (t : Turn) (qty price : ℕ) (w : World)
      → Clear w
      → w.entry.warmup_at ≡ none
      → should_sell price w.entry.peak t.item.trail ≡ true
      → IsTrendFine s a s.sell_skip_if_trend_up is_up t.item.pair w.log
      → Safe s a (place_sell s a t qty price w).1
  place_sell-Safe t qty price w (safe, clear) warm stop fine =
      if-at (λ o. Safe s a o.1) (s.enabled && leb s.min_notional (qty * price))
        (send_sell s a t qty price) skip w
        (λ both. run-Keeps s a t (a.execute_sell _ t.item qty price w.entry.peak) _ (
          record {
            live = ground arith;
            none_pending = clear;
            warm = warm;
            at_stop = stop;
            worth = ground arith;
            trend_fine = fine;
          },
          safe,
        ))
        (λ _. safe)

  trail_stop-Safe :
      (t : Turn) (free price : ℕ) (w : World)
      → Clear w
      → w.entry.warmup_at ≡ none
      → Safe s a (trail_stop s a t free price w).1
  unfolding trail_stop at_peak
  trail_stop-Safe t free price w (safe, clear) warm =
      let v : World = record w { entry = record w.entry { peak = max w.entry.peak price } } in
      if-at (λ o. Safe s a o.1) (should_sell price (max w.entry.peak price) t.item.trail) _ skip v
        (λ stop.
          unless_blocked-Safe s.sell_skip_if_trend_up is_up t.item.pair
            (place_sell s a t (sell_qty free s.sell_fraction) price) v safe
            (λ l fine good.
              place_sell-Safe t (sell_qty free s.sell_fraction) price (record v { log = l })
                (good, clear) warm stop fine))
        (λ _. safe)

  warm_up-Safe :
      (t : Turn) (free price : ℕ) (threshold : Option ℕ) (w : World)
      → w.entry.warmup_at ≡ threshold
      → Clear w
      → Safe s a (warm_up s a t free price threshold w).1
  unfolding warm_up
  warm_up-Safe t free price none w same clear = trail_stop-Safe t free price w clear same
  warm_up-Safe t free price (some threshold) w same clear =
      if-at (λ o. Safe s a o.1) (ltb (price * million) threshold) skip
        (change (λ e. record e { warmup_at = none }) >> trail_stop s a t free price) w
        (λ _. clear.0)
        (λ _.
          trail_stop-Safe t free price (record w { entry = record w.entry { warmup_at = none } })
            clear refl)

  pub guard_position-Safe :
      (t : Turn) (free price : ℕ) (w : World)
      → Clear w
      → Safe s a (guard_position s a t free price w).1
  unfolding guard_position
  guard_position-Safe t free price w clear =
      if-at (λ o. Safe s a o.1) (ltb (free * price) s.min_notional) skip
        (warm_up s a t free price w.entry.warmup_at) w (λ _. clear.0)
        (λ _. warm_up-Safe t free price w.entry.warmup_at w refl clear)

  place_rebuy-Safe :
      (t : Turn) (rb : Rebuy) (low price : ℕ) (w : World)
      → Clear w
      → w.entry.rebuy ≡ some rb
      → rb.low ≡ some low
      → no_bounce price low s.rebuy_bounce ≡ false
      → IsTrendFine s a s.rebuy_skip_if_trend_down is_down t.item.pair w.log
      → Safe s a (place_rebuy s a t rb (rebuy_qty rb.qty) price w).1
  unfolding place_rebuy
  place_rebuy-Safe t rb low price w (safe, clear) same at_low bounced fine =
      if-at (λ o. Safe s a o.1) (qty == 0) _ _ w (λ _. safe)
        (λ positive.
          if-at (λ o. Safe s a o.1) s.enabled
            (if ltb (qty * price) s.min_notional then skip else send_rebuy s a t rb qty price) _ w
            (λ live.
              if-at (λ o. Safe s a o.1) (ltb (qty * price) s.min_notional) skip
                (send_rebuy s a t rb qty price) w (λ _. safe)
                (λ worth. run-Keeps s a t (a.execute_rebuy _ t.item qty price rb) _ (
                  record {
                    live = live;
                    none_pending = clear;
                    bounced = (rb, low, same, at_low, bounced, refl);
                    positive = positive;
                    worth = worth;
                    trend_fine = fine;
                  },
                  safe,
                )))
            (λ _. warm_again-Safe))
    where
      qty : ℕ
      qty = rebuy_qty rb.qty

      warm_again-Safe : Safe s a w
      warm_again-Safe = safe

  pub handle_rebuy-Safe :
      (t : Turn) (price : ℕ) (rb : Rebuy) (w : World)
      → Clear w
      → Safe s a (handle_rebuy s a t price (some rb) w).1
  unfolding handle_rebuy on_low
  handle_rebuy-Safe t price rb w (safe, clear) =
      if-at (λ o. Safe s a o.1) (no_bounce price (lowered rb.low price) s.rebuy_bounce) skip _ v
        (λ _. safe)
        (λ bounced.
          unless_blocked-Safe s.rebuy_skip_if_trend_down is_down t.item.pair
            (place_rebuy s a t (with_low rb price) (rebuy_qty rb.qty) price) v safe
            (λ l fine good.
              place_rebuy-Safe t (with_low rb price) (lowered rb.low price) price
                (record v { log = l }) (good, clear) refl refl bounced fine))
    where
      v : World
      v = record w { entry = record w.entry { rebuy = some (with_low rb price) } }
