-- ===== src/Trailing/Process.antt =====
-- One asset of a tick, and a whole tick (trailing_core.py).
use binance.Base.{
  ℕ, ◌*◌, Bool, true, false, not, ◌&&◌, ◌||◌, Option, none, some, List, ◌∷◌, is_some, ltb, leb,
  ◌==◌, or_default, max, if◌then◌else◌,
}
use binance.Base.Dict.{lookup, insert}
use binance.Base.Stateful.{Result, returned, raised, Stateful, ◌>>=◌, ◌>>◌, skip, for_each}
use binance.Trailing.Types.{
  Entry, State, Settings, Item, Call, free_call, price_call, basis_call, asked, sell_sent, saved,
  Log, Adapter, Run, Turn, ask, note, change, run,
}
use binance.Trailing.Rules.{million, should_sell, sell_qty, warm_up_from}
use binance.Trailing.Pending.{reconcile_pending}
use binance.Trailing.Rebuy.{is_up, blocked_by_trend, unless, try_rebuy}

-- What the tick acts on.
pub record Book : Type 0 where
  pub state : State
  pub log : Log

abbrev pub fresh_entry : ℕ → Entry
fresh_entry price = record { peak = price; rebuy = none; warmup_at = none; pending = none }

abbrev pub reference : Option ℕ → ℕ → ℕ
reference basis price = if ltb 0 (or_default basis 0) then or_default basis 0 else price

module _ (s : Settings) (a : Adapter) where
  abbrev pub send_sell : Turn → ℕ → ℕ → Run (Unit {0})
  send_sell t qty price = do
    note (λ e. sell_sent t.item e qty price)
    (λ w. run a t (a.execute_sell w.log t.item qty price w.entry.peak) w)

  abbrev pub place_sell : Turn → ℕ → ℕ → Run (Unit {0})
  place_sell t qty price =
      if s.enabled && leb s.min_notional (qty * price) then send_sell t qty price else skip

  unfoldable pub at_peak : Turn → ℕ → ℕ → ℕ → Run (Unit {0})
  at_peak t free price peak =
      if should_sell price peak t.item.trail
      then (blocked_by_trend s a s.sell_skip_if_trend_up is_up t.item.pair >>= λ blocked.
          unless blocked (place_sell t (sell_qty free s.sell_fraction) price))
      else skip

  -- A new peak moves the stop up.
  unfoldable pub trail_stop : Turn → ℕ → ℕ → Run (Unit {0})
  unfolding at_peak
  trail_stop t free price w =
      let peak = max w.entry.peak price in
      at_peak t free price peak (record w { entry = record w.entry { peak = peak } })

  unfoldable pub warm_up : Turn → ℕ → ℕ → Option ℕ → Run (Unit {0})
  unfolding trail_stop
  warm_up t free price none = trail_stop t free price
  warm_up t free price (some threshold) =
      if ltb (price * million) threshold
      then skip
      else (change (λ e. record e { warmup_at = none }) >> trail_stop t free price)

  unfoldable pub guard_position : Turn → ℕ → ℕ → Run (Unit {0})
  unfolding warm_up
  guard_position t free price w =
      (if ltb (free * price) s.min_notional then skip else warm_up t free price w.entry.warmup_at) w

  unfoldable pub watch : Turn → ℕ → ℕ → Run (Unit {0})
  unfolding guard_position try_rebuy
  watch t free price w =
      (try_rebuy s a t price w.entry.rebuy >>= λ waiting.
      unless waiting (guard_position t free price))
        w

  -- The warm-up of a new entry starts from the cost basis, or from the price.
  unfoldable pub arm_warm_up : Turn → ℕ → Bool → Run (Unit {0})
  arm_warm_up t price is_new =
      if is_new && ltb 0 s.min_profit
      then (ask basis_call (λ l. some (a.cost_basis l t.item.pair)) >>= λ basis.
          change (λ e. record e {
            warmup_at = some (warm_up_from (reference basis price) s.min_profit);
          }))
      else skip

  unfoldable pub visit : Turn → ℕ → ℕ → Bool → Run (Unit {0})
  unfolding arm_warm_up reconcile_pending watch
  visit t free price is_new = do
    arm_warm_up t price is_new
    consumed ← reconcile_pending s a t price
    unless consumed (watch t free price)

  abbrev pub consult : {A : Type 0} → Call → (Log → Option A) → Stateful Book A
  consult call answer b =
      let b' = record b { log = asked call ∷ b.log } in
      elim (answer b.log) [ none ↦ (raised, b') | some x ↦ (returned x, b') ]

  -- What the steps leave in the entry stays in the state, also where they raise.
  abbrev pub in_turn : Item → ℕ → ℕ → Stateful Book (Unit {0})
  in_turn item free price b =
      let stored = lookup item.key b.state in
      let t : Turn = record { item = item; state = b.state } in
      let (r, w) =
        visit t free price (not (is_some stored))
          (record { entry = or_default stored (fresh_entry price); log = b.log }) in
      (r, record { state = insert item.key w.entry b.state; log = w.log })

  abbrev pub on_price : Item → ℕ → Option ℕ → Stateful Book (Unit {0})
  on_price item free none = skip
  on_price item free (some price) = if price == 0 then skip else in_turn item free price

  -- `_process`
  unfoldable pub process : Item → Stateful Book (Unit {0})
  unfolding visit
  process item = do
    free ← consult free_call (λ l. a.free_qty l item.asset)
    price ← consult price_call (λ l. a.price l item.pair)
    on_price item free price

  abbrev pub returned_if : Bool → Result (Unit {0})
  returned_if true = returned tt
  returned_if false = raised

  -- An exception is reported, which may raise itself.
  abbrev pub caught : Item → Result (Unit {0}) × Book → Result (Unit {0}) × Book
  caught item (returned x, b) = (returned tt, b)
  caught item (raised, b) = (returned_if (a.log_item_error b.log item.key), b)

  abbrev pub isolated : Item → Stateful Book (Unit {0})
  isolated item b = caught item (process item b)

  -- The answer of the save is not read; only an exception ends the tick.
  abbrev pub save_book : Stateful Book (Unit {0})
  save_book b =
      let good = a.save b.log b.state in
      (
        returned_if (good || not (a.save_raises b.log b.state)),
        record b { log = saved b.state good ∷ b.log },
      )

  abbrev pub end_isolated : Result (Unit {0}) × Book → Result (Unit {0}) × Log
  end_isolated (r, b) = (r, b.log)

  abbrev pub isolated_tick : Option State → Option (List Item) → Stateful Log (Unit {0})
  isolated_tick none items l = (raised, l)
  isolated_tick (some state) none l = (raised, l)
  isolated_tick (some state) (some items) l =
      end_isolated ((for_each isolated items >> save_book) (record { state = state; log = l }))

  abbrev pub tick_error : Stateful Log (Unit {0})
  tick_error l = (returned_if (a.log_tick_error l), l)

  abbrev pub end_whole : Result (Unit {0}) × Book → Result (Unit {0}) × Log
  end_whole (returned x, b) = (returned tt, b.log)
  end_whole (raised, b) = tick_error b.log

  abbrev pub whole_tick : Option State → Option (List Item) → Stateful Log (Unit {0})
  whole_tick none items l = tick_error l
  whole_tick (some state) none l = tick_error l
  whole_tick (some state) (some items) l =
      end_whole ((for_each process items >> save_book) (record { state = state; log = l }))

  abbrev pub tick_if : Option Bool → Stateful Log (Unit {0})
  tick_if none l = (raised, l)
  tick_if (some false) l = (returned tt, l)
  tick_if (some true) l =
      (if s.item_isolation
          then isolated_tick (a.load l) (a.assets l)
          else whole_tick (a.load l) (a.assets l))
        l

  unfoldable pub check_once : Stateful Log (Unit {0})
  unfolding process
  check_once l = tick_if (a.begin_tick l) l
