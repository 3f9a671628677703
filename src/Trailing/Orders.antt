-- ===== src/Trailing/Orders.antt =====
-- The log of the trailing stop: an order is sent only where the rules allow it (trailing_core.py).
use binance.Base.{ℕ, ◌*◌, ◌≡◌, Bool, true, false, ◌⊎◌, Option, none, some, [], ◌∷◌, ltb, leb, ◌==◌}
use binance.Base.Stateful.{Keeps}
use binance.Trailing.Types.{
  Rebuy, Entry, Settings, Item, Trend, trend_call, asked, sell_sent, rebuy_sent, reconciled, saved,
  Log, Adapter, Script, done, fail, persist, World, Turn, run, ask, Call, or_raise,
}
use binance.Trailing.Rules.{should_sell, no_bounce, rebuy_qty}
use binance.Trailing.Rebuy.{is_up, is_down}

module _ (s : Settings) (a : Adapter) where
  -- The filter is off, or the last call before the order asked for the trend and it was not the bad one.
  abbrev pub IsTrendFine : Bool → (Trend → Bool) → ℕ → Log → Type 0
  IsTrendFine filter bad pair l =
      (filter ≡ false)
      ⊎ ((before : Log) × (trend : Trend) × (l ≡ asked trend_call ∷ before)
          × (a.trend before pair ≡ some trend)
          × (bad trend ≡ false))

  pub record IsSale (item : Item) (e : Entry) (qty price : ℕ) (l : Log) : Type 0 where
    pub live : s.enabled ≡ true
    pub none_pending : e.pending ≡ none
    pub warm : e.warmup_at ≡ none
    pub at_stop : should_sell price e.peak item.trail ≡ true
    pub worth : leb s.min_notional (qty * price) ≡ true
    pub trend_fine : IsTrendFine s.sell_skip_if_trend_up is_up item.pair l

  pub record IsRebuy (item : Item) (e : Entry) (qty price : ℕ) (l : Log) : Type 0 where
    pub live : s.enabled ≡ true
    pub none_pending : e.pending ≡ none
    pub bounced :
        (rb : Rebuy) × (low : ℕ) × (e.rebuy ≡ some rb)
        × (rb.low ≡ some low)
        × (no_bounce price low s.rebuy_bounce ≡ false)
        × (qty ≡ rebuy_qty rb.qty)
    pub positive : (qty == 0) ≡ false
    pub worth : ltb (qty * price) s.min_notional ≡ false
    pub trend_fine : IsTrendFine s.rebuy_skip_if_trend_down is_down item.pair l

  abbrev pub IsSafe : Log → Type 0
  IsSafe [] = Unit
  IsSafe (sell_sent item e qty price ∷ l) = IsSale item e qty price l × IsSafe l
  IsSafe (rebuy_sent item e qty price ∷ l) = IsRebuy item e qty price l × IsSafe l
  IsSafe (asked c ∷ l) = IsSafe l
  IsSafe (reconciled p ∷ l) = IsSafe l
  IsSafe (saved state good ∷ l) = IsSafe l

  abbrev pub Safe : World → Type 0
  Safe w = IsSafe w.log

  pub run-Keeps : {A : Type 0} (t : Turn) (script : Script A) → Keeps Safe (run a t script)
  unfolding run
  run-Keeps t (done x) w h = h
  run-Keeps t fail w h = h
  run-Keeps t (persist pending next) w h = run-Keeps t (next _) _ h

  pub ask-Keeps :
      {A : Type 0} (call : Call) (answer : Log → Option A) → Keeps Safe (ask call answer)
  ask-Keeps {A} call answer w h = by_answer (answer w.log)
    where
      by_answer : (o : Option A) → Safe (or_raise o (record w { log = asked call ∷ w.log })).1
      by_answer none = h
      by_answer (some x) = h
