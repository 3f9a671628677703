-- ===== src/Placing/Sending.antt =====
-- An order that `Instrument.place` (instrument.py) sends, from its guards to its dispatch.
use binance.Base.{
  ◌<◌, ◌≡◌, ◌≢◌, refl, subst, arith, Bool, true, false, not, ◌&&◌, Option, none, some, List, ◌==◌,
  if◌then◌else◌, Bool-cases, inl, inr, or_default,
}
use binance.Outbox.File.{Line}
use binance.Cooldown.Gate.{State}
use binance.Outbox.Response.{Response}
use binance.Placing.Types
use binance.Placing.Types.{Try, gives, refuses, raises, ◌>>=◌, ◌>>◌, require, is_buy}
use binance.Placing.Quantity.{Decision, wanted}
use binance.Placing.Decided.{IsDecided, decide_quantity-IsDecided}
use binance.Placing.Setting.{Call, Setting, Sent}
use binance.Placing.Checks.{
  Priced, when, checks_profit, applies_policy, check_profit, check_price, check_quantity,
  check_trend, take_permit, check_dispatch, check_enabled, decide,
}
use binance.Placing.Guarded.{
  bind-gives, require-gives, Profits, IsPriced, check_price-IsPriced, check_profit-Profits,
  when-gives,
}
use binance.Placing.Place.{
  on_quantity, on_decision, on_price, gate, first_gate, enter, place, Verdict,
}
use binance.Placing.Slotted.{IsSlotted, with_slot-IsSlotted}
use binance.Placing.Dispatched.{
  IsDispatchable, IsPrepared, IsPermitted, IsFavorable, check_enabled-gives, first_gate-gives,
  check_dispatch-IsDispatchable, before_price-IsPrepared, take_permit-IsPermitted,
  check_dispatch-IsFavorable,
}

module _ (s : Setting) (c : Call) where
  -- What holds of an order that is sent: the guards on prices and trades, the bounds on its quantity, the trend,
  -- the switch of the execution at all three reads, the slot of the cooldown, and the record behind it.
  pub record IsGuarded (state : State) (o : Sent) : Type 0 where
    pub guards : Priced
    pub decision : Decision
    pub priced : IsPriced s c guards
    pub decided :
        IsDecided
          (s.quantity c.market)
          c.side
          guards.quantity_price
          c.qty
          (applies_policy s c)
          decision
    pub positive : 0 < decision.final_qty
    pub same_qty : o.qty ≡ wanted decision.final_qty
    pub prepared : IsPrepared s c
    pub early :
        c.market ≡ true
        → checks_profit s c ≡ true
        → Profits c.side guards.quantity_price s.margin s.window_ref s.early_fill
    pub permitted : IsPermitted s c
    pub favorable : IsFavorable s c
    pub untrended : c.wait_for_trend ≡ true → s.should_wait ≢ gives true
    pub enabled : (s.enabled_first ≡ gives true) × (s.enabled_last ≡ gives true)
    pub dispatched : c.market ≡ true → checks_profit s c ≡ true → IsDispatchable s c s.last_quote
    pub slotted : IsSlotted s c guards decision.final_qty state o

  on_quantity-IsGuarded :
      (p : Priced) (d : Decision) (state : State) (o : Sent) (ls : List Line) (t : Try (Unit {0}))
      → first_gate s c ≡ none
      → check_price s c ≡ gives p
      → decide s c p ≡ gives d
      → check_quantity s c p d ≡ t
      → (on_quantity s c p d state ls t).sent ≡ some o
      → IsGuarded state o
  unfolding check_quantity
  on_quantity-IsGuarded p d state o ls (refuses r) g e f k h = cc
  on_quantity-IsGuarded p d state o ls raises g e f k h = cc
  on_quantity-IsGuarded p d state o ls (gives u) g e f k h =
      let slotted : IsSlotted s c p d.final_qty state o =
        with_slot-IsSlotted s c p d.final_qty state o ls h in
      let (v, positive, k1) =
        bind-gives
          (require (not (d.final_qty == 0))
            (or_default d.refuse_reason Types.qty_zero_after_policy))
          (λ (x : Unit {0}).
            when c.wait_for_trend (check_trend s c s.should_wait)
            >> when (checks_profit s c && c.market)
                (check_profit s c p.quantity_price p.window_ref s.early_fill))
          u k in
      let (w, trend, k2) =
        bind-gives (when c.wait_for_trend (check_trend s c s.should_wait))
          (λ (x : Unit {0}).
            when (checks_profit s c && c.market)
              (check_profit s c p.quantity_price p.window_ref s.early_fill))
          u k1 in
      let (x1, permitted, l1) =
        bind-gives (take_permit s c >> check_dispatch s c p)
          (λ (x : Unit {0}). check_enabled s c s.enabled_last) tt slotted.checked in
      let (x2, permit, sound) =
        bind-gives (take_permit s c) (λ (x : Unit {0}). check_dispatch s c p) x1 permitted in
      let nonzero : not (d.final_qty == 0) ≡ true =
        require-gives (not (d.final_qty == 0))
          (or_default d.refuse_reason Types.qty_zero_after_policy) v positive in
      let some_qty : 0 < d.final_qty = ground arith in
      let priced : IsPriced s c p = check_price-IsPriced s c p e in
      record {
        guards = p;
        decision = d;
        priced = priced;
        decided =
            decide_quantity-IsDecided (s.quantity c.market) c.side p.quantity_price c.qty
              (applies_policy s c) d f some_qty;
        positive = some_qty;
        prepared = before_price-IsPrepared s c priced.ready;
        early = λ market profit.
            check_profit-Profits s c p.quantity_price p.window_ref s.window_ref s.early_fill u
              (priced.windowed profit)
              (when-gives (checks_profit s c && c.market) _ u k2 (rw (profit, market) refl));
        permitted = take_permit-IsPermitted s c permit;
        favorable = check_dispatch-IsFavorable s c p sound;
        same_qty = slotted.qty_of;
        untrended = λ waits falling. is_waiting waits falling w trend;
        enabled = (first_gate-gives s c g, check_enabled-gives s c s.enabled_last tt l1);
        dispatched = check_dispatch-IsDispatchable s c p x1 priced sound;
        slotted = slotted;
      }
    where
      is_waiting :
          c.wait_for_trend ≡ true
          → s.should_wait ≡ gives true
          → (w : Unit {0}) → when c.wait_for_trend (check_trend s c s.should_wait) ≡ gives w
          → ⊥
      is_waiting waits falling w k =
          let deferred : when true (check_trend s c (gives true)) ≡ gives w =
            subst (λ t. when true (check_trend s c t) ≡ gives w) falling
              (subst (λ b. when b (check_trend s c s.should_wait) ≡ gives w) waits k) in
          cc

  on_decision-IsGuarded :
      (p : Priced) (state : State) (o : Sent) (ls : List Line) (t : Try Decision)
      → first_gate s c ≡ none
      → check_price s c ≡ gives p
      → decide s c p ≡ t
      → (on_decision s c p state ls t).sent ≡ some o
      → IsGuarded state o
  unfolding on_decision
  on_decision-IsGuarded p state o ls (gives d) g e f h =
      on_quantity-IsGuarded p d state o ls (check_quantity s c p d) g e f refl h
  on_decision-IsGuarded p state o ls (refuses r) g e f h = cc
  on_decision-IsGuarded p state o ls raises g e f h = cc

  on_price-IsGuarded :
      (state : State) (o : Sent) (ls : List Line) (t : Try Priced)
      → first_gate s c ≡ none
      → check_price s c ≡ t
      → (on_price s c state ls t).sent ≡ some o
      → IsGuarded state o
  unfolding on_price
  on_price-IsGuarded state o ls (gives p) g e h =
      on_decision-IsGuarded p state o ls (decide s c p) g e refl h
  on_price-IsGuarded state o ls (refuses r) g e h = cc
  on_price-IsGuarded state o ls raises g e h = cc

  -- An order of the pipeline: no gate has answered the call.
  pub place-entered :
      (state : State) (ls : List Line) (o : Sent)
      → first_gate s c ≡ none
      → (place s c state ls).sent ≡ some o
      → IsGuarded state o
  unfolding place
  place-entered state ls o g h =
      on_price-IsGuarded state o ls (check_price s c) g refl
        (subst (λ v. (enter s c v state ls).sent ≡ some o) g h)

  -- Only a provider with guards of its own is handed an order.
  gate-handed_over :
      (t : Try Bool) (answer : Try Response)
      → s.guards_internally ≡ false
      → gate s c t ≡ some (Verdict.delegated answer)
      → ⊥
  gate-handed_over (gives true) answer bare h = ground arith
  gate-handed_over (gives false) answer bare h = ground arith
  gate-handed_over (refuses r) answer bare h = ground arith
  gate-handed_over raises answer bare h = ground arith

  first_gate-handed_over :
      (answer : Try Response)
      → s.guards_internally ≡ false
      → first_gate s c ≡ some (Verdict.delegated answer)
      → ⊥
  first_gate-handed_over answer bare h = elim (Bool-cases (c.has_permit && not s.is_binance)) [
    | inl odd ↦
        let impossible : some (Verdict.turned_away Types.invalid_permit_provider)
            ≡ some (Verdict.delegated answer) =
          subst
            (λ b.
              (if b
                then some (Verdict.turned_away Types.invalid_permit_provider)
                else gate s c s.enabled_first)
              ≡ some (Verdict.delegated answer))
            odd h in
        ground arith
    | inr even ↦ gate-handed_over s.enabled_first answer bare (
        subst
          (λ b.
            (if b
              then some (Verdict.turned_away Types.invalid_permit_provider)
              else gate s c s.enabled_first)
            ≡ some (Verdict.delegated answer))
          even h)
  ]

  -- What is sent without guards of the provider's own has entered the pipeline.
  pub place-enters :
      (state : State) (ls : List Line) (o : Sent)
      → s.guards_internally ≡ false
      → (place s c state ls).sent ≡ some o
      → first_gate s c ≡ none
  unfolding place
  place-enters state ls o bare h = by_gate (first_gate s c) refl h
    where
      by_gate :
          (v : Option Verdict)
          → first_gate s c ≡ v
          → (enter s c v state ls).sent ≡ some o
          → v ≡ none
      by_gate none g e = refl
      by_gate (some (Verdict.delegated answer)) g e = absurd (first_gate-handed_over answer bare g)
      by_gate (some (Verdict.turned_away r)) g e = absurd (cc)
      by_gate (some (Verdict.concluded r)) g e = absurd (cc)

-- An order that `place` sends to a provider without guards of its own has passed every guard, whatever the
-- provider answers and whatever the other processes do: a Binance call without a permit has prepared the state
-- of the account, and a call to another venue has passed its own check; the trades of its window are few enough
-- and old enough; its price keeps the margin to the reference, and for a market order so do the quotes of the
-- decision (against the last fill read then) and of the dispatch, unless a bypass applies, the reference is 0 or
-- the price is 0; its quantity is the one decided, positive and within every bound of the decision; no trend
-- holds it back; a Binance call without a permit has taken and validated one for the dispatch; a market retry is
-- at a quote no worse than its tolerance; the execution is enabled at the start, in the slot and just before the
-- dispatch; the slot of the cooldown was free; and, where the queue is to keep it, its record stands in the
-- queue file, leased for the dispatch, marked as possibly submitted and protected from eviction.
pub place-IsGuarded :
    (s : Setting) (c : Call) (state : State) (ls : List Line) (o : Sent)
    → s.guards_internally ≡ false
    → (place s c state ls).sent ≡ some o
    → IsGuarded s c state o
place-IsGuarded s c state ls o bare h =
    place-entered s c state ls o (place-enters s c state ls o bare h) h
