-- ===== src/RtradePair/Quiet.antt =====
-- Operations that leave what the log of a round shows (strategies/rtrade_pair.py).
use binance.Base.{
  ℕ, ◌≡◌, refl, Bool, true, false, not, ◌||◌, Option, none, some, is_some, List, [], ◌∷◌, ltb,
  or_default, if◌then◌else◌,
}
use binance.Base.Stateful.{
  ◌>>=◌, pure, skip, for_each, Keeps, bind-Keeps, for_each-Keeps, After, if-at,
}
use binance.RtradePair.Types.{
  buy, sell, is_open, Ticket, Snapshot, Policy, Phase, Pair, Call, status_call, cancel_call, asked,
  Log, Venue, World, ask, or_raise, change,
}
use binance.RtradePair.Orders.{
  filled, record_first_fill, places, observe, settled, cancel_refused, status_unconfirmed,
  is_settled, compact, refresh_one, refresh, settle_by, confirm_by, cancel_and_reconcile, cancel_if,
  cancel, cancel_each, cancel_until,
}
use binance.RtradePair.Ledger.{Guarded}

module _ (v : Venue) (n : Phase → ℕ → ℕ → Type 0) where
  pub ask-Keeps :
      {A : Type 0} (call : Call) (answer : Log → Option A) → Keeps (Guarded n) (ask call answer)
  ask-Keeps {A} call answer w h = by_answer (answer w.log)
    where
      by_answer : (o : Option A) → Guarded n (or_raise o (record w { log = asked call ∷ w.log })).1
      by_answer none = h
      by_answer (some a) = h

  settle_by-Keeps :
      (i : ℕ) (t : Ticket) (o : Option Snapshot) → Keeps (Guarded n) (settle_by v i t o)
  settle_by-Keeps i t none w h = h
  settle_by-Keeps i t (some s) w h = h

  confirm_by-Keeps : (i : ℕ) (t : Ticket) (b : Bool) → Keeps (Guarded n) (confirm_by v i t b)
  confirm_by-Keeps i t false w h = h
  confirm_by-Keeps i t true w h = settle_by-Keeps i t (v.order_status w.log t.order_id) _ h

  pub cancel_and_reconcile-Keeps : (it : ℕ × Ticket) → Keeps (Guarded n) (cancel_and_reconcile v it)
  unfolding cancel_and_reconcile
  cancel_and_reconcile-Keeps (i, t) w h =
      confirm_by-Keeps i t (or_default (v.cancel w.log t.order_id) false) _ h

  refresh_one-Keeps : (it : ℕ × Ticket) → Keeps (Guarded n) (refresh_one v it)
  refresh_one-Keeps (i, t) =
      bind-Keeps (Guarded n) (ask (status_call t.order_id) (λ l. v.order_status l t.order_id))
        (λ s. change (observe i t.order_id s))
        (ask-Keeps (status_call t.order_id) (λ l. v.order_status l t.order_id)) (λ s w h. h)

  pub refresh-Keeps : Keeps (Guarded n) (refresh v)
  unfolding refresh compact
  refresh-Keeps w =
      bind-Keeps (Guarded n) (for_each (refresh_one v) (places 0 w.pair.tickets))
        (λ _. change compact)
        (for_each-Keeps (Guarded n) (refresh_one v) (places 0 w.pair.tickets) refresh_one-Keeps)
        (λ _ u h. h) w

  cancel_if-Keeps : (i : ℕ) (b : Bool) → Keeps (Guarded n) (cancel_if v i b)
  cancel_if-Keeps i true w h = h
  cancel_if-Keeps i false w h = h

  pub cancel-Keeps : (it : ℕ × Ticket) → Keeps (Guarded n) (cancel v it)
  unfolding cancel
  cancel-Keeps (i, t) w h =
      if-at (λ o. Guarded n o.1) t.active _ skip w
        (λ _.
          bind-Keeps (Guarded n) (ask (cancel_call t.order_id) (λ l. v.cancel l t.order_id))
            (cancel_if v i) (ask-Keeps (cancel_call t.order_id) (λ l. v.cancel l t.order_id))
            (cancel_if-Keeps i) w h)
        (λ _. h)

  pub cancel_each-Keeps : (its : List (ℕ × Ticket)) → Keeps (Guarded n) (cancel_each v its)
  unfolding cancel_each
  cancel_each-Keeps [] w h = h
  cancel_each-Keeps ((i, t) ∷ its) w h =
      if-at (λ o. Guarded n o.1) t.active _ (cancel_each v its) w
        (λ _.
          bind-Keeps (Guarded n) (cancel_and_reconcile v (i, t))
            (λ end. cancel_each v its >>= λ ambiguous. pure (not (is_settled end) || ambiguous))
            (cancel_and_reconcile-Keeps (i, t))
            (λ end.
              bind-Keeps (Guarded n) (cancel_each v its)
                (λ ambiguous. pure (not (is_settled end) || ambiguous)) (cancel_each-Keeps its)
                (λ b u k. k))
            w h)
        (λ _. cancel_each-Keeps its w h)

  pub cancel_until-Keeps : (its : List (ℕ × Ticket)) → Keeps (Guarded n) (cancel_until v its)
  unfolding cancel_until
  cancel_until-Keeps [] w h = h
  cancel_until-Keeps ((i, t) ∷ its) w h =
      if-at (λ o. Guarded n o.1) t.active _ (cancel_until v its) w
        (λ _.
          bind-Keeps (Guarded n) (cancel_and_reconcile v (i, t))
            (λ end. if is_settled end then cancel_until v its else pure end)
            (cancel_and_reconcile-Keeps (i, t))
            (λ end u k.
              if-at (λ o. Guarded n o.1) (is_settled end) (cancel_until v its) (pure end) u
                (λ _. cancel_until-Keeps its u k) (λ _. k))
            w h)
        (λ _. cancel_until-Keeps its w h)

  pub either :
      (b : Bool) (w : World) (p q : Pair)
      → Guarded n (record w { pair = p })
      → Guarded n (record w { pair = q })
      → Guarded n (record w { pair = if b then p else q })
  either true w p q first second = first
  either false w p q first second = second

  pub record_first_fill-Keeps :
      (policy : Policy) (now : ℕ) → Keeps (Guarded n) (change (record_first_fill policy now))
  unfolding record_first_fill
  record_first_fill-Keeps policy now w h =
      either
        (is_some w.pair.first_fill_at
          || not (ltb 0 (filled buy w.pair) || ltb 0 (filled sell w.pair)))
        w w.pair _ h h

  -- A cancellation raises nothing, and a refused one leaves the round as it was.
  pub cancel_and_reconcile-Ends :
      (it : ℕ × Ticket) (w : World)
      → Guarded n w
      → After
          (λ end u. Guarded n u × (end ≡ cancel_refused → u.pair ≡ w.pair))
          (λ _. ⊥)
          (cancel_and_reconcile v it w)
  unfolding cancel_and_reconcile
  cancel_and_reconcile-Ends (i, t) w h = by_cancel (or_default (v.cancel w.log t.order_id) false)
    where
      canceling : World
      canceling = record w { log = asked (cancel_call t.order_id) ∷ w.log }

      reading : World
      reading = record canceling { log = asked (status_call t.order_id) ∷ canceling.log }

      by_state :
          (b : Bool) (u : World)
          → Guarded n u
          → After
              (λ end u. Guarded n u × (end ≡ cancel_refused → u.pair ≡ w.pair))
              (λ _. ⊥)
              (pure (if b then status_unconfirmed else settled) u)
      by_state true u k = (k, λ e. cc)
      by_state false u k = (k, λ e. cc)

      by_status :
          (o : Option Snapshot)
          → After
              (λ end u. Guarded n u × (end ≡ cancel_refused → u.pair ≡ w.pair))
              (λ _. ⊥)
              (settle_by v i t o reading)
      by_status none = (h, λ e. cc)
      by_status (some s) =
          by_state (is_open s.status)
            (record reading { pair = observe i t.order_id s reading.pair }) h

      by_cancel :
          (b : Bool)
          → After
              (λ end u. Guarded n u × (end ≡ cancel_refused → u.pair ≡ w.pair))
              (λ _. ⊥)
              (confirm_by v i t b canceling)
      by_cancel false = (h, λ e. refl)
      by_cancel true = by_status (v.order_status canceling.log t.order_id)
