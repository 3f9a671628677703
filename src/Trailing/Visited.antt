-- ===== src/Trailing/Visited.antt =====
-- One asset of a tick keeps the log safe (trailing_core.py).
use binance.Base.{
  ℕ, ◌≡◌, refl, Bool, true, false, ◌&&◌, Option, none, some, ◌∷◌, is_some, ltb, if◌then◌else◌,
}
use binance.Base.Dict.{insert}
use binance.Base.Stateful.{
  Result, returned, raised, ◌>>=◌, ◌>>◌, skip, Keeps, bind-Keeps, Ends, bind-Ends, After, to_After,
  from_After, if-at,
}
use binance.Trailing.Types.{
  Rebuy, Action, sell, rebuy, unknown_action, Pending, Settings, asked, Fill, Reconciled, terminal,
  not_terminal, reconciled, saved, policy_call, Log, Adapter, World, Run, Turn, run, change,
  save_state,
}
use binance.Trailing.Pending.{
  average, policy_of, getter, rebuy_for, arm_rebuy, apply_fill, finish_pending, if_saved,
  on_reconciled, reconcile_for, reconcile_pending,
}
use binance.Trailing.Rebuy.{unless, with_low, handle_rebuy, has_pending, rebuy_if, try_rebuy}
use binance.Trailing.Process.{guard_position, watch, arm_warm_up, visit}
use binance.Trailing.Sent.{Clear, handle_rebuy-Safe, guard_position-Safe}
use binance.Trailing.Orders.{Safe, run-Keeps}

module _ (s : Settings) (a : Adapter) where
  -- No order is in flight, where the answer is no.
  abbrev IsFree : Bool → World → Type 0
  IsFree b w = Safe s a w × (b ≡ false → w.entry.pending ≡ none)

  rebuy_for-Ends :
      (P : World → Type 0) (arm : Bool) (pair : ℕ)
      → ((w : World) → P w → P (record w { log = asked policy_call ∷ w.log }))
      → Ends P (rebuy_for s a arm pair) (λ _. P) P
  unfolding rebuy_for
  rebuy_for-Ends P arm pair asking = by_policy (getter s a arm)
    where
      by_policy :
          (policy : Option (Log → ℕ → Option Bool)) → Ends P (policy_of s a policy pair) (λ _. P) P
      by_policy none w h = h
      by_policy (some policy) w h = asking w h

  has_pending-Ends : Ends (Safe s a) has_pending IsFree (Safe s a)
  has_pending-Ends w safe = (safe, clear w.entry.pending)
    where
      clear : (p : Option Pending) → is_some p ≡ false → p ≡ none
      clear none h = refl
      clear (some p) h = cc

  try_rebuy-Ends :
      (t : Turn) (price : ℕ) (stored : Option Rebuy)
      → Ends (Clear s a) (try_rebuy s a t price stored) IsFree (Safe s a)
  unfolding try_rebuy
  try_rebuy-Ends t price none w (safe, clear) = (safe, λ _. clear)
  try_rebuy-Ends t price (some rb) w h =
      bind-Ends (Clear s a) (λ _. Clear s a) IsFree (Safe s a) (rebuy_for s a false t.item.pair)
        (rebuy_if s a t price (with_low rb price)) permitted-Ends by_permission
        (record w { entry = record w.entry { rebuy = some (with_low rb price) } }) h
    where
      weaken :
          (o : Result Bool × World)
          → After (λ (_ : Bool). Clear s a) (Clear s a) o
          → After (λ (_ : Bool). Clear s a) (Safe s a) o
      weaken (returned b, v) k = k
      weaken (raised, v) k = k.0

      permitted-Ends :
          Ends (Clear s a) (rebuy_for s a false t.item.pair) (λ _. Clear s a) (Safe s a)
      permitted-Ends v k = weaken _ (rebuy_for-Ends (Clear s a) false t.item.pair (λ u c. c) v k)

      by_permission :
          (b : Bool)
          → Ends (Clear s a) (rebuy_if s a t price (with_low rb price) b) IsFree (Safe s a)
      by_permission false v (safe, clear) = (safe, λ _. clear)
      by_permission true v k =
          bind-Ends (Clear s a) (λ _. Safe s a) IsFree (Safe s a)
            (handle_rebuy s a t price (some (with_low rb price))) (λ _. has_pending) handled
            (λ _. has_pending-Ends) v k
        where
          handled :
              Ends
                (Clear s a)
                (handle_rebuy s a t price (some (with_low rb price)))
                (λ _. Safe s a)
                (Safe s a)
          handled u q =
              to_After (Safe s a) (handle_rebuy s a t price (some (with_low rb price)) u)
                (handle_rebuy-Safe s a t price (with_low rb price) u q)

  watch-Safe :
      (t : Turn) (free price : ℕ) (w : World)
      → (Clear s a) w
      → Safe s a (watch s a t free price w).1
  unfolding watch
  watch-Safe t free price w h = from_After (Safe s a) (watch s a t free price w) (
      bind-Ends (Clear s a) IsFree (λ _. Safe s a) (Safe s a) (try_rebuy s a t price w.entry.rebuy)
        (λ waiting. unless waiting (guard_position s a t free price))
        (try_rebuy-Ends t price w.entry.rebuy) by_waiting w h)
    where
      by_waiting :
          (b : Bool)
          → Ends (IsFree b) (unless b (guard_position s a t free price)) (λ _. Safe s a) (Safe s a)
      by_waiting true v (safe, free_if) = safe
      by_waiting false v (safe, free_if) =
          to_After (Safe s a) (guard_position s a t free price v)
            (guard_position-Safe s a t free price v (safe, free_if refl))

  finish_pending-Keeps :
      (pair price : ℕ) (f : Fill) → Keeps (Safe s a) (finish_pending s a pair price f)
  unfolding finish_pending apply_fill
  finish_pending-Keeps pair price f w h = by_size (ltb 0 f.filled_qty) f.intent.action
    where
      armed-Keeps : (filled avg : ℕ) (b : Bool) → Keeps (Safe s a) (arm_rebuy s a filled avg b)
      armed-Keeps filled avg true v k = k
      armed-Keeps filled avg false v k = k

      end : Run (Unit {0})
      end = change (λ e. record e { pending = none })

      by_size :
          (b : Bool) (action : Action)
          → Safe s a
              (((if b then apply_fill s a pair f.filled_qty (average f price) action else skip)
                  >> end)
                w).1
      by_size false action = h
      by_size true rebuy = h
      by_size true unknown_action = h
      by_size true sell =
          bind-Keeps (Safe s a) (apply_fill s a pair f.filled_qty (average f price) sell) (λ _. end)
            (λ v k.
              bind-Keeps (Safe s a) (rebuy_for s a true pair)
                (arm_rebuy s a f.filled_qty (average f price))
                (λ u q.
                  from_After (Safe s a) (rebuy_for s a true pair u)
                    (rebuy_for-Ends (Safe s a) true pair (λ x c. c) u q))
                (armed-Keeps f.filled_qty (average f price))
                (record v { entry = record v.entry { peak = average f price } }) k)
            (λ _ v k. k) w h

  -- A reconciled order ends the turn of the asset.
  abbrev IsConsumed : Bool → World → Type 0
  IsConsumed b w = Safe s a w × (b ≡ true)

  on_reconciled-Ends :
      (t : Turn) (price : ℕ) (answer : Reconciled)
      → Ends (Safe s a) (on_reconciled s a t price answer) IsConsumed (Safe s a)
  unfolding on_reconciled
  on_reconciled-Ends t price not_terminal w h = (h, refl)
  on_reconciled-Ends t price (terminal f) w h =
      bind-Ends (Safe s a) (λ _. Safe s a) IsConsumed (Safe s a)
        (finish_pending s a t.item.pair price f) (λ _. save_state a t >>= λ good. if_saved s a good)
        (λ v k.
          to_After (Safe s a) (finish_pending s a t.item.pair price f v)
            (finish_pending-Keeps t.item.pair price f v k))
        (λ _. saved-Ends) w h
    where
      by_save : (b : Bool) (v : World) → Safe s a v → After IsConsumed (Safe s a) (if_saved s a b v)
      by_save true v k = (k, refl)
      by_save false v k = k

      saved-Ends :
          Ends (Safe s a) (save_state a t >>= λ good. if_saved s a good) IsConsumed (Safe s a)
      saved-Ends v k =
          let state = insert t.item.key v.entry t.state in
          by_save (a.save v.log state) (record v { log = saved state (a.save v.log state) ∷ v.log })
            k

  pub visit-Safe :
      (t : Turn) (free price : ℕ) (is_new : Bool) → Keeps (Safe s a) (visit s a t free price is_new)
  unfolding visit arm_warm_up reconcile_pending reconcile_for
  visit-Safe t free price is_new =
      bind-Keeps (Safe s a) (arm_warm_up s a t price is_new)
        (λ _.
          reconcile_pending s a t price >>= λ consumed. unless consumed (watch s a t free price))
        (λ w h. if-at (λ o. Safe s a o.1) (is_new && ltb 0 s.min_profit) _ skip w (λ _. h) (λ _. h))
        (λ _ w h. by_pending w.entry.pending w refl h)
    where
      watched-Ends :
          (b : Bool)
          → Ends (IsConsumed b) (unless b (watch s a t free price)) (λ _. Safe s a) (Safe s a)
      watched-Ends true w (h, same) = h
      watched-Ends false w (h, same) = cc

      by_pending :
          (p : Option Pending) (w : World)
          → w.entry.pending ≡ p
          → Safe s a w
          → Safe s a
              ((reconcile_for s a t price p >>= λ consumed.
                  unless consumed (watch s a t free price))
                w).1
      by_pending none w same h = watch-Safe t free price w (h, same)
      by_pending (some pending) w same h =
          from_After (Safe s a)
            ((reconcile_for s a t price (some pending) >>= λ consumed.
                unless consumed (watch s a t free price))
              w)
            (bind-Ends (Safe s a) IsConsumed (λ _. Safe s a) (Safe s a)
              (reconcile_for s a t price (some pending))
              (λ consumed. unless consumed (watch s a t free price))
              (λ v k.
                bind-Ends (Safe s a) (λ _. Safe s a) IsConsumed (Safe s a)
                  (λ u. run a t (a.reconcile_pending u.log pending) u) (on_reconciled s a t price)
                  (λ u q.
                    to_After (Safe s a) (run a t (a.reconcile_pending u.log pending) u)
                      (run-Keeps s a t (a.reconcile_pending u.log pending) u q))
                  (on_reconciled-Ends t price) (record v { log = reconciled pending ∷ v.log }) k)
              watched-Ends w h)
