-- ===== src/Lifecycle/Settlement.antt =====
-- `reconcile` of `TrackedOrderLifecycle` (order_retry.py), stage by stage: it places no order, asks for at
-- most one cancellation, and returns what was persisted last.
use binance.Base.{
  ℕ, ◌+◌, ◌≤◌, ◌≡◌, refl, sym, ap, Bool, true, false, Option, none, some, ◌∷◌, arith, if◌then◌else◌,
}
use binance.Outbox.Types.{OrderStatus, terminal}
use binance.Lifecycle.Effects
use binance.Lifecycle.Effects.{
  OrderId, Intent, persisted, audited, looked_up, status_read, canceled, Log, Result, returned,
  raised, Run, ◌>>=◌, ◌>>◌, active, absent, retryable, refused_result, Tracked, valid_identity,
}
use binance.Lifecycle.Submit.{Native, nothing, boolean, bare, object, with_native}
use binance.Lifecycle.Reconcile.{
  conclude, Setup, StatusAnswer, seen, status_error, persist_terminal, cancel_failed, post_cancel,
  after_cancel, cancel_stage,
}
use binance.Lifecycle.Ledger.{
  submissions, cancellations, stored_as, IsStored, store-then, clock-then,
}

-- After a call that may place `a` orders in all and ask for `b` cancellations.
abbrev pub IsSettled : ℕ → ℕ → Result Tracked × Log → Type 0
IsSettled a b (r, l) = (submissions l ≡ a) × (cancellations l ≤ b) × IsStored (r, l)

-- The cancellations that an intent still allows.
abbrev pub allowed : Option ℕ → ℕ
allowed (some at) = 0
allowed none = 1

pub with_native-cancel_attempted_at :
    (n : Native) (i : Intent) → (with_native n i).cancel_attempted_at ≡ i.cancel_attempted_at
unfolding with_native
with_native-cancel_attempted_at nothing i = refl
with_native-cancel_attempted_at boolean i = refl
with_native-cancel_attempted_at (bare n) i = refl
with_native-cancel_attempted_at (object o) i = refl

module _ (u : Setup) (a b : ℕ) where
  pub close-IsSettled :
      (i : Intent) (n : Effects.Note) (c : Effects.Conclusion) (s : Option OrderStatus) (l : Log)
      → stored_as c i ≡ some i
      → submissions l ≡ a
      → cancellations l ≤ b
      → IsSettled a b
          ((Effects.persist u.durable (some i) >> (Effects.audit n >> conclude c i s)) l)
  close-IsSettled i n c s l h placed asked =
      store-then (IsSettled a b) u.durable (some i) n (conclude c i s) l (placed, asked, tt)
        (placed, asked, ap some (sym h))

  pub terminal-IsSettled :
      (i : Intent) (s : OrderStatus) (l : Log)
      → submissions l ≡ a
      → cancellations l ≤ b
      → IsSettled a b (persist_terminal u i s l)
  unfolding persist_terminal
  terminal-IsSettled i s l placed asked =
      clock-then (IsSettled a b) u.clock
        (λ now.
          let p : Intent = record i {
            last_status = some s.status;
            filled_qty = s.filled_qty;
            terminal_status = some (s, now);
          } in
          Effects.persist u.durable (some p)
          >> (Effects.audit Effects.order_terminal >> conclude Effects.terminal p (some s)))
        l (placed, asked, tt)
        (close-IsSettled
          (record i {
            last_status = some s.status;
            filled_qty = s.filled_qty;
            terminal_status = some (s, u.clock l);
          })
          Effects.order_terminal Effects.terminal (some s) l refl placed asked)

  post_cancel-IsSettled :
      (i : Intent) (s : OrderStatus) (answer : StatusAnswer) (l : Log)
      → submissions l ≡ a
      → cancellations l ≤ b
      → IsSettled a b (post_cancel u i s answer l)
  unfolding post_cancel
  post_cancel-IsSettled i s (status_error error) l placed asked =
      close-IsSettled (record i { status_error = some error }) Effects.post_cancel_failed active
        (some s) l refl placed asked
  post_cancel-IsSettled i s (seen after) l placed asked = by_status (terminal after)
    where
      by_status :
          (t : Bool)
          → IsSettled a b (
              (if t
                  then persist_terminal u i after
                  else (Effects.persist u.durable (
                        some (record i {
                          last_status = some after.status;
                          filled_qty = after.filled_qty;
                        }))
                      >> (Effects.audit Effects.cancel_pending
                          >> conclude active
                              (record i {
                                last_status = some after.status;
                                filled_qty = after.filled_qty;
                              })
                              (some after))))
                l)
      by_status true = terminal-IsSettled i after l placed asked
      by_status false =
          close-IsSettled
            (record i { last_status = some after.status; filled_qty = after.filled_qty })
            Effects.cancel_pending active (some after) l refl placed asked

  after_cancel-IsSettled :
      (i : Intent) (s : OrderStatus) (id : OrderId) (answer : Option ℕ) (l : Log)
      → submissions l ≡ a
      → cancellations l ≤ b
      → IsSettled a b (after_cancel u i s id answer l)
  unfolding after_cancel cancel_failed
  after_cancel-IsSettled i s id (some error) l placed asked =
      close-IsSettled (record i { cancel_error = some error }) Effects.cancel_ambiguous active
        (some s) l refl placed asked
  after_cancel-IsSettled i s id none l placed asked =
      let p : Intent = record i { cancel_error = none } in
      let done : Log = audited Effects.cancel_accepted ∷ persisted (some p) ∷ l in
      store-then (IsSettled a b) u.durable (some p) Effects.cancel_accepted
        (Effects.call (status_read id) u.status >>= λ answer. post_cancel u p s answer) l
        (placed, asked, tt)
        (post_cancel-IsSettled p s (u.status done) (status_read id ∷ done) placed asked)

  pub cancel_stage-IsSettled :
      (i : Intent) (s : OrderStatus) (id : OrderId) (l : Log)
      → submissions l ≡ a
      → cancellations l + 1 ≤ b
      → IsSettled a b (cancel_stage u i s id l)
  unfolding cancel_stage
  cancel_stage-IsSettled i s id l placed asked =
      let p : Intent = record i { cancel_attempted_at = some (u.clock l) } in
      let done : Log = audited Effects.cancel_requested ∷ persisted (some p) ∷ l in
      clock-then (IsSettled a b) u.clock
        (λ now.
          let p : Intent = record i { cancel_attempted_at = some now } in
          Effects.persist u.durable (some p)
          >> (Effects.audit Effects.cancel_requested
              >> (Effects.call (canceled id) u.cancel >>= λ answer. after_cancel u p s id answer)))
        l (placed, (omega arith), tt)
        (store-then (IsSettled a b) u.durable (some p) Effects.cancel_requested
          (Effects.call (canceled id) u.cancel >>= λ answer. after_cancel u p s id answer) l
          (placed, (omega arith), tt)
          (after_cancel-IsSettled p s id (u.cancel done) (canceled id ∷ done) placed (omega arith)))
