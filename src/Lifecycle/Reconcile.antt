-- ===== src/Lifecycle/Reconcile.antt =====
-- `reconcile` of `TrackedOrderLifecycle` (order_retry.py) in its three stages: the lookup by client
-- order ID, the status of the order, and the cancellation of an order that is too old.
use binance.Base.{
  ℕ, ◌+◌, ◌-◌, Bool, true, ◌||◌, Option, none, some, is_some, ◌==◌, ltb, if◌then◌else◌,
}
use binance.Outbox.Types.{OrderStatus, terminal}
use binance.Lifecycle.Effects.{
  OrderId, Intent, Event, looked_up, status_read, canceled, order_terminal, lookup_failed,
  lookup_retryable, order_missing, order_recovered, status_failed, order_status, cancel_requested,
  cancel_ambiguous, cancel_accepted, post_cancel_failed, cancel_pending, Log, Result, returned,
  raised, Run, ◌>>=◌, ◌>>◌, pure, audit, require, persist, call, valid_identity, active, absent,
  retryable, Tracked,
}
use binance.Lifecycle.Effects
use binance.Lifecycle.Submit.{Native, with_native}

pub data LookupAnswer : Type 0 where
  found : Native → LookupAnswer
  lookup_error : ℕ → LookupAnswer

pub data StatusAnswer : Type 0 where
  seen : OrderStatus → StatusAnswer
  status_error : ℕ → StatusAnswer

-- What the lifecycle is built from: the settings, the caller's callback, the venue and the clock.
pub record Setup : Type 0 where
  pub missing_confirmations : ℕ
  pub retry_on_lookup_error : Bool
  pub max_age : Option ℕ
  pub durable : Option Intent → Log → Bool
  pub lookup : Log → LookupAnswer
  pub status : Log → StatusAnswer
  pub cancel : Log → Option ℕ
  pub clock : Log → ℕ

-- `_now`: a clock that gives no positive time raises.
abbrev pub read_clock : (Log → ℕ) → Run ℕ
read_clock clock l = (if clock l == 0 then raised else returned (clock l), l)

abbrev pub conclude : Effects.Conclusion → Intent → Option OrderStatus → Run Tracked
conclude c i s = pure (record { outcome = c; intent = i; status = s })

module _ (u : Setup) where
  abbrev keep : Intent → Run (Unit {0})
  keep i = persist u.durable (some i)

  -- `_persist_terminal`
  unfoldable pub persist_terminal : Intent → OrderStatus → Run Tracked
  persist_terminal i s = do
    now ← read_clock u.clock
    let p = record i {
      last_status = some s.status;
      filled_qty = s.filled_qty;
      terminal_status = some (s, now);
    }
    keep p
    audit order_terminal
    conclude Effects.terminal p (some s)

  unfoldable pub cancel_failed : Intent → OrderStatus → ℕ → Run Tracked
  cancel_failed i s error = do
    let p = record i { cancel_error = some error }
    keep p
    audit cancel_ambiguous
    conclude active p (some s)

  unfoldable pub post_cancel : Intent → OrderStatus → StatusAnswer → Run Tracked
  unfolding persist_terminal
  post_cancel i s (status_error error) = do
    let p = record i { status_error = some error }
    keep p
    audit post_cancel_failed
    conclude active p (some s)
  post_cancel i s (seen after) = if terminal after then persist_terminal i after else do
    let p = record i { last_status = some after.status; filled_qty = after.filled_qty }
    keep p
    audit cancel_pending
    conclude active p (some after)

  unfoldable pub after_cancel : Intent → OrderStatus → OrderId → Option ℕ → Run Tracked
  unfolding cancel_failed post_cancel
  after_cancel i s id (some error) = cancel_failed i s error
  after_cancel i s id none = do
    let p = record i { cancel_error = none }
    keep p
    audit cancel_accepted
    answer ← call (status_read id) u.status
    post_cancel p s answer

  unfoldable pub cancel_stage : Intent → OrderStatus → OrderId → Run Tracked
  unfolding after_cancel
  cancel_stage i s id = do
    now ← read_clock u.clock
    let p = record i { cancel_attempted_at = some now }
    keep p
    audit cancel_requested
    answer ← call (canceled id) u.cancel
    after_cancel p s id answer

  -- The age of the order, where its creation time is known.
  abbrev pub age_of : ℕ → Run (Option ℕ)
  age_of created =
      if created == 0 then pure none else do now ← read_clock u.clock; pure (some (now - created))

  -- Not old enough, no age limit, or a cancellation was tried before.
  abbrev pub too_young : Option ℕ → Option ℕ → Bool
  too_young none age = true
  too_young (some limit) none = true
  too_young (some limit) (some age) = ltb age limit

  unfoldable pub open_stage : Intent → OrderStatus → OrderId → Run Tracked
  unfolding cancel_stage
  open_stage i s id = do
    let p = record i { last_status = some s.status; filled_qty = s.filled_qty }
    keep p
    audit order_status
    age ← age_of p.created_at
    (if too_young u.max_age age || is_some p.cancel_attempted_at
        then conclude active p (some s)
        else cancel_stage p s id)

  unfoldable pub on_status : Intent → OrderId → StatusAnswer → Run Tracked
  unfolding persist_terminal open_stage
  on_status i id (status_error error) = do
    let p = record i { status_error = some error }
    keep p
    audit status_failed
    conclude active p none
  on_status i id (seen s) =
      let p = record i { status_error = none } in
      if terminal s then persist_terminal p s else open_stage p s id

  unfoldable pub status_stage : Intent → OrderId → Run Tracked
  unfolding on_status
  status_stage i id = do answer ← call (status_read id) u.status; on_status i id answer

  unfoldable pub on_missing : Intent → Run Tracked
  on_missing i = do
    let p = record i { lookup_misses = i.lookup_misses + 1 }
    keep p
    audit order_missing
    (if ltb p.lookup_misses u.missing_confirmations
        then conclude active p none
        else (persist u.durable none >> conclude absent p none))

  unfoldable pub recover : Intent → OrderId → Run Tracked
  unfolding status_stage
  recover p id = do keep p; audit order_recovered; status_stage p id

  -- The answer's own ID decides: the intent has none yet.
  unfoldable pub on_lookup : Intent → LookupAnswer → Run Tracked
  unfolding on_missing recover
  on_lookup i (lookup_error error) = do
    let p = record i { lookup_error = some error }
    keep p
    audit lookup_failed
    (if u.retry_on_lookup_error
        then (persist u.durable none >> (audit lookup_retryable >> conclude retryable p none))
        else conclude active p none)
  on_lookup i (found native) =
      let p = with_native native i in
      elim p.order_id [
        | none ↦ on_missing i
        | some id ↦ recover (record p { lookup_misses = 0; lookup_error = none }) id
      ]

  abbrev pub resume : Intent → Option OrderId → Run Tracked
  resume i (some id) = status_stage i id
  resume i none = do answer ← call (looked_up i.client_order_id) u.lookup; on_lookup i answer

  -- `_status_from_terminal_payload`: a stored status counts only if it is terminal.
  abbrev pub cached : Option (OrderStatus × ℕ) → Option OrderStatus
  cached none = none
  cached (some (s, at)) = if terminal s then some s else none

  abbrev pub unless_cached : Intent → Option OrderStatus → Run Tracked
  unless_cached i (some s) = conclude Effects.terminal i (some s)
  unless_cached i none = resume i i.order_id

  unfoldable pub reconcile : Intent → Run Tracked
  unfolding on_lookup status_stage
  reconcile intent = do
    require (valid_identity intent)
    unless_cached intent (cached intent.terminal_status)
