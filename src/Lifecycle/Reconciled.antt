-- ===== src/Lifecycle/Reconciled.antt =====
-- `reconcile` of `TrackedOrderLifecycle` (order_retry.py) as a whole.
use binance.Base.{
  ℕ, ◌+◌, ◌-◌, ◌≤◌, ◌≡◌, refl, Bool, true, false, ◌||◌, Option, none, some, ◌∷◌, arith, is_some,
  if◌then◌else◌, ltb, ◌==◌,
}
use binance.Outbox.Types.{OrderStatus, terminal}
use binance.Lifecycle.Effects
use binance.Lifecycle.Effects.{
  OrderId, Intent, persisted, audited, looked_up, status_read, canceled, Log, Result, returned,
  raised, Run, ◌>>=◌, ◌>>◌, pure, active, absent, retryable, refused_result, Tracked,
  valid_identity,
}
use binance.Lifecycle.Submit.{with_native}
use binance.Lifecycle.Reconcile.{
  conclude, read_clock, Setup, StatusAnswer, seen, status_error, LookupAnswer, found, lookup_error,
  persist_terminal, cancel_stage, open_stage, on_status, status_stage, on_missing, recover,
  on_lookup, reconcile, age_of, too_young, resume, cached, unless_cached,
}
use binance.Lifecycle.Ledger.{
  submissions, cancellations, last_persisted, persist-then, store-then, require-then,
}
use binance.Lifecycle.Settlement.{
  IsSettled, allowed, with_native-cancel_attempted_at, close-IsSettled, terminal-IsSettled,
  cancel_stage-IsSettled,
}

-- The age may need the clock, which may raise.
age-then :
    (u : Setup) (Q : Result Tracked × Log → Type 0) (created : ℕ) (k : Option ℕ → Run Tracked)
    (l : Log)
    → Q (raised, l)
    → ((age : Option ℕ) → Q (k age l))
    → Q ((age_of u created >>= k) l)
age-then u Q created k l bad good = by_creation (created == 0)
  where
    by_time :
        (t : Bool)
        → Q (
            (((λ l'. (if t then raised else returned (u.clock l), l')) >>= λ now.
            pure (some (now - created)))
                >>= k)
              l)
    by_time true = bad
    by_time false = good (some (u.clock l - created))

    by_creation :
        (z : Bool)
        → Q (
            ((if z then pure none else (read_clock u.clock >>= λ now. pure (some (now - created))))
                >>= k)
              l)
    by_creation true = good none
    by_creation false = by_time (u.clock l == 0)

abbrev missed : Intent → Intent
missed i = record i { lookup_misses = i.lookup_misses + 1 }

abbrev told : Effects.Note → Intent → Log → Log
told n i l = audited n ∷ persisted (some i) ∷ l

module _ (u : Setup) (a b : ℕ) where
  -- An intent that was canceled before is not canceled again.
  cancel_or_wait-IsSettled :
      (i : Intent) (s : OrderStatus) (id : OrderId) (young : Bool) (l : Log)
      → last_persisted l ≡ some (some i)
      → submissions l ≡ a
      → cancellations l + allowed i.cancel_attempted_at ≤ b
      → IsSettled a b (
          (if young || is_some i.cancel_attempted_at
              then conclude active i (some s)
              else cancel_stage u i s id)
            l)
  cancel_or_wait-IsSettled i s id young l kept placed asked =
      by_attempt i.cancel_attempted_at young asked
    where
      by_attempt :
          (at : Option ℕ) (young : Bool)
          → cancellations l + allowed at ≤ b
          → IsSettled a b (
              (if young || is_some at then conclude active i (some s) else cancel_stage u i s id) l)
      by_attempt none true h = (placed, omega arith, kept)
      by_attempt (some at) true h = (placed, omega arith, kept)
      by_attempt (some at) false h = (placed, omega arith, kept)
      by_attempt none false h = cancel_stage-IsSettled u a b i s id l placed h

  open_stage-IsSettled :
      (i : Intent) (s : OrderStatus) (id : OrderId) (l : Log)
      → submissions l ≡ a
      → cancellations l + allowed i.cancel_attempted_at ≤ b
      → IsSettled a b (open_stage u i s id l)
  unfolding open_stage
  open_stage-IsSettled i s id l placed asked =
      let p : Intent = record i { last_status = some s.status; filled_qty = s.filled_qty } in
      let done : Log = audited Effects.order_status ∷ persisted (some p) ∷ l in
      let rest : Option ℕ → Run Tracked = λ age.
        if too_young u u.max_age age || is_some p.cancel_attempted_at
        then conclude active p (some s)
        else cancel_stage u p s id in
      store-then (IsSettled a b) u.durable (some p) Effects.order_status
        (age_of u p.created_at >>= rest) l (placed, (omega arith), tt)
        (age-then u (IsSettled a b) p.created_at rest done (placed, (omega arith), tt)
          (λ age.
            cancel_or_wait-IsSettled p s id (too_young u u.max_age age) done refl placed asked))

  on_status-IsSettled :
      (i : Intent) (id : OrderId) (answer : StatusAnswer) (l : Log)
      → submissions l ≡ a
      → cancellations l + allowed i.cancel_attempted_at ≤ b
      → IsSettled a b (on_status u i id answer l)
  unfolding on_status
  on_status-IsSettled i id (status_error error) l placed asked =
      close-IsSettled u a b (record i { status_error = some error }) Effects.status_failed active
        none l refl placed (omega arith)
  on_status-IsSettled i id (seen s) l placed asked = by_status (terminal s)
    where
      by_status :
          (t : Bool)
          → IsSettled a b (
              (if t
                  then persist_terminal u (record i { status_error = none }) s
                  else open_stage u (record i { status_error = none }) s id)
                l)
      by_status true =
          terminal-IsSettled u a b (record i { status_error = none }) s l placed (omega arith)
      by_status false = open_stage-IsSettled (record i { status_error = none }) s id l placed asked

  status_stage-IsSettled :
      (i : Intent) (id : OrderId) (l : Log)
      → submissions l ≡ a
      → cancellations l + allowed i.cancel_attempted_at ≤ b
      → IsSettled a b (status_stage u i id l)
  unfolding status_stage
  status_stage-IsSettled i id l placed asked =
      on_status-IsSettled i id (u.status l) (status_read id ∷ l) placed asked

  on_missing-IsSettled :
      (i : Intent) (l : Log)
      → submissions l ≡ a
      → cancellations l ≤ b
      → IsSettled a b (on_missing u i l)
  unfolding on_missing
  on_missing-IsSettled i l placed asked =
      store-then (IsSettled a b) u.durable (some (missed i)) Effects.order_missing
        (if ltb (missed i).lookup_misses u.missing_confirmations
          then conclude active (missed i) none
          else (Effects.persist u.durable none >> conclude absent (missed i) none))
        l (placed, asked, tt) (by_count (ltb (missed i).lookup_misses u.missing_confirmations))
    where
      by_count :
          (again : Bool)
          → IsSettled a b (
              (if again
                  then conclude active (missed i) none
                  else (Effects.persist u.durable none >> conclude absent (missed i) none))
                (told Effects.order_missing (missed i) l))
      by_count true = (placed, asked, refl)
      by_count false =
          persist-then (IsSettled a b) u.durable none (conclude absent (missed i) none)
            (told Effects.order_missing (missed i) l) (placed, asked, tt) (placed, asked, refl)

  on_lookup-IsSettled :
      (i : Intent) (answer : LookupAnswer) (l : Log)
      → submissions l ≡ a
      → cancellations l + allowed i.cancel_attempted_at ≤ b
      → IsSettled a b (on_lookup u i answer l)
  unfolding on_lookup recover
  on_lookup-IsSettled i (lookup_error error) l placed asked =
      store-then (IsSettled a b) u.durable (some (record i { lookup_error = some error }))
        Effects.lookup_failed
        (if u.retry_on_lookup_error
          then (Effects.persist u.durable none
              >> (Effects.audit Effects.lookup_retryable
                  >> conclude retryable (record i { lookup_error = some error }) none))
          else conclude active (record i { lookup_error = some error }) none)
        l (placed, (omega arith), tt) (by_policy u.retry_on_lookup_error)
    where
      by_policy :
          (again : Bool)
          → IsSettled a b (
              (if again
                  then (Effects.persist u.durable none
                      >> (Effects.audit Effects.lookup_retryable
                          >> conclude retryable (record i { lookup_error = some error }) none))
                  else conclude active (record i { lookup_error = some error }) none)
                (told Effects.lookup_failed (record i { lookup_error = some error }) l))
      by_policy true =
          store-then (IsSettled a b) u.durable none Effects.lookup_retryable
            (conclude retryable (record i { lookup_error = some error }) none)
            (told Effects.lookup_failed (record i { lookup_error = some error }) l)
            (placed, (omega arith), tt) (placed, (omega arith), refl)
      by_policy false = (placed, (omega arith), refl)
  on_lookup-IsSettled i (found native) l placed asked = by_id (with_native native i).order_id
    where
      allowed_p : cancellations l + allowed (with_native native i).cancel_attempted_at ≤ b
      allowed_p = rw (with_native-cancel_attempted_at native i) asked

      by_id :
          (id : Option OrderId)
          → IsSettled a b (
              (elim id as (λ _. Run Tracked) [
                | none ↦ on_missing u i
                | some id ↦
                    recover u
                      (record (with_native native i) { lookup_misses = 0; lookup_error = none })
                      id
              ])
                l)
      by_id none = on_missing-IsSettled i l placed (omega arith)
      by_id (some id) =
          let q : Intent = record (with_native native i) {
            lookup_misses = 0;
            lookup_error = none;
          } in
          store-then (IsSettled a b) u.durable (some q) Effects.order_recovered
            (status_stage u q id) l (placed, (omega arith), tt)
            (status_stage-IsSettled q id (audited Effects.order_recovered ∷ persisted (some q) ∷ l)
              placed allowed_p)

  resume-IsSettled :
      (i : Intent) (id : Option OrderId) (l : Log)
      → submissions l ≡ a
      → cancellations l + allowed i.cancel_attempted_at ≤ b
      → IsSettled a b (resume u i id l)
  resume-IsSettled i (some id) l placed asked = status_stage-IsSettled i id l placed asked
  resume-IsSettled i none l placed asked =
      on_lookup-IsSettled i (u.lookup l) (looked_up i.client_order_id ∷ l) placed asked

  pub unless_cached-IsSettled :
      (i : Intent) (s : Option OrderStatus) (l : Log)
      → s ≡ none
      → submissions l ≡ a
      → cancellations l + allowed i.cancel_attempted_at ≤ b
      → IsSettled a b (unless_cached u i s l)
  unless_cached-IsSettled i s l absent_status placed asked =
      rw absent_status (resume-IsSettled i i.order_id l placed asked)

-- `reconcile` of an intent with no terminal status, whatever the venue answers: it places no order; it
-- asks for at most one cancellation, and for none where the intent records an earlier attempt; and where it
-- returns, the intent it returns is the one persisted last, or, for an absent or retryable order, what was
-- persisted last is that there is no intent.
pub reconcile-IsSettled :
    (u : Setup) (i : Intent) (l : Log)
    → cached u i.terminal_status ≡ none
    → IsSettled (submissions l) (cancellations l + allowed i.cancel_attempted_at) (reconcile u i l)
unfolding reconcile
reconcile-IsSettled u i l pending =
    let b : ℕ = cancellations l + allowed i.cancel_attempted_at in
    require-then (IsSettled (submissions l) b) (valid_identity i)
      (unless_cached u i (cached u i.terminal_status)) l (refl, (omega arith), tt)
      (unless_cached-IsSettled u (submissions l) b i (cached u i.terminal_status) l pending refl
        (omega arith))
