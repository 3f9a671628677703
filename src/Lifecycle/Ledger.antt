-- ===== src/Lifecycle/Ledger.antt =====
-- What a finished call leaves behind it: what it returns is what was persisted last, and how often the
-- venue was asked to place or to cancel an order.
use binance.Base.{
  ℕ, suc, ◌≡◌, refl, sym, ap, Bool, true, false, Option, none, some, [], ◌∷◌, is_some, ◌==◌,
  if◌then◌else◌, ◌⊎◌, inl, inr,
}
use binance.Lifecycle.Effects
use binance.Lifecycle.Effects.{
  OrderId, Intent, Event, persisted, audited, submitted, looked_up, status_read, canceled, Log,
  Result, returned, raised, Run, ◌>>=◌, ◌>>◌, active, absent, retryable, refused_result, Tracked,
  valid_identity, SubmissionState, accepted, refused, unknown,
}
use binance.Lifecycle.Submit.{
  Outcome, Ending, capture_submission, with_outcome, submit, settle, end_refused, end_unknown,
  end_accepted, refused_before_submit,
}
use binance.Lifecycle.Reconcile.{conclude, read_clock}

-- What the callback stored last: an intent, or that there is none.
abbrev pub last_persisted : Log → Option (Option Intent)
last_persisted [] = none
last_persisted (persisted p ∷ l) = some p
last_persisted (audited n ∷ l) = last_persisted l
last_persisted (submitted ∷ l) = last_persisted l
last_persisted (looked_up c ∷ l) = last_persisted l
last_persisted (status_read id ∷ l) = last_persisted l
last_persisted (canceled id ∷ l) = last_persisted l

abbrev pub submissions : Log → ℕ
submissions [] = 0
submissions (submitted ∷ l) = suc (submissions l)
submissions (persisted p ∷ l) = submissions l
submissions (audited n ∷ l) = submissions l
submissions (looked_up c ∷ l) = submissions l
submissions (status_read id ∷ l) = submissions l
submissions (canceled id ∷ l) = submissions l

abbrev pub cancellations : Log → ℕ
cancellations [] = 0
cancellations (canceled id ∷ l) = suc (cancellations l)
cancellations (persisted p ∷ l) = cancellations l
cancellations (audited n ∷ l) = cancellations l
cancellations (submitted ∷ l) = cancellations l
cancellations (looked_up c ∷ l) = cancellations l
cancellations (status_read id ∷ l) = cancellations l

-- A returned result: an absent or retryable order leaves nothing stored, any other the intent returned.
abbrev pub stored_as : Effects.Conclusion → Intent → Option Intent
stored_as active i = some i
stored_as Effects.terminal i = some i
stored_as refused_result i = some i
stored_as absent i = none
stored_as retryable i = none

abbrev pub IsStored : Result Tracked × Log → Type 0
IsStored (returned t, l) = last_persisted l ≡ some (stored_as t.outcome t.intent)
IsStored (raised, l) = Unit

-- A step that may raise: the claim is proved of what follows where it returns, and of the raise.
module _ {A : Type 0} (Q : Result A × Log → Type 0) where
  pub persist-then :
      (durable : Option Intent → Log → Bool) (p : Option Intent) (k : Run A) (l : Log)
      → Q (raised, l)
      → Q (k (persisted p ∷ l))
      → Q ((Effects.persist durable p >>= λ _. k) l)
  persist-then durable p k l bad good = by_result (durable p l)
    where
      by_result :
          (b : Bool)
          → Q (((λ l'. if b then (returned tt, persisted p ∷ l') else (raised, l')) >>= λ _. k) l)
      by_result true = good
      by_result false = bad

  -- An intent is persisted, and an audit event follows.
  pub store-then :
      (durable : Option Intent → Log → Bool) (p : Option Intent) (n : Effects.Note) (k : Run A)
      (l : Log)
      → Q (raised, l)
      → Q (k (audited n ∷ persisted p ∷ l))
      → Q ((Effects.persist durable p >> (Effects.audit n >> k)) l)
  store-then durable p n k l bad good = persist-then durable p (Effects.audit n >> k) l bad good

  pub clock-then :
      (clock : Log → ℕ) (k : ℕ → Run A) (l : Log)
      → Q (raised, l)
      → Q (k (clock l) l)
      → Q ((read_clock clock >>= k) l)
  clock-then clock k l bad good = by_time (clock l == 0)
    where
      by_time : (b : Bool) → Q (((λ l'. (if b then raised else returned (clock l), l')) >>= k) l)
      by_time true = bad
      by_time false = good

  pub require-then :
      (ok : Bool) (k : Run A) (l : Log)
      → Q (raised, l)
      → Q (k l)
      → Q ((Effects.require ok >>= λ _. k) l)
  require-then true k l bad good = good
  require-then false k l bad good = bad

-- What was persisted last before the newest order was placed.
abbrev pub before_submit : Log → Option (Option Intent)
before_submit [] = none
before_submit (submitted ∷ l) = last_persisted l
before_submit (persisted p ∷ l) = before_submit l
before_submit (audited n ∷ l) = before_submit l
before_submit (looked_up c ∷ l) = before_submit l
before_submit (status_read id ∷ l) = before_submit l
before_submit (canceled id ∷ l) = before_submit l

abbrev pub IsRaised : Result Tracked → Type 0
IsRaised (returned t) = ⊥
IsRaised raised = Unit

abbrev pub IsPlaced : ℕ → Intent → Log → Type 0
IsPlaced n i l = (submissions l ≡ suc n) × (before_submit l ≡ some (some i))

-- Nothing was placed and the call raised, or one order was, after its intent was stored.
abbrev pub IsSubmitted : ℕ → Intent → Result Tracked × Log → Type 0
IsSubmitted n i (r, l) = IsStored (r, l) × ((IsRaised r × submissions l ≡ n) ⊎ IsPlaced n i l)

module _ (durable : Option Intent → Log → Bool) (submit_call : Log → Ending) (n : ℕ)
    (i : Intent) where
  -- The common end of a branch: an intent is persisted, audited and returned.
  close-IsSubmitted :
      (p : Intent) (e : Effects.Note) (c : Effects.Conclusion) (l : Log)
      → stored_as c p ≡ some p
      → IsPlaced n i l
      → IsSubmitted n i
          ((Effects.persist durable (some p) >> (Effects.audit e >> conclude c p none)) l)
  close-IsSubmitted p e c l h placed =
      store-then (IsSubmitted n i) durable (some p) e (conclude c p none) l (tt, inr placed)
        (ap some (sym h), inr placed)

  settle-IsSubmitted :
      (o : Outcome) (state : SubmissionState) (j : Intent) (l : Log)
      → IsPlaced n i l
      → IsSubmitted n i (settle durable submit_call o state j l)
  unfolding settle end_accepted end_refused end_unknown
  settle-IsSubmitted o accepted j l placed =
      let p : Intent = with_outcome o j in
      close-IsSubmitted p
        (if is_some p.order_id then Effects.submit_accepted else Effects.submit_ambiguous) active l
        refl placed
  settle-IsSubmitted o refused j l placed =
      close-IsSubmitted
        (record j { refusal_reason = o.reason; submit_status = some refused_before_submit })
        Effects.submit_refused refused_result l refl placed
  settle-IsSubmitted o unknown j l placed =
      close-IsSubmitted (record j { submit_error = o.reason }) Effects.submit_ambiguous active l
        refl placed

-- `submit` places no order and raises, or places exactly one, before which its intent was persisted last.
-- Where it returns, the intent it returns is the one persisted last
-- (none, for a result that is absent or retryable). This holds for every intent, callback and venue.
pub submit-IsSubmitted :
    (durable : Option Intent → Log → Bool) (submit_call : Log → Ending) (i : Intent) (l : Log)
    → IsSubmitted (submissions l) i (submit durable submit_call i l)
unfolding submit
submit-IsSubmitted durable submit_call i l =
    let asked : Log = audited Effects.submit_requested ∷ persisted (some i) ∷ l in
    let o : Outcome = capture_submission (submit_call asked) in
    let answer : Run Tracked = Effects.call submitted submit_call >>= λ ending.
    settle durable submit_call (capture_submission ending) (capture_submission ending).state
      (record i { submission_outcome = some (capture_submission ending).state }) in
    require-then (IsSubmitted (submissions l) i) (valid_identity i)
      (Effects.persist durable (some i) >> (Effects.audit Effects.submit_requested >> answer)) l
      (tt, inl (tt, refl))
      (store-then (IsSubmitted (submissions l) i) durable (some i) Effects.submit_requested answer l
        (tt, inl (tt, refl))
        (settle-IsSubmitted durable submit_call (submissions l) i o o.state
          (record i { submission_outcome = some o.state }) (submitted ∷ asked) (refl, refl)))
