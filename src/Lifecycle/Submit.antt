-- ===== src/Lifecycle/Submit.antt =====
-- `capture_submission` (providers/strategy_executor.py), `_order_fields` and `submit` of
-- `TrackedOrderLifecycle` (order_retry.py).
use binance.Base.{ℕ, Bool, Option, none, some, List, [], ◌∷◌, is_some, ◌==◌, if◌then◌else◌}
use binance.Lifecycle.Effects.{
  OrderId, plain, printed, SubmissionState, accepted, refused, unknown, Intent, submitted,
  submit_requested, submit_refused, submit_ambiguous, submit_accepted, Log, Run, ◌>>=◌, ◌>>◌, pure,
  audit, require, persist, call, valid_identity, active, refused_result, Tracked,
}

-- A native answer; an object has the keys that the source reads. 0 stands for what is falsy.
pub record Body : Type 0 where
  pub upper_order_id : ℕ
  pub order_id : ℕ
  pub id : ℕ
  pub txid : Option (List ℕ)
  pub status : Option ℕ
  pub qty : ℕ
  pub price : ℕ

pub data Native : Type 0 where
  nothing boolean : Native
  bare : ℕ → Native
  object : Body → Native

-- `SubmissionOutcome`; `reason` 0 is the empty text.
pub record Outcome : Type 0 where
  pub state : SubmissionState
  pub order_id : Option OrderId
  pub reason : ℕ
  pub native : Native

-- How the submit call ends: an answer, a typed outcome, `SubmissionRefused`, or any other exception.
pub data Ending : Type 0 where
  answered : Native → Ending
  typed : Outcome → Ending
  refusal failure : ℕ → Ending

abbrev pub first_present : List ℕ → Option OrderId
first_present [] = none
first_present (n ∷ ns) = if n == 0 then first_present ns else some (plain n)

abbrev pub present_of : Option (List ℕ) → Option OrderId
present_of none = none
present_of (some ns) = first_present ns

abbrev pub plain_or : ℕ → Option OrderId → Option OrderId
plain_or n rest = if n == 0 then rest else some (plain n)

-- `extract_order_id`, at objects whose keys are not present and empty.
unfoldable pub extract : Native → Option OrderId
extract nothing = none
extract boolean = none
extract (bare n) = plain_or n none
extract (object b) =
    plain_or b.upper_order_id (plain_or b.order_id (plain_or b.id (present_of b.txid)))

-- The text `response_without_order_id`.
abbrev pub without_id : ℕ
without_id = 1

abbrev pub captured_id : Native → Option OrderId → Outcome
captured_id native none = record {
  state = unknown;
  order_id = none;
  reason = without_id;
  native = native;
}
captured_id native (some id) = record {
  state = accepted;
  order_id = some id;
  reason = 0;
  native = native;
}

unfoldable pub capture_submission : Ending → Outcome
capture_submission (answered native) = captured_id native (extract native)
capture_submission (typed outcome) = outcome
capture_submission (refusal reason) = record {
  state = refused;
  order_id = none;
  reason = reason;
  native = nothing;
}
capture_submission (failure reason) = record {
  state = unknown;
  order_id = none;
  reason = reason;
  native = nothing;
}

abbrev printed_list : Option (List ℕ) → Option OrderId
printed_list none = none
printed_list (some ns) = some (printed ns)

-- `orderId or order_id or id or txid`, printed: a list is printed whole, the empty one too.
unfoldable pub printed_id : Body → Option OrderId
printed_id b = plain_or b.upper_order_id (plain_or b.order_id (plain_or b.id (printed_list b.txid)))

abbrev pub or_keep {ℓ} : {A : Type ℓ} → Option A → Option A → Option A
or_keep none old = old
or_keep (some new) old = some new

abbrev positive : ℕ → Option ℕ
positive n = if n == 0 then none else some n

-- `pending.update(_order_fields(native))`
unfoldable pub with_native : Native → Intent → Intent
with_native nothing i = i
with_native boolean i = i
with_native (bare n) i = record i { order_id = or_keep (plain_or n none) i.order_id }
with_native (object b) i = record i {
  order_id = or_keep (printed_id b) i.order_id;
  submit_status = or_keep b.status i.submit_status;
  submitted_qty = or_keep (positive b.qty) i.submitted_qty;
  submitted_price = or_keep (positive b.price) i.submitted_price;
}

-- `pending.update(_order_fields(outcome))`
unfoldable pub with_outcome : Outcome → Intent → Intent
unfolding with_native
with_outcome o i = with_native o.native (record i {
  submission_outcome = some o.state;
  order_id = or_keep o.order_id i.order_id;
  submission_reason = if o.reason == 0 then i.submission_reason else o.reason;
})

-- The text `refused_before_submit`.
abbrev pub refused_before_submit : ℕ
refused_before_submit = 2

module _ (durable : Option Intent → Log → Bool) (submit_call : Log → Ending) where
  unfoldable pub end_refused : Outcome → Intent → Run Tracked
  end_refused o i = do
    let p = record i { refusal_reason = o.reason; submit_status = some refused_before_submit }
    persist durable (some p)
    audit submit_refused
    pure (record { outcome = refused_result; intent = p; status = none })

  unfoldable pub end_unknown : Outcome → Intent → Run Tracked
  end_unknown o i = do
    let p = record i { submit_error = o.reason }
    persist durable (some p)
    audit submit_ambiguous
    pure (record { outcome = active; intent = p; status = none })

  unfoldable pub end_accepted : Outcome → Intent → Run Tracked
  end_accepted o i = do
    let p = with_outcome o i
    persist durable (some p)
    audit (if is_some p.order_id then submit_accepted else submit_ambiguous)
    pure (record { outcome = active; intent = p; status = none })

  unfoldable pub settle : Outcome → SubmissionState → Intent → Run Tracked
  unfolding end_refused end_unknown end_accepted
  settle o refused i = end_refused o i
  settle o unknown i = end_unknown o i
  settle o accepted i = end_accepted o i

  unfoldable pub submit : Intent → Run Tracked
  unfolding settle
  submit intent = do
    require (valid_identity intent)
    persist durable (some intent)
    audit submit_requested
    ending ← call submitted submit_call
    let o = capture_submission ending
    settle o o.state (record intent { submission_outcome = some o.state })
