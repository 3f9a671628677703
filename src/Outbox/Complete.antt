-- ===== src/Outbox/Complete.antt =====
-- The end of a lease (order_retry.py): `complete_claim` with its eight outcomes.
use binance.Base.{
  ℕ, ◌+◌, ◌-◌, Bool, true, false, not, ◌&&◌, ◌||◌, Option, none, some, List, [], ◌∷◌, max, min,
  ◌==◌, opt_eq, is_some, or_default, if◌then◌else◌,
}
use binance.Outbox.Types.{
  Rec, Reason, no_order_id, terminal_native, terminal_status, SubmissionState, refused, Status,
  VenueStatus, blank, plus, OrderStatus, submit_pending, derive_client_id, negligible,
  client_opt_eq,
}
use binance.Outbox.Guards.{is_non_failure_deferral, set_safe_to_discard}
use binance.Outbox.File.{Change}
use binance.Outbox.Response.{Response, append_order_history, apply_accepted}
use binance.Outbox.Claim.{ends_deferral, is_refused, valid_state}

pub data Outcome : Type 0 where
  success failure deferral release acceptance observed status_failed retry_terminal : Outcome

-- The keyword arguments of `complete_claim`.
pub record Details : Type 0 where
  pub failure_reason : Option Reason
  pub error_text : Option ℕ
  pub order : Response
  pub status : Option OrderStatus
  pub provider_name : Option ℕ
  pub submission_state : Option SubmissionState

abbrev pub no_details : Details
no_details = record {
  failure_reason = none;
  error_text = none;
  order = Response.no_response;
  status = none;
  provider_name = none;
  submission_state = none;
}

abbrev pub filled_of : Option OrderStatus → ℕ
filled_of none = 0
filled_of (some s) = s.filled_qty

-- Another attempt has been made.
abbrev count_attempt : ℕ → Rec → Rec → Rec
count_attempt now claimed r = record r {
  attempts = max r.attempts claimed.attempts + 1;
  last_attempt_ts = now;
}

abbrev pub accept_or_count : ℕ → Rec → Rec → Option Rec → Rec
accept_or_count now claimed r none =
    count_attempt now claimed (record r { last_failure_reason = some no_order_id })
accept_or_count now claimed r (some r') = r'

unfoldable pub on_acceptance : Details → ℕ → Rec → Rec → Rec
on_acceptance d now claimed r =
    let safe = set_safe_to_discard false r in
    accept_or_count now claimed safe (apply_accepted d.order now d.provider_name safe)

abbrev observe : ℕ → Option OrderStatus → Rec → Rec
observe now none r = record r {
  last_status_ts = now;
  last_status = none;
  venue_status = blank;
  filled_qty = 0;
  filled_cost = 0;
  filled_fee = plus 0;
  status_error = none;
}
observe now (some s) r = record r {
  last_status_ts = now;
  last_status = some s.status;
  venue_status = s.venue_status;
  filled_qty = s.filled_qty;
  filled_cost = s.cost;
  filled_fee = s.fee;
  status_error = none;
}

abbrev unknown_text : ℕ
unknown_text = 1

abbrev native_or : VenueStatus → Status → Reason
native_or blank status = terminal_status status
native_or venue status = terminal_native venue

-- "terminal_unknown" stands where there is no status at all.
abbrev terminal_reason : Option OrderStatus → Reason
terminal_reason none = Reason.other_reason unknown_text
terminal_reason (some s) = native_or s.venue_status s.status

-- What the order has delivered is counted; only what is left is asked for again.
unfoldable pub count_delivered : ℕ → Option OrderStatus → Rec → Rec
count_delivered now status r =
    let h = append_order_history now status r in
    record h { delivered_qty = h.delivered_qty + min h.qty (filled_of status) }

-- The next revision, for what is left, with its own client order ID.
unfoldable pub next_revision : ℕ → Option OrderStatus → Rec → Rec
next_revision now status r =
    let revision = r.revision + 1 in
    let pending = set_safe_to_discard false (record r {
      revision = revision;
      qty = r.qty - filled_of status;
      attempts = 0;
      last_attempt_ts = now;
      ttl_started_ts = some now;
    }) in
    record pending {
      last_failure_reason = some (terminal_reason status);
      lifecycle = submit_pending;
      submission_state = some refused;
      order_id = 0;
      accepted_ts = none;
      last_status_ts = 0;
      last_status = none;
      venue_status = blank;
      submit_status = none;
      filled_qty = 0;
      filled_cost = 0;
      filled_fee = plus 0;
      client_order_id = some (derive_client_id r.id revision);
    }

unfoldable pub on_retry_terminal : Details → ℕ → Rec → Option Rec
on_retry_terminal d now r =
    if negligible (r.qty - filled_of d.status) r.qty
    then none
    else some (next_revision now d.status (count_delivered now d.status r))

unfoldable pub on_failure : Details → ℕ → Rec → Rec → Rec
on_failure d now claimed r =
    let ttl =
      if ends_deferral r.last_failure_reason d.failure_reason then some now else r.ttl_started_ts in
    record (count_attempt now claimed r) {
      ttl_started_ts = ttl;
      last_failure_reason = d.failure_reason;
    }

-- What an outcome makes of the record; `none` takes it out of the queue.
unfoldable pub apply_outcome : Outcome → Details → ℕ → Rec → Rec → Option Rec
apply_outcome success d now claimed r = none
apply_outcome failure d now claimed r = some (on_failure d now claimed r)
apply_outcome deferral d now claimed r =
    some (record r { last_attempt_ts = now; last_failure_reason = d.failure_reason })
apply_outcome release d now claimed r = some r
apply_outcome acceptance d now claimed r = some (on_acceptance d now claimed r)
apply_outcome observed d now claimed r = some (observe now d.status r)
apply_outcome status_failed d now claimed r =
    some (record r {
      last_status_ts = now;
      status_error = some (or_default d.error_text unknown_text);
    })
apply_outcome retry_terminal d now claimed r = on_retry_terminal d now r

abbrev is_retry_terminal : Outcome → Bool
is_retry_terminal retry_terminal = true
is_retry_terminal _ = false

abbrev pub end_state : Outcome → Option SubmissionState → Rec → Rec
end_state o (some state) r =
    set_safe_to_discard (is_refused state) (record r { submission_state = some state })
end_state o none r = if is_retry_terminal o then set_safe_to_discard false r else r

unfoldable pub drop_claim : Rec → Rec
drop_claim r = record r { claim_token = none; claim_until = none; claim_revision = none }

-- ID, token, revision and client order ID are those that were claimed.
unfoldable pub owns : Rec → Rec → Bool
owns claimed r =
    r.id == claimed.id
    && opt_eq r.claim_token claimed.claim_token
    && r.revision == or_default claimed.claim_revision 0
    && is_some claimed.client_order_id
    && client_opt_eq r.client_order_id claimed.client_order_id

abbrev pub finish : Outcome → Details → List Rec → Option Rec → List Rec
finish o d rest none = rest
finish o d rest (some r) = drop_claim (end_state o d.submission_state r) ∷ rest

-- The loop: the records that remain, and whether anything has changed.
unfoldable pub complete_each : Outcome → Details → ℕ → Rec → List Rec → List Rec × Bool
complete_each o d now claimed [] = ([], false)
complete_each o d now claimed (r ∷ rs) =
    let (rest, changed) = complete_each o d now claimed rs in
    if owns claimed r
    then (finish o d rest (apply_outcome o d now claimed r), true)
    else (r ∷ rest, changed)

abbrev pub is_deferral : Outcome → Bool
is_deferral deferral = true
is_deferral _ = false

abbrev write_if : List Rec × Bool → Change Bool
write_if (rs, false) = (none, false)
write_if (rs, true) = (some rs, true)

-- `none` is the ValueError of a deferral without such a reason, or of a submission state.
unfoldable pub complete_claim : Outcome → Details → ℕ → Rec → List Rec → Option (Change Bool)
complete_claim o d now claimed rs =
    if is_deferral o && not (is_non_failure_deferral d.failure_reason)
      || not (valid_state d.submission_state)
    then none
    else some (write_if (complete_each o d now claimed rs))
