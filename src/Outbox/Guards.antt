-- ===== src/Outbox/Guards.antt =====
-- The tests of order_retry.py on one record: what may have reached a venue, who owns a claim, and what
-- may be evicted.
use binance.Base.{
  ℕ, ◌+◌, ◌-◌, ◌*◌, Bool, true, false, not, ◌&&◌, ◌||◌, Option, none, some, List, [], ◌∷◌, ltb,
  ◌==◌, is_some, or_default, if◌then◌else◌,
}
use binance.Outbox.Types.{
  Lifecycle, awaiting_cancel, submit_pending, accepted, bad_lifecycle, SubmissionState,
  producer_claimed, unknown, refused, VenueStatus, blank, Reason, empty_reason, pending_reason,
  ambiguous, no_order_id, trend_deferred, cache_not_fresh, cache_changed, price_unfavorable,
  terminal_native, terminal_status, Signed, plus, minus, Rec, side_eq, is_pending, is_known_side,
}

-- `NON_FAILURE_DEFERRAL_REASONS`
unfoldable pub is_non_failure_deferral : Option Reason → Bool
is_non_failure_deferral (some trend_deferred) = true
is_non_failure_deferral (some cache_not_fresh) = true
is_non_failure_deferral (some cache_changed) = true
is_non_failure_deferral (some price_unfavorable) = true
is_non_failure_deferral _ = false

-- `POSSIBLY_SUBMITTED_REASONS`, which holds the empty text too
unfoldable pub possibly_submitted_reason : Option Reason → Bool
possibly_submitted_reason none = true
possibly_submitted_reason (some empty_reason) = true
possibly_submitted_reason (some pending_reason) = true
possibly_submitted_reason (some ambiguous) = true
possibly_submitted_reason (some no_order_id) = true
possibly_submitted_reason _ = false

possibly_by_state : Option SubmissionState → Option Reason → Bool
unfolding possibly_submitted_reason
possibly_by_state (some refused) reason = false
possibly_by_state (some producer_claimed) reason = true
possibly_by_state (some unknown) reason = true
possibly_by_state _ reason = possibly_submitted_reason reason

unfoldable pub is_possibly_submitted : Rec → Bool
unfolding possibly_by_state
is_possibly_submitted r =
    is_pending r.lifecycle && possibly_by_state r.submission_state r.last_failure_reason

-- What the process table says of a PID: its start identity, that it is gone, or nothing readable.
pub data ProcessView : Type 0 where
  running : ℕ → ProcessView
  gone unreadable : ProcessView

pub data OwnerState : Type 0 where
  alive dead mismatched owner_unknown : OwnerState

abbrev compare_identity : ℕ → ProcessView → OwnerState
compare_identity start (running current) = if current == start then alive else mismatched
compare_identity start gone = dead
compare_identity start unreadable = owner_unknown

abbrev owner_of_pid : (ℕ → ProcessView) → ℕ → Option ℕ → OwnerState
owner_of_pid process start none = owner_unknown
owner_of_pid process start (some pid) =
    if pid == 0 then owner_unknown else compare_identity start (process pid)

-- `process` is what `_process_start_identity` reads from /proc.
unfoldable pub producer_claim_owner_state : (ℕ → ProcessView) → Rec → OwnerState
producer_claim_owner_state process r =
    if r.producer_start == 0
    then owner_unknown
    else owner_of_pid process r.producer_start r.producer_pid

positive : Option ℕ → Bool
positive none = false
positive (some n) = ltb 0 n

lifecycle_ok : Rec → Lifecycle → Bool
unfolding positive
lifecycle_ok r accepted = not (r.order_id == 0)
lifecycle_ok r awaiting_cancel = not (r.replaces_order_id == 0) && positive r.replaces_original_qty
lifecycle_ok r submit_pending = true
lifecycle_ok r bad_lifecycle = false

unfoldable pub valid_record : Rec → Bool
unfolding lifecycle_ok
valid_record r =
    not (r.id == 0)
    && not (r.symbol == 0)
    && is_known_side r.side
    && ltb 0 r.qty
    && ltb 0 r.created_ts
    && lifecycle_ok r r.lifecycle

abbrev pub is_trend_deferred : Option Reason → Bool
is_trend_deferred (some trend_deferred) = true
is_trend_deferred _ = false

abbrev trend_pending : Rec → Bool
trend_pending r = is_pending r.lifecycle && is_trend_deferred r.last_failure_reason

-- `value or ""`: `None` and the empty text are one.
abbrev pub text : Option ℕ → ℕ
text o = or_default o 0

abbrev provider_matches : ℕ → ℕ → Bool
provider_matches a b = a == 0 || b == 0 || a == b

unfoldable pub same_deferred_stream : Rec → Rec → Bool
same_deferred_stream l r =
    trend_pending l
    && trend_pending r
    && provider_matches (text l.provider_name) (text r.provider_name)
    && l.symbol == r.symbol
    && side_eq l.side r.side
    && text l.kind == text r.kind

unfoldable pub record_has_claim : Rec → Bool
record_has_claim r = is_some r.claim_token || is_some r.claim_revision || is_some r.claim_until

abbrev is_blank : VenueStatus → Bool
is_blank blank = true
is_blank _ = false

abbrev is_zero : Signed → Bool
is_zero (plus n) = n == 0
is_zero (minus n) = false

-- `value not in (None, "")` of a text
abbrev present : Option ℕ → Bool
present none = false
present (some n) = not (n == 0)

abbrev has_history {ℓ} : {A : Type ℓ} → List A → Bool
has_history [] = false
has_history (x ∷ xs) = true

abbrev is_terminal_reason : Option Reason → Bool
is_terminal_reason (some (terminal_native v)) = true
is_terminal_reason (some (terminal_status s)) = true
is_terminal_reason _ = false

-- The tests on `order_id`, `accepted_ts` and the status keys.
venue_keys : Rec → Bool
venue_keys r =
    not (r.order_id == 0)
    || is_some r.accepted_ts
    || present r.submit_status
    || not (is_blank r.venue_status)
    || present r.status_error

fill_keys : Rec → Bool
fill_keys r =
    not (r.delivered_qty == 0)
    || not (r.filled_qty == 0)
    || not (r.filled_cost == 0)
    || not (is_zero r.filled_fee)

-- `abs(requested - remaining) > max(1e-12, abs(requested) * 1e-9)`
quantity_differs : Option ℕ → ℕ → Bool
quantity_differs none remaining = false
quantity_differs (some requested) remaining =
    let gap = (requested - remaining) + (remaining - requested) in
    ltb 1 gap && ltb requested (gap * 1_000_000_000)

unfoldable pub has_prior_venue_evidence : Rec → Bool
unfolding venue_keys fill_keys quantity_differs
has_prior_venue_evidence r =
    not (is_pending r.lifecycle)
    || venue_keys r
    || has_history r.order_history
    || not (r.replaces_order_id == 0)
    || is_some r.replaces_original_qty
    || is_terminal_reason r.last_failure_reason
    || fill_keys r
    || quantity_differs r.requested_qty_total r.qty

unfoldable pub set_safe_to_discard : Bool → Rec → Rec
set_safe_to_discard eligible r = record r {
  safe_to_discard = eligible && not (has_prior_venue_evidence r);
}

unfoldable pub safe_to_evict : Rec → Bool
unfolding venue_keys
safe_to_evict r =
    is_pending r.lifecycle
    && not (record_has_claim r)
    && not (venue_keys r)
    && r.safe_to_discard
    && not (is_possibly_submitted r)
    && not (has_prior_venue_evidence r)
