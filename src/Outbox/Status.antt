-- ===== src/Outbox/Status.antt =====
-- One status of the venue for an accepted record (order_retry.py): `advance_claimed_status`, which
-- picks the outcome of the lease from it.
use binance.Base.{
  ℕ, ◌-◌, Bool, true, false, not, ◌&&◌, Option, none, some, List, ◌==◌, if◌then◌else◌,
}
use binance.Outbox.Types.{
  Rec, Status, open_order, closed, canceled, expired, VenueStatus, blank, venue_rejected,
  venue_expired, OrderStatus, is_accepted, terminal,
}
use binance.Outbox.File.{Change}
use binance.Outbox.Complete.{Outcome, success, observed, retry_terminal, no_details, complete_claim}

pub data Action : Type 0 where
  act_observed act_filled act_retry_terminal act_terminal : Action

-- `OutboxStatusTransition`
pub record Transition : Type 0 where
  pub action : Action
  pub status_changed : Bool
  pub remaining_qty : ℕ

abbrev retryable_native : VenueStatus → Status → Bool
retryable_native venue_rejected status = true
retryable_native venue_expired status = true
retryable_native venue expired = true
retryable_native venue status = false

-- `_outbox_retryable_terminal`
unfoldable pub outbox_retryable_terminal : OrderStatus → Bool
outbox_retryable_terminal s = retryable_native s.venue_status s.status

abbrev status_code : Status → ℕ
status_code open_order = 1
status_code closed = 2
status_code canceled = 3
status_code expired = 4

abbrev venue_eq : VenueStatus → VenueStatus → Bool
venue_eq blank blank = true
venue_eq venue_rejected venue_rejected = true
venue_eq venue_expired venue_expired = true
venue_eq VenueStatus.venue_canceled VenueStatus.venue_canceled = true
venue_eq (VenueStatus.native a) (VenueStatus.native b) = a == b
venue_eq _ _ = false

abbrev last_code : Option Status → ℕ
last_code none = 0
last_code (some s) = status_code s

-- The fingerprints of the last observation and of this one.
unfoldable pub differs : Rec → OrderStatus → Bool
differs claimed s = not (
    status_code s.status == last_code claimed.last_status
    && s.filled_qty == claimed.filled_qty
    && venue_eq s.venue_status claimed.venue_status)

unfoldable pub choose : Rec → OrderStatus → Outcome × Transition
choose claimed s =
    let remaining = claimed.qty - s.filled_qty in
    if not (terminal s)
    then (
      observed,
      record { action = act_observed; status_changed = differs claimed s; remaining_qty = 0 },
    )
    else if status_code s.status == 2
    then (success, record { action = act_filled; status_changed = true; remaining_qty = 0 })
    else if outbox_retryable_terminal s
    then (
      retry_terminal,
      record { action = act_retry_terminal; status_changed = true; remaining_qty = remaining },
    )
    else (
      success,
      record { action = act_terminal; status_changed = true; remaining_qty = remaining },
    )

abbrev transition_of : Transition → Option (Change Bool) → Option (Change Transition)
transition_of t none = none
transition_of t (some (w, done)) = some (w, t)

-- `none` is the ValueError of a claimed record that is not accepted.
unfoldable pub advance_claimed_status :
    Rec → OrderStatus → ℕ → List Rec → Option (Change Transition)
unfolding choose complete_claim
advance_claimed_status claimed s now rs =
    if not (is_accepted claimed.lifecycle)
    then none
    else let (o, t) = choose claimed s in
      transition_of t (complete_claim o (record no_details { status = some s }) now claimed rs)
