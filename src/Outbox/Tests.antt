-- ===== src/Outbox/Tests.antt =====
-- The properties of the outbox at concrete queues.
use binance.Base.{
  ℕ, ◌+◌, ◌≤◌, ◌<◌, ◌≡◌, refl, true, false, inl, inr, Option, none, some, List, [], ◌∷◌, arith, Has,
  length,
}
use binance.Outbox.Types
use binance.Outbox.Types.{
  buy, sell, submit_pending, accepted, awaiting_cancel, plus, blank, outbox, derived,
  trend_deferred, own, Rec, Config, OrderStatus, is_awaiting, is_pending, derive_client_id,
  terminal,
}
use binance.Outbox.Guards.{
  safe_to_evict, is_possibly_submitted, has_prior_venue_evidence, is_non_failure_deferral,
}
use binance.Outbox.File.{garbage, row, transact, corruption, after, Change}
use binance.Outbox.Request.{stored}
use binance.Outbox.Enqueue.{enqueue_on, same_replacement}
use binance.Outbox.Claim.{
  claim, claim_each, claimable, lease, begin_claimed_submit, begin_each, exact_claim, dispatch, get,
}
use binance.Outbox.Status.{Transition, choose, advance_claimed_status}
use binance.Outbox.Complete.{
  apply_outcome, retry_terminal, release, no_details, Details, complete_claim, complete_each, owns,
  on_retry_terminal, next_revision, count_delivered, drop_claim,
}
use binance.Outbox.Exclusion.{claim-exclusive, holders}
use binance.Outbox.Intake.{enqueue_on-Has, enqueue_on_bound}
use binance.Outbox.Delivery.{retry_terminal_conserves}
use binance.Outbox.Ownership.{complete_claim-Has}
use binance.Outbox.Dispatch.{begin_claimed_submit-IsDispatched, IsDispatched}
use binance.Outbox.Replacement.{IsSameReplacement, enqueue_on-same_replacement}
use binance.Outbox.Durability.{transact-garbage}
use binance.Outbox.Samples.{
  sample, claimed_sample, deferred, accepted_sample, waiting, settings, request, host, expired_part,
  still_open, claimed_deferred,
}

first_claim :
    claim (7 ∷ []) 1000 60 90 (sample ∷ deferred ∷ [])
    ≡ some (some (claimed_sample ∷ deferred ∷ []), claimed_sample ∷ [])
unfolding claim claim_each claimable lease derive_client_id
first_claim = refl

second_claim :
    claim (7 ∷ 8 ∷ []) 1010 60 91 (claimed_sample ∷ deferred ∷ [])
    ≡ some (some (claimed_sample ∷ claimed_deferred ∷ []), claimed_deferred ∷ [])
unfolding claim claim_each claimable lease derive_client_id
second_claim = refl

claim-exclusive_example : holders 90 (claimed_sample ∷ claimed_deferred ∷ []) ≡ claimed_sample ∷ []
claim-exclusive_example =
    claim-exclusive 7 [] 1000 60 90 7 (8 ∷ []) 1010 60 91 (sample ∷ deferred ∷ []) refl
      (omega arith) (omega arith) first_claim second_claim

enqueue_on-Has_example : Has accepted_sample (
    after
      (accepted_sample ∷ deferred ∷ [])
      (enqueue_on settings request 1000 sample (accepted_sample ∷ deferred ∷ [])).0)
unfolding safe_to_evict is_possibly_submitted has_prior_venue_evidence
enqueue_on-Has_example =
    enqueue_on-Has settings request 1000 sample (accepted_sample ∷ deferred ∷ []) accepted_sample
      refl (inl refl)

enqueue_on_bound_example :
    length (
      after
        (accepted_sample ∷ deferred ∷ [])
        (enqueue_on settings request 1000 sample (accepted_sample ∷ deferred ∷ [])).0)
    ≤ 2
enqueue_on_bound_example =
    enqueue_on_bound settings request 1000 sample (accepted_sample ∷ deferred ∷ []) (omega arith)
      (omega arith)

abbrev remainder : Option Rec
remainder = some (
    next_revision 2000 (some expired_part)
      (count_delivered 2000 (some expired_part) accepted_sample))

abbrev expired_details : Details
expired_details = record no_details { status = some expired_part }

retried :
    apply_outcome retry_terminal expired_details 2000 accepted_sample accepted_sample ≡ remainder
unfolding apply_outcome on_retry_terminal Types.negligible
retried = refl

abbrev remainder_rec : Rec
remainder_rec =
    next_revision 2000 (some expired_part)
      (count_delivered 2000 (some expired_part) accepted_sample)

retry_terminal_conserves_example :
    (remainder_rec.delivered_qty + remainder_rec.qty ≡ 100)
    × (0 < remainder_rec.qty)
    × (remainder_rec.lifecycle ≡ submit_pending)
    × (remainder_rec.revision ≡ 1)
    × (remainder_rec.client_order_id ≡ some (derive_client_id 7 1))
    × (remainder_rec.order_id ≡ 0)
    × (safe_to_evict remainder_rec ≡ false)
retry_terminal_conserves_example =
    retry_terminal_conserves expired_details 2000 accepted_sample accepted_sample retried

abbrev dispatched_sample : Rec
dispatched_sample = dispatch 3 17 1020 60 claimed_sample

begun :
    (begin_claimed_submit host claimed_sample 1020 60 (claimed_sample ∷ deferred ∷ [])).1
    ≡ some dispatched_sample
unfolding begin_claimed_submit begin_each exact_claim
begun = refl

begin_claimed_submit-IsDispatched_example :
    IsDispatched claimed_sample dispatched_sample 1080
    × Has dispatched_sample (
        after
          (claimed_sample ∷ deferred ∷ [])
          (begin_claimed_submit host claimed_sample 1020 60 (claimed_sample ∷ deferred ∷ [])).0)
begin_claimed_submit-IsDispatched_example =
    begin_claimed_submit-IsDispatched host claimed_sample 1020 60 (claimed_sample ∷ deferred ∷ [])
      begun

released :
    complete_claim release no_details 1030 claimed_sample (claimed_sample ∷ claimed_deferred ∷ [])
    ≡ some (some (sample ∷ claimed_deferred ∷ []), true)
unfolding complete_claim complete_each apply_outcome owns drop_claim
released = refl

complete_claim-Has_example : Has claimed_deferred (sample ∷ claimed_deferred ∷ [])
complete_claim-Has_example =
    complete_claim-Has release no_details 1030 claimed_sample
      (claimed_sample ∷ claimed_deferred ∷ []) claimed_deferred released (inl (omega arith))
      (inr (inl refl))

-- The status of an order that is still open, and the queue after it has been observed.
abbrev observation : Option (Change Transition)
observation = advance_claimed_status accepted_sample still_open 1040 (accepted_sample ∷ [])

abbrev observed_queue : Option (Change Transition) → Option (List Rec)
observed_queue none = none
observed_queue (some (w, t)) = w

abbrev observed_action : Transition
observed_action = (choose accepted_sample still_open).1

seen_open : observation ≡ some (observed_queue observation, observed_action)
unfolding advance_claimed_status complete_claim complete_each owns choose terminal
    is_non_failure_deferral
seen_open = refl

transact-garbage_example :
    (k : ℕ) × (transact true (get 7) (row sample ∷ garbage ∷ row deferred ∷ [])
      ≡ (corruption k, row sample ∷ garbage ∷ row deferred ∷ []))
transact-garbage_example =
    transact-garbage true (get 7) (row sample ∷ garbage ∷ row deferred ∷ []) (inr (inl refl))

abbrev second_replacement : Rec
second_replacement = record sample {
  id = 9;
  lifecycle = awaiting_cancel;
  replaces_order_id = 40;
  replaces_original_qty = some 100;
}

enqueue_on-same_replacement_example :
    (x : Rec) × Has x (deferred ∷ waiting ∷ [])
    × IsSameReplacement second_replacement x
    × (enqueue_on settings request 1000 second_replacement (deferred ∷ waiting ∷ [])
        ≡ (none, stored x.id))
unfolding same_replacement
enqueue_on-same_replacement_example =
    enqueue_on-same_replacement settings request 1000 second_replacement waiting
      (deferred ∷ waiting ∷ []) refl refl (inr (inl refl))
