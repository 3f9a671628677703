-- ===== src/Worker/Agreement.antt =====
-- The worker's own test for a doubtful record and the outbox's are the same.
use binance.Base.{◌≡◌, refl, true, Option, none, some, arith}
use binance.Outbox.Types.{Rec, Reason, is_pending}
use binance.Outbox.Guards.{is_possibly_submitted, possibly_submitted_reason}
use binance.Worker.Reconcile.{requires_reconciliation, ambiguous_reason}

ambiguous-possibly :
    (reason : Option Reason) → ambiguous_reason reason ≡ possibly_submitted_reason reason
unfolding ambiguous_reason possibly_submitted_reason
ambiguous-possibly none = refl
ambiguous-possibly (some Reason.empty_reason) = refl
ambiguous-possibly (some Reason.pending_reason) = refl
ambiguous-possibly (some Reason.ambiguous) = refl
ambiguous-possibly (some Reason.no_order_id) = refl
ambiguous-possibly (some Reason.trend_deferred) = refl
ambiguous-possibly (some Reason.cache_not_fresh) = refl
ambiguous-possibly (some Reason.cache_changed) = refl
ambiguous-possibly (some Reason.price_unfavorable) = refl
ambiguous-possibly (some (Reason.terminal_native v)) = refl
ambiguous-possibly (some (Reason.terminal_status t)) = refl
ambiguous-possibly (some (Reason.other_reason n)) = refl

-- For a pending record, `_submission_requires_reconciliation` of the worker and `is_possibly_submitted` of the
-- outbox, two copies of one rule, give the same answer.
pub requires_reconciliation-eq-is_possibly_submitted :
    (r : Rec) → is_pending r.lifecycle ≡ true → requires_reconciliation r ≡ is_possibly_submitted r
unfolding requires_reconciliation is_possibly_submitted
requires_reconciliation-eq-is_possibly_submitted r pending =
    ground (arith, ambiguous-possibly r.last_failure_reason)
