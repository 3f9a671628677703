-- ===== src/Placing/Final.antt =====
-- The `finally` block of `Instrument.place` (instrument.py): what the queue keeps of an order that has ended.
use binance.Base.{Bool, true, false, not, ◌||◌, Option, none, some, List, ◌∷◌, ◌==◌, if◌then◌else◌}
use binance.Outbox.Types.{Rec, cache_not_fresh, SubmissionState, unknown, refused}
use binance.Outbox.Guards.{is_non_failure_deferral}
use binance.Outbox.File.{Line}
use binance.Outbox.Request.{Num, malformed, num}
use binance.Outbox.Enqueue.{enqueue}
use binance.Outbox.Response.{Response}
use binance.Outbox.Complete.{
  Outcome, success, failure, deferral, Details, no_details, complete_claim,
}
use binance.Worker.Effects.{Refusal, below_min_notional, filter_refused, reason_is}
use binance.Worker.Submit.{as_reason, is_terminal_refusal}
use binance.Placing.Quantity.{Wanted, unlimited, not_finite, wanted}
use binance.Placing.Setting.{Call, Setting, Ending, accepted, refused_with, unknown_with}
use binance.Placing.Slot.{request, Held}
use binance.Placing.Tracking.{best_effort, complete_accepted_claim}

module _ (s : Setting) (c : Call) where
  abbrev pub outcome_of : Refusal → Outcome
  outcome_of r =
      if is_terminal_refusal r
      then success
      else if is_non_failure_deferral (some (as_reason r))
      then deferral
      else failure

  abbrev pub details_of : Refusal → SubmissionState → Details
  details_of r state = record no_details {
    failure_reason = some (as_reason r);
    submission_state = some state;
  }

  -- The lease of a claim ends with the outcome.
  abbrev pub complete : Outcome → Details → Rec → List Line → List Line
  complete o d r ls = best_effort (complete_claim o d s.completed_at r) (s.others_after ls)

  abbrev pub is_filter_refusal : Refusal → Bool
  is_filter_refusal below_min_notional = true
  is_filter_refusal (filter_refused n) = true
  is_filter_refusal _ = false

  abbrev pub is_stale_cache : Refusal → Bool
  is_stale_cache (reason_is cache_not_fresh) = true
  is_stale_cache _ = false

  -- The quantity of the caller, or the one that stands at the end where the caller's is not positive.
  abbrev pub queued_qty : Wanted → Num → Num
  queued_qty unlimited now = now
  queued_qty not_finite now = malformed
  queued_qty (wanted n) now = if n == 0 then now else num n

  -- An intent that was never stored is queued for the worker, unless it can never pass or is not to be kept.
  abbrev pub enqueue_refused : Refusal → Num → List Line → List Line
  enqueue_refused r qty ls =
      if is_stale_cache r || is_filter_refusal r || not s.config.enabled
      then ls
      else (enqueue s.config s.host
          (request s c s.completed_at (queued_qty c.qty qty) s.ref_quote (some (as_reason r)))
          (s.others_after ls)).1

  abbrev pub after_refusal : Refusal → SubmissionState → Num → Option Rec → List Line → List Line
  after_refusal r state qty (some claim) ls = complete (outcome_of r) (details_of r state) claim ls
  after_refusal r state qty none ls = enqueue_refused r qty ls

  abbrev pub after_accept : Response → Option Rec → List Line → List Line
  after_accept reply none ls = ls
  after_accept reply (some claim) ls =
      (complete_accepted_claim claim reply s.provider_name
        ((s.completed_at, s.others_after) ∷ s.retries) ls).1

  abbrev pub bookkeep : Ending → Num → Option Rec → List Line → List Line
  bookkeep (accepted reply) qty claim ls = after_accept reply claim ls
  bookkeep (refused_with r) qty claim ls = after_refusal r refused qty claim ls
  bookkeep (unknown_with r) qty claim ls = after_refusal r unknown qty claim ls

  -- The `finally` block.
  unfoldable pub finalize : Num → Held → List Line
  finalize qty h = if c.caller_owns_retry then h.file else bookkeep h.ended qty h.claim h.file
