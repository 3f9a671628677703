-- ===== src/Worker/Reconcile.antt =====
-- Lookups by client order ID, and when an absence may be relied on (order_retry_worker.py).
use binance.Base.{
  ℕ, ◌+◌, Bool, true, false, ◌&&◌, Option, none, some, max, min, ltb, leb, is_some, if◌then◌else◌,
}
use binance.Outbox.Types.{
  Rec, Reason, empty_reason, pending_reason, ambiguous, no_order_id, SubmissionState,
  producer_claimed, unknown, refused, ClientId,
}
use binance.Outbox.Request.{Num, malformed, num}
use binance.Outbox.Response.{Response, no_response, body, extract_order_id}
use binance.Worker.Effects.{
  Lookup, found, not_found, unavailable, looked_up, LookupAnswer, raises, nothing, answers,
  Capabilities, Setting, Run, pure, ask,
}

-- `_AMBIGUOUS_SUBMISSION_REASONS`
unfoldable pub ambiguous_reason : Option Reason → Bool
ambiguous_reason none = true
ambiguous_reason (some empty_reason) = true
ambiguous_reason (some pending_reason) = true
ambiguous_reason (some ambiguous) = true
ambiguous_reason (some no_order_id) = true
ambiguous_reason _ = false

abbrev requires_by_state : Option SubmissionState → Option Reason → Bool
requires_by_state (some refused) reason = false
requires_by_state (some producer_claimed) reason = true
requires_by_state (some unknown) reason = true
requires_by_state _ reason = ambiguous_reason reason

-- `_submission_requires_reconciliation`
unfoldable pub requires_reconciliation : Rec → Bool
unfolding ambiguous_reason
requires_reconciliation r = requires_by_state r.submission_state r.last_failure_reason

-- An answer counts as an order if it is an object with an order ID.
unfoldable pub with_order_id : Response → Lookup × Response
with_order_id (body a b c d e) =
    if is_some (extract_order_id (body a b c d e))
    then (found, body a b c d e)
    else (unavailable, no_response)
with_order_id _ = (unavailable, no_response)

unfoldable pub judge : LookupAnswer → Lookup × Response
unfolding with_order_id
judge raises = (unavailable, no_response)
judge nothing = (not_found, no_response)
judge LookupAnswer.malformed = (unavailable, no_response)
judge (answers r) = with_order_id r

module _ (s : Setting) where
  abbrev pub ask_client : ℕ → ClientId → Option ℕ → Run (Lookup × Response)
  ask_client symbol client provider =
      ask (λ l. judge (s.lookup l symbol client provider)) (λ a. looked_up client a.0)

  abbrev pub lookup_if : Bool → ℕ → Option ClientId → Option ℕ → Run (Lookup × Response)
  lookup_if true symbol (some client) provider = ask_client symbol client provider
  lookup_if _ symbol client provider = pure (unavailable, no_response)

  -- `_reconcile_client_order`
  unfoldable pub reconcile_client_order : ℕ → Option ClientId → Option ℕ → Run (Lookup × Response)
  reconcile_client_order symbol client provider = lookup_if s.has_lookup symbol client provider

  abbrev supports : Option Capabilities → Bool
  supports none = false
  supports (some c) = c.lookup_by_client_order_id

  -- `_supports_client_id_reconciliation`
  unfoldable pub supports_client_id : ℕ → Option ℕ → Bool
  supports_client_id symbol provider = supports (s.capabilities symbol provider)

  -- Horizons and times are positive, the reference is not in the future, and its age is within both.
  abbrev within_horizon : ℕ → Num → Bool
  within_horizon reference malformed = false
  within_horizon reference (num venue) =
      ltb 0 venue
      && ltb 0 s.config.not_found_max_age
      && ltb 0 reference
      && leb reference s.now
      && leb s.now (reference + min venue s.config.not_found_max_age)

  abbrev reliable_for : ℕ → Option Capabilities → Bool
  reliable_for reference none = false
  reliable_for reference (some c) =
      c.lookup_by_client_order_id && within_horizon reference c.not_found_reliable_for

  -- `_not_found_is_reliable`
  unfoldable pub not_found_is_reliable : Rec → Option ℕ → Bool
  not_found_is_reliable r provider =
      reliable_for (max r.created_ts r.last_attempt_ts) (s.capabilities r.symbol provider)
