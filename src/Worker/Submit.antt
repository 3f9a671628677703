-- ===== src/Worker/Submit.antt =====
-- A claimed record that is pending (order_retry_worker.py): it is reconciled if it might be at the venue
-- already, held against the price gate, dispatched and placed, and its lease is completed.
use binance.Base.{ℕ, ◌+◌, Bool, true, false, ◌&&◌, Option, none, some, ◌∷◌, is_some, if◌then◌else◌}
use binance.Outbox.Types.{Rec, Reason, ambiguous, SubmissionState, unknown}
use binance.Outbox.Guards.{is_non_failure_deferral}
use binance.Outbox.Due.{price_gate_ok}
use binance.Outbox.Response.{Response, extract_order_id}
use binance.Outbox.Claim.{begin_claimed_submit, is_refused}
use binance.Outbox.Complete.{success, failure, deferral, release, acceptance, Details, no_details}
use binance.Worker.Effects.{
  Lookup, found, not_found, unavailable, price_read, placed, Refusal, execution_disabled,
  trading_disabled, below_min_notional, filter_refused, reason_is, Placement, Setting, returned,
  Run, ◌>>=◌, ◌>>◌, skip, tally, ask, transaction, complete, provider_name,
}
use binance.Worker.Reconcile.{
  requires_reconciliation, reconcile_client_order, not_found_is_reliable,
}
use binance.Worker.Replacement.{complete_quietly}

-- The numbers of the texts of a refusal.
abbrev pub as_reason : Refusal → Reason
as_reason execution_disabled = Reason.other_reason 11
as_reason trading_disabled = Reason.other_reason 12
as_reason below_min_notional = Reason.other_reason 13
as_reason (filter_refused n) = Reason.other_reason n
as_reason (reason_is r) = r

abbrev pub pre_submit_refused : Refusal
pre_submit_refused = reason_is (Reason.other_reason 14)

-- "execution_disabled", "trading_disabled", or `is_terminal_filter_refusal`
unfoldable pub is_terminal_refusal : Refusal → Bool
is_terminal_refusal (reason_is r) = false
is_terminal_refusal _ = true

abbrev pub state_of : Placement → SubmissionState
state_of p = elim p.state [ none ↦ unknown | some state ↦ state ]

abbrev pub refusal_of : Placement → Refusal
refusal_of p = elim p.reason [
  | none ↦ if is_refused (state_of p) then pre_submit_refused else reason_is ambiguous
  | some reason ↦ reason
]

abbrev pub with_reason : Placement → Details
with_reason p = record no_details {
  failure_reason = some (as_reason (refusal_of p));
  submission_state = some (state_of p);
}

module _ (s : Setting) where
  -- Symbol, client order ID and provider are those of the claimed snapshot.
  unfoldable pub accept : Rec → Rec → Response → Run (Unit {0})
  accept snapshot r order = do
    tally (λ n. record n { succeeded = n.succeeded + 1 })
    complete s acceptance
        (record no_details { order = order; provider_name = provider_name s snapshot }) r
    skip

  unfoldable pub refuse : Rec → Placement → Run (Unit {0})
  unfolding is_terminal_refusal
  refuse r p =
      if is_terminal_refusal (refusal_of p) && is_refused (state_of p)
      then (complete_quietly s success r
          >> tally (λ n. record n { terminal_failed = n.terminal_failed + 1 }))
      else if is_non_failure_deferral (some (as_reason (refusal_of p)))
      then (complete s deferral (with_reason p) r >> skip)
      else (complete s failure (with_reason p) r >> skip)

  unfoldable pub after_second_lookup : Rec → Rec → Placement → Lookup × Response → Run (Unit {0})
  unfolding accept refuse
  after_second_lookup snapshot r p (found, order) =
      tally (λ n. record n { reconciled = n.reconciled + 1 }) >> accept snapshot r order
  after_second_lookup snapshot r p (not_found, order) = refuse r p
  after_second_lookup snapshot r p (unavailable, order) = refuse r p

  -- An answer without an order ID is followed by another lookup.
  unfoldable pub after_place : Rec → Rec → Placement → Run (Unit {0})
  unfolding after_second_lookup accept
  after_place snapshot r p =
      if is_some (extract_order_id p.order)
      then accept snapshot r p.order
      else (reconcile_client_order s snapshot.symbol snapshot.client_order_id
            (provider_name s snapshot)
          >>= λ answer. after_second_lookup snapshot r p answer)

  -- The order is placed right after it was dispatched.
  abbrev pub place_order : Rec → Rec → ℕ → Run Placement
  place_order snapshot r price w =
      (returned (s.place w.log r price), record w { log = placed snapshot r w.queue price ∷ w.log })

  unfoldable pub on_dispatch : Rec → ℕ → Option Rec → Run (Unit {0})
  unfolding after_place
  on_dispatch snapshot price none = tally (λ n. record n { quarantined = n.quarantined + 1 })
  on_dispatch snapshot price (some r) = do
    tally (λ n. record n { attempted = n.attempted + 1 })
    placement ← place_order snapshot r price
    after_place snapshot r placement

  unfoldable pub submit : Rec → ℕ → Run (Unit {0})
  unfolding on_dispatch
  submit r price = do
    dispatched ← transaction s (begin_claimed_submit s.host r s.now s.config.claim_lease)
    on_dispatch r price dispatched

  unfoldable pub on_price : Rec → Option ℕ → Run (Unit {0})
  unfolding submit
  on_price r none = complete_quietly s release r
  on_price r (some price) =
      if price_gate_ok s.config r (some price)
      then submit r price
      else (complete_quietly s release r
          >> tally (λ n. record n { skipped_price = n.skipped_price + 1 }))

  unfoldable pub at_current_price : Rec → Run (Unit {0})
  unfolding on_price
  at_current_price r = do
    price ← ask (λ l. s.price l r.symbol) (λ a. price_read r.symbol)
    on_price r price

  abbrev pub hold : Rec → Run (Unit {0})
  hold r = tally (λ n. record n { quarantined = n.quarantined + 1 }) >> complete_quietly s release r

  -- Only an absence that can be relied on lets a doubtful record go on.
  unfoldable pub after_lookup : Rec → Lookup × Response → Run (Unit {0})
  unfolding accept at_current_price
  after_lookup r (found, order) =
      tally (λ n. record n { reconciled = n.reconciled + 1 }) >> accept r r order
  after_lookup r (not_found, order) =
      if not_found_is_reliable s r (provider_name s r) then at_current_price r else hold r
  after_lookup r (unavailable, order) = hold r

  unfoldable pub retry_pending : Rec → Run (Unit {0})
  unfolding after_lookup at_current_price
  retry_pending r =
      if requires_reconciliation r
      then (reconcile_client_order s r.symbol r.client_order_id (provider_name s r) >>= λ answer.
          after_lookup r answer)
      else at_current_price r
