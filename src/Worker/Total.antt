-- ===== src/Worker/Total.antt =====
-- A pass of the worker ends without an exception of its own (order_retry_worker.py).
use binance.Base.{
  ℕ, ◌+◌, ◌≡◌, refl, Bool, true, false, ◌&&◌, ◌⊎◌, inl, inr, Option, none, some, List, is_some,
  if◌then◌else◌, ◌==◌, Bool-cases,
}
use binance.Outbox.Types.{
  SubmissionState, unknown, Rec, Lifecycle, accepted, awaiting_cancel, submit_pending,
  bad_lifecycle, ClientId, is_accepted, terminal,
}
use binance.Outbox.Guards.{is_non_failure_deferral}
use binance.Outbox.Due.{price_gate_ok}
use binance.Outbox.Response.{Response, extract_order_id}
use binance.Outbox.Claim.{begin_claimed_submit, is_refused, claim, valid_state}
use binance.Outbox.Complete.{
  Outcome, Details, success, failure, deferral, release, acceptance, status_failed, no_details,
  is_deferral,
}
use binance.Outbox.Status.{Transition, advance_claimed_status}
use binance.Outbox.Cleanup.{Activation, activated, resolved, not_activated, discard_expired}
use binance.Outbox.File.{Change, after}
use binance.Worker.Effects.{
  Lookup, found, not_found, unavailable, Log, Placement, Setting, World, StatusAnswer,
  status_raises, status_is, Run, ◌>>=◌, ◌>>◌, returned, raised, skip, tally, for_each, transaction,
  guarded, commit, complete, provider_name,
}
use binance.Worker.Reconcile.{
  requires_reconciliation, reconcile_client_order, lookup_if, not_found_is_reliable,
}
use binance.Worker.Scan.{Found, scan}
use binance.Worker.Replacement.{
  complete_quietly, complete_failed, after_activation, activation_of, on_canceled,
  on_replaced_status, await_cancellation, activation_failed, is_venue_canceled,
}
use binance.Worker.Observe.{on_order_status, observe_order, count_action}
use binance.Worker.Submit.{
  is_terminal_refusal, refusal_of, state_of, with_reason, as_reason, accept, refuse,
  after_second_lookup, after_place, on_dispatch, submit, on_price, at_current_price, hold,
  after_lookup, retry_pending,
}
use binance.Worker.Pass.{
  claim_due, process_found, process_claimed, on_live_lookup, recover_live, recovered, step,
  by_lifecycle, read_remaining, due_ids, process_once, all_valid,
}
use binance.Worker.Returns.{
  IsReturned, Returns, bind-Returns, then-Returns, for_each-Returns, guarded-Returns,
  complete-Returns, claim-is_some, discard_expired-is_some, advance-is_some,
}

-- The placement of an order leaves no submission state but those of a refusal and of an unknown end.
abbrev pub IsKnown : Setting → Type 0
IsKnown s = (l : Log) (r : Rec) (price : ℕ) → valid_state (s.place l r price).state ≡ true

if-Returns :
    {A : Type 0} (b : Bool) (m k : Run A) → Returns m → Returns k → Returns (if b then m else k)
if-Returns true m k first second = first
if-Returns false m k first second = second

skip-Returns : Returns {W = World} skip
skip-Returns w = tt

module _ (s : Setting) where
  quiet-Returns : (o : Outcome) (r : Rec) → is_deferral o ≡ false → Returns (complete_quietly s o r)
  quiet-Returns o r h =
      then-Returns (complete s o no_details r) skip (complete-Returns s o no_details r (rw h refl))
        skip-Returns

  failed-Returns : (error : ℕ) (r : Rec) → Returns (complete_failed s error r)
  failed-Returns error r =
      let d : Details = record no_details { error_text = some error } in
      then-Returns (complete s status_failed d r) skip (complete-Returns s status_failed d r refl)
        skip-Returns

  hold-Returns : (r : Rec) → Returns (hold s r)
  hold-Returns r w = quiet-Returns release r refl _

  accept-Returns : (snapshot r : Rec) (order : Response) → Returns (accept s snapshot r order)
  unfolding accept
  accept-Returns snapshot r order w =
      let d : Details = record no_details {
        order = order;
        provider_name = provider_name s snapshot;
      } in
      then-Returns (complete s acceptance d r) skip (complete-Returns s acceptance d r refl)
        skip-Returns _

  lookup-Returns :
      (symbol : ℕ) (provider : Option ℕ) (c : Option ClientId)
      → Returns (reconcile_client_order s symbol c provider)
  unfolding reconcile_client_order
  lookup-Returns symbol provider c = by_support s.has_lookup c
    where
      by_support : (b : Bool) (c : Option ClientId) → Returns (lookup_if s b symbol c provider)
      by_support true (some client) w = tt
      by_support true none w = tt
      by_support false c w = tt

  after_activation-Returns : (r : Rec) (a : Activation) → Returns (after_activation s r a)
  after_activation-Returns r activated = quiet-Returns release r refl
  after_activation-Returns r resolved = skip-Returns
  after_activation-Returns r not_activated = failed-Returns activation_failed r

  activation-Returns :
      (r : Rec) (original : Option ℕ) (filled : ℕ) → Returns (activation_of s r original filled)
  activation-Returns r none filled w = tt
  activation-Returns r (some original) filled w = tt

  on_replaced_status-Returns : (r : Rec) (a : StatusAnswer) → Returns (on_replaced_status s r a)
  unfolding on_replaced_status on_canceled
  on_replaced_status-Returns r (status_raises error) = failed-Returns error r
  on_replaced_status-Returns r (status_is status) =
      if-Returns (is_venue_canceled status.venue_status) (on_canceled s r status)
        (if terminal status then complete_quietly s success r else complete_quietly s release r)
        (bind-Returns (activation_of s r r.replaces_original_qty status.filled_qty)
          (after_activation s r) (activation-Returns r r.replaces_original_qty status.filled_qty)
          (after_activation-Returns r))
        (if-Returns (terminal status) (complete_quietly s success r) (complete_quietly s release r)
          (quiet-Returns success r refl) (quiet-Returns release r refl))

  on_order_status-Returns :
      (r : Rec) (a : StatusAnswer)
      → is_accepted r.lifecycle ≡ true
      → Returns (on_order_status s r a)
  unfolding on_order_status
  on_order_status-Returns r (status_raises error) same = failed-Returns error r
  on_order_status-Returns r (status_is status) same =
      bind-Returns (guarded s (advance_claimed_status r status s.now))
        (λ (t : Transition). tally (count_action t.action))
        (guarded-Returns s (advance_claimed_status r status s.now)
          (λ rs. advance-is_some r status s.now rs same))
        (λ t w. tt)

  refuse-Returns : (r : Rec) (p : Placement) → valid_state p.state ≡ true → Returns (refuse s r p)
  unfolding refuse
  refuse-Returns r p known =
      if-Returns (is_terminal_refusal (refusal_of p) && is_refused (state_of p)) _ _
        (then-Returns (complete_quietly s success r)
          (tally (λ n. record n { terminal_failed = n.terminal_failed + 1 }))
          (quiet-Returns success r refl) (λ w. tt))
        (by_reason (Bool-cases (is_non_failure_deferral (some (as_reason (refusal_of p))))))
    where
      state_known :
          (c : Option SubmissionState)
          → valid_state c ≡ true
          → valid_state (some (elim c [ none ↦ unknown | some state ↦ state ])) ≡ true
      state_known none h = refl
      state_known (some c) h = h

      by_reason :
          (is_non_failure_deferral (some (as_reason (refusal_of p))) ≡ true)
            ⊎ (is_non_failure_deferral (some (as_reason (refusal_of p))) ≡ false)
          → Returns (
              if is_non_failure_deferral (some (as_reason (refusal_of p)))
              then (complete s deferral (with_reason p) r >> skip)
              else (complete s failure (with_reason p) r >> skip))
      by_reason (inl deferred) = rw deferred (
          then-Returns (complete s deferral (with_reason p) r) skip
            (complete-Returns s deferral (with_reason p) r
              (rw deferred (rw (state_known p.state known) refl)))
            skip-Returns)
      by_reason (inr lasting) = rw lasting (
          then-Returns (complete s failure (with_reason p) r) skip
            (complete-Returns s failure (with_reason p) r (rw (state_known p.state known) refl))
            skip-Returns)

  module _ (known : IsKnown s) where
    after_place-Returns :
        (snapshot r : Rec) (p : Placement)
        → valid_state p.state ≡ true
        → Returns (after_place s snapshot r p)
    unfolding after_place after_second_lookup
    after_place-Returns snapshot r p fit =
        if-Returns (is_some (extract_order_id p.order)) (accept s snapshot r p.order) _
          (accept-Returns snapshot r p.order)
          (bind-Returns
            (reconcile_client_order s snapshot.symbol snapshot.client_order_id
              (provider_name s snapshot))
            (λ answer. after_second_lookup s snapshot r p answer)
            (lookup-Returns snapshot.symbol (provider_name s snapshot) snapshot.client_order_id)
            by_answer)
      where
        by_answer : (a : Lookup × Response) → Returns (after_second_lookup s snapshot r p a)
        by_answer (found, order) w = accept-Returns snapshot r order _
        by_answer (not_found, order) w = refuse-Returns r p fit w
        by_answer (unavailable, order) w = refuse-Returns r p fit w

    submit-Returns : (r : Rec) (price : ℕ) → Returns (submit s r price)
    unfolding submit on_dispatch
    submit-Returns r price =
        bind-Returns (transaction s (begin_claimed_submit s.host r s.now s.config.claim_lease))
          (on_dispatch s r price) (λ w. tt) by_dispatch
      where
        by_dispatch : (d : Option Rec) → Returns (on_dispatch s r price d)
        by_dispatch none w = tt
        by_dispatch (some dispatched) w =
            after_place-Returns r dispatched (s.place w.log dispatched price)
              (known w.log dispatched price) _

    at_current_price-Returns : (r : Rec) → Returns (at_current_price s r)
    unfolding at_current_price on_price
    at_current_price-Returns r w = by_price (s.price w.log r.symbol) _
      where
        by_price : (price : Option ℕ) → Returns (on_price s r price)
        by_price none = quiet-Returns release r refl
        by_price (some price) =
            if-Returns (price_gate_ok s.config r (some price)) (submit s r price) _
              (submit-Returns r price)
              (then-Returns (complete_quietly s release r)
                (tally (λ n. record n { skipped_price = n.skipped_price + 1 }))
                (quiet-Returns release r refl) (λ w. tt))

    retry_pending-Returns : (r : Rec) → Returns (retry_pending s r)
    unfolding retry_pending after_lookup
    retry_pending-Returns r =
        if-Returns (requires_reconciliation r) _ (at_current_price s r)
          (bind-Returns (reconcile_client_order s r.symbol r.client_order_id (provider_name s r))
            (after_lookup s r) (lookup-Returns r.symbol (provider_name s r) r.client_order_id)
            by_answer)
          (at_current_price-Returns r)
      where
        by_answer : (a : Lookup × Response) → Returns (after_lookup s r a)
        by_answer (found, order) w = accept-Returns r r order _
        by_answer (not_found, order) w =
            if-Returns (not_found_is_reliable s r (provider_name s r)) (at_current_price s r)
              (hold s r) (at_current_price-Returns r) (hold-Returns r) w
        by_answer (unavailable, order) w = hold-Returns r w

    step-Returns : (r : Rec) → Returns (step s r)
    unfolding step await_cancellation observe_order
    step-Returns r = by_state r.lifecycle refl
      where
        by_state : (l : Lifecycle) → r.lifecycle ≡ l → Returns (by_lifecycle s r l)
        by_state awaiting_cancel same w = on_replaced_status-Returns r _ _
        by_state accepted same w = on_order_status-Returns r _ (rw same refl) _
        by_state submit_pending same w = retry_pending-Returns r w
        by_state bad_lifecycle same w = retry_pending-Returns r w

  recover_live-Returns : (r : Rec) → Returns (recover_live s r)
  unfolding recover_live on_live_lookup
  recover_live-Returns r =
      bind-Returns (reconcile_client_order s r.symbol r.client_order_id (provider_name s r))
        (on_live_lookup s r) (lookup-Returns r.symbol (provider_name s r) r.client_order_id)
        by_answer
    where
      by_done : (b : Bool) → Returns (recovered s b)
      by_done true w = tt
      by_done false w = tt

      by_answer : (a : Lookup × Response) → Returns (on_live_lookup s r a)
      by_answer (not_found, order) w = tt
      by_answer (unavailable, order) w = tt
      by_answer (found, order) w =
          let d : Details = record no_details {
            order = order;
            provider_name = provider_name s r;
          } in
          bind-Returns (complete s acceptance d r) (recovered s)
            (complete-Returns s acceptance d r refl) by_done w

  process_expired-Returns :
      IsKnown s
      → (s.config.claim_lease == 0) ≡ false
      → (f : Found) (expired : List Rec) → Returns (claim_due s f >>= process_claimed s f expired)
  unfolding process_claimed
  process_expired-Returns known lease f expired =
      bind-Returns (claim_due s f) (process_claimed s f expired)
        (guarded-Returns s (claim (due_ids f) s.now s.config.claim_lease s.host.fresh_token)
          (λ rs. claim-is_some (due_ids f) s.now s.config.claim_lease s.host.fresh_token rs lease))
        (λ claimed v.
          then-Returns (for_each (recover_live s) f.live)
            (for_each (step s) claimed >> read_remaining s)
            (for_each-Returns (recover_live s) f.live recover_live-Returns)
            (then-Returns (for_each (step s) claimed) (read_remaining s)
              (for_each-Returns (step s) claimed (step-Returns known)) (λ u. tt))
            _)

  process_found-Returns :
      (known : IsKnown s) (lease : (s.config.claim_lease == 0) ≡ false) (f : Found) (w : World)
      → all_valid (s.others w.log w.queue) ≡ true
      → IsReturned (process_found s f w).0
  unfolding process_found
  process_found-Returns known lease f w valid =
      by_change (discard_expired s.config f.expired s.now rs)
        (discard_expired-is_some s.config f.expired s.now rs valid)
    where
      rs : List Rec
      rs = s.others w.log w.queue

      by_change :
          (c : Option (Change (List Rec)))
          → is_some c ≡ true
          → IsReturned
              (((λ (v : World). commit s v rs c) >>= λ expired.
                  claim_due s f >>= process_claimed s f expired)
                w).0
      by_change none h = cc
      by_change (some (c, expired)) h =
          process_expired-Returns known lease f expired (record w { queue = after rs c })

-- Where the queue that a pass reads first is valid, and still is when the expired records are taken out, the
-- lease is not 0 and a placement leaves no submission state but those of a refusal and of an unknown end, the
-- pass returns, whatever else the market answers, exceptions of its lookups, statuses and prices included, and
-- whatever else other processes do.
pub process_once-IsReturned :
    (s : Setting) (w : World)
    → IsKnown s
    → (s.config.claim_lease == 0) ≡ false
    → all_valid (s.others w.log w.queue) ≡ true
    → all_valid (s.others w.log (s.others w.log w.queue)) ≡ true
    → IsReturned (process_once s w).0
unfolding process_once
process_once-IsReturned s w known lease valid still = by_validity (all_valid rs) valid
  where
    rs : List Rec
    rs = s.others w.log w.queue

    by_validity :
        (b : Bool)
        → b ≡ true
        → IsReturned
            (((λ (v : World). (if b then returned rs else raised, record v { queue = rs }))
                >>= λ snapshot. process_found s (scan s snapshot))
              w).0
    by_validity true h =
        process_found-Returns s known lease (scan s rs) (record w { queue = rs }) still
    by_validity false h = cc
