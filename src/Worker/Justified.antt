-- ===== src/Worker/Justified.antt =====
-- A whole pass of the worker keeps the log safe (order_retry_worker.py).
use binance.Base.{
  ℕ, ◌≡◌, refl, Bool, true, false, inl, inr, ◌⊎◌, Option, none, some, List, ◌∷◌, if◌then◌else◌,
  Bool-cases,
}
use binance.Outbox.Types.{
  Rec, Lifecycle, accepted, awaiting_cancel, submit_pending, bad_lifecycle, ClientId, terminal,
}
use binance.Outbox.Response.{Response}
use binance.Outbox.Claim.{claim}
use binance.Outbox.Complete.{
  Details, success, release, acceptance, status_failed, no_details, complete_claim,
}
use binance.Outbox.Status.{Transition, advance_claimed_status}
use binance.Outbox.Cleanup.{Activation, activated, resolved, not_activated, discard_expired}
use binance.Worker.Effects.{
  Lookup, found, not_found, unavailable, looked_up, Setting, World, returned, raised, StatusAnswer,
  status_raises, status_is, ◌>>=◌, ◌>>◌, tally, for_each, guarded, complete, provider_name,
}
use binance.Worker.Reconcile
use binance.Worker.Reconcile.{
  requires_reconciliation, reconcile_client_order, lookup_if, not_found_is_reliable,
}
use binance.Worker.Scan.{Found, scan}
use binance.Worker.Replacement.{
  complete_quietly, after_activation, activation_of, on_canceled, on_replaced_status,
  await_cancellation, activation_failed, is_venue_canceled,
}
use binance.Worker.Observe.{on_order_status, observe_order, count_action}
use binance.Worker.Submit.{after_lookup, retry_pending}
use binance.Worker.Pass.{
  claim_due, process_found, process_claimed, on_live_lookup, recover_live, recovered, step,
  by_lifecycle, read_remaining, due_ids, process_once, all_valid,
}
use binance.Worker.Safety.{
  IsSubmittable, IsSafe, Keeps, bind-Keeps, guarded-Keeps, if-Keeps, for_each-Keeps, then-Keeps,
}
use binance.Worker.Placement.{
  complete-Keeps, lookup-Keeps, accept-Keeps, at_current_price-IsSafe, hold-Keeps,
}

module _ (s : Setting) where
  after_lookup-IsSafe :
      (r : Rec) (client : ClientId) (a : Lookup × Response) (w : World)
      → IsSubmittable r
      → r.client_order_id ≡ some client
      → IsSafe s w.log
      → IsSafe s (after_lookup s r a (record w { log = looked_up client a.0 ∷ w.log })).1.log
  unfolding after_lookup
  after_lookup-IsSafe r client (found, order) w fit same safe = accept-Keeps s r r order _ safe
  after_lookup-IsSafe r client (unavailable, order) w fit same safe = hold-Keeps s r _ safe
  after_lookup-IsSafe r client (not_found, order) w fit same safe =
      by_horizon (Bool-cases (not_found_is_reliable s r (provider_name s r)))
    where
      asked : World
      asked = record w { log = looked_up client not_found ∷ w.log }

      by_horizon :
          (not_found_is_reliable s r (provider_name s r) ≡ true)
            ⊎ (not_found_is_reliable s r (provider_name s r) ≡ false)
          → IsSafe s (after_lookup s r (not_found, order) asked).1.log
      by_horizon (inl good) =
          rw good (at_current_price-IsSafe s r asked fit (inr (client, same, inl refl, good)) safe)
      by_horizon (inr bad) = rw bad (hold-Keeps s r asked safe)

  retry_pending-Keeps : (r : Rec) → IsSubmittable r → Keeps s (retry_pending s r)
  unfolding retry_pending reconcile_client_order
  retry_pending-Keeps r fit w safe = by_doubt (Bool-cases (requires_reconciliation r))
    where
      by_support :
          (b : Bool) (c : Option ClientId)
          → r.client_order_id ≡ c
          → IsSafe s ((lookup_if s b r.symbol c (provider_name s r) >>= after_lookup s r) w).1.log
      by_support true (some client) same =
          after_lookup-IsSafe r client
            (Reconcile.judge (s.lookup w.log r.symbol client (provider_name s r))) w fit same safe
      by_support true none same = unfold after_lookup in hold-Keeps s r w safe
      by_support false c same = unfold after_lookup in hold-Keeps s r w safe

      by_doubt :
          (requires_reconciliation r ≡ true) ⊎ (requires_reconciliation r ≡ false)
          → IsSafe s (retry_pending s r w).1.log
      by_doubt (inl doubtful) = rw doubtful (by_support s.has_lookup r.client_order_id refl)
      by_doubt (inr certain) = rw certain (at_current_price-IsSafe s r w fit (inl certain) safe)

  after_activation-Keeps : (r : Rec) (a : Activation) → Keeps s (after_activation s r a)
  after_activation-Keeps r activated w h = complete-Keeps s release no_details r w h
  after_activation-Keeps r resolved w h = h
  after_activation-Keeps r not_activated w h =
      complete-Keeps s status_failed (record no_details { error_text = some activation_failed }) r w
        h

  activation-Keeps :
      (r : Rec) (original : Option ℕ) (filled : ℕ) → Keeps s (activation_of s r original filled)
  activation-Keeps r none filled w h = h
  activation-Keeps r (some original) filled w h = h

  on_replaced_status-Keeps : (r : Rec) (a : StatusAnswer) → Keeps s (on_replaced_status s r a)
  unfolding on_replaced_status on_canceled
  on_replaced_status-Keeps r (status_raises error) w h =
      complete-Keeps s status_failed (record no_details { error_text = some error }) r w h
  on_replaced_status-Keeps r (status_is status) w h =
      if-Keeps s (is_venue_canceled status.venue_status) (on_canceled s r status)
        (if terminal status then complete_quietly s success r else complete_quietly s release r)
        (bind-Keeps s (activation_of s r r.replaces_original_qty status.filled_qty)
          (after_activation s r) (activation-Keeps r r.replaces_original_qty status.filled_qty)
          (after_activation-Keeps r))
        (if-Keeps s (terminal status) (complete_quietly s success r) (complete_quietly s release r)
          (complete-Keeps s success no_details r) (complete-Keeps s release no_details r))
        w h

  on_order_status-Keeps : (r : Rec) (a : StatusAnswer) → Keeps s (on_order_status s r a)
  unfolding on_order_status
  on_order_status-Keeps r (status_raises error) w h =
      complete-Keeps s status_failed (record no_details { error_text = some error }) r w h
  on_order_status-Keeps r (status_is status) w h =
      bind-Keeps s (guarded s (advance_claimed_status r status s.now))
        (λ (t : Transition). tally (count_action t.action))
        (guarded-Keeps s (advance_claimed_status r status s.now)) (λ t v k. k) w h

  step-Keeps : (r : Rec) → Keeps s (step s r)
  unfolding step await_cancellation observe_order
  step-Keeps r = by_state r.lifecycle refl
    where
      by_state : (l : Lifecycle) → r.lifecycle ≡ l → Keeps s (by_lifecycle s r l)
      by_state awaiting_cancel same w h = on_replaced_status-Keeps r _ _ h
      by_state accepted same w h = on_order_status-Keeps r _ _ h
      by_state submit_pending same w h = retry_pending-Keeps r (rw same refl) w h
      by_state bad_lifecycle same w h = retry_pending-Keeps r (rw same refl) w h

  recover_live-Keeps : (r : Rec) → Keeps s (recover_live s r)
  unfolding recover_live on_live_lookup
  recover_live-Keeps r =
      bind-Keeps s (reconcile_client_order s r.symbol r.client_order_id (provider_name s r))
        (on_live_lookup s r) (lookup-Keeps s r.symbol r.client_order_id (provider_name s r))
        by_answer
    where
      by_done : (b : Bool) → Keeps s (recovered s b)
      by_done true w h = h
      by_done false w h = h

      by_answer : (a : Lookup × Response) → Keeps s (on_live_lookup s r a)
      by_answer (not_found, order) w h = h
      by_answer (unavailable, order) w h = h
      by_answer (found, order) w h =
          let d : Details = record no_details {
            order = order;
            provider_name = provider_name s r;
          } in
          bind-Keeps s (complete s acceptance d r) (recovered s)
            (guarded-Keeps s (complete_claim acceptance d s.now r)) by_done w h

  process_claimed-Keeps :
      (f : Found) (expired claimed : List Rec) → Keeps s (process_claimed s f expired claimed)
  unfolding process_claimed
  process_claimed-Keeps f expired claimed w h =
      then-Keeps s (for_each (recover_live s) f.live)
        (for_each (step s) claimed >> read_remaining s)
        (for_each-Keeps s (recover_live s) f.live recover_live-Keeps)
        (then-Keeps s (for_each (step s) claimed) (read_remaining s)
          (for_each-Keeps s (step s) claimed step-Keeps) (λ v k. k))
        _ h

  process_found-Keeps : (f : Found) → Keeps s (process_found s f)
  unfolding process_found
  process_found-Keeps f w h =
      bind-Keeps s (guarded s (discard_expired s.config f.expired s.now))
        (λ expired. claim_due s f >>= process_claimed s f expired)
        (guarded-Keeps s (discard_expired s.config f.expired s.now))
        (λ expired.
          bind-Keeps s (claim_due s f) (process_claimed s f expired)
            (guarded-Keeps s (claim (due_ids f) s.now s.config.claim_lease s.host.fresh_token))
            (process_claimed-Keeps f expired))
        w h

-- A pass of the worker, whatever the market answers and whatever other processes make of the queue between
-- its transactions, and whether it returns or raises: each order that it places is for a record that is
-- neither accepted nor waiting for a cancellation; that is known not to be at the venue, by its submission
-- state or because the market denied its client order ID before, within the reliable horizon; at a price
-- that passes the gate; and the dispatched record had been stored before, leased and protected.
pub process_once-IsSafe :
    (s : Setting) (w : World) → IsSafe s w.log → IsSafe s (process_once s w).1.log
unfolding process_once
process_once-IsSafe s w h = by_validity (all_valid rs)
  where
    rs : List Rec
    rs = s.others w.log w.queue

    by_validity :
        (b : Bool)
        → IsSafe s
            (((λ (v : World). (if b then returned rs else raised, record v { queue = rs }))
                >>= λ snapshot. process_found s (scan s snapshot))
              w).1.log
    by_validity true = process_found-Keeps s (scan s rs) (record w { queue = rs }) h
    by_validity false = h
