-- ===== src/Worker/Pass.antt =====
-- `process_once` (order_retry_worker.py): the scan, the cleanup of expired records, the claim, and one step
-- for each claimed record.
use binance.Base.{ℕ, ◌+◌, Bool, true, false, not, List, ◌++◌, map, length, any, if◌then◌else◌}
use binance.Outbox.Types.{Rec, Lifecycle, accepted, awaiting_cancel}
use binance.Outbox.Guards.{valid_record}
use binance.Outbox.Response.{Response}
use binance.Outbox.Claim.{claim}
use binance.Outbox.Complete.{acceptance, no_details}
use binance.Outbox.Cleanup.{discard_expired}
use binance.Worker.Effects.{
  Lookup, found, not_found, unavailable, Setting, raised, returned, Run, ◌>>=◌, ◌>>◌, skip, tally,
  for_each, guarded, complete, provider_name,
}
use binance.Worker.Reconcile.{reconcile_client_order}
use binance.Worker.Scan.{Found, scan}
use binance.Worker.Replacement.{await_cancellation}
use binance.Worker.Observe.{observe_order}
use binance.Worker.Submit.{retry_pending}

abbrev pub all_valid : List Rec → Bool
all_valid rs = not (any (λ r. not (valid_record r)) rs)

abbrev pub ids : List Rec → List ℕ
ids rs = map (λ r. r.id) rs

abbrev pub due_ids : Found → List ℕ
due_ids f = ids f.retry ++ (ids f.observe ++ ids f.await)

module _ (s : Setting) where
  -- `load_validated`: a queue with an invalid record raises.
  abbrev pub load_validated : Run (List Rec)
  load_validated w =
      let rs = s.others w.log w.queue in
      (if all_valid rs then returned rs else raised, record w { queue = rs })

  abbrev pub recovered : Bool → Run (Unit {0})
  recovered true =
      tally (λ n. record n { succeeded = n.succeeded + 1; reconciled = n.reconciled + 1 })
  recovered false = skip

  unfoldable pub on_live_lookup : Rec → Lookup × Response → Run (Unit {0})
  on_live_lookup r (found, order) = do
    done ←
        complete s acceptance
          (record no_details { order = order; provider_name = provider_name s r }) r
    recovered done
  on_live_lookup r (not_found, order) = tally (λ n. record n { quarantined = n.quarantined + 1 })
  on_live_lookup r (unavailable, order) = tally (λ n. record n { quarantined = n.quarantined + 1 })

  -- A producer that still lives keeps its claim: its order is looked up, never submitted.
  unfoldable pub recover_live : Rec → Run (Unit {0})
  unfolding on_live_lookup
  recover_live r =
      reconcile_client_order s r.symbol r.client_order_id (provider_name s r) >>= λ answer.
      on_live_lookup r answer

  abbrev pub by_lifecycle : Rec → Lifecycle → Run (Unit {0})
  by_lifecycle r awaiting_cancel = await_cancellation s r
  by_lifecycle r accepted = observe_order s r
  by_lifecycle r _ = retry_pending s r

  unfoldable pub step : Rec → Run (Unit {0})
  step r = by_lifecycle r r.lifecycle

  abbrev pub read_remaining : Run (Unit {0})
  read_remaining w =
      let rs = s.others w.log w.queue in
      (returned tt, record w { queue = rs; stats = record w.stats { remaining = length rs } })

  unfoldable pub process_claimed : Found → List Rec → List Rec → Run (Unit {0})
  unfolding recover_live step
  process_claimed f expired claimed = do
    tally (λ n. record n { expired = length expired; quarantined = n.quarantined + f.quarantined })
    for_each recover_live f.live
    for_each step claimed
    read_remaining

  -- The token of the new claims is the host's fresh one.
  abbrev pub claim_due : Found → Run (List Rec)
  claim_due f = guarded s (claim (due_ids f) s.now s.config.claim_lease s.host.fresh_token)

  unfoldable pub process_found : Found → Run (Unit {0})
  unfolding process_claimed
  process_found f = do
    expired ← guarded s (discard_expired s.config f.expired s.now)
    claimed ← claim_due f
    process_claimed f expired claimed

  unfoldable pub process_once : Run (Unit {0})
  unfolding process_found
  process_once = do snapshot ← load_validated; process_found (scan s snapshot)
