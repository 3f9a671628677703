-- ===== src/Worker/Scan.antt =====
-- The first loop of `process_once` (order_retry_worker.py): what each record of the snapshot is due for.
use binance.Base.{
  ℕ, ◌+◌, Bool, true, false, Option, some, List, [], ◌∷◌, ltb, or_default, if◌then◌else◌,
}
use binance.Outbox.Types.{
  Rec, Lifecycle, accepted, awaiting_cancel, SubmissionState, producer_claimed,
}
use binance.Outbox.Guards.{OwnerState, alive, owner_unknown, producer_claim_owner_state}
use binance.Outbox.Due.{is_expired, is_due}
use binance.Worker.Effects.{Setting, provider_name}
use binance.Worker.Reconcile.{supports_client_id}

pub data Verdict : Type 0 where
  leave expire live quarantine observe await retry : Verdict

abbrev pub is_producer_claimed : Option SubmissionState → Bool
is_producer_claimed (some producer_claimed) = true
is_producer_claimed _ = false

abbrev by_lifecycle : Lifecycle → Verdict
by_lifecycle accepted = observe
by_lifecycle awaiting_cancel = await
by_lifecycle _ = retry

pub record Found : Type 0 where
  pub expired : List Rec
  pub live : List Rec
  pub retry : List Rec
  pub observe : List Rec
  pub await : List Rec
  pub quarantined : ℕ

abbrev file_under : Verdict → Rec → Found → Found
file_under leave r f = f
file_under expire r f = record f { expired = r ∷ f.expired }
file_under live r f = record f { live = r ∷ f.live }
file_under quarantine r f = record f { quarantined = f.quarantined + 1 }
file_under observe r f = record f { observe = r ∷ f.observe }
file_under await r f = record f { await = r ∷ f.await }
file_under retry r f = record f { retry = r ∷ f.retry }

module _ (s : Setting) where
  abbrev if_due : Rec → Verdict
  if_due r = if is_due s.config s.now r then by_lifecycle r.lifecycle else leave

  -- The lease of the producer has run out.
  abbrev by_owner : Rec → OwnerState → Verdict
  by_owner r alive = live
  by_owner r owner_unknown = quarantine
  by_owner r _ = if supports_client_id s r.symbol (provider_name s r) then if_due r else quarantine

  abbrev claimed_by_producer : Rec → Verdict
  claimed_by_producer r =
      if ltb s.now (or_default r.claim_until 0)
      then leave
      else by_owner r (producer_claim_owner_state s.host.process r)

  unfoldable pub classify : Rec → Verdict
  classify r =
      if is_expired s.config s.now r
      then expire
      else if is_producer_claimed r.submission_state
      then claimed_by_producer r
      else if_due r

  -- The lists keep the order of the queue.
  unfoldable pub scan : List Rec → Found
  unfolding classify
  scan [] = record {
    expired = [];
    live = [];
    retry = [];
    observe = [];
    await = [];
    quarantined = 0;
  }
  scan (r ∷ rs) = file_under (classify r) r (scan rs)
