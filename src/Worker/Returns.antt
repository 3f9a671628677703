-- ===== src/Worker/Returns.antt =====
-- Runs of the worker that return, and the operations of the outbox that do not raise.
use binance.Base.{
  ℕ, ◌≡◌, refl, true, false, not, ◌&&◌, ◌||◌, Option, none, some, List, [], ◌∷◌, arith, is_some,
  ◌==◌, any,
}
pub use binance.Base.Stateful.{IsReturned, Returns, bind-Returns}
use binance.Outbox.Types.{Rec, Config, OrderStatus, is_accepted}
use binance.Outbox.Cleanup.{discard_expired}
use binance.Outbox.Guards.{is_non_failure_deferral, valid_record}
use binance.Outbox.File.{Change}
use binance.Outbox.Claim.{claim, valid_state}
use binance.Outbox.Complete.{Outcome, Details, complete_claim, is_deferral}
use binance.Outbox.Status.{choose, advance_claimed_status}
use binance.Worker.Effects.{Setting, Run, ◌>>◌, for_each, guarded, commit, complete}

pub then-Returns : {A B : Type 0} (m : Run A) (k : Run B) → Returns m → Returns k → Returns (m >> k)
then-Returns m k first second = bind-Returns m (λ _. k) first (λ _. second)

pub for_each-Returns :
    (f : Rec → Run (Unit {0})) (rs : List Rec)
    → ((r : Rec) → Returns (f r))
    → Returns (for_each f rs)
for_each-Returns f [] each = λ w. tt
for_each-Returns f (r ∷ rs) each =
    then-Returns (f r) (for_each f rs) (each r) (for_each-Returns f rs each)

pub guarded-Returns :
    (s : Setting) {A : Type 0} (op : List Rec → Option (Change A))
    → ((rs : List Rec) → is_some (op rs) ≡ true)
    → Returns (guarded s op)
guarded-Returns s {A} op total w =
    by_change (s.others w.log w.queue) (op (s.others w.log w.queue)) (total _)
  where
    by_change :
        (rs : List Rec) (c : Option (Change A)) → is_some c ≡ true → IsReturned (commit s w rs c).0
    by_change rs none h = cc
    by_change rs (some (c, a)) h = tt

-- The outcomes for which `complete_claim` raises no ValueError.
abbrev pub IsAllowed : Outcome → Details → Type 0
IsAllowed o d =
    (is_deferral o && not (is_non_failure_deferral d.failure_reason)
      || not (valid_state d.submission_state))
    ≡ false

complete_claim-is_some :
    (o : Outcome) (d : Details) (now : ℕ) (r : Rec) (rs : List Rec)
    → IsAllowed o d
    → is_some (complete_claim o d now r rs) ≡ true
unfolding complete_claim
complete_claim-is_some o d now r rs h = ground arith

pub complete-Returns :
    (s : Setting) (o : Outcome) (d : Details) (r : Rec) → IsAllowed o d → Returns (complete s o d r)
complete-Returns s o d r h =
    guarded-Returns s (complete_claim o d s.now r) (λ rs. complete_claim-is_some o d s.now r rs h)

pub claim-is_some :
    (ids : List ℕ) (now seconds token : ℕ) (rs : List Rec)
    → (seconds == 0) ≡ false
    → is_some (claim ids now seconds token rs) ≡ true
unfolding claim
claim-is_some [] now seconds token rs h = refl
claim-is_some (i ∷ ids) now seconds token rs h = ground arith

pub discard_expired-is_some :
    (c : Config) (snapshots : List Rec) (now : ℕ) (rs : List Rec)
    → not (any (λ r. not (valid_record r)) rs) ≡ true
    → is_some (discard_expired c snapshots now rs) ≡ true
unfolding discard_expired
discard_expired-is_some c snapshots now rs valid = ground arith

pub advance-is_some :
    (r : Rec) (status : OrderStatus) (now : ℕ) (rs : List Rec)
    → is_accepted r.lifecycle ≡ true
    → is_some (advance_claimed_status r status now rs) ≡ true
unfolding advance_claimed_status choose complete_claim
advance-is_some r status now rs h = ground arith
