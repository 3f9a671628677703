-- ===== src/Placing/Tracking.antt =====
-- How the acceptance of an order is written into the outbox (accepted_order_persistence.py): the lease is completed
-- as accepted, in a bounded number of attempts.
use binance.Base.{
  ℕ, Bool, true, false, ◌&&◌, Option, none, some, List, [], ◌∷◌, ◌==◌, is_some, if◌then◌else◌,
}
use binance.Outbox.Types.{Rec, is_accepted, client_opt_eq}
use binance.Outbox.File.{Change, Line, Queue, queue, corrupt, read_nolock, written}
use binance.Outbox.Response.{Response, extract_order_id}
use binance.Outbox.Complete.{acceptance, Details, no_details, complete_claim}

-- An operation of the outbox whose exceptions are ignored.
abbrev pub best_effort_change : {A : Type 0} → List Line → Option (Change A) → List Line
best_effort_change ls none = ls
best_effort_change ls (some (w, a)) = written ls w

abbrev pub best_effort_on :
    {A : Type 0} → (List Rec → Option (Change A)) → List Line → Queue → List Line
best_effort_on op ls (corrupt n) = ls
best_effort_on op ls (queue rs) = best_effort_change ls (op rs)

abbrev pub best_effort : {A : Type 0} → (List Rec → Option (Change A)) → List Line → List Line
best_effort op ls = best_effort_on op ls (read_nolock false ls)

-- Whether an operation of the outbox returns true; an exception does not.
abbrev pub confirmed_change : Option (Change Bool) → Bool
confirmed_change none = false
confirmed_change (some (w, b)) = b

abbrev pub confirmed_on : (List Rec → Option (Change Bool)) → Queue → Bool
confirmed_on op (corrupt n) = false
confirmed_on op (queue rs) = confirmed_change (op rs)

abbrev pub confirmed : (List Rec → Option (Change Bool)) → List Line → Bool
confirmed op ls = confirmed_on op (read_nolock false ls)

abbrev pub is_tracked : Rec → Option ℕ → Rec → Bool
is_tracked claim none r = false
is_tracked claim (some id) r =
    is_accepted r.lifecycle
    && r.order_id == id
    && is_some claim.client_order_id
    && client_opt_eq r.client_order_id claim.client_order_id

-- The first record of the ID decides.
abbrev pub durable_in : Rec → Option ℕ → List Rec → Bool
durable_in claim id [] = false
durable_in claim id (r ∷ rs) =
    let rest = durable_in claim id rs in if r.id == claim.id then is_tracked claim id r else rest

-- `_accepted_is_durable`
abbrev pub accepted_is_durable : Rec → Response → List Line → Bool
accepted_is_durable claim order ls = elim (read_nolock false ls) [
  | corrupt n ↦ false
  | queue rs ↦ durable_in claim (extract_order_id order) rs
]

abbrev pub acceptance_of : Response → ℕ → Details
acceptance_of order provider = record no_details { order = order; provider_name = some provider }

-- `complete_accepted_claim`: each attempt has its time, and follows what other processes make of the file before it.
abbrev pub complete_accepted_claim :
    Rec → Response → ℕ → List (ℕ × (List Line → List Line)) → List Line → Bool × List Line
complete_accepted_claim claim order provider [] ls = (false, ls)
complete_accepted_claim claim order provider ((now, others) ∷ attempts) ls =
    let op = complete_claim acceptance (acceptance_of order provider) now claim in
    let done = best_effort op (others ls) in
    let rest = complete_accepted_claim claim order provider attempts done in
    if confirmed op (others ls)
    then (true, done)
    else if accepted_is_durable claim order done
    then (true, done)
    else rest
