-- ===== src/Outbox/Claim.antt =====
-- Leases on the records of the outbox (order_retry.py): `claim`, `begin_claimed_submit`, and the
-- operations that name one record, `get`, `mark_failure`, `mark_accepted` and `resolve_record`.
use binance.Base.{
  ℕ, ◌+◌, Bool, true, false, not, ◌&&◌, ◌||◌, Option, none, some, List, [], ◌∷◌, max, ltb, ◌==◌,
  opt_eq, is_some, or_default, if◌then◌else◌, any,
}
use binance.Base.Fallible.{◌>>=◌, ◌>>◌, require}
use binance.Outbox.Types.{
  Rec, Reason, SubmissionState, producer_claimed, unknown, refused, ClientId, derive_client_id,
  client_opt_eq,
}
use binance.Outbox.Guards.{is_non_failure_deferral, set_safe_to_discard}
use binance.Outbox.File.{Change}
use binance.Outbox.Request.{Host, client_or, identity_of}
use binance.Outbox.Response.{Response, apply_accepted}

-- `for rec in existing: if not match: continue; mutate; break`. The function gives the new record at
-- a match, and whether there is anything to write.
pub data Visit : Type 0 where
  skip stay : Visit
  put : Rec → Visit

unfoldable pub update_first : (Rec → Visit) → List Rec → Option (List Rec)
update_first f [] = none
update_first f (r ∷ rs) =
    let rest = update_first f rs >>= λ done. some (r ∷ done) in
    elim (f r) [ skip ↦ rest | stay ↦ none | put r' ↦ some (r' ∷ rs) ]

abbrev pub changed : Option (List Rec) → Change Bool
changed w = (w, is_some w)

unfoldable pub get : ℕ → List Rec → Change (Option Rec)
get id [] = (none, none)
get id (r ∷ rs) = if not (id == 0) && r.id == id then (none, some r) else get id rs

abbrev pub named_in : List ℕ → Rec → Bool
named_in ids r = any (λ i. i == r.id) ids

-- The record under the new lease.
unfoldable pub lease : ℕ → ℕ → ℕ → Rec → Rec
lease now seconds token r = record r {
  client_order_id = client_or r.client_order_id (derive_client_id r.id r.revision);
  claim_token = some token;
  claim_until = some (now + seconds);
  claim_revision = some r.revision;
}

-- Named in the call, and under no lease that still runs.
unfoldable pub claimable : List ℕ → ℕ → Rec → Bool
claimable ids now r = named_in ids r && not (ltb now (or_default r.claim_until 0))

-- The queue and the claimed records.
unfoldable pub claim_each : List ℕ → ℕ → ℕ → ℕ → List Rec → List Rec × List Rec
claim_each ids now seconds token [] = ([], [])
claim_each ids now seconds token (r ∷ rs) =
    let (queue, claimed) = claim_each ids now seconds token rs in
    if claimable ids now r
    then (lease now seconds token r ∷ queue, lease now seconds token r ∷ claimed)
    else (r ∷ queue, claimed)

abbrev claim_change : List Rec × List Rec → Change (List Rec)
claim_change (queue, []) = (none, [])
claim_change (queue, c ∷ cs) = (some queue, c ∷ cs)

-- `none` is the ValueError of a lease that is not positive.
unfoldable pub claim : List ℕ → ℕ → ℕ → ℕ → List Rec → Option (Change (List Rec))
claim [] now seconds token rs = some (none, [])
claim (i ∷ ids) now seconds token rs =
    if seconds == 0 then none else some (claim_change (claim_each (i ∷ ids) now seconds token rs))

-- Token, revision and client order ID of the snapshot are still those of the record.
unfoldable pub exact_claim : Rec → Rec → Bool
exact_claim snapshot r =
    r.id == snapshot.id
    && opt_eq r.claim_token snapshot.claim_token
    && opt_eq (some r.revision) snapshot.claim_revision
    && opt_eq r.claim_revision snapshot.claim_revision
    && client_opt_eq r.client_order_id snapshot.client_order_id

unfoldable pub dispatch : ℕ → ℕ → ℕ → ℕ → Rec → Rec
dispatch pid start now seconds r = record (set_safe_to_discard false r) {
  producer_pid = some pid;
  producer_start = start;
  submission_state = some producer_claimed;
  claim_until = some (max (or_default r.claim_until 0) (now + seconds));
}

unfoldable pub begin_each : (Rec → Bool) → (Rec → Rec) → List Rec → Change (Option Rec)
begin_each test change [] = (none, none)
begin_each test change (r ∷ rs) =
    let (w, found) = begin_each test change rs in
    if test r
    then (some (change r ∷ rs), some (change r))
    else (w >>= λ done. some (r ∷ done), found)

abbrev pub begin_with : Host → Rec → ℕ → ℕ → List Rec → Option ℕ → Change (Option Rec)
begin_with h snapshot now seconds rs none = (none, none)
begin_with h snapshot now seconds rs (some start) =
    begin_each (exact_claim snapshot) (dispatch h.pid start now seconds) rs

-- The dispatching process must have a readable identity, and the snapshot a client order ID.
unfoldable pub begin_claimed_submit : Host → Rec → ℕ → ℕ → List Rec → Change (Option Rec)
unfolding exact_claim dispatch begin_each
begin_claimed_submit h snapshot now seconds rs = begin_with h snapshot now seconds rs (
    require (ltb 0 now && ltb 0 seconds && is_some snapshot.client_order_id)
    >> identity_of (h.process h.pid))

-- The record that a caller names: by ID, and by client order ID where it gives one.
unfoldable pub names : ℕ → Option ClientId → Rec → Bool
names id client r =
    not (id == 0) && r.id == id && (not (is_some client) || client_opt_eq r.client_order_id client)

abbrev pub ends_deferral : Option Reason → Option Reason → Bool
ends_deferral old new = is_non_failure_deferral old && not (is_non_failure_deferral new)

abbrev pub is_refused : SubmissionState → Bool
is_refused refused = true
is_refused _ = false

abbrev note_state : Option SubmissionState → Option Reason → Rec → Rec
note_state (some state) reason r =
    set_safe_to_discard (is_refused state) (record r { submission_state = some state })
note_state none reason r = if is_non_failure_deferral reason then r else set_safe_to_discard false r

unfoldable pub annotate : Option Reason → ℕ → Option SubmissionState → Rec → Rec
annotate reason now state r =
    let ttl = if ends_deferral r.last_failure_reason reason then some now else r.ttl_started_ts in
    note_state state reason (record r { ttl_started_ts = ttl; last_failure_reason = reason })

abbrev pub valid_state : Option SubmissionState → Bool
valid_state none = true
valid_state (some refused) = true
valid_state (some unknown) = true
valid_state _ = false

-- `none` is the ValueError of a submission state that is not allowed.
unfoldable pub mark_failure :
    ℕ
    → Option Reason
    → ℕ
    → Option ClientId
    → Option SubmissionState
    → List Rec
    → Option (Change Bool)
unfolding update_first names annotate
mark_failure id reason now client state rs =
    if id == 0
    then some (none, false)
    else if valid_state state
    then some (
        changed (
          update_first (λ r. if names id client r then put (annotate reason now state r) else skip)
            rs))
    else none

abbrev accept_visit : Option Rec → Visit
accept_visit none = stay
accept_visit (some r) = put r

unfoldable pub mark_accepted :
    ℕ → Response → ℕ → Option ClientId → Option ℕ → List Rec → Change Bool
unfolding update_first names
mark_accepted id order now client provider rs = changed (
    update_first
      (λ r. if names id client r then accept_visit (apply_accepted order now provider r) else skip)
      rs)
