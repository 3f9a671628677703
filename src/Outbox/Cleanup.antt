-- ===== src/Outbox/Cleanup.antt =====
-- The operations of order_retry.py that take records out of the queue, or out of its way:
-- `consolidate_deferred_streams`, `activate_claimed_replacement`, `discard_expired`, `discard`,
-- `resolve` and `resolve_record`.
use binance.Base.{
  ℕ, ◌-◌, Bool, false, not, ◌&&◌, ◌||◌, Option, none, some, List, [], ◌∷◌, map, ltb, leb, ◌==◌,
  opt_eq, is_some, if◌then◌else◌, length, keep_if, any,
}
use binance.Base.Fallible.{◌>>=◌}
use binance.Outbox.Types.{
  Rec, Config, Side, submit_pending, pending_reason, refused, ClientId, negligible, client_eq,
  side_eq, is_pending, is_awaiting,
}
use binance.Outbox.Guards.{
  is_trend_deferred, same_deferred_stream, set_safe_to_discard, safe_to_evict, valid_record,
}
use binance.Outbox.Due.{is_expired}
use binance.Outbox.File.{Change}
use binance.Outbox.Capacity.{Placed, enumerate, is_victim}
use binance.Outbox.Claim.{names, named_in}

abbrev pub write_unless : List Rec → List Rec → Change (List Rec)
write_unless [] kept = (none, [])
write_unless (r ∷ rs) kept = (some kept, r ∷ rs)

abbrev pub is_deferred : Rec → Bool
is_deferred r = safe_to_evict r && is_trend_deferred r.last_failure_reason

-- The scan from the newest record: `newer` are the deferred records kept so far.
unfoldable pub scan_newest : List Rec → List Placed → List Placed
scan_newest newer [] = []
scan_newest newer ((i, r) ∷ ps) =
    if is_deferred r && any (λ n. same_deferred_stream r n) newer
    then (i, r) ∷ scan_newest newer ps
    else scan_newest (if is_deferred r then r ∷ newer else newer) ps

unfoldable pub insert_newest : Placed → List Placed → List Placed
insert_newest p [] = p ∷ []
insert_newest p (q ∷ qs) =
    if leb q.1.created_ts p.1.created_ts then p ∷ q ∷ qs else q ∷ insert_newest p qs

-- `sorted(..., reverse=True)` is stable too.
unfoldable pub sort_newest : List Placed → List Placed
unfolding insert_newest
sort_newest [] = []
sort_newest (p ∷ ps) = insert_newest p (sort_newest ps)

-- The removed records are those at the places that the scan gives.
unfoldable pub consolidate_deferred_streams : List Rec → Change (List Rec)
unfolding scan_newest sort_newest enumerate
consolidate_deferred_streams rs =
    let ps = enumerate 0 rs in
    let removed = scan_newest [] (sort_newest ps) in
    write_unless (map (λ p. p.1) removed)
      (map (λ p. p.1) (keep_if (λ p. not (is_victim removed p)) ps))

pub data Activation : Type 0 where
  not_activated resolved activated : Activation

unfoldable pub holds_claim : Rec → Rec → Bool
holds_claim claimed r =
    r.id == claimed.id
    && opt_eq r.claim_token claimed.claim_token
    && opt_eq (some r.revision) claimed.claim_revision

-- `qty > current + max(1e-12, current * 1e-9)`
unfoldable pub exceeds : ℕ → ℕ → Bool
exceeds qty current = ltb current qty && not (negligible (qty - current) current)

unfoldable pub activate : ℕ → ℕ → Rec → Rec
activate qty now r =
    record (set_safe_to_discard false (record r {
      qty = qty;
      requested_qty_total = some qty;
      lifecycle = submit_pending;
      last_failure_reason = some pending_reason;
      submission_state = some refused;
    })) { ttl_started_ts = some now; last_attempt_ts = 0 }

unfoldable pub activate_here : ℕ → ℕ → Rec → List Rec → Change Activation
activate_here qty now r rs =
    if not (is_awaiting r.lifecycle) || exceeds qty r.qty
    then (none, not_activated)
    else if negligible qty r.qty
    then (some rs, resolved)
    else (some (activate qty now r ∷ rs), activated)

abbrev pub behind : Rec → Change Activation → Change Activation
behind r (w, a) = (w >>= λ done. some (r ∷ done), a)

-- The quantity is finite and not negative: the source returns None for any other.
unfoldable pub activate_claimed_replacement : Rec → ℕ → ℕ → List Rec → Change Activation
unfolding activate_here
activate_claimed_replacement claimed qty now [] = (none, not_activated)
activate_claimed_replacement claimed qty now (r ∷ rs) =
    let rest = behind r (activate_claimed_replacement claimed qty now rs) in
    if holds_claim claimed r then activate_here qty now r rs else rest

-- The exact revision of a snapshot: ID, revision and client order ID.
abbrev same_key : Option ClientId → Option ClientId → Bool
same_key (some a) (some b) = client_eq a b
same_key _ _ = false

unfoldable pub snapshot_of : Rec → Rec → Bool
snapshot_of r s =
    not (s.id == 0)
    && r.id == s.id
    && r.revision == s.revision
    && same_key r.client_order_id s.client_order_id

unfoldable pub discardable : Config → ℕ → List Rec → Rec → Bool
discardable c now snapshots r = any (snapshot_of r) snapshots && is_expired c now r

-- A snapshot without an ID or a client order ID names no record.
abbrev pub names_record : Rec → Bool
names_record s = not (s.id == 0) && is_some s.client_order_id

abbrev pub drop_expired : Config → List Rec → ℕ → List Rec → Change (List Rec)
drop_expired c snapshots now rs =
    write_unless (keep_if (discardable c now snapshots) rs)
      (keep_if (λ r. not (discardable c now snapshots r)) rs)

-- The queue is read only where a snapshot names a record. `none` is the RetryQueueCorruptionError of the read,
-- which validates every record.
unfoldable pub discard_expired : Config → List Rec → ℕ → List Rec → Option (Change (List Rec))
discard_expired c snapshots now rs =
    if not (any names_record snapshots)
    then some (none, [])
    else if any (λ r. not (valid_record r)) rs
    then none
    else some (drop_expired c snapshots now rs)

unfoldable pub discard : List ℕ → List Rec → Change (List Rec)
discard ids rs = write_unless (keep_if (named_in ids) rs) (keep_if (λ r. not (named_in ids r)) rs)

unfoldable pub resolves : ℕ → Side → Rec → Bool
resolves symbol side r = r.symbol == symbol && side_eq r.side side && is_pending r.lifecycle

abbrev pub write_if_removed : List Rec → List Rec → Change ℕ
write_if_removed [] kept = (none, 0)
write_if_removed (r ∷ rs) kept = (some kept, length (r ∷ rs))

unfoldable pub resolve : ℕ → Side → List Rec → Change ℕ
resolve symbol side rs =
    write_if_removed (keep_if (resolves symbol side) rs)
      (keep_if (λ r. not (resolves symbol side r)) rs)

unfoldable pub unsubmitted : ℕ → Option ClientId → Rec → Bool
unsubmitted id client r = names id client r && is_pending r.lifecycle

abbrev flagged : Change (List Rec) → Change Bool
flagged (w, removed) = (w, is_some w)

unfoldable pub resolve_record : ℕ → Option ClientId → List Rec → Change Bool
resolve_record id client rs = flagged (
    write_unless (keep_if (unsubmitted id client) rs)
      (keep_if (λ r. not (unsubmitted id client r)) rs))
