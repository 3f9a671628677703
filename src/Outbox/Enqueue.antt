-- ===== src/Outbox/Enqueue.antt =====
-- The second half of `enqueue` (order_retry.py), under the lock: the idempotent replacement, the
-- consolidation of deferred streams, the optional deduplication, then the bound on the queue.
-- `enqueue_claimed` asks for a producer's lease.
use binance.Base.{
  ℕ, ◌+◌, false, not, ◌&&◌, Bool, Option, none, some, List, [], ◌∷◌, ◌++◌, max, min, ltb, ◌==◌,
  is_some, if◌then◌else◌, keep_if,
}
use binance.Base.Fallible.{◌>>=◌}
use binance.Outbox.Types.{
  Rec, Config, submit_pending, derive_client_id, side_eq, is_pending, is_awaiting,
}
use binance.Outbox.Guards.{
  is_non_failure_deferral, is_trend_deferred, same_deferred_stream, set_safe_to_discard,
  safe_to_evict, text,
}
use binance.Outbox.File.{Change, Line, Answer, answer, transact}
use binance.Outbox.Request.{
  Num, malformed, num, Request, Host, Enqueued, refused_enqueue, stored, leased, client_or,
  intent_or, prepare,
}
use binance.Outbox.Capacity.{make_room}

-- A replacement that waits for the same venue order already.
unfoldable pub same_replacement : Rec → Rec → Bool
same_replacement new r =
    is_awaiting r.lifecycle
    && text r.provider_name == text new.provider_name
    && r.symbol == new.symbol
    && side_eq r.side new.side
    && r.replaces_order_id == new.replaces_order_id

unfoldable pub existing_replacement : Rec → List Rec → Option ℕ
unfolding same_replacement
existing_replacement new [] = none
existing_replacement new (r ∷ rs) =
    if is_awaiting new.lifecycle && same_replacement new r
    then some r.id
    else existing_replacement new rs

-- The deferred records that the new deferral replaces are left out.
unfoldable pub drop_superseded : Request → Rec → List Rec → List Rec
drop_superseded q new rs =
    if is_pending new.lifecycle && is_trend_deferred q.failure_reason
    then keep_if (λ r. not (safe_to_evict r && same_deferred_stream r new)) rs
    else rs

unfoldable pub dedup_target : Rec → Rec → Bool
dedup_target new r =
    safe_to_evict r && r.symbol == new.symbol && side_eq r.side new.side && is_pending r.lifecycle

-- The record of the same symbol and side takes the new request's values, under a new revision.
unfoldable pub refresh : Request → ℕ → Rec → Rec → Rec
refresh q now new r =
    let revision = r.revision + 1 in
    let ttl =
      if is_non_failure_deferral r.last_failure_reason
        && not (is_non_failure_deferral q.failure_reason)
      then some now
      else r.ttl_started_ts in
    let updated = record r {
      requested_price = q.requested_price;
      ref_price = q.ref_price;
      qty = new.qty;
      requested_qty_total = some new.qty;
      client_order_id = client_or q.client_order_id (derive_client_id r.id revision);
      placement = q.placement;
      created_ts = min r.created_ts new.created_ts;
      attempts = max r.attempts new.attempts;
      last_attempt_ts = max r.last_attempt_ts new.last_attempt_ts;
      ttl_started_ts = ttl;
      last_failure_reason = q.failure_reason;
      provider_name = q.provider_name;
      intent_id = intent_or q.intent_id r.intent_id;
      kind = q.kind;
      lifecycle = submit_pending;
      order_id = 0;
    } in
    record (set_safe_to_discard (is_non_failure_deferral q.failure_reason) updated) {
      revision = revision;
    }

unfoldable pub dedup : Request → ℕ → Rec → List Rec → Option (List Rec × ℕ)
unfolding dedup_target
dedup q now new [] = none
dedup q now new (r ∷ rs) =
    let rest = dedup q now new rs >>= λ (done, id). some (r ∷ done, id) in
    if dedup_target new r then some (refresh q now new r ∷ rs, r.id) else rest

abbrev pub after_store : Request → Rec → Enqueued
after_store q new = if is_some q.producer_lease then leased new else stored new.id

abbrev store_in : Request → Rec → Option (List Rec) → Change Enqueued
store_in q new none = (none, refused_enqueue)
store_in q new (some rs) = (some (rs ++ new ∷ []), after_store q new)

abbrev pub dedup_allowed : Config → Request → Rec → Bool
dedup_allowed c q new = c.dedup && is_pending new.lifecycle && not (is_some q.producer_lease)

abbrev dedup_or_store : Config → Request → Rec → List Rec → Option (List Rec × ℕ) → Change Enqueued
dedup_or_store c q new rs (some (done, id)) = (some done, stored id)
dedup_or_store c q new rs none = store_in q new (make_room c.max_queue rs)

abbrev store_fresh : Config → Request → ℕ → Rec → List Rec → Change Enqueued
store_fresh c q now new rs =
    let found = dedup q now new rs in
    dedup_or_store c q new rs (if dedup_allowed c q new then found else none)

abbrev unless_waiting : Config → Request → ℕ → Rec → List Rec → Option ℕ → Change Enqueued
unless_waiting c q now new rs (some id) = (none, stored id)
unless_waiting c q now new rs none = store_fresh c q now new (drop_superseded q new rs)

-- The body of the `with FileLock` block.
unfoldable pub enqueue_on : Config → Request → ℕ → Rec → List Rec → Change Enqueued
enqueue_on c q now new rs = unless_waiting c q now new rs (existing_replacement new rs)

abbrev enqueue_prepared :
    Config → Request → List Line → Option (ℕ × Rec) → Answer Enqueued × List Line
enqueue_prepared c q ls none = (answer refused_enqueue, ls)
enqueue_prepared c q ls (some (now, new)) = transact false (enqueue_on c q now new) ls

unfoldable pub enqueue : Config → Host → Request → List Line → Answer Enqueued × List Line
enqueue c h q ls = enqueue_prepared c q ls (prepare c h q)

abbrev lease_or : Config → Option Num → Num
lease_or c none = num (c.interval + c.claim_lease)
lease_or c (some lease) = lease

abbrev enqueue_leased : Config → Host → Request → Num → List Line → Answer Enqueued × List Line
enqueue_leased c h q malformed ls = (answer refused_enqueue, ls)
enqueue_leased c h q (num lease) ls =
    if ltb c.interval lease
    then enqueue c h (record q { lifecycle = submit_pending; producer_lease = some (num lease) }) ls
    else (answer refused_enqueue, ls)

unfoldable pub enqueue_claimed :
    Config → Host → Request → Option Num → List Line → Answer Enqueued × List Line
enqueue_claimed c h q lease ls = enqueue_leased c h q (lease_or c lease) ls
