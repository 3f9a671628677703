-- ===== src/Outbox/Request.antt =====
-- The first half of `enqueue` (order_retry.py): the checks on its arguments before the lock is taken,
-- and the record that is to be stored, with the producer's lease where one is asked for.
use binance.Base.{ℕ, ◌+◌, false, not, ◌&&◌, Option, none, some, [], ◌==◌, if◌then◌else◌}
use binance.Base.Fallible.{◌>>=◌, ◌>>◌, require}
use binance.Outbox.Types.{
  Side, Lifecycle, submit_pending, awaiting_cancel, producer_claimed, Reason, ClientId, IntentId,
  named, outbox, blank, plus, Rec, Config, derive_client_id, is_pending, is_awaiting, is_known_side,
}
use binance.Outbox.Guards.{
  ProcessView, running, gone, unreadable, is_non_failure_deferral, set_safe_to_discard,
}

-- A number argument: `malformed` is what float() or int() refuses, what is not finite, and what is
-- negative.
pub data Num : Type 0 where
  malformed : Num
  num : ℕ → Num

pub record Request : Type 0 where
  pub symbol : ℕ
  pub side : Side
  pub qty : Num
  pub client_order_id : Option ClientId
  pub placement : ℕ
  pub requested_price : Option ℕ
  pub ref_price : Option ℕ
  pub now : Num
  pub created_ts : Option Num
  pub attempts : Num
  pub last_attempt_ts : Num
  pub failure_reason : Option Reason
  pub provider_name : Option ℕ
  pub intent_id : ℕ
  pub kind : Option ℕ
  pub lifecycle : Lifecycle
  pub replaces_order_id : ℕ
  pub replaces_original_qty : Num
  pub producer_lease : Option Num

-- What the process itself supplies: two `uuid4().hex`, its PID and the process table.
pub record Host : Type 0 where
  pub fresh_id : ℕ
  pub fresh_token : ℕ
  pub pid : ℕ
  pub process : ℕ → ProcessView

pub data Enqueued : Type 0 where
  refused_enqueue : Enqueued
  stored : ℕ → Enqueued
  leased : Rec → Enqueued

abbrev pub finite : Num → Option ℕ
finite malformed = none
finite (num n) = some n

abbrev pub positive_num : Num → Option ℕ
positive_num malformed = none
positive_num (num n) = if n == 0 then none else some n

-- `_process_start_identity(os.getpid())`
abbrev pub identity_of : ProcessView → Option ℕ
identity_of (running start) = some start
identity_of gone = none
identity_of unreadable = none

-- The replaced quantity of a replacement; any other request keeps none.
abbrev check_replacement : Lifecycle → ℕ → Num → Option (Option ℕ)
check_replacement awaiting_cancel order_id qty = do
  require (not (order_id == 0))
  original ← positive_num qty
  some (some original)
check_replacement submit_pending order_id qty = some none
check_replacement _ order_id qty = none

-- The lease, with the producer's start identity.
abbrev check_lease : Host → Lifecycle → Option Num → Option (Option (ℕ × ℕ))
check_lease h lifecycle none = some none
check_lease h lifecycle (some lease) = do
  seconds ← positive_num lease
  require (is_pending lifecycle)
  start ← identity_of (h.process h.pid)
  some (some (seconds, start))

abbrev created_or : Option Num → ℕ → Option ℕ
created_or none now = some now
created_or (some created) now = positive_num created

abbrev pub client_or : Option ClientId → ClientId → Option ClientId
client_or none d = some d
client_or (some c) d = some c

abbrev pub intent_or : ℕ → IntentId → IntentId
intent_or intent d = if intent == 0 then d else named intent

new_record : Host → Request → ℕ → ℕ → ℕ → ℕ → Option ℕ → Rec
new_record h q qty created attempts last_attempt replaced = record {
  id = h.fresh_id;
  intent_id = intent_or q.intent_id (outbox h.fresh_id);
  provider_name = q.provider_name;
  symbol = q.symbol;
  side = q.side;
  kind = q.kind;
  qty = qty;
  requested_qty_total = some qty;
  delivered_qty = 0;
  client_order_id = client_or q.client_order_id (derive_client_id h.fresh_id 0);
  placement = q.placement;
  requested_price = q.requested_price;
  ref_price = q.ref_price;
  created_ts = created;
  attempts = attempts;
  last_attempt_ts = last_attempt;
  last_failure_reason = q.failure_reason;
  ttl_started_ts = some created;
  revision = 0;
  lifecycle = q.lifecycle;
  replaces_order_id = if is_awaiting q.lifecycle then q.replaces_order_id else 0;
  replaces_original_qty = replaced;
  safe_to_discard = false;
  claim_token = none;
  claim_until = none;
  claim_revision = none;
  submission_state = none;
  producer_pid = none;
  producer_start = 0;
  order_id = 0;
  accepted_ts = none;
  submit_status = none;
  last_status_ts = 0;
  last_status = none;
  venue_status = blank;
  status_error = none;
  filled_qty = 0;
  filled_cost = 0;
  filled_fee = plus 0;
  order_history = [];
}

lease_record : Host → ℕ → Option (ℕ × ℕ) → Rec → Rec
lease_record h now none r = r
lease_record h now (some (lease, start)) r = record r {
  claim_token = some h.fresh_token;
  claim_until = some (now + lease);
  claim_revision = some r.revision;
  submission_state = some producer_claimed;
  producer_pid = some h.pid;
  producer_start = start;
}

-- The checks before the lock is taken: the time of the call and the record to store.
unfoldable pub prepare : Config → Host → Request → Option (ℕ × Rec)
unfolding new_record lease_record
prepare c h q = do
  require c.enabled
  replaced ← check_replacement q.lifecycle q.replaces_order_id q.replaces_original_qty
  lease ← check_lease h q.lifecycle q.producer_lease
  qty ← positive_num q.qty
  now ← positive_num q.now
  require (not (q.symbol == 0) && is_known_side q.side)
  created ← created_or q.created_ts now
  attempts ← finite q.attempts
  last_attempt ← finite q.last_attempt_ts
  let r = new_record h q qty created attempts last_attempt replaced
  let eligible = is_pending r.lifecycle && is_non_failure_deferral r.last_failure_reason
  some (now, lease_record h now lease (set_safe_to_discard eligible r))
