-- ===== src/Outbox/Types.antt =====
-- The records of the durable order outbox (order_retry.py) and the policy it is configured with.
-- A text is only compared, so it stands as a number, and 0 is the empty text. Times are ticks since
-- the epoch and quantities are units of 10^-12, the tolerance of the source: both are whole numbers.
-- A key that may be missing from the JSON object is an `Option`, or 0 where the source reads it
-- through `or 0`, `or ""` or `or None`.
use binance.Base.{
  ℕ, ◌*◌, ◌/◌, Bool, true, false, ◌&&◌, ◌||◌, Option, none, some, List, ltb, leb, ◌==◌,
}

pub data Side : Type 0 where
  buy sell bad_side : Side

pub data Lifecycle : Type 0 where
  awaiting_cancel submit_pending accepted bad_lifecycle : Lifecycle

pub data SubmissionState : Type 0 where
  producer_claimed unknown refused accepted_state : SubmissionState

-- `OrderStatus.status`
pub data Status : Type 0 where
  open_order closed canceled expired : Status

-- `OrderStatus.venue_status`, the native word of the venue; `blank` is the empty text.
pub data VenueStatus : Type 0 where
  blank venue_rejected venue_expired venue_canceled : VenueStatus
  native : ℕ → VenueStatus

-- The values of `last_failure_reason`. `terminal_native` and `terminal_status` are the texts
-- "terminal_<venue status>" and "terminal_<status>".
pub data Reason : Type 0 where
  empty_reason pending_reason ambiguous no_order_id : Reason
  trend_deferred cache_not_fresh cache_changed price_unfavorable : Reason
  terminal_native : VenueStatus → Reason
  terminal_status : Status → Reason
  other_reason : ℕ → Reason

-- A client order ID: the one that the outbox derives, or the caller's own.
pub data ClientId : Type 0 where
  derived : ℕ → ℕ → ClientId
  own : ℕ → ClientId

-- `intent_id`: the caller's, or "outbox-<record id>".
pub data IntentId : Type 0 where
  named outbox : ℕ → IntentId

-- A signed amount; `minus n` is -(n + 1). Fees may be rebates.
pub data Signed : Type 0 where
  plus minus : ℕ → Signed

-- A validated `OrderStatus`: its constructor has rejected what is not finite or is negative.
pub record OrderStatus : Type 0 where
  pub status : Status
  pub filled_qty : ℕ
  pub cost : ℕ
  pub fee : Signed
  pub venue_status : VenueStatus

pub record HistoryRow : Type 0 where
  pub order_id : ℕ
  pub client_order_id : Option ClientId
  pub revision : ℕ
  pub observed_at : ℕ
  pub status : Option OrderStatus

-- One record of the queue. `placement` is the rest of `place_kwargs`.
pub record Rec : Type 0 where
  pub id : ℕ
  pub intent_id : IntentId
  pub provider_name : Option ℕ
  pub symbol : ℕ
  pub side : Side
  pub kind : Option ℕ
  pub qty : ℕ
  pub requested_qty_total : Option ℕ
  pub delivered_qty : ℕ
  pub client_order_id : Option ClientId
  pub placement : ℕ
  pub requested_price : Option ℕ
  pub ref_price : Option ℕ
  pub created_ts : ℕ
  pub attempts : ℕ
  pub last_attempt_ts : ℕ
  pub last_failure_reason : Option Reason
  pub ttl_started_ts : Option ℕ
  pub revision : ℕ
  pub lifecycle : Lifecycle
  pub replaces_order_id : ℕ
  pub replaces_original_qty : Option ℕ
  pub safe_to_discard : Bool
  pub claim_token : Option ℕ
  pub claim_until : Option ℕ
  pub claim_revision : Option ℕ
  pub submission_state : Option SubmissionState
  pub producer_pid : Option ℕ
  pub producer_start : ℕ
  pub order_id : ℕ
  pub accepted_ts : Option ℕ
  pub submit_status : Option ℕ
  pub last_status_ts : ℕ
  pub last_status : Option Status
  pub venue_status : VenueStatus
  pub status_error : Option ℕ
  pub filled_qty : ℕ
  pub filled_cost : ℕ
  pub filled_fee : Signed
  pub order_history : List HistoryRow

-- order_retry_config.env. The price tolerance is in parts of a million.
pub record Config : Type 0 where
  pub enabled : Bool
  pub interval : ℕ
  pub ttl : ℕ
  pub max_attempts : ℕ
  pub price_tol : ℕ
  pub dedup : Bool
  pub max_queue : ℕ
  pub claim_lease : ℕ
  pub not_found_max_age : ℕ

abbrev pub million : ℕ
million = 1_000_000

-- `_validate_retry_config` raises nothing; numbers here are finite and not negative already.
unfoldable pub valid_config : Config → Bool
valid_config c =
    ltb 0 c.interval
    && ltb 0 c.ttl
    && ltb 0 c.claim_lease
    && ltb 0 c.not_found_max_age
    && ltb c.price_tol million

-- `f"OR_{record_id[:24]}_{revision}"`: an ID has 32 hexadecimal digits, the first 24 are kept.
unfoldable pub derive_client_id : ℕ → ℕ → ClientId
derive_client_id id revision = derived (id / 4_294_967_296) revision

-- `max(1e-12, qty * 1e-9)`, against which a remainder is compared.
unfoldable pub negligible : ℕ → ℕ → Bool
negligible remaining qty = leb remaining 1 || leb (remaining * 1_000_000_000) qty

abbrev pub side_eq : Side → Side → Bool
side_eq buy buy = true
side_eq sell sell = true
side_eq bad_side bad_side = true
side_eq _ _ = false

abbrev pub client_eq : ClientId → ClientId → Bool
client_eq (derived a n) (derived b m) = a == b && n == m
client_eq (own a) (own b) = a == b
client_eq _ _ = false

abbrev pub client_opt_eq : Option ClientId → Option ClientId → Bool
client_opt_eq none none = true
client_opt_eq (some a) (some b) = client_eq a b
client_opt_eq _ _ = false

abbrev pub is_pending : Lifecycle → Bool
is_pending submit_pending = true
is_pending _ = false

abbrev pub is_accepted : Lifecycle → Bool
is_accepted accepted = true
is_accepted _ = false

abbrev pub is_awaiting : Lifecycle → Bool
is_awaiting awaiting_cancel = true
is_awaiting _ = false

abbrev pub is_known_side : Side → Bool
is_known_side bad_side = false
is_known_side _ = true

-- `OrderStatus.terminal`
unfoldable pub terminal : OrderStatus → Bool
terminal s = elim s.status [ open_order ↦ false | _ ↦ true ]
