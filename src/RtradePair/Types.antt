-- ===== src/RtradePair/Types.antt =====
-- The state of a round of two quotes, its venue and what a step acts on (strategies/rtrade_pair.py).
-- Quantities are numbers of 10^-12, prices whole numbers of a unit, costs in the product of both,
-- fractions parts of a million.
use binance.Base.{ℕ, Bool, true, false, Option, none, some, List, ◌∷◌}
use binance.Base.Dict.{Dict}
use binance.Base.Stateful.{Stateful, Result, returned, raised}

pub data Side : Type 0 where
  buy sell : Side

abbrev pub other_side : Side → Side
other_side buy = sell
other_side sell = buy

abbrev pub same_side : Side → Side → Bool
same_side buy buy = true
same_side sell sell = true
same_side _ _ = false

pub data OrderState : Type 0 where
  open_order closed canceled expired_order : OrderState

abbrev pub is_open : OrderState → Bool
is_open open_order = true
is_open _ = false

-- `OrderTicket`, which its constructor has validated. `is_stop` tells whether the ticket is the object
-- that `stop_ticket` names.
pub record Ticket : Type 0 where
  pub order_id : ℕ
  pub side : Side
  pub price : ℕ
  pub qty : ℕ
  pub active : Bool
  pub revision : ℕ
  pub is_stop : Bool

-- `OrderSnapshot`
pub record Snapshot : Type 0 where
  pub status : OrderState
  pub filled_qty : ℕ
  pub cost : ℕ
  pub fee : ℕ

-- `PairPolicy`; `tick` is the unit that `price_decimals` leaves.
pub record Policy : Type 0 where
  pub adjustment : ℕ
  pub quote_ttl : ℕ
  pub fast_fill : ℕ
  pub min_edge : ℕ
  pub shock_stop : ℕ
  pub hard_stop : ℕ
  pub tick : ℕ

pub data Phase : Type 0 where
  idle quoting startup_recovery exposed closing stopping hard_stop_recovery : Phase
  complete expired failed hard_stopped : Phase

abbrev pub is_terminal : Phase → Bool
is_terminal complete = true
is_terminal expired = true
is_terminal failed = true
is_terminal hard_stopped = true
is_terminal _ = false

-- The phases that no market exit has been answered with a ticket in.
abbrev pub is_early : Phase → Bool
is_early idle = true
is_early quoting = true
is_early startup_recovery = true
is_early exposed = true
is_early closing = true
is_early _ = false

abbrev pub is_startup_recovery : Phase → Bool
is_startup_recovery startup_recovery = true
is_startup_recovery _ = false

pub data StopReason : Type 0 where
  fast_fill_hard_stop inventory_hard_stop : StopReason

-- `reason`. `venue_text` is a text of the venue's own, none of the others, with whether its part before a
-- colon ends in `_recovery_pending`; `place_failed` and `leg_recovery_pending` name a side.
pub data Reason : Type 0 where
  venue_text : ℕ → Bool → Reason
  place_failed leg_recovery_pending : Side → Reason
  stop_reason : StopReason → Reason
  entry_cancel_failed entry_cancel_ambiguous exit_cancel_failed exit_cancel_ambiguous : Reason
  exit_revision_exhausted exit_exposure_changed exit_status_unconfirmed exit_place_failed : Reason
  market_exit_waiting hard_stop_cancel_failed hard_stop_cancel_ambiguous : Reason
  hard_stop_exposure_changed hard_stop_recovery_pending hard_stop_place_failed : Reason
  hard_stop_with_exposure hard_stop_retry_failed hard_stop_missing_order : Reason
  balanced_cancel_pending price_unavailable quote_cancel_pending quote_ttl_passed : Reason

-- `_is_recovery_pending`
abbrev pub is_recovery_pending : Option Reason → Bool
is_recovery_pending (some (venue_text text pending)) = pending
is_recovery_pending (some (leg_recovery_pending side)) = true
is_recovery_pending (some hard_stop_recovery_pending) = true
is_recovery_pending _ = false

pub data FirstFill : Type 0 where
  on_side : Side → FirstFill
  on_both : FirstFill

-- The fields of `PairCoordinator`; `stop_order` is the order ID of `stop_ticket`.
pub record Pair : Type 0 where
  pub qty : ℕ
  pub start_side : Side
  pub pair_id : ℕ
  pub started_at : ℕ
  pub first_fill_at : Option ℕ
  pub first_fill_side : Option FirstFill
  pub shock : Bool
  pub phase : Phase
  pub reason : Option Reason
  pub tickets : List Ticket
  pub snapshots : Dict Snapshot
  pub stop_order : Option ℕ
  pub buy_revision : ℕ
  pub sell_revision : ℕ
  pub hard_stop_revision : ℕ
  pub hard_stop_reason : Option StopReason

-- What `_intent_revision` reads of the kind of a recovered intent.
pub data Kind : Type 0 where
  limit_kind hard_stop_kind : ℕ → Kind
  other_kind : Kind

pub record Recovered : Type 0 where
  pub ticket : Ticket
  pub snapshot : Snapshot
  pub kind : Kind

-- The average entry price as cost and quantity, and the net quantity to be closed by an order on `exit_side`.
pub record Exposure : Type 0 where
  pub exit_side : Side
  pub net : ℕ
  pub cost : ℕ
  pub qty : ℕ

pub data Call : Type 0 where
  price_call preflight_call allowed_call recovery_call : Call
  status_call cancel_call : ℕ → Call

pub data Event : Type 0 where
  round_started : Event
  asked : Call → Event
  -- A limit order of the two that open a round: side, price, quantity.
  quote_sent : Side → ℕ → ℕ → Event
  -- A limit order that closes exposure: side, price, quantity, revision, and what was bought and sold by then.
  exit_sent : Side → ℕ → ℕ → ℕ → ℕ → ℕ → Event
  -- A market order: side, quantity, revision, and what was bought and sold by then.
  market_sent : Side → ℕ → ℕ → ℕ → ℕ → Event
  -- The answer to the market order above: a ticket, or none.
  market_ticketed market_refused : Event

-- The newest event stands first.
abbrev pub Log : Type 0
Log = List Event

-- `PairVenue`, whose answers depend on all that has happened. The outer `none` is an exception.
pub record Venue : Type 0 where
  -- 0 where there is no price.
  pub current_price : Log → Option ℕ
  pub preflight_order : Log → Side → ℕ → Option ℕ → Option ℕ
  pub place_limit : Log → Side → ℕ → ℕ → ℕ → Option ℕ → ℕ → Option (Option Ticket)
  pub place_market_exit : Log → Side → ℕ → StopReason → ℕ → Option ℕ → ℕ → Option (Option Ticket)
  -- The loss is a fraction of two numbers.
  pub market_exit_allowed : Option (Log → Side → ℕ → ℕ → StopReason → Option Bool)
  pub order_status : Log → ℕ → Option Snapshot
  pub cancel : Log → ℕ → Option Bool
  pub last_place_failure_reason : Log → Side → Option (Option (ℕ × Bool))
  pub recovery_blocked : Log → Bool
  pub recover_pair_intents : Option (Log → ℕ → Option (List Recovered))
  pub pair_recovery_blocked : Option (Log → ℕ → Option Bool)

pub record World : Type 0 where
  pub pair : Pair
  pub log : Log

abbrev pub Run : Type 0 → Type 0
Run A = Stateful World A

abbrev pub or_raise : {A : Type 0} → Option A → World → Result A × World
or_raise none w = (raised, w)
or_raise (some a) w = (returned a, w)

abbrev pub ask : {A : Type 0} → Call → (Log → Option A) → Run A
ask call answer w = or_raise (answer w.log) (record w { log = asked call ∷ w.log })

abbrev pub note : (Pair → Event) → Run (Unit {0})
note event w = (returned tt, record w { log = event w.pair ∷ w.log })

abbrev pub look : {A : Type 0} → (Pair → A) → Run A
look f w = (returned (f w.pair), w)

abbrev pub change : (Pair → Pair) → Run (Unit {0})
change f w = (returned tt, record w { pair = f w.pair })

abbrev pub set_reason : Reason → Run (Unit {0})
set_reason r = change (λ p. record p { reason = some r })
