-- ===== src/Worker/Effects.antt =====
-- What a pass of the worker (order_retry_worker.py) acts on: the queue, the calls of the market facade in
-- their order, and the statistics that `process_once` returns. The market, the host and the other
-- processes that change the queue between two transactions belong to others: they are parameters.
use binance.Base.{ℕ, Bool, Option, none, some, List, ◌∷◌, ◌==◌, if◌then◌else◌}
pub use binance.Base.Stateful.{Result, returned, raised, ◌>>=◌, ◌>>◌, pure, skip, for_each}
use binance.Base.Stateful.{Stateful}
use binance.Outbox.Types.{Rec, Reason, SubmissionState, ClientId, OrderStatus, Config}
use binance.Outbox.Guards.{text}
use binance.Outbox.File.{Change, after}
use binance.Outbox.Request.{Host, Num}
use binance.Outbox.Response.{Response}
use binance.Outbox.Complete.{Outcome, Details, complete_claim}

-- The tri-state of `_reconcile_client_order`.
pub data Lookup : Type 0 where
  found not_found unavailable : Lookup

pub data Event : Type 0 where
  -- The answer to a lookup by client order ID.
  looked_up : ClientId → Lookup → Event
  status_read : ℕ → Event
  price_read : ℕ → Event
  -- The claimed snapshot, the record as dispatched, the queue after the dispatch, and the price.
  placed : Rec → Rec → List Rec → ℕ → Event

-- The newest event stands first.
abbrev pub Log : Type 0
Log = List Event

pub data LookupAnswer : Type 0 where
  raises nothing malformed : LookupAnswer
  answers : Response → LookupAnswer

-- `none` is an exception, with its text.
pub data StatusAnswer : Type 0 where
  status_raises : ℕ → StatusAnswer
  status_is : OrderStatus → StatusAnswer

-- The reason in `_outcome_context`; a text has its number.
pub data Refusal : Type 0 where
  execution_disabled trading_disabled below_min_notional : Refusal
  filter_refused : ℕ → Refusal
  reason_is : Reason → Refusal

-- What `mkt.place` leaves behind: its answer, which is nothing where it raises, and the outcome context,
-- whose reason and state are absent or a text that is not empty.
pub record Placement : Type 0 where
  pub order : Response
  pub reason : Option Refusal
  pub state : Option SubmissionState

pub record Capabilities : Type 0 where
  pub lookup_by_client_order_id : Bool
  pub not_found_reliable_for : Num

pub record Setting : Type 0 where
  pub config : Config
  pub host : Host
  pub now : ℕ
  pub default_provider : ℕ → Option ℕ
  pub has_lookup : Bool
  pub capabilities : ℕ → Option ℕ → Option Capabilities
  pub lookup : Log → ℕ → ClientId → Option ℕ → LookupAnswer
  pub status : Log → ℕ → ℕ → Option ℕ → StatusAnswer
  pub price : Log → ℕ → Option ℕ
  pub place : Log → Rec → ℕ → Placement
  -- What other processes make of the queue before a transaction.
  pub others : Log → List Rec → List Rec

pub record Stats : Type 0 where
  pub attempted : ℕ
  pub succeeded : ℕ
  pub reconciled : ℕ
  pub observed : ℕ
  pub filled : ℕ
  pub terminal_failed : ℕ
  pub terminal_retried : ℕ
  pub expired : ℕ
  pub skipped_price : ℕ
  pub quarantined : ℕ
  pub remaining : ℕ

pub record World : Type 0 where
  pub queue : List Rec
  pub log : Log
  pub stats : Stats

abbrev pub Run : Type 0 → Type 0
Run A = Stateful World A

abbrev pub tally : (Stats → Stats) → Run (Unit {0})
tally f w = (returned tt, record w { stats = f w.stats })

-- A call of the market that leaves an event, and its answer.
abbrev pub ask : {A : Type 0} → (Log → A) → (A → Event) → Run A
ask answer event w = let a = answer w.log in (returned a, record w { log = event a ∷ w.log })

module _ (s : Setting) where
  -- An operation of the outbox, on the queue as the other processes left it.
  abbrev pub transaction : {A : Type 0} → (List Rec → Change A) → Run A
  transaction op w =
      let rs = s.others w.log w.queue in
      let (c, a) = op rs in (returned a, record w { queue = after rs c })

  abbrev pub commit : {A : Type 0} → World → List Rec → Option (Change A) → Result A × World
  commit w rs none = (raised, record w { queue = rs })
  commit w rs (some (c, a)) = (returned a, record w { queue = after rs c })

  -- The same, where the operation may raise a ValueError.
  abbrev pub guarded : {A : Type 0} → (List Rec → Option (Change A)) → Run A
  guarded op w = let rs = s.others w.log w.queue in commit w rs (op rs)

  abbrev pub complete : Outcome → Details → Rec → Run Bool
  complete o d r = guarded (complete_claim o d s.now r)

  -- `_provider_name`
  unfoldable pub provider_name : Rec → Option ℕ
  provider_name r =
      if text r.provider_name == 0 then s.default_provider r.symbol else r.provider_name
