-- ===== src/Trailing/Types.antt =====
-- The state of a trailing stop and the adapter it runs on (trailing_core.py). Prices, quantities and
-- values are whole numbers, the value in the product of the units of price and quantity; percentages are
-- parts of a million.
use binance.Base.{ℕ, Bool, Option, none, some, List, ◌∷◌}
use binance.Base.Dict.{Dict, insert}
use binance.Base.Stateful.{Stateful, Result, returned, raised}

pub record Rebuy : Type 0 where
  pub qty : ℕ
  pub sell_price : ℕ
  -- The lowest price since the sale, where it is known.
  pub low : Option ℕ

-- `action` of a pending order; any other text is `unknown_action`.
pub data Action : Type 0 where
  sell rebuy unknown_action : Action

-- The persisted intent of an order; `rest` are the keys that only the adapter reads.
pub record Pending : Type 0 where
  pub action : Action
  pub rest : ℕ

-- `state[key]`; a key that is missing or empty is `none`. `warmup_at` is in millionths of a price.
pub record Entry : Type 0 where
  pub peak : ℕ
  pub rebuy : Option Rebuy
  pub warmup_at : Option ℕ
  pub pending : Option Pending

abbrev pub State : Type 0
State = Dict Entry

-- The parameters of `TrailingCore`.
pub record Settings : Type 0 where
  pub enabled : Bool
  pub min_notional : ℕ
  pub rebuy_enabled : Bool
  pub rebuy_bounce : ℕ
  pub rebuy_skip_if_trend_down : Bool
  pub sell_skip_if_trend_up : Bool
  pub sell_fraction : ℕ
  pub item_isolation : Bool
  pub min_profit : ℕ

-- One of `assets()`.
pub record Item : Type 0 where
  pub key : ℕ
  pub asset : ℕ
  pub pair : ℕ
  pub trail : ℕ

pub data Trend : Type 0 where
  up down flat : Trend

-- The terminal `OrderStatus` and the intent of a `TrackedOrderResult`.
pub record Fill : Type 0 where
  pub intent : Pending
  pub filled_qty : ℕ
  pub cost : ℕ

pub data Reconciled : Type 0 where
  terminal : Fill → Reconciled
  not_terminal : Reconciled

-- A call of the adapter that may use the callback `persist`: it stores an intent, or its removal, and goes
-- on by whether the callback returned.
pub data Script (A : Type 0) : Type 0 where
  done : A → Script A
  fail : Script A
  persist : Option Pending → (Bool → Script A) → Script A

pub data Call : Type 0 where
  free_call price_call trend_call policy_call basis_call : Call

pub data Event : Type 0 where
  asked : Call → Event
  -- An order handed to the adapter: the entry at that time, the quantity and the price.
  sell_sent : Item → Entry → ℕ → ℕ → Event
  rebuy_sent : Item → Entry → ℕ → ℕ → Event
  reconciled : Pending → Event
  -- A save of the state, and whether it succeeded.
  saved : State → Bool → Event

-- The newest event stands first.
abbrev pub Log : Type 0
Log = List Event

-- The provider, whose answers depend on all that has happened. `none` is an exception.
pub record Adapter : Type 0 where
  pub begin_tick : Log → Option Bool
  pub assets : Log → Option (List Item)
  pub free_qty : Log → ℕ → Option ℕ
  pub price : Log → ℕ → Option (Option ℕ)
  pub trend : Log → ℕ → Option Trend
  -- A policy that the adapter may lack; within, `none` is an exception or an answer that is no Boolean.
  pub rebuy_configured_for : Option (Log → ℕ → Option Bool)
  pub rebuy_enabled_for : Option (Log → ℕ → Option Bool)
  -- `none` too where the adapter has no such method or its answer is not finite.
  pub cost_basis : Log → ℕ → Option ℕ
  pub execute_sell : Log → Item → ℕ → ℕ → ℕ → Script (Unit {0})
  pub execute_rebuy : Log → Item → ℕ → ℕ → Rebuy → Script (Unit {0})
  pub reconcile_pending : Log → Pending → Script Reconciled
  -- The state file: what is loaded, and whether a save succeeds.
  pub load : Log → Option State
  pub save : Log → State → Bool
  -- Whether a save that does not succeed raises: else it returns False.
  pub save_raises : Log → State → Bool
  -- Whether the report of an exception, of an asset or of the whole tick, returns.
  pub log_item_error : Log → ℕ → Bool
  pub log_tick_error : Log → Bool

-- What the steps of one asset act on: its entry and the log.
pub record World : Type 0 where
  pub entry : Entry
  pub log : Log

abbrev pub Run : Type 0 → Type 0
Run A = Stateful World A

-- One asset in a tick: the state of all assets when its turn comes.
pub record Turn : Type 0 where
  pub item : Item
  pub state : State

abbrev pub or_raise : {A : Type 0} → Option A → World → Result A × World
or_raise none w = (raised, w)
or_raise (some a) w = (returned a, w)

abbrev pub ask : {A : Type 0} → Call → (Log → Option A) → Run A
ask call answer w = or_raise (answer w.log) (record w { log = asked call ∷ w.log })

abbrev pub note : (Entry → Event) → Run (Unit {0})
note event w = (returned tt, record w { log = event w.entry ∷ w.log })

abbrev pub get_entry : Run Entry
get_entry w = (returned w.entry, w)

abbrev pub change : (Entry → Entry) → Run (Unit {0})
change f w = (returned tt, record w { entry = f w.entry })

module _ (a : Adapter) (t : Turn) where
  -- `save(state)`, the entry being part of the state.
  abbrev pub save_state : Run Bool
  save_state w =
      let state = insert t.item.key w.entry t.state in
      let good = a.save w.log state in (returned good, record w { log = saved state good ∷ w.log })

  -- The callback of `_pending_persist`, and whether it returned.
  abbrev pub store : Option Pending → World → Bool × World
  store pending w =
      let entry = record w.entry { pending = pending } in
      let state = insert t.item.key entry t.state in
      let good = a.save w.log state in
      (good, record { entry = entry; log = saved state good ∷ w.log })

  unfoldable pub run : {A : Type 0} → Script A → Run A
  run (done x) w = (returned x, w)
  run fail w = (raised, w)
  run (persist pending next) w = let (good, w') = store pending w in run (next good) w'
