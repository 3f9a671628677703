-- ===== src/Placing/Setting.antt =====
-- The arguments and the surroundings of `Instrument.place` (instrument.py), and the answers of a provider.
use binance.Base.{
  ℕ, Bool, false, not, ◌&&◌, Option, none, some, List, [], ◌∷◌, any, leb, ◌==◌, if◌then◌else◌,
}
use binance.Outbox.Types.{Side, Rec, ClientId, Config}
use binance.Outbox.File.{Line}
use binance.Outbox.Request.{Host}
use binance.Outbox.Response.{Response, body}
use binance.Worker.Effects.{Refusal}
use binance.Cooldown.Gate.{State}
use binance.Placing.Types.{Try}
use binance.Placing.Quantity.{Wanted, Market}

-- The arguments of `place`. `qty` is what stands before the decision; the price constraint is that of a retry:
-- its price and tolerance, or the inner `none` where they are no such numbers. `market` is `force`.
pub record Call : Type 0 where
  pub symbol : ℕ
  pub side : Side
  pub price : ℕ
  pub qty : Wanted
  pub client_order_id : Option ClientId
  pub intent_id : ℕ
  pub kind : Option ℕ
  pub placement : ℕ
  pub caller_owns_retry : Bool
  pub has_permit : Bool
  pub constraint : Option (Option (ℕ × ℕ))
  pub bypass : Bool
  pub bypass_reference : Bool
  pub bypass_quantity : Bool
  pub wait_for_trend : Bool
  pub smart : Bool
  pub market : Bool
  pub pair : ℕ

-- Where the call runs, and the answers to each call that it makes, in their order: a call is made at most once
-- at its place. Each of `enabled` answers `execution_enabled`, and a reference is the last opposite fill.
pub record Setting : Type 0 where
  pub config : Config
  pub host : Host
  pub provider_name : ℕ
  pub is_binance : Bool
  pub guards_internally : Bool
  pub margin : ℕ
  pub most_trades : ℕ
  pub window : ℕ
  pub recent_seconds : ℕ
  pub cooldown_seconds : ℕ
  pub client : ℕ
  pub owner : ℕ
  pub side_text : ℕ
  pub enabled_first : Try Bool
  pub internal_answer : Try Response
  pub prepared : Try Bool
  pub preflight : Try (Unit {0})
  pub adjusted : Try ℕ
  pub trades : Try (List (Option ℕ))
  pub trades_at : ℕ
  pub window_ref : Try (Option ℕ)
  pub first_fill : Try (Option ℕ)
  pub quote : Try (Option ℕ)
  pub quantity : Bool → Market
  pub should_wait : Try Bool
  pub early_fill : Try (Option ℕ)
  pub slot_at : ℕ
  pub enabled_in_slot : Try Bool
  pub enqueued_at : ℕ
  pub permit : Try Bool
  pub validated : Try (Unit {0})
  pub last_quote : Try (Option ℕ)
  pub last_fill : Try (Option ℕ)
  pub enabled_last : Try Bool
  pub begun_at : ℕ
  pub response : Try Response
  pub completed_at : ℕ
  pub ref_quote : Option ℕ
  -- What other processes make of the queue file, before the dispatch and before the completion, and of the
  -- cooldown state while the slot is held.
  pub others_before : List Line → List Line
  pub others_after : List Line → List Line
  pub retries : List (ℕ × (List Line → List Line))
  pub others_in_slot : State → State

-- An order that went to the provider: its price and quantity, its record, and the cooldown state and the queue file
-- of that moment.
pub record Sent : Type 0 where
  pub price : ℕ
  pub qty : Wanted
  pub record_of : Option Rec
  pub cooldown : State
  pub file : List Line

pub data Ending : Type 0 where
  accepted : Response → Ending
  refused_with unknown_with : Refusal → Ending

-- `_accepted_order_payload`; 1 to 5 are the texts of the statuses that no accepted order has. A key that is there
-- holds no null, and only that of `txid` holds a list.
abbrev pub is_dead_status : Option ℕ → Bool
is_dead_status none = false
is_dead_status (some n) = leb 1 n && leb n 5

abbrev pub has_native_id : Option ℕ → Option ℕ → List ℕ → Bool
has_native_id (some n) id txid = not (n == 0)
has_native_id none (some n) txid = not (n == 0)
has_native_id none none txid = any (λ n. not (n == 0)) txid

unfoldable pub accepted_order_payload : Response → Bool
accepted_order_payload (body order_id snake_order_id id txid status) =
    not (is_dead_status status) && has_native_id order_id id txid
accepted_order_payload _ = false

-- `_order_id_from_payload`
abbrev pub first_text : List ℕ → ℕ
first_text [] = 0
first_text (n ∷ ns) = if n == 0 then first_text ns else n

abbrev pub order_id_from_payload : Response → ℕ
order_id_from_payload (body (some n) o i t s) = n
order_id_from_payload (body none o (some n) t s) = n
order_id_from_payload (body none o none t s) = first_text t
order_id_from_payload _ = 0
