-- ===== src/Lifecycle/Effects.antt =====
-- The intent that a strategy persists, and the effects of `TrackedOrderLifecycle` (order_retry.py):
-- the persistence callback, the audit, and the calls of the venue, in the order in which they happen.
-- The callback, the venue and the clock belong to others: they answer as functions of all that has
-- happened so far. A callback that raises ends the method.
use binance.Base.{ℕ, Bool, true, not, ◌&&◌, Option, none, some, List, ◌∷◌, ltb, ◌==◌, if◌then◌else◌}
use binance.Outbox.Types.{Side, is_known_side, Status, OrderStatus}

-- A venue order ID; `printed` is `str` of a list of IDs.
pub data OrderId : Type 0 where
  plain : ℕ → OrderId
  printed : List ℕ → OrderId

pub data SubmissionState : Type 0 where
  accepted refused unknown : SubmissionState

pub record Intent : Type 0 where
  pub intent_id : ℕ
  pub client_order_id : ℕ
  pub symbol : ℕ
  pub side : Side
  pub requested_qty : ℕ
  pub requested_price : Option ℕ
  pub created_at : ℕ
  pub order_id : Option OrderId
  pub submission_outcome : Option SubmissionState
  pub submission_reason : ℕ
  pub refusal_reason : ℕ
  pub submit_status : Option ℕ
  pub submitted_qty : Option ℕ
  pub submitted_price : Option ℕ
  pub submit_error : ℕ
  pub lookup_misses : ℕ
  pub lookup_error : Option ℕ
  pub status_error : Option ℕ
  pub last_status : Option Status
  pub filled_qty : ℕ
  pub terminal_status : Option (OrderStatus × ℕ)
  pub cancel_attempted_at : Option ℕ
  pub cancel_error : Option ℕ

-- The names of the audit events.
pub data Note : Type 0 where
  submit_requested submit_refused submit_ambiguous submit_accepted : Note
  order_terminal lookup_failed lookup_retryable order_missing order_recovered : Note
  status_failed order_status cancel_requested cancel_ambiguous cancel_accepted : Note
  post_cancel_failed cancel_pending : Note

pub data Event : Type 0 where
  persisted : Option Intent → Event
  audited : Note → Event
  submitted : Event
  looked_up : ℕ → Event
  status_read : OrderId → Event
  canceled : OrderId → Event

-- The newest event stands first.
abbrev pub Log : Type 0
Log = List Event

pub data Result (A : Type 0) : Type 0 where
  returned : A → Result A
  raised : Result A

abbrev pub Run : Type 0 → Type 0
Run A = Log → Result A × Log

infixl 5 ◌>>=◌ ◌>>◌
abbrev pub ◌>>=◌ : {A B : Type 0} → Run A → (A → Run B) → Run B
◌>>=◌ m f l = let (r, l') = m l in elim r [ returned a ↦ f a l' | raised ↦ (raised, l') ]

abbrev pub ◌>>◌ : {A B : Type 0} → Run A → Run B → Run B
m >> k = m >>= λ _. k

abbrev pub pure : {A : Type 0} → A → Run A
pure a l = (returned a, l)

abbrev pub audit : Note → Run (Unit {0})
audit n l = (returned tt, audited n ∷ l)

abbrev pub require : Bool → Run (Unit {0})
require ok l = (if ok then returned tt else raised, l)

-- `persist(pending)`: `durable` says whether the callback returns.
abbrev pub persist : (Option Intent → Log → Bool) → Option Intent → Run (Unit {0})
persist durable p l = if durable p l then (returned tt, persisted p ∷ l) else (raised, l)

-- A call of the venue, and its answer.
abbrev pub call : {A : Type 0} → Event → (Log → A) → Run A
call e answer l = (returned (answer l), e ∷ l)

abbrev valid_price : Option ℕ → Bool
valid_price none = true
valid_price (some p) = ltb 0 p

-- `_validate_identity`
unfoldable pub valid_identity : Intent → Bool
valid_identity i =
    not (i.intent_id == 0)
    && not (i.client_order_id == 0)
    && not (i.symbol == 0)
    && is_known_side i.side
    && ltb 0 i.requested_qty
    && valid_price i.requested_price

pub data Conclusion : Type 0 where
  active terminal absent retryable refused_result : Conclusion

-- `TrackedOrderResult`
pub record Tracked : Type 0 where
  pub outcome : Conclusion
  pub intent : Intent
  pub status : Option OrderStatus
