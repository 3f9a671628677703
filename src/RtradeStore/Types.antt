-- ===== src/RtradeStore/Types.antt =====
-- The records of the store of rounds (rtrade_pair_store.py). A text is a number, and 0 where it is empty or
-- missing or no text.
use binance.Base.{ℕ, Bool, Option, List}
use binance.Base.Dict.{Dict}
use binance.RtradePair.Types.{Side, OrderState}

-- A number under a key that may be missing, null, or no finite number that is not negative.
pub data Field : Type 0 where
  missing null malformed : Field
  number : ℕ → Field

-- A value of a certain shape under a key.
pub data Shape (A : Type 0) : Type 0 where
  absent misshapen : Shape A
  present : A → Shape A

-- An intent of a round; `rest` are the keys that the store does not look at.
pub record Intent : Type 0 where
  pub side : Option Side
  pub kind : ℕ
  pub client_order_id : ℕ
  pub pair_id : Option ℕ
  pub symbol : Option ℕ
  pub requested_qty : Field
  pub qty : Field
  pub requested_price : Field
  pub price : Field
  pub order_id : Option ℕ
  pub intent_id : Option ℕ
  pub rest : ℕ

pub record StoredTicket : Type 0 where
  pub order_id : ℕ
  pub side : Option Side
  pub price : Field
  pub qty : Field
  pub active : Shape Bool
  pub pair_id : Option ℕ

pub record StoredSnapshot : Type 0 where
  pub status : Option OrderState
  pub filled_qty : Field
  pub cost : Field
  pub fee : Field

-- The outer `none` of `pair_id` is a missing key.
pub record Checkpoint : Type 0 where
  pub phase : ℕ
  pub pair_id : Option (Option ℕ)
  pub qty : Field
  pub start_side : Option Side
  pub tickets : Shape (List StoredTicket)
  pub snapshots : Shape (List (ℕ × StoredSnapshot))

-- The `state` of a record.
pub data StateField : Type 0 where
  no_state misshapen_state : StateField
  checkpoint_of : Checkpoint → StateField

-- The intents stand under the text of their kind and side.
pub record PairRecord : Type 0 where
  pub symbol : ℕ
  pub pair_id : ℕ
  pub start_side : Option Side
  pub qty : Field
  pub phase : ℕ
  pub terminal : Bool
  pub intents : Dict Intent
  pub state : StateField
  pub created_ts : Field
  pub updated_ts : Field

abbrev pub Pairs : Type 0
Pairs = Dict PairRecord

-- The file: `unreadable` is no JSON, not version 1, or a record with a key missing or a flag, a list or an
-- object of another shape.
pub data File : Type 0 where
  no_file unreadable : File
  stored : Pairs → File
