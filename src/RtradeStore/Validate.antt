-- ===== src/RtradeStore/Validate.antt =====
-- What a store must be like to be read or written (rtrade_pair_store.py).
use binance.Base.{
  ℕ, Bool, true, false, not, ◌&&◌, ◌||◌, Option, none, some, is_some, List, [], ◌∷◌, any, ◌==◌,
  or_default,
}
use binance.Base.Dict.{Dict}
use binance.RtradePair.Types.{Side}
use binance.RtradeStore.Types.{
  Field, missing, null, number, Shape, absent, misshapen, present, Intent, StoredTicket,
  StoredSnapshot, Checkpoint, StateField, no_state, misshapen_state, checkpoint_of, PairRecord,
  Pairs,
}

-- `_finite_positive`
abbrev pub finite_positive : Field → Bool
finite_positive (number n) = not (n == 0)
finite_positive _ = false

-- `d.get(key, d.get(other))`
abbrev pub pick : Field → Field → Field
pick missing other = other
pick given other = given

abbrev pub none_or_positive : Field → Bool
none_or_positive missing = true
none_or_positive null = true
none_or_positive f = finite_positive f

-- A missing number is 0.
abbrev pub not_negative : Field → Bool
not_negative missing = true
not_negative (number n) = true
not_negative _ = false

-- `value in (None, expected)`
abbrev pub none_or : ℕ → Option ℕ → Bool
none_or expected none = true
none_or expected (some value) = value == expected

-- A text that is missing, or not blank.
abbrev pub none_or_text : Option ℕ → Bool
none_or_text none = true
none_or_text (some text) = not (text == 0)

-- The text of a kind and a side, under which an intent is stored.
abbrev pub KeyText : Type 0
KeyText = ℕ → Side → ℕ

abbrev pub valid_key : KeyText → ℕ → ℕ → Option Side → Bool
valid_key text key kind none = false
valid_key text key kind (some side) = not (kind == 0) && (key == text kind side)

-- `_validate_intent`
unfoldable pub valid_intent : KeyText → ℕ → ℕ → ℕ → Intent → Bool
valid_intent text pair_id symbol key i =
    valid_key text key i.kind i.side
    && not (i.client_order_id == 0)
    && none_or pair_id i.pair_id
    && none_or symbol i.symbol
    && finite_positive (pick i.requested_qty i.qty)
    && none_or_positive (pick i.requested_price i.price)
    && none_or_text i.order_id
    && none_or_text i.intent_id

abbrev pub all_intents : KeyText → ℕ → ℕ → Dict Intent → Bool
all_intents text pair_id symbol [] = true
all_intents text pair_id symbol ((key, i) ∷ rest) =
    valid_intent text pair_id symbol key i && all_intents text pair_id symbol rest

abbrev pub no_other_shape : Shape Bool → Bool
no_other_shape misshapen = false
no_other_shape _ = true

abbrev pub valid_ticket : ℕ → StoredTicket → Bool
valid_ticket pair_id t =
    not (t.order_id == 0)
    && is_some t.side
    && finite_positive t.price
    && finite_positive t.qty
    && no_other_shape t.active
    && none_or pair_id t.pair_id

-- The order IDs of the tickets are different.
abbrev pub valid_tickets : ℕ → List StoredTicket → Bool
valid_tickets pair_id [] = true
valid_tickets pair_id (t ∷ ts) =
    valid_ticket pair_id t
    && not (any (λ u. u.order_id == t.order_id) ts)
    && valid_tickets pair_id ts

abbrev pub valid_snapshot : StoredSnapshot → Bool
valid_snapshot s =
    is_some s.status && not_negative s.filled_qty && not_negative s.cost && not_negative s.fee

abbrev pub valid_snapshots : List (ℕ × StoredSnapshot) → Bool
valid_snapshots [] = true
valid_snapshots ((order_id, s) ∷ rest) =
    not (order_id == 0) && valid_snapshot s && valid_snapshots rest

abbrev pub tickets_in : ℕ → Bool → Shape (List StoredTicket) → Bool
tickets_in pair_id required absent = not required
tickets_in pair_id required misshapen = false
tickets_in pair_id required (present ts) = valid_tickets pair_id ts

abbrev pub snapshots_in : Shape (List (ℕ × StoredSnapshot)) → Bool
snapshots_in absent = true
snapshots_in misshapen = false
snapshots_in (present rest) = valid_snapshots rest

-- What an unfinished round needs besides.
abbrev pub adoptable : Checkpoint → Bool
adoptable c = is_some c.pair_id && finite_positive c.qty && is_some c.start_side

unfoldable pub valid_checkpoint : ℕ → ℕ → Bool → Checkpoint → Bool
valid_checkpoint pair_id phase terminal c =
    not (c.phase == 0)
    && (c.phase == phase)
    && none_or pair_id (or_default c.pair_id none)
    && (terminal || adoptable c)
    && tickets_in pair_id (not terminal) c.tickets
    && snapshots_in c.snapshots

abbrev pub valid_state : ℕ → ℕ → Bool → StateField → Bool
valid_state pair_id phase terminal no_state = true
valid_state pair_id phase terminal misshapen_state = false
valid_state pair_id phase terminal (checkpoint_of c) = valid_checkpoint pair_id phase terminal c

unfoldable pub valid_pair : KeyText → ℕ → PairRecord → Bool
valid_pair text pair_id r =
    not (pair_id == 0)
    && (r.pair_id == pair_id)
    && not (r.symbol == 0)
    && is_some r.start_side
    && finite_positive r.qty
    && not (r.phase == 0)
    && valid_state pair_id r.phase r.terminal r.state
    && finite_positive r.created_ts
    && finite_positive r.updated_ts
    && all_intents text pair_id r.symbol r.intents

-- `_validate`
unfoldable pub valid : KeyText → Pairs → Bool
valid text [] = true
valid text ((pair_id, r) ∷ rest) = valid_pair text pair_id r && valid text rest
