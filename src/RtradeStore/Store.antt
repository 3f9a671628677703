-- ===== src/RtradeStore/Store.antt =====
-- The operations of the store (rtrade_pair_store.py).
use binance.Base.{
  ℕ, zero, suc, Bool, false, not, ◌&&◌, ◌||◌, Option, none, some, is_some, List, [], ◌∷◌, any,
  keep_if, leb, ◌==◌, or_default, if◌then◌else◌,
}
use native.Mathlib.Decide.{ℕ_discrete}
use binance.Base.Dict.{Dict, lookup, insert, erase}
use binance.Base.Stateful.{Result, returned, raised}
use binance.RtradePair.Types.{Side}
use binance.RtradeStore.Types.{
  Field, missing, null, malformed, number, Intent, Checkpoint, no_state, checkpoint_of, PairRecord,
  Pairs, File, no_file, unreadable, stored,
}
use binance.RtradeStore.Validate.{KeyText, pick, valid}

pub Intent-discrete : Discrete Intent
Intent-discrete = hlevel ℕ_discrete

-- What an operation makes of the rounds: an exception, `False`, or new rounds to be written.
pub data Change : Type 0 where
  refused same : Change
  changed : Pairs → Change

-- `float(rec.get("updated_ts", 0))`
abbrev pub updated : PairRecord → ℕ
updated r = elim r.updated_ts [ number n ↦ n | _ ↦ 0 ]

abbrev pub finished : Pairs → List PairRecord
finished [] = []
finished ((k, r) ∷ rest) = if r.terminal then r ∷ finished rest else finished rest

-- `sorted(…, reverse=True)`, which keeps the order of equals
abbrev pub newest_first_with : PairRecord → List PairRecord → List PairRecord
newest_first_with r [] = r ∷ []
newest_first_with r (x ∷ xs) =
    if leb (updated x) (updated r) then r ∷ x ∷ xs else x ∷ newest_first_with r xs

abbrev pub newest_first : List PairRecord → List PairRecord
newest_first [] = []
newest_first (r ∷ rs) = newest_first_with r (newest_first rs)

abbrev pub take : {A : Type 0} → ℕ → List A → List A
take zero xs = []
take (suc n) [] = []
take (suc n) (x ∷ xs) = x ∷ take n xs

abbrev pub is_kept : List PairRecord → ℕ × PairRecord → Bool
is_kept keep (k, r) = not r.terminal || any (λ x. x.pair_id == k) keep

-- `_prune_terminal`
unfoldable pub prune_terminal : ℕ → Pairs → Pairs
prune_terminal retention pairs =
    let keep = take retention (newest_first (finished pairs)) in keep_if (is_kept keep) pairs

-- A round that is not known yet, before anything is sent for it.
abbrev pub reserved : ℕ → ℕ → ℕ → Side → Field → ℕ → PairRecord
reserved phase symbol pair_id side qty now = record {
  symbol = symbol;
  pair_id = pair_id;
  start_side = some side;
  qty = qty;
  phase = phase;
  terminal = false;
  intents = [];
  state = no_state;
  created_ts = number now;
  updated_ts = number now;
}

-- `_read`; `none` is an exception.
unfoldable pub read : KeyText → File → Option Pairs
read text no_file = some []
read text unreadable = none
read text (stored pairs) = if valid text pairs then some pairs else none

abbrev pub touch : ℕ → PairRecord → Dict Intent → PairRecord
touch now r intents = record r { intents = intents; updated_ts = number now }

-- An intent as it is stored: side and kind are the caller's, and both spellings of quantity and price agree.
abbrev pub canonical : Side → ℕ → ℕ → Field → Intent → Intent
canonical side kind qty price i = record i {
  side = some side;
  kind = kind;
  requested_qty = number qty;
  requested_price = price;
  qty = number qty;
  price = price;
}

-- `float(price)` unless it is None
abbrev pub price_of : Field → Option Field
price_of missing = some null
price_of null = some null
price_of malformed = none
price_of (number n) = some (number n)

abbrev pub with_intent : ℕ → ℕ → ℕ → Intent → Pairs → PairRecord → Option Intent → Change
with_intent now pair_id key i pairs r none =
    changed (insert pair_id (touch now r (insert key i r.intents)) pairs)
with_intent now pair_id key i pairs r (some old) = elim (Intent-discrete old i) [
  | yes e ↦ same
  | no e ↦ changed (insert pair_id (touch now r (insert key i r.intents)) pairs)
]

abbrev pub with_checkpoint : ℕ → Checkpoint → Bool → PairRecord → PairRecord
with_checkpoint now c terminal r = record r {
  state = checkpoint_of c;
  phase = c.phase;
  terminal = terminal;
  updated_ts = number now;
}

-- Every round must be known; an unknown one raises and nothing is written.
unfoldable pub checkpoint_all : ℕ → List (ℕ × Checkpoint × Bool) → Pairs → Change
checkpoint_all now [] pairs = changed pairs
checkpoint_all now ((pair_id, c, terminal) ∷ rest) pairs = elim (lookup pair_id pairs) [
  | none ↦ refused
  | some r ↦ checkpoint_all now rest (insert pair_id (with_checkpoint now c terminal r) pairs)
]

abbrev pub active_in : ℕ → Pairs → List PairRecord
active_in symbol [] = []
active_in symbol ((k, r) ∷ rest) =
    if (r.symbol == symbol) && not r.terminal
    then r ∷ active_in symbol rest
    else active_in symbol rest

abbrev pub without_intent : ℕ → ℕ → ℕ → Pairs → Option PairRecord → Change
without_intent now pair_id key pairs none = same
without_intent now pair_id key pairs (some r) =
    if is_some (lookup key r.intents)
    then changed (insert pair_id (touch now r (erase key r.intents)) pairs)
    else same

-- The kind and the side of an intent, the text of the phase "reserved", and whether a write succeeds.
module _ (text : KeyText) (retention reserved_phase : ℕ) (writes : Pairs → Bool) where
  abbrev pub write : File → Pairs → Result (Unit {0}) × File
  write f pairs =
      if valid text pairs && writes pairs then (returned tt, stored pairs) else (raised, f)

  abbrev pub apply : File → Change → Result (Unit {0}) × File
  apply f refused = (raised, f)
  apply f same = (returned tt, f)
  apply f (changed pairs) = write f (prune_terminal retention pairs)

  abbrev pub mutate_read : (Pairs → Change) → File → Option Pairs → Result (Unit {0}) × File
  mutate_read op f none = (raised, f)
  mutate_read op f (some pairs) = apply f (op pairs)

  -- `mutate`
  unfoldable pub mutate : (Pairs → Change) → File → Result (Unit {0}) × File
  unfolding prune_terminal
  mutate op f = mutate_read op f (read text f)

  -- `begin`
  unfoldable pub begin : ℕ → ℕ → ℕ → Side → ℕ → File → Result (Unit {0}) × File
  begin now symbol pair_id side qty = mutate (λ pairs.
      changed (insert pair_id (reserved reserved_phase symbol pair_id side (number qty) now) pairs))

  abbrev pub store_intent : ℕ → ℕ → ℕ → ℕ → Side → ℕ → Intent → Pairs → Option PairRecord → Change
  store_intent now symbol pair_id key side qty i pairs (some r) =
      with_intent now pair_id key i pairs r (lookup key r.intents)
  store_intent now symbol pair_id key side qty i pairs none =
      if symbol == 0
      then refused
      else with_intent now pair_id key i pairs
          (reserved reserved_phase symbol pair_id side (number qty) now) none

  abbrev pub priced : ℕ → ℕ → ℕ → Side → Side → ℕ → Intent → Pairs → ℕ → Option Field → Change
  priced now symbol pair_id start_side side kind i pairs qty none = refused
  priced now symbol pair_id start_side side kind i pairs qty (some price) =
      store_intent now symbol pair_id (text kind side) start_side qty
        (canonical side kind qty price i) pairs (lookup pair_id pairs)

  abbrev pub sized : ℕ → ℕ → ℕ → Side → Side → ℕ → Intent → Pairs → Field → Change
  sized now symbol pair_id start_side side kind i pairs (number qty) =
      priced now symbol pair_id start_side side kind i pairs qty
        (price_of (pick i.requested_price i.price))
  sized now symbol pair_id start_side side kind i pairs _ = refused

  -- `intent`, with the keys that the older caller writes; the start side as in `persist_intent`.
  unfoldable pub intent :
      ℕ → ℕ → ℕ → Option Side → Side → Field → ℕ → ℕ → ℕ → File → Result (Unit {0}) × File
  unfolding mutate
  intent now symbol pair_id start_side side price qty client_order_id kind = mutate (λ pairs.
      store_intent now symbol pair_id (text kind side) (or_default start_side side) qty
        (record {
          side = some side;
          kind = kind;
          client_order_id = client_order_id;
          pair_id = none;
          symbol = none;
          requested_qty = missing;
          qty = number qty;
          requested_price = missing;
          price = price;
          order_id = none;
          intent_id = none;
          rest = 0;
        })
        pairs (lookup pair_id pairs))

  unfoldable pub persisted : ℕ → ℕ → ℕ → Side → Side → ℕ → Field → Option Intent → Pairs → Change
  persisted now symbol pair_id start_side side kind qty none pairs =
      without_intent now pair_id (text kind side) pairs (lookup pair_id pairs)
  persisted now symbol pair_id start_side side kind qty (some i) pairs =
      sized now symbol pair_id start_side side kind i pairs (pick i.requested_qty (pick i.qty qty))

  -- `persist_intent`; the start side is the caller's, or the side of the intent.
  unfoldable pub persist_intent :
      ℕ → ℕ → ℕ → Option Side → Side → ℕ → Field → Option Intent → File → Result (Unit {0}) × File
  unfolding persisted mutate
  persist_intent now symbol pair_id start_side side kind qty pending =
      mutate (persisted now symbol pair_id (or_default start_side side) side kind qty pending)

  abbrev pub accept_in : ℕ → ℕ → ℕ → ℕ → Pairs → PairRecord → Option Intent → Change
  accept_in now pair_id key order_id pairs r none = refused
  accept_in now pair_id key order_id pairs r (some i) = changed (
      insert pair_id (touch now r (insert key (record i { order_id = some order_id }) r.intents))
        pairs)

  -- `accepted`
  unfoldable pub accepted : ℕ → ℕ → Side → ℕ → ℕ → File → Result (Unit {0}) × File
  accepted now pair_id side order_id kind = mutate (λ pairs. elim (lookup pair_id pairs) [
    | none ↦ refused
    | some r ↦
        accept_in now pair_id (text kind side) order_id pairs r (lookup (text kind side) r.intents)
  ])

  -- `checkpoint`
  unfoldable pub checkpoint : ℕ → ℕ → Checkpoint → Bool → File → Result (Unit {0}) × File
  unfolding checkpoint_all
  checkpoint now pair_id c terminal = mutate (checkpoint_all now ((pair_id, c, terminal) ∷ []))

  -- `checkpoint_many`
  unfoldable pub checkpoint_many :
      ℕ → List (ℕ × Checkpoint × Bool) → File → Result (Unit {0}) × File
  unfolding checkpoint_all
  checkpoint_many now [] f = (returned tt, f)
  checkpoint_many now (c ∷ cs) f = mutate (checkpoint_all now (c ∷ cs)) f

  -- `active`
  unfoldable pub active : ℕ → File → Option (List PairRecord)
  active symbol f = elim (read text f) [ none ↦ none | some pairs ↦ some (active_in symbol pairs) ]
