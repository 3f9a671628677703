-- ===== src/RtradeStore/Intents.antt =====
-- The abstract view of the store (rtrade_pair_store.py): the intents of the rounds that are not finished.
use binance.Base.{
  ℕ, ◌≡◌, sym, ap, ◌∙◌, ◌≢◌, arith, false, ◌&&◌, Option, none, some, ◌==◌, if◌then◌else◌,
}
use native.Mathlib.Decide.{ℕ_discrete}
use binance.Base.Dict.{
  Dict, lookup, insert, erase, lookup-insert_self, lookup-insert_ne, lookup-erase_self,
  lookup-erase_ne,
}
use binance.RtradePair.Types.{Side}
use binance.RtradeStore.Types.{Field, number, Intent, PairRecord, Pairs}
use binance.RtradeStore.Validate.{KeyText, pick}
use binance.RtradeStore.Store.{Change, refused, same, changed, canonical, price_of}
use binance.RtradeStore.Unfinished.{unfinished, lookup-unfinished-some, lookup-unfinished-insert_ne}

-- The abstract store: a round and the text of a kind and a side give an intent.
abbrev pub Intents : Type 0
Intents = ℕ → ℕ → Option Intent

abbrev pub assign : ℕ → ℕ → Option Intent → Intents → Intents
assign p key value m q k = if (q == p) && (k == key) then value else m q k

abbrev pub intent_at : ℕ → Option PairRecord → Option Intent
intent_at k none = none
intent_at k (some r) = lookup k r.intents

abbrev pub open_intents : Pairs → Intents
open_intents pairs q k = intent_at k (lookup q (unfinished pairs))

-- The intent as it has to be found again: side and kind are those of the call, and a quantity is known.
abbrev pub written_at : Side → ℕ → Intent → Field → Option Field → Option (Option Intent)
written_at side kind i (number n) (some price) = some (some (canonical side kind n price i))
written_at side kind i _ _ = none

abbrev pub written : Side → ℕ → Field → Option Intent → Option (Option Intent)
written side kind qty none = some none
written side kind qty (some i) =
    written_at side kind i (pick i.requested_qty (pick i.qty qty))
      (price_of (pick i.requested_price i.price))

-- The round is not stored, or not as a finished one.
abbrev pub IsOpen : Option PairRecord → Type 0
IsOpen none = Unit
IsOpen (some r) = r.terminal ≡ false

abbrev pub IsAssigned : ℕ → ℕ → Option Intent → Pairs → Pairs → Type 0
IsAssigned p key value before after =
    (q k : ℕ) → open_intents after q k ≡ assign p key value (open_intents before) q k

-- What `persist_intent` has to make of the rounds: `value` is found again, the other intents are as before.
abbrev pub IsWritten : KeyText → ℕ → Side → ℕ → Field → Option Intent → Pairs → Pairs → Type 0
IsWritten text p side kind qty pending before after =
    (value : Option Intent) × (written side kind qty pending ≡ some value)
    × IsAssigned p (text kind side) value before after

-- What holds of the rounds after an operation, if it does not raise.
abbrev pub Reaches : (Pairs → Type 0) → Pairs → Change → Type 0
Reaches Q pairs refused = Unit
Reaches Q pairs same = Q pairs
Reaches Q pairs (changed new) = Q new

assign_self :
    (p key : ℕ) (value : Option Intent) (m : Intents) (k : ℕ)
    → assign p key value m p k ≡ (if k == key then value else m p k)
assign_self p key value m k = ground arith

assign_other :
    (p key : ℕ) (value : Option Intent) (m : Intents) (q k : ℕ)
    → q ≢ p
    → assign p key value m q k ≡ m q k
assign_other p key value m q k apart = ground arith

-- Nothing has to be written where the value is there.
pub there-IsAssigned :
    (p key : ℕ) (value : Option Intent) (pairs : Pairs)
    → open_intents pairs p key ≡ value
    → IsAssigned p key value pairs pairs
there-IsAssigned p key value pairs there q k = elim (ℕ_discrete q p) [
  | no apart ↦ sym (assign_other p key value (open_intents pairs) q k apart)
  | yes e ↦ rw e (at_round k ∙ sym (assign_self p key value (open_intents pairs) k))
]
  where
    at_round :
        (k : ℕ) → open_intents pairs p k ≡ (if k == key then value else open_intents pairs p k)
    at_round k = elim (ℕ_discrete k key) [
      | yes e ↦ rw e (there ∙ ground arith)
      | no apart ↦ ground arith
    ]

pub insert-IsAssigned :
    (p key : ℕ) (value : Option Intent) (pairs : Pairs) (new : PairRecord)
    → new.terminal ≡ false
    → ((k : ℕ) → lookup k new.intents ≡ (if k == key then value else open_intents pairs p k))
    → IsAssigned p key value pairs (insert p new pairs)
insert-IsAssigned p key value pairs new o at q k = elim (ℕ_discrete q p) [
  | yes e ↦ rw e (
      ap (intent_at k)
        (lookup-unfinished-some p (insert p new pairs) new (lookup-insert_self p new pairs) o)
      ∙ at k
      ∙ sym (assign_self p key value (open_intents pairs) k))
  | no apart ↦
      ap (intent_at k) (lookup-unfinished-insert_ne q p new pairs apart)
      ∙ sym (assign_other p key value (open_intents pairs) q k apart)
]

pub lookup-insert :
    (k key : ℕ) (i : Intent) (d : Dict Intent)
    → lookup k (insert key i d) ≡ (if k == key then some i else lookup k d)
lookup-insert k key i d = elim (ℕ_discrete k key) [
  | yes e ↦ rw e (lookup-insert_self key i d ∙ ground arith)
  | no apart ↦ lookup-insert_ne k key i d apart ∙ ground arith
]

pub lookup-erase :
    (k key : ℕ) (d : Dict Intent) → lookup k (erase key d) ≡ (if k == key then none else lookup k d)
lookup-erase k key d = elim (ℕ_discrete k key) [
  | yes e ↦ rw e (lookup-erase_self key d ∙ ground arith)
  | no apart ↦ lookup-erase_ne k key d apart ∙ ground arith
]
