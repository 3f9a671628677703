-- ===== src/RtradeStore/Checked.antt =====
-- What the check of the store keeps accepting when a round is put in, taken out or touched
-- (_validate in rtrade_pair_store.py).
use native.Mathlib.Decide.{ℕ_discrete}
use binance.Base.{ℕ, ◌≡◌, refl, subst, arith, Bool, true, some, [], ◌∷◌, keep_if}
use binance.Base.Dict.{Dict, lookup, insert, erase}
use binance.RtradeStore.Types.{number, Intent, PairRecord, Pairs}
use binance.RtradeStore.Validate.{
  KeyText, finite_positive, valid_intent, all_intents, valid_pair, valid,
}
use binance.RtradeStore.Store.{touch}

pub valid-keep_if :
    (text : KeyText) (p : ℕ × PairRecord → Bool) (pairs : Pairs)
    → valid text pairs ≡ true
    → valid text (keep_if p pairs) ≡ true
unfolding valid
valid-keep_if text p [] h = refl
valid-keep_if text p ((k, r) ∷ rest) h = ground (arith, valid-keep_if text p rest)

pub valid-insert :
    (text : KeyText) (p : ℕ) (new : PairRecord) (pairs : Pairs)
    → valid text pairs ≡ true
    → valid_pair text p new ≡ true
    → valid text (insert p new pairs) ≡ true
unfolding valid
valid-insert text p new [] h v = ground arith
valid-insert text p new ((k, r) ∷ rest) h v = ground (arith, valid-insert text p new rest)

pub valid_pair-lookup :
    (text : KeyText) (p : ℕ) (r : PairRecord) (pairs : Pairs)
    → valid text pairs ≡ true
    → lookup p pairs ≡ some r
    → valid_pair text p r ≡ true
unfolding valid
valid_pair-lookup text p r [] h e = ground arith
valid_pair-lookup text p r ((k, s) ∷ rest) h e = elim (ℕ_discrete k p) [
  | yes here ↦
      let found : s ≡ r = ground arith in
      subst (λ x. valid_pair text p x ≡ true) found
        (subst (λ x. valid_pair text x s ≡ true) here (ground arith))
  | no apart ↦ valid_pair-lookup text p r rest (ground arith) (ground arith)
]

pub all_intents-insert :
    (text : KeyText) (p symbol key : ℕ) (i : Intent) (d : Dict Intent)
    → all_intents text p symbol d ≡ true
    → valid_intent text p symbol key i ≡ true
    → all_intents text p symbol (insert key i d) ≡ true
all_intents-insert text p symbol key i [] h v = ground arith
all_intents-insert text p symbol key i ((k, j) ∷ rest) h v =
    ground (arith, all_intents-insert text p symbol key i rest)

pub all_intents-erase :
    (text : KeyText) (p symbol key : ℕ) (d : Dict Intent)
    → all_intents text p symbol d ≡ true
    → all_intents text p symbol (erase key d) ≡ true
all_intents-erase text p symbol key [] h = refl
all_intents-erase text p symbol key ((k, j) ∷ rest) h =
    ground (arith, all_intents-erase text p symbol key rest)

pub all_intents-valid_pair :
    (text : KeyText) (p : ℕ) (r : PairRecord)
    → valid_pair text p r ≡ true
    → all_intents text p r.symbol r.intents ≡ true
unfolding valid_pair
all_intents-valid_pair text p r h = ground arith

pub valid_pair-touch :
    (text : KeyText) (p now : ℕ) (r : PairRecord) (d : Dict Intent)
    → finite_positive (number now) ≡ true
    → valid_pair text p r ≡ true
    → all_intents text p r.symbol d ≡ true
    → valid_pair text p (touch now r d) ≡ true
unfolding valid_pair
valid_pair-touch text p now r d n h a = ground arith
