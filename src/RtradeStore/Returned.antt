-- ===== src/RtradeStore/Returned.antt =====
-- When `persist_intent` returns (rtrade_pair_store.py): what it writes passes the check of the store.
use binance.Base.{
  ℕ, ◌≡◌, refl, subst, arith, Bool, true, false, not, ◌&&◌, Option, none, some, ◌==◌, or_default,
  Bool-cases, inl, inr, Option-cases,
}
use binance.Base.Dict.{lookup, insert, erase}
use binance.Base.Stateful.{returned}
use binance.RtradePair.Types.{Side}
use binance.RtradeStore.Types.{
  Field, missing, null, malformed, number, Intent, PairRecord, Pairs, File, no_file, unreadable,
  stored,
}
use binance.RtradeStore.Validate.{KeyText, pick, finite_positive, valid_intent, valid_pair, valid}
use binance.RtradeStore.Store.{
  Change, refused, same, changed, Intent-discrete, read, prune_terminal, is_kept, take,
  newest_first, finished, reserved, apply, mutate, touch, without_intent, canonical, price_of,
  with_intent, store_intent, priced, sized, persisted, persist_intent,
}
use binance.RtradeStore.Intents.{written, written_at}
use binance.RtradeStore.Checked.{
  valid-keep_if, valid-insert, valid_pair-lookup, all_intents-insert, all_intents-erase,
  all_intents-valid_pair, valid_pair-touch,
}

-- The round may take the intent: the check accepts it for the symbol of the round, or for the symbol of the
-- call, which is then a name, where the round is not known.
abbrev pub Admits : KeyText → ℕ → ℕ → ℕ → ℕ → Intent → Option PairRecord → Type 0
Admits text reserved_phase p symbol key i (some r) = valid_intent text p r.symbol key i ≡ true
Admits text reserved_phase p symbol key i none =
    (not (p == 0)
      && not (symbol == 0)
      && not (reserved_phase == 0)
      && valid_intent text p symbol key i)
    ≡ true

-- What is to be written, as `written` has it, can be written: no intent always can.
abbrev pub Takes : KeyText → ℕ → ℕ → ℕ → ℕ → Option PairRecord → Option (Option Intent) → Type 0
Takes text reserved_phase p symbol key found none = ⊥
Takes text reserved_phase p symbol key found (some none) = Unit
Takes text reserved_phase p symbol key found (some (some i)) =
    Admits text reserved_phase p symbol key i found

module _ (text : KeyText) (retention reserved_phase : ℕ) (writes : Pairs → Bool)
    (up : (pairs : Pairs) → writes pairs ≡ true) where
  -- A change that the check of the store accepts.
  abbrev IsAccepted : Change → Type 0
  IsAccepted refused = ⊥
  IsAccepted same = Unit
  IsAccepted (changed new) = valid text new ≡ true

  valid-prune_terminal :
      (pairs : Pairs) → valid text pairs ≡ true → valid text (prune_terminal retention pairs) ≡ true
  unfolding prune_terminal
  valid-prune_terminal pairs h =
      valid-keep_if text (is_kept (take retention (newest_first (finished pairs)))) pairs h

  apply-IsAccepted :
      (f : File) (c : Change)
      → IsAccepted c
      → (apply text retention reserved_phase writes f c).0 ≡ returned tt
  apply-IsAccepted f refused h = absurd h
  apply-IsAccepted f same h = refl
  apply-IsAccepted f (changed new) h =
      rw (valid-prune_terminal new h, up (prune_terminal retention new)) refl

  mutate-IsAccepted :
      (op : Pairs → Change) (f : File) (pairs : Pairs)
      → read text f ≡ some pairs
      → IsAccepted (op pairs)
      → (mutate text retention reserved_phase writes op f).0 ≡ returned tt
  unfolding mutate
  mutate-IsAccepted op f pairs e h = rw e (apply-IsAccepted f (op pairs) h)

  abbrev AreValid : Option Pairs → Type 0
  AreValid none = Unit
  AreValid (some pairs) = valid text pairs ≡ true

  read-AreValid : (f : File) → AreValid (read text f)
  unfolding read valid
  read-AreValid no_file = refl
  read-AreValid unreadable = tt
  read-AreValid (stored pairs) = elim (Bool-cases (valid text pairs)) [
    | inl ok ↦ rw ok ok
    | inr bad ↦ rw bad tt
  ]

  touch-IsAccepted :
      (now p key : ℕ) (i : Intent) (pairs : Pairs) (r : PairRecord)
      → finite_positive (number now) ≡ true
      → valid text pairs ≡ true
      → valid_pair text p r ≡ true
      → valid_intent text p r.symbol key i ≡ true
      → valid text (insert p (touch now r (insert key i r.intents)) pairs) ≡ true
  touch-IsAccepted now p key i pairs r later ok whole good =
      valid-insert text p (touch now r (insert key i r.intents)) pairs ok (
        valid_pair-touch text p now r (insert key i r.intents) later whole (
          all_intents-insert text p r.symbol key i r.intents (all_intents-valid_pair text p r whole)
            good))

  with_intent-IsAccepted :
      (now p key : ℕ) (i : Intent) (pairs : Pairs) (r : PairRecord)
      → finite_positive (number now) ≡ true
      → valid text pairs ≡ true
      → valid_pair text p r ≡ true
      → valid_intent text p r.symbol key i ≡ true
      → (old : Option Intent) → IsAccepted (with_intent now p key i pairs r old)
  with_intent-IsAccepted now p key i pairs r later ok whole good none =
      touch-IsAccepted now p key i pairs r later ok whole good
  with_intent-IsAccepted now p key i pairs r later ok whole good (some old) =
      elim (Intent-discrete old i)
        as (λ x. IsAccepted (elim x [
          | yes _ ↦ same
          | no _ ↦ changed (insert p (touch now r (insert key i r.intents)) pairs)
        ])) [ yes equal ↦ tt | no other ↦ touch-IsAccepted now p key i pairs r later ok whole good ]

  reserved-valid :
      (now p symbol key n : ℕ) (start : Side) (i : Intent)
      → finite_positive (number now) ≡ true
      → finite_positive (number n) ≡ true
      → Admits text reserved_phase p symbol key i none
      → valid_pair text p (reserved reserved_phase symbol p start (number n) now) ≡ true
  unfolding valid_pair
  reserved-valid now p symbol key n start i later sized good = ground arith

  store_intent-IsAccepted :
      (now symbol p key n : ℕ) (start : Side) (i : Intent) (pairs : Pairs)
      (found : Option PairRecord)
      → finite_positive (number now) ≡ true
      → finite_positive (number n) ≡ true
      → valid text pairs ≡ true
      → lookup p pairs ≡ found
      → Admits text reserved_phase p symbol key i found
      → IsAccepted
          (store_intent text retention reserved_phase writes now symbol p key start n i pairs found)
  store_intent-IsAccepted now symbol p key n start i pairs (some r) later sized ok e good =
      with_intent-IsAccepted now p key i pairs r later ok (valid_pair-lookup text p r pairs ok e)
        good (lookup key r.intents)
  store_intent-IsAccepted now symbol p key n start i pairs none later sized ok e good =
      let named : (symbol == 0) ≡ false = ground arith in
      let fresh : PairRecord = reserved reserved_phase symbol p start (number n) now in
      rw named (
        touch-IsAccepted now p key i pairs fresh later ok
          (reserved-valid now p symbol key n start i later sized good) (ground arith))

  valid_intent-sized :
      (p symbol key kind n : ℕ) (side : Side) (price : Field) (i : Intent)
      (found : Option PairRecord)
      → Admits text reserved_phase p symbol key (canonical side kind n price i) found
      → finite_positive (number n) ≡ true
  unfolding valid_intent
  valid_intent-sized p symbol key kind n side price i none good = ground arith
  valid_intent-sized p symbol key kind n side price i (some r) good = ground arith

  without_intent-IsAccepted :
      (now p key : ℕ) (pairs : Pairs) (found : Option PairRecord)
      → finite_positive (number now) ≡ true
      → valid text pairs ≡ true
      → lookup p pairs ≡ found
      → IsAccepted (without_intent now p key pairs found)
  without_intent-IsAccepted now p key pairs none later ok e = tt
  without_intent-IsAccepted now p key pairs (some r) later ok e =
      elim (Option-cases (lookup key r.intents)) [
        | inl nothing ↦ rw nothing tt
        | inr (i, there) ↦
            let whole : valid_pair text p r ≡ true = valid_pair-lookup text p r pairs ok e in
            rw there (
              valid-insert text p (touch now r (erase key r.intents)) pairs ok (
                valid_pair-touch text p now r (erase key r.intents) later whole (
                  all_intents-erase text p r.symbol key r.intents
                    (all_intents-valid_pair text p r whole))))
      ]

  module _ (now symbol p : ℕ) (start side : Side) (kind : ℕ) (pairs : Pairs)
      (later : finite_positive (number now) ≡ true) (ok : valid text pairs ≡ true) where
    priced-IsAccepted :
        (i : Intent) (n : ℕ) (price : Option Field)
        → Takes text reserved_phase p symbol
            (text kind side)
            (lookup p pairs)
            (written_at side kind i (number n) price)
        → IsAccepted (
            priced text retention reserved_phase writes now symbol p start side kind i pairs n
              price)
    priced-IsAccepted i n none takes = absurd takes
    priced-IsAccepted i n (some price) takes =
        store_intent-IsAccepted now symbol p (text kind side) n start
          (canonical side kind n price i) pairs (lookup p pairs) later
          (valid_intent-sized p symbol (text kind side) kind n side price i (lookup p pairs) takes)
          ok refl takes

    sized-IsAccepted :
        (i : Intent) (qty : Field)
        → Takes text reserved_phase p symbol
            (text kind side)
            (lookup p pairs)
            (written_at side kind i qty (price_of (pick i.requested_price i.price)))
        → IsAccepted
            (sized text retention reserved_phase writes now symbol p start side kind i pairs qty)
    sized-IsAccepted i missing takes = absurd takes
    sized-IsAccepted i null takes = absurd takes
    sized-IsAccepted i malformed takes = absurd takes
    sized-IsAccepted i (number n) takes =
        priced-IsAccepted i n (price_of (pick i.requested_price i.price)) takes

    persisted-IsAccepted :
        (qty : Field) (pending : Option Intent)
        → Takes text reserved_phase p symbol
            (text kind side)
            (lookup p pairs)
            (written side kind qty pending)
        → IsAccepted (
            persisted text retention reserved_phase writes now symbol p start side kind qty pending
              pairs)
    unfolding persisted
    persisted-IsAccepted qty none takes =
        without_intent-IsAccepted now p (text kind side) pairs (lookup p pairs) later ok refl
    persisted-IsAccepted qty (some i) takes =
        sized-IsAccepted i (pick i.requested_qty (pick i.qty qty)) takes

-- Where the file can be read and every write succeeds, a call of `persist_intent` returns if it takes an intent
-- away, or if the check of the store accepts the stored form of the intent for the round, which is known, or
-- unknown and given a symbol.
pub persist_intent-IsReturned :
    (text : KeyText) (retention reserved_phase : ℕ) (writes : Pairs → Bool) (now symbol pair_id : ℕ)
    (start_side : Option Side) (side : Side) (kind : ℕ) (qty : Field) (pending : Option Intent)
    (f : File) (pairs : Pairs)
    → ((written_pairs : Pairs) → writes written_pairs ≡ true)
    → read text f ≡ some pairs
    → finite_positive (number now) ≡ true
    → Takes text reserved_phase pair_id symbol
        (text kind side)
        (lookup pair_id pairs)
        (written side kind qty pending)
    → (persist_intent text retention reserved_phase writes now symbol pair_id start_side side kind
        qty pending f).0
      ≡ returned tt
unfolding persist_intent
persist_intent-IsReturned text retention reserved_phase writes now symbol pair_id start_side side
      kind qty pending f pairs up e later takes =
    mutate-IsAccepted text retention reserved_phase writes up
      (persisted text retention reserved_phase writes now symbol pair_id
        (or_default start_side side) side kind qty pending)
      f pairs e
      (persisted-IsAccepted text retention reserved_phase writes up now symbol pair_id
        (or_default start_side side) side kind pairs later
        (subst (AreValid text retention reserved_phase writes up) e
          (read-AreValid text retention reserved_phase writes up f))
        qty pending takes)
