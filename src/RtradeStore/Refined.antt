-- ===== src/RtradeStore/Refined.antt =====
-- What `persist_intent` makes of the intents of the rounds that are not finished (rtrade_pair_store.py).
use binance.Base.{
  ℕ, ◌≡◌, refl, sym, ap, ◌∙◌, Bool, false, Option, none, some, ◌==◌, if◌then◌else◌, or_default,
  Bool-cases, inl, inr, Option-cases,
}
use binance.Base.Dict.{lookup, insert, erase}
use binance.Base.Stateful.{Result, returned, raised}
use binance.RtradePair.Types.{Side}
use binance.RtradeStore.Types.{
  Field, missing, null, malformed, number, Intent, PairRecord, Pairs, File,
}
use binance.RtradeStore.Validate.{KeyText, pick, valid}
use binance.RtradeStore.Store.{
  Change, refused, same, changed, Intent-discrete, read, prune_terminal, reserved, write, apply,
  mutate, touch, without_intent, canonical, price_of, with_intent, store_intent, priced, sized,
  persisted, persist_intent,
}
use binance.RtradeStore.Unfinished.{
  unfinished-prune_terminal, lookup-unfinished-none, lookup-unfinished-some,
}
use binance.RtradeStore.Intents.{
  intent_at, open_intents, written_at, IsOpen, IsAssigned, IsWritten, Reaches, there-IsAssigned,
  insert-IsAssigned, lookup-insert, lookup-erase,
}

Reaches-mono :
    (P Q : Pairs → Type 0) (pairs : Pairs) (c : Change)
    → ((after : Pairs) → P after → Q after)
    → Reaches P pairs c
    → Reaches Q pairs c
Reaches-mono P Q pairs refused f h = tt
Reaches-mono P Q pairs same f h = f pairs h
Reaches-mono P Q pairs (changed new) f h = f new h

module _ (text : KeyText) (retention reserved_phase : ℕ) (writes : Pairs → Bool)
    (Q : Pairs → Type 0)
    (prunes : (pairs : Pairs) → Q pairs → Q (prune_terminal retention pairs)) where
  abbrev pub IsReached : Result (Unit {0}) × File → Type 0
  IsReached (raised, f) = Unit
  IsReached (returned done, f) = (pairs : Pairs) × (read text f ≡ some pairs) × Q pairs

  pub from_IsReached :
      (o : Result (Unit {0}) × File)
      → IsReached o
      → o.0 ≡ returned tt
      → (pairs : Pairs) × (read text o.1 ≡ some pairs) × Q pairs
  from_IsReached (returned done, f) h e = h
  from_IsReached (raised, f) h e = cc

  write-IsReached :
      (f : File) (new : Pairs)
      → Q new
      → IsReached (write text retention reserved_phase writes f new)
  unfolding read
  write-IsReached f new h = elim (Bool-cases (valid text new)) [
    | inr invalid ↦ rw invalid tt
    | inl ok ↦ elim (Bool-cases (writes new)) [
      | inr failed ↦ rw (ok, failed) tt
      | inl done ↦ rw (ok, done) (new, rw ok refl, h)
    ]
  ]

  apply-IsReached :
      (f : File) (pairs : Pairs) (c : Change)
      → read text f ≡ some pairs
      → Reaches Q pairs c
      → IsReached (apply text retention reserved_phase writes f c)
  unfolding read
  apply-IsReached f pairs refused e h = tt
  apply-IsReached f pairs same e h = (pairs, e, h)
  apply-IsReached f pairs (changed new) e h =
      write-IsReached f (prune_terminal retention new) (prunes new h)

  pub mutate-IsReached :
      (op : Pairs → Change) (f : File) (pairs : Pairs)
      → read text f ≡ some pairs
      → Reaches Q pairs (op pairs)
      → IsReached (mutate text retention reserved_phase writes op f)
  unfolding mutate
  mutate-IsReached op f pairs e h = rw e (apply-IsReached f pairs (op pairs) e h)

module _ (text : KeyText) (retention reserved_phase : ℕ) (writes : Pairs → Bool)
    (now symbol pair_id : ℕ) (start_side side : Side) (kind : ℕ) where
  IsWritten-prune_terminal :
      (qty : Field) (pending : Option Intent) (before after : Pairs)
      → IsWritten text pair_id side kind qty pending before after
      → IsWritten text pair_id side kind qty pending before (prune_terminal retention after)
  IsWritten-prune_terminal qty pending before after (value, e, all) = (
    value,
    e,
    λ q k. ap (λ u. intent_at k (lookup q u)) (unfinished-prune_terminal retention after) ∙ all q k,
  )

  without_intent-Reaches :
      (pairs : Pairs) (found : Option PairRecord)
      → lookup pair_id pairs ≡ found
      → IsOpen found
      → Reaches
          (IsAssigned pair_id (text kind side) none pairs)
          pairs
          (without_intent now pair_id (text kind side) pairs found)
  without_intent-Reaches pairs none e o =
      there-IsAssigned pair_id (text kind side) none pairs
        (ap (intent_at (text kind side)) (lookup-unfinished-none pair_id pairs e))
  without_intent-Reaches pairs (some r) e o =
      elim (Option-cases (lookup (text kind side) r.intents)) [
        | inl nothing ↦
            rw nothing
              (there-IsAssigned pair_id (text kind side) none pairs (at (text kind side) ∙ nothing))
        | inr (i, e2) ↦ rw e2 (
            insert-IsAssigned pair_id (text kind side) none pairs
              (touch now r (erase (text kind side) r.intents)) o
              (λ k.
                lookup-erase k (text kind side) r.intents
                ∙ ap (λ m. if k == text kind side then none else m) (sym (at k))))
      ]
    where
      at : (k : ℕ) → open_intents pairs pair_id k ≡ lookup k r.intents
      at k = ap (intent_at k) (lookup-unfinished-some pair_id pairs r e o)

  stored-IsAssigned :
      (pairs : Pairs) (i : Intent) (r : PairRecord)
      → r.terminal ≡ false
      → ((k : ℕ) → open_intents pairs pair_id k ≡ lookup k r.intents)
      → IsAssigned pair_id
          (text kind side)
          (some i)
          pairs
          (insert pair_id (touch now r (insert (text kind side) i r.intents)) pairs)
  stored-IsAssigned pairs i r o at =
      insert-IsAssigned pair_id (text kind side) (some i) pairs
        (touch now r (insert (text kind side) i r.intents)) o
        (λ k.
          lookup-insert k (text kind side) i r.intents
          ∙ ap (λ m. if k == text kind side then some i else m) (sym (at k)))

  with_intent-Reaches :
      (pairs : Pairs) (i : Intent) (r : PairRecord)
      → r.terminal ≡ false
      → ((k : ℕ) → open_intents pairs pair_id k ≡ lookup k r.intents)
      → (old : Option Intent) → lookup (text kind side) r.intents ≡ old
      → Reaches
          (IsAssigned pair_id (text kind side) (some i) pairs)
          pairs
          (with_intent now pair_id (text kind side) i pairs r old)
  with_intent-Reaches pairs i r o at none e = stored-IsAssigned pairs i r o at
  with_intent-Reaches pairs i r o at (some old) e =
      elim (Intent-discrete old i)
        as (λ x. Reaches (IsAssigned pair_id (text kind side) (some i) pairs) pairs (elim x [
          | yes _ ↦ same
          | no _ ↦
              changed (insert pair_id (touch now r (insert (text kind side) i r.intents)) pairs)
        ])) [
          | yes equal ↦
              there-IsAssigned pair_id (text kind side) (some i) pairs
                (at (text kind side) ∙ e ∙ ap (λ x. some x) equal)
          | no other ↦ stored-IsAssigned pairs i r o at
        ]

  store_intent-Reaches :
      (pairs : Pairs) (i : Intent) (qty : ℕ) (found : Option PairRecord)
      → lookup pair_id pairs ≡ found
      → IsOpen found
      → Reaches (IsAssigned pair_id (text kind side) (some i) pairs) pairs (
          store_intent text retention reserved_phase writes now symbol pair_id
            (text kind side)
            start_side
            qty
            i
            pairs
            found)
  store_intent-Reaches pairs i qty (some r) e o =
      with_intent-Reaches pairs i r o
        (λ k. ap (intent_at k) (lookup-unfinished-some pair_id pairs r e o))
        (lookup (text kind side) r.intents) refl
  store_intent-Reaches pairs i qty none e o = elim (Bool-cases (symbol == 0)) [
    | inl nameless ↦ rw nameless tt
    | inr named ↦ rw named (
        stored-IsAssigned pairs i
          (reserved reserved_phase symbol pair_id start_side (number qty) now) refl
          (λ k. ap (intent_at k) (lookup-unfinished-none pair_id pairs e)))
  ]

  priced-Reaches :
      (pairs : Pairs) (i : Intent) (n : ℕ) (price : Option Field)
      → IsOpen (lookup pair_id pairs)
      → Reaches
          (λ after.
            (value : Option Intent) × (written_at side kind i (number n) price ≡ some value)
            × IsAssigned pair_id (text kind side) value pairs after)
          pairs
          (priced text retention reserved_phase writes now symbol pair_id start_side side kind i
            pairs n price)
  priced-Reaches pairs i n none o = tt
  priced-Reaches pairs i n (some price) o =
      Reaches-mono
        (IsAssigned pair_id (text kind side) (some (canonical side kind n price i)) pairs)
        (λ after.
          (value : Option Intent) × (written_at side kind i (number n) (some price) ≡ some value)
          × IsAssigned pair_id (text kind side) value pairs after)
        pairs _ (λ after all. (some (canonical side kind n price i), refl, all))
        (store_intent-Reaches pairs (canonical side kind n price i) n (lookup pair_id pairs) refl o)

  sized-Reaches :
      (pairs : Pairs) (i : Intent) (qty : Field)
      → IsOpen (lookup pair_id pairs)
      → Reaches
          (λ after.
            (value : Option Intent) × (written_at side kind i qty
                (price_of (pick i.requested_price i.price))
              ≡ some value)
            × IsAssigned pair_id (text kind side) value pairs after)
          pairs
          (sized text retention reserved_phase writes now symbol pair_id start_side side kind i
            pairs qty)
  sized-Reaches pairs i missing o = tt
  sized-Reaches pairs i null o = tt
  sized-Reaches pairs i malformed o = tt
  sized-Reaches pairs i (number n) o =
      priced-Reaches pairs i n (price_of (pick i.requested_price i.price)) o

  persisted-Reaches :
      (qty : Field) (pending : Option Intent) (pairs : Pairs)
      → IsOpen (lookup pair_id pairs)
      → Reaches (IsWritten text pair_id side kind qty pending pairs) pairs (
          persisted text retention reserved_phase writes now symbol pair_id start_side side kind qty
            pending pairs)
  unfolding persisted
  persisted-Reaches qty none pairs o =
      Reaches-mono (IsAssigned pair_id (text kind side) none pairs)
        (IsWritten text pair_id side kind qty none pairs) pairs _ (λ after all. (none, refl, all))
        (without_intent-Reaches pairs (lookup pair_id pairs) refl o)
  persisted-Reaches qty (some i) pairs o =
      sized-Reaches pairs i (pick i.requested_qty (pick i.qty qty)) o

-- A call of `persist_intent` that returns, for a round that is unknown or not finished, leaves a file that can be
-- read; in it the intent of that round, kind and side is the one given, in its stored form, or none where none is
-- given, and every other intent of a round that is not finished is as before.
pub persist_intent-IsRefined :
    (text : KeyText) (retention reserved_phase : ℕ) (writes : Pairs → Bool) (now symbol pair_id : ℕ)
    (start_side : Option Side) (side : Side) (kind : ℕ) (qty : Field) (pending : Option Intent)
    (f : File) (pairs : Pairs)
    → read text f ≡ some pairs
    → IsOpen (lookup pair_id pairs)
    → (persist_intent text retention reserved_phase writes now symbol pair_id start_side side kind
        qty pending f).0
      ≡ returned tt
    → (after : Pairs) × (read text
          (persist_intent text retention reserved_phase writes now symbol pair_id start_side side
            kind qty pending f).1
        ≡ some after)
      × IsWritten text pair_id side kind qty pending pairs after
unfolding persist_intent
persist_intent-IsRefined text retention reserved_phase writes now symbol pair_id start_side side
      kind qty pending f pairs e o done =
    from_IsReached text retention reserved_phase writes
      (IsWritten text pair_id side kind qty pending pairs)
      (IsWritten-prune_terminal text retention reserved_phase writes now symbol pair_id start side
        kind qty pending pairs)
      _
      (mutate-IsReached text retention reserved_phase writes _
        (IsWritten-prune_terminal text retention reserved_phase writes now symbol pair_id start side
          kind qty pending pairs)
        (persisted text retention reserved_phase writes now symbol pair_id start side kind qty
          pending)
        f pairs e
        (persisted-Reaches text retention reserved_phase writes now symbol pair_id start side kind
          qty pending pairs o))
      done
  where
    start : Side
    start = or_default start_side side
