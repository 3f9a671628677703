-- ===== src/Cooldown/Exclusion.antt =====
-- A reservation shuts out every other until its TTL has passed, a failed operation gives its
-- reservation back, and a successful one keeps it.
use binance.Base.{ℕ, ◌+◌, ◌<◌, ◌≡◌, refl, ◌≢◌, true, false, none, some, [], ◌∷◌, arith}
use binance.Base.Dict.{lookup, erase, lookup-insert_self, lookup-erase_self, lookup-erase_ne}
use binance.Cooldown.Gate.{
  Fields, Entry, State, Body, active, fresh_entry, reserve, release, update, commit, slot, merge,
}
use binance.Cooldown.Group.{reserve_group_member}
use binance.Cooldown.Trade.{exclusive_fields, reserve_trade}

module _ (key ttl now owner : ℕ) (meta : Fields) (s : State) where
  reserve-entry :
      (reserve key ttl now owner meta s).1 ≡ true
      → lookup key (reserve key ttl now owner meta s).0 ≡ some (fresh_entry now owner meta)
  unfolding reserve
  reserve-entry e = ground (arith, lookup-insert_self key (fresh_entry now owner meta) s)

-- An entry that no group owns, and that is still young.
blocks_everyone :
    (key pair now ttl side client owner : ℕ) (s : State) (e : Entry)
    → lookup key s ≡ some e
    → e.group_id ≡ none
    → now < e.timestamp + ttl
    → reserve_trade side key ttl client pair now owner s ≡ (s, false)
unfolding reserve_trade reserve reserve_group_member active
blocks_everyone key pair now ttl side client owner s e found alone young =
    ground (arith, found, alone)

-- After an order without a pair has reserved a symbol, every other reservation of that symbol, with or
-- without a pair and for either side, is refused and changes nothing until its own TTL has passed since.
pub reserve_trade-excludes :
    (symbol side ttl client now owner side' ttl' client' pair' now' owner' : ℕ) (s : State)
    → (reserve_trade side symbol ttl client 0 now owner s).1 ≡ true
    → now' < now + ttl'
    → let s' = (reserve_trade side symbol ttl client 0 now owner s).0 in
      reserve_trade side' symbol ttl' client' pair' now' owner' s' ≡ (s', false)
reserve_trade-excludes symbol side ttl client now owner side' ttl' client' pair' now' owner' s made
      early =
    blocks_everyone symbol pair' now' ttl' side' client' owner'
      (reserve_trade side symbol ttl client 0 now owner s).0
      (fresh_entry now owner (exclusive_fields side symbol client))
      (unfold reserve_trade in
        reserve-entry symbol ttl now owner (exclusive_fields side symbol client) s
          (unfold reserve_trade in made))
      refl early

module _ (key ttl now owner : ℕ) (meta : Fields) (body : Body) (s : State) where
  slot-none :
      (slot key ttl now owner meta body s).1 ≡ true
      → (body (reserve key ttl now owner meta s).0).1 ≡ none
      → (slot key ttl now owner meta body s).0
        ≡ erase key (body (reserve key ttl now owner meta s).0).0
  unfolding slot release
  slot-none made failed = ground arith

  slot-some :
      {fields : Fields}
      → (slot key ttl now owner meta body s).1 ≡ true
      → (body (reserve key ttl now owner meta s).0).1 ≡ some fields
      → (slot key ttl now owner meta body s).0
        ≡ commit key fields (body (reserve key ttl now owner meta s).0).0
  unfolding slot
  slot-some made done = ground arith

  -- A slot whose operation has not committed leaves no reservation of its key, and any other key as
  -- the operation left it.
  pub slot-rollback :
      (j : ℕ)
      → j ≢ key
      → (slot key ttl now owner meta body s).1 ≡ true
      → (body (reserve key ttl now owner meta s).0).1 ≡ none
      → (lookup key (slot key ttl now owner meta body s).0 ≡ none)
        × (lookup j (slot key ttl now owner meta body s).0
            ≡ lookup j (body (reserve key ttl now owner meta s).0).0)
  slot-rollback j other made failed = rw (slot-none made failed) (
    lookup-erase_self key (body (reserve key ttl now owner meta s).0).0,
    lookup-erase_ne j key (body (reserve key ttl now owner meta s).0).0 other,
  )

update-entry :
    (key : ℕ) (fields : Fields) (s : State) {e : Entry}
    → lookup key s ≡ some e
    → lookup key (update key fields s) ≡ some (record e { fields = merge e.fields fields })
unfolding update
update-entry key fields s {e} found =
    rw found (lookup-insert_self key (record e { fields = merge e.fields fields }) s)

-- A commit keeps the age of the entry and its group.
commit-entry :
    (key : ℕ) (fields : Fields) (s : State) {e : Entry}
    → lookup key s ≡ some e
    → (e' : Entry) × (lookup key (commit key fields s) ≡ some e')
      × (e'.timestamp ≡ e.timestamp)
      × (e'.group_id ≡ e.group_id)
commit-entry key [] s {e} found = (e, found, refl, refl)
commit-entry key (f ∷ fs) s {e} found =
    (record e { fields = merge e.fields (f ∷ fs) }, updated, refl, refl)
  where
    updated :
        lookup key (update key (f ∷ fs) s) ≡ some (record e { fields = merge e.fields (f ∷ fs) })
    updated = update-entry key (f ∷ fs) s found

-- Where the operation leaves the reservation in place and commits, every reservation of the symbol is
-- refused, and changes nothing, until its own TTL has passed since the slot was taken.
pub slot-commit_excludes :
    (key ttl now owner : ℕ) (meta : Fields) (body : Body) (s : State)
    (side' ttl' client' pair' now' owner' : ℕ) {fields : Fields}
    → (slot key ttl now owner meta body s).1 ≡ true
    → (body (reserve key ttl now owner meta s).0).1 ≡ some fields
    → lookup key (body (reserve key ttl now owner meta s).0).0 ≡ some (fresh_entry now owner meta)
    → now' < now + ttl'
    → let s' = (slot key ttl now owner meta body s).0 in
      reserve_trade side' key ttl' client' pair' now' owner' s' ≡ (s', false)
slot-commit_excludes key ttl now owner meta body s side' ttl' client' pair' now' owner' {fields}
      made done kept early =
    let (e', found, age, group) =
      commit-entry key fields (body (reserve key ttl now owner meta s).0).0 kept in
    rw (slot-some key ttl now owner meta body s made done) (
      blocks_everyone key pair' now' ttl' side' client' owner'
        (commit key fields (body (reserve key ttl now owner meta s).0).0) e' found group
        (rw age early))
