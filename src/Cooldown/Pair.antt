-- ===== src/Cooldown/Pair.antt =====
-- A pair takes at most one reservation for each of its legs, and its legs do not disturb each other.
use binance.Base.{
  ℕ, ◌+◌, ◌<◌, ◌≡◌, refl, ◌∙◌, ◌≢◌, true, false, not, ◌||◌, ◌⊎◌, some, List, [], ◌∷◌, ◌++◌, arith,
  ◌==◌, lt→ltb, opt_eq, opt_eq_refl,
}
use binance.Base.Dict.{lookup, insert, lookup-insert_self}
use binance.Cooldown.Gate.{Fields, Entry, State, active}
use binance.Cooldown.Group.{
  contains, without, join_group, new_group, reserve_group_member, rollback_group_member,
  leave_group, is_empty,
}

contains-append : (m x : ℕ) (ms : List ℕ) → contains m (ms ++ x ∷ []) ≡ (contains m ms || x == m)
contains-append m x [] = ground arith
contains-append m x (y ∷ ms) = ground (arith, contains-append m x ms)

contains-without_ne : (m x : ℕ) (ms : List ℕ) → m ≢ x → contains m (without x ms) ≡ contains m ms
contains-without_ne m x [] h = refl
contains-without_ne m x (y ∷ ms) h = ground (arith, contains-without_ne m x ms h)

contains-without_self : (m : ℕ) (ms : List ℕ) → contains m (without m ms) ≡ false
contains-without_self m [] = refl
contains-without_self m (y ∷ ms) = ground (arith, contains-without_self m ms)

-- An active entry of a group refuses other groups, and members that it has.
refuses :
    (key ttl group member now owner : ℕ) (meta : Fields) (s : State) (e : Entry)
    → lookup key s ≡ some e
    → now < e.timestamp + ttl
    → (not (opt_eq e.group_id (some group)) || contains member e.members) ≡ true
    → reserve_group_member key ttl group member now owner meta s ≡ (s, false)
unfolding reserve_group_member active
refuses key ttl group member now owner meta s e found young taken =
    rw (found, lt→ltb now (e.timestamp + ttl) young, taken)

-- It admits a member that it lacks.
admits :
    (key ttl group member now owner : ℕ) (meta : Fields) (s : State) (e : Entry)
    → lookup key s ≡ some e
    → now < e.timestamp + ttl
    → e.group_id ≡ some group
    → contains member e.members ≡ false
    → reserve_group_member key ttl group member now owner meta s
      ≡ (insert key (join_group member e) s, true)
unfolding reserve_group_member active
admits key ttl group member now owner meta s e found young same lacks =
    rw (found, lt→ltb now (e.timestamp + ttl) young, same, opt_eq_refl (some group), lacks)

module _ (key group leg leg' now now' ttl' owner owner' : ℕ) (meta meta' : Fields) (s : State)
    (distinct : leg ≢ leg') (early : now' < now + ttl')
    (first : lookup key s ≡ some (new_group group leg now owner meta)) where
  both_legs : Entry
  both_legs = join_group leg' (new_group group leg now owner meta)

  second_leg :
      reserve_group_member key ttl' group leg' now' owner' meta' s ≡ (insert key both_legs s, true)
  unfolding both_legs new_group
  second_leg =
      admits key ttl' group leg' now' owner' meta' s (new_group group leg now owner meta) first
        (unfold new_group in early) refl (unfold new_group in ground arith)

  third_refused :
      (ttl3 group3 leg3 now3 owner3 : ℕ) (meta3 : Fields)
      → now3 < now + ttl3
      → (group3 ≢ group) ⊎ (leg3 ≡ leg) ⊎ (leg3 ≡ leg')
      → reserve_group_member key ttl3 group3 leg3 now3 owner3 meta3 (insert key both_legs s)
        ≡ (insert key both_legs s, false)
  unfolding both_legs join_group new_group
  third_refused ttl3 group3 leg3 now3 owner3 meta3 young taken =
      refuses key ttl3 group3 leg3 now3 owner3 meta3 (insert key both_legs s) both_legs
        (lookup-insert_self key both_legs s) young (ground arith)

-- Once a group has taken a key with one leg, its other leg gets a reservation while the first is young,
-- and then, until the TTL of the call has passed since the first, a call with another group or for
-- either leg again is refused and changes nothing.
pub pair-excludes :
    (key group leg leg' now now' ttl' owner owner' : ℕ) (meta meta' : Fields) (s : State)
    (ttl3 group3 leg3 now3 owner3 : ℕ) (meta3 : Fields)
    → leg ≢ leg'
    → now' < now + ttl'
    → lookup key s ≡ some (new_group group leg now owner meta)
    → now3 < now + ttl3
    → (group3 ≢ group) ⊎ (leg3 ≡ leg) ⊎ (leg3 ≡ leg')
    → let second = reserve_group_member key ttl' group leg' now' owner' meta' s in
      (second.1 ≡ true)
      × (reserve_group_member key ttl3 group3 leg3 now3 owner3 meta3 second.0 ≡ (second.0, false))
pair-excludes key group leg leg' now now' ttl' owner owner' meta meta' s ttl3 group3 leg3 now3
      owner3 meta3 distinct early first young taken =
    rw (second_leg key group leg leg' now now' ttl' owner owner' meta meta' s distinct early first)
      (
        refl,
        third_refused key group leg leg' now now' ttl' owner owner' meta meta' s distinct early
            first ttl3 group3 leg3 now3 owner3 meta3 young taken,
      )

contains-not_empty : (x : ℕ) (ms : List ℕ) → contains x ms ≡ true → is_empty ms ≡ false
contains-not_empty x [] h = cc
contains-not_empty x (y ∷ ms) h = refl

-- Rolling back an uncommitted leg takes that leg out, and leaves every other leg and all commits.
pub rollback_group_member-keeps :
    (key group leg other : ℕ) (s : State) (e : Entry)
    → lookup key s ≡ some e
    → e.group_id ≡ some group
    → contains leg e.committed ≡ false
    → other ≢ leg
    → contains other e.members ≡ true
    → (e' : Entry) × (lookup key (rollback_group_member key group leg s) ≡ some e')
      × (contains other e'.members ≡ true)
      × (contains leg e'.members ≡ false)
      × (e'.committed ≡ e.committed)
unfolding rollback_group_member leave_group
rollback_group_member-keeps key group leg other s e found same open_leg ne there =
    let stays = contains-without_ne other leg e.members ne ∙ there in
    let of_it : opt_eq e.group_id (some group) ≡ true = ground arith in
    (
      leave_group leg e,
      rw (found, of_it, open_leg, contains-not_empty other (without leg e.members) stays)
          (lookup-insert_self key (leave_group leg e) s),
      stays,
      contains-without_self leg e.members,
      refl,
    )
