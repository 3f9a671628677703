-- ===== src/Cooldown/Group.antt =====
-- lock/cooldown.py: reservations of the members of a group, one leg each of a BUY and SELL pair.
use binance.Base.{
  ℕ, Bool, true, false, not, ◌||◌, Option, none, some, List, [], ◌∷◌, ◌++◌, ◌==◌, opt_eq,
  if◌then◌else◌, keep_if, any,
}
use binance.Base.Dict.{lookup, insert, erase}
use binance.Cooldown.Gate.{Fields, Entry, State, active}

-- `member in members`
abbrev pub contains : ℕ → List ℕ → Bool
contains m ms = any (λ x. x == m) ms

-- `pending.remove(member)`: the first occurrence.
unfoldable pub remove_first : ℕ → List ℕ → List ℕ
remove_first m [] = []
remove_first m (x ∷ xs) = if x == m then xs else x ∷ remove_first m xs

-- `[m for m in members if m != member]`
abbrev pub without : ℕ → List ℕ → List ℕ
without m ms = keep_if (λ x. not (x == m)) ms

unfoldable pub join_group : ℕ → Entry → Entry
join_group member e = record e {
  members = e.members ++ member ∷ [];
  pending = e.pending ++ member ∷ [];
}

unfoldable pub new_group : ℕ → ℕ → ℕ → ℕ → Fields → Entry
new_group group member now owner meta = record {
  timestamp = now;
  owner = owner;
  group_id = some group;
  members = member ∷ [];
  pending = member ∷ [];
  committed = [];
  results = [];
  fields = meta;
}

abbrev pub reserve_active : ℕ → ℕ → ℕ → Entry → State → State × Bool
reserve_active key group member e s =
    if not (opt_eq e.group_id (some group)) || contains member e.members
    then (s, false)
    else (insert key (join_group member e) s, true)

abbrev pub reserve_member : ℕ → ℕ → ℕ → ℕ → ℕ → ℕ → Fields → State → Option Entry → State × Bool
reserve_member key ttl group member now owner meta s none =
    (insert key (new_group group member now owner meta) s, true)
reserve_member key ttl group member now owner meta s (some e) =
    if active now ttl (some e)
    then reserve_active key group member e s
    else (insert key (new_group group member now owner meta) s, true)

unfoldable pub reserve_group_member : ℕ → ℕ → ℕ → ℕ → ℕ → ℕ → Fields → State → State × Bool
reserve_group_member key ttl group member now owner meta s =
    reserve_member key ttl group member now owner meta s (lookup key s)

-- The entry of the key, if it is of the group.
abbrev pub of_group : ℕ → Option Entry → Option Entry
of_group group none = none
of_group group (some e) = if opt_eq e.group_id (some group) then some e else none

-- The key `side` and the value `PAIR` of the entry's extra fields.
abbrev pub side_key : ℕ
side_key = 1

abbrev pub pair_word : ℕ
pair_word = 3

unfoldable pub commit_entry : ℕ → Fields → Entry → Entry
commit_entry member fields e = record e {
  pending = remove_first member e.pending;
  committed = if contains member e.committed then e.committed else e.committed ++ member ∷ [];
  results = insert member fields e.results;
  fields = insert side_key pair_word e.fields;
}

abbrev commit_found : ℕ → ℕ → Fields → State → Option Entry → State
commit_found key member fields s none = s
commit_found key member fields s (some e) = insert key (commit_entry member fields e) s

unfoldable pub commit_group_member : ℕ → ℕ → ℕ → Fields → State → State
commit_group_member key group member fields s =
    commit_found key member fields s (of_group group (lookup key s))

abbrev pub is_empty : List ℕ → Bool
is_empty [] = true
is_empty (x ∷ xs) = false

unfoldable pub leave_group : ℕ → Entry → Entry
leave_group member e = record e {
  members = without member e.members;
  pending = without member e.pending;
}

abbrev pub rollback_found : ℕ → ℕ → State → Option Entry → State
rollback_found key member s none = s
rollback_found key member s (some e) =
    if contains member e.committed
    then s
    else if is_empty (without member e.members)
    then erase key s
    else insert key (leave_group member e) s

unfoldable pub rollback_group_member : ℕ → ℕ → ℕ → State → State
rollback_group_member key group member s =
    rollback_found key member s (of_group group (lookup key s))

unfoldable pub release_entry : ℕ → Entry → Entry
release_entry member e = record e {
  members = without member e.members;
  pending = without member e.pending;
  committed = without member e.committed;
  results = erase member e.results;
}

abbrev release_found : ℕ → ℕ → Bool → State → Option Entry → State × Bool
release_found key member keep_group s none = (s, false)
release_found key member keep_group s (some e) =
    if keep_group || not (is_empty (without member e.members))
    then (insert key (release_entry member e) s, true)
    else (erase key s, true)

unfoldable pub release_group_member : ℕ → ℕ → ℕ → Bool → State → State × Bool
release_group_member key group member keep_group s =
    release_found key member keep_group s (of_group group (lookup key s))

-- As `Body`, with the fields of the leg.
abbrev pub LegBody : Type 0
LegBody = State → State × Option Fields

abbrev close_group_slot : ℕ → ℕ → ℕ → State × Option Fields → State
close_group_slot key group member (s, none) = rollback_group_member key group member s
close_group_slot key group member (s, some fields) = commit_group_member key group member fields s

unfoldable pub group_slot : ℕ → ℕ → ℕ → ℕ → ℕ → ℕ → Fields → LegBody → State → State × Bool
group_slot key ttl group member now owner meta body s =
    let (s', allowed) = reserve_group_member key ttl group member now owner meta s in
    if allowed then (close_group_slot key group member (body s'), true) else (s', false)
