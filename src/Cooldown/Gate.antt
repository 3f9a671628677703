-- ===== src/Cooldown/Gate.antt =====
-- lock/cooldown.py: the state file, exclusive reservations, and the slot around an operation. Keys,
-- fields and the identity of the reserving thread are numbers. Every operation holds the file lock
-- while it reads and writes, so it is one step on the state.
use binance.Base.{
  ℕ, ◌+◌, ◌-◌, Bool, true, false, Option, none, some, List, [], ◌∷◌, ltb, ◌==◌, if◌then◌else◌,
}
use binance.Base.Dict.{Dict, lookup, insert, erase}

-- The extra fields of an entry, or the fields that a commit adds.
abbrev pub Fields : Type 0
Fields = Dict ℕ

pub record Entry : Type 0 where
  pub timestamp : ℕ
  pub owner : ℕ
  pub group_id : Option ℕ
  pub members : List ℕ
  pub pending : List ℕ
  pub committed : List ℕ
  pub results : Dict Fields
  pub fields : Fields

abbrev pub State : Type 0
State = Dict Entry

-- `_read`: a file that cannot be read or decoded counts as empty.
unfoldable pub read : Option State → State
read none = []
read (some s) = s

-- `d.update(fields)`
unfoldable pub merge : {V : Type 0} → Dict V → Dict V → Dict V
merge d [] = d
merge d ((k, v) ∷ new) = merge (insert k v d) new

-- The reservation is younger than the TTL: `now - timestamp < ttl`.
unfoldable pub active : ℕ → ℕ → Option Entry → Bool
active now ttl none = false
active now ttl (some e) = ltb now (e.timestamp + ttl)

abbrev pub fresh_entry : ℕ → ℕ → Fields → Entry
fresh_entry now owner meta = record {
  timestamp = now;
  owner = owner;
  group_id = none;
  members = [];
  pending = [];
  committed = [];
  results = [];
  fields = meta;
}

-- The new state, and whether the reservation was made.
unfoldable pub reserve : ℕ → ℕ → ℕ → ℕ → Fields → State → State × Bool
reserve key ttl now owner meta s =
    if active now ttl (lookup key s)
    then (s, false)
    else (insert key (fresh_entry now owner meta) s, true)

unfoldable pub release : ℕ → State → State
release key s = erase key s

abbrev pub update_entry : ℕ → Fields → State → Option Entry → State
update_entry key fields s none = s
update_entry key fields s (some e) = insert key (record e { fields = merge e.fields fields }) s

unfoldable pub update : ℕ → Fields → State → State
update key fields s = update_entry key fields s (lookup key s)

abbrev age_of : ℕ → Option Entry → Option ℕ
age_of now none = none
age_of now (some e) = if e.timestamp == 0 then none else some (now - e.timestamp)

-- The clock does not run backwards here: a time before the timestamp gives 0.
unfoldable pub last_age : ℕ → ℕ → State → Option ℕ
last_age key now s = age_of now (lookup key s)

-- What the protected operation does while it holds the slot: the state that others leave behind it,
-- and the fields it commits at its end, or `none` where it fails, raises or forgets to commit.
abbrev pub Body : Type 0
Body = State → State × Option Fields

abbrev pub commit : ℕ → Fields → State → State
commit key [] s = s
commit key (f ∷ fs) s = update key (f ∷ fs) s

abbrev close_slot : ℕ → State × Option Fields → State
close_slot key (s, none) = release key s
close_slot key (s, some fields) = commit key fields s

-- A body that sees `allowed = False` performs nothing and must not commit.
unfoldable pub slot : ℕ → ℕ → ℕ → ℕ → Fields → Body → State → State × Bool
slot key ttl now owner meta body s =
    let (s', allowed) = reserve key ttl now owner meta s in
    if allowed then (close_slot key (body s'), true) else (s', false)
