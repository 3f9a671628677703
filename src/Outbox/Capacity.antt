-- ===== src/Outbox/Capacity.antt =====
-- The bound on the queue in `enqueue` (order_retry.py): the oldest records that may be evicted make
-- room for the new one, deferred ones before all others.
use binance.Base.{
  ℕ, zero, suc, ◌+◌, ◌-◌, Bool, not, ◌&&◌, Option, none, some, List, [], ◌∷◌, map, ltb, leb, ◌==◌,
  if◌then◌else◌, length, keep_if, any,
}
use binance.Outbox.Types.{Rec, is_pending}
use binance.Outbox.Guards.{is_trend_deferred, safe_to_evict}

-- A record with its place in the queue: the source goes by the object's identity.
abbrev pub Placed : Type 0
Placed = ℕ × Rec

unfoldable pub enumerate : ℕ → List Rec → List Placed
enumerate n [] = []
enumerate n (r ∷ rs) = (n, r) ∷ enumerate (suc n) rs

abbrev pub evictable : Placed → Bool
evictable (i, r) = is_pending r.lifecycle && safe_to_evict r

abbrev pub deferred : Placed → Bool
deferred (i, r) = is_trend_deferred r.last_failure_reason

abbrev pub or_else {ℓ} : {A : Type ℓ} → List A → List A → List A
or_else [] ys = ys
or_else (x ∷ xs) ys = x ∷ xs

-- `deferred or pending`
unfoldable pub candidates : List Placed → List Placed
candidates ps = let pending = keep_if evictable ps in or_else (keep_if deferred pending) pending

-- `sorted(..., key=_created)` is stable: an entry goes before those that are younger.
unfoldable pub insert_by_age : Placed → List Placed → List Placed
insert_by_age p [] = p ∷ []
insert_by_age p (q ∷ qs) =
    if leb p.1.created_ts q.1.created_ts then p ∷ q ∷ qs else q ∷ insert_by_age p qs

unfoldable pub sort_by_age : List Placed → List Placed
unfolding insert_by_age
sort_by_age [] = []
sort_by_age (p ∷ ps) = insert_by_age p (sort_by_age ps)

abbrev pub take {ℓ} : {A : Type ℓ} → ℕ → List A → List A
take zero xs = []
take (suc n) [] = []
take (suc n) (x ∷ xs) = x ∷ take n xs

-- `id(item) in victim_ids`
abbrev pub is_victim : List Placed → Placed → Bool
is_victim vs p = any (λ v. v.0 == p.0) vs

unfoldable pub survivors : List Placed → List Placed → List Rec
survivors vs ps = map (λ p. p.1) (keep_if (λ p. not (is_victim vs p)) ps)

unfoldable pub victims : ℕ → List Placed → List Placed
unfolding candidates sort_by_age
victims n ps = take n (sort_by_age (candidates ps))

-- The queue with room for one more record, or `none` where too few records may be evicted.
unfoldable pub make_room : ℕ → List Rec → Option (List Rec)
unfolding enumerate victims survivors
make_room limit rs =
    let ps = enumerate 0 rs in
    let count = length rs + 1 - limit in
    let vs = victims count ps in
    if not (ltb 0 limit && leb limit (length rs))
    then some rs
    else if ltb (length vs) count
    then none
    else some (survivors vs ps)
