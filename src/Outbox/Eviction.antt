-- ===== src/Outbox/Eviction.antt =====
-- The entries that `make_room` picks: each stands in the queue, none twice, each may be evicted, and
-- leaving them out makes as much room as there are of them.
use binance.Base.{
  ℕ, zero, suc, ◌+◌, ◌≤◌, ◌<◌, ◌≡◌, refl, ap, ◌∙◌, Bool, true, false, not, inl, inr, List, [], ◌∷◌,
  map, arith, leb, length, keep_if, Has, Bool-cases,
}
use binance.Outbox.Types.{Rec}
use binance.Outbox.Capacity.{
  Placed, enumerate, evictable, deferred, or_else, candidates, insert_by_age, sort_by_age, take,
  is_victim, victims,
}

-- No place stands twice.
abbrev pub Distinct : List Placed → Type 0
Distinct [] = Unit {0}
Distinct (p ∷ ps) = (is_victim ps p ≡ false) × Distinct ps

-- Every entry of one list stands in the other.
abbrev pub Within : List Placed → List Placed → Type 0
Within vs ps = (p : Placed) → Has p vs → Has p ps

is_victim-enumerate :
    (k n : ℕ) (r : Rec) (rs : List Rec) → k < n → is_victim (enumerate n rs) (k, r) ≡ false
unfolding enumerate
is_victim-enumerate k n r [] h = refl
is_victim-enumerate k n r (x ∷ rs) h = ground (arith, is_victim-enumerate k (suc n) r rs)

pub enumerate-Distinct : (n : ℕ) (rs : List Rec) → Distinct (enumerate n rs)
unfolding enumerate
enumerate-Distinct n [] = tt
enumerate-Distinct n (r ∷ rs) =
    (is_victim-enumerate n (suc n) r rs (omega arith), enumerate-Distinct (suc n) rs)

pub length-enumerate : (n : ℕ) (rs : List Rec) → length (enumerate n rs) ≡ length rs
unfolding enumerate
length-enumerate n [] = refl
length-enumerate n (r ∷ rs) = ap suc (length-enumerate (suc n) rs)

is_victim-keep_if :
    (f : Placed → Bool) (p : Placed) (ps : List Placed)
    → is_victim ps p ≡ false
    → is_victim (keep_if f ps) p ≡ false
is_victim-keep_if f p [] h = refl
is_victim-keep_if f p (q ∷ ps) h = ground (arith, is_victim-keep_if f p ps)

keep_if-Distinct : (f : Placed → Bool) (ps : List Placed) → Distinct ps → Distinct (keep_if f ps)
keep_if-Distinct f [] h = tt
keep_if-Distinct f (p ∷ ps) (new, h) = elim (Bool-cases (f p)) [
  | inl kept ↦ rw kept (is_victim-keep_if f p ps new, keep_if-Distinct f ps h)
  | inr dropped ↦ rw dropped (keep_if-Distinct f ps h)
]

-- What is kept passes the test, and stands in the list.
keep_if-Has :
    (f : Placed → Bool) (p : Placed) (ps : List Placed)
    → Has p (keep_if f ps)
    → (f p ≡ true) × Has p ps
keep_if-Has f p [] h = absurd h
keep_if-Has f p (q ∷ ps) h = elim (Bool-cases (f q)) [
  | inl kept ↦ split kept (keep_if-Has f p ps) (rw kept at h)
  | inr dropped ↦ let (t, k) = keep_if-Has f p ps (rw dropped at h) in (t, inr k)
]
  where
    split :
        f q ≡ true
        → (Has p (keep_if f ps) → (f p ≡ true) × Has p ps)
        → Has p (q ∷ keep_if f ps)
        → (f p ≡ true) × Has p (q ∷ ps)
    split kept rec (inl e) = (rw e kept, inl e)
    split kept rec (inr k) = let (t, m) = rec k in (t, inr m)

is_victim-insert :
    (p x : Placed) (ps : List Placed) → is_victim (insert_by_age p ps) x ≡ is_victim (p ∷ ps) x
unfolding insert_by_age
is_victim-insert p x [] = refl
is_victim-insert p x (q ∷ ps) = ground (arith, is_victim-insert p x ps)

insert-Distinct :
    (p : Placed) (ps : List Placed) → Distinct (p ∷ ps) → Distinct (insert_by_age p ps)
unfolding insert_by_age
insert-Distinct p [] h = h
insert-Distinct p (q ∷ ps) h = ground (arith, insert-Distinct p ps, is_victim-insert p q ps)

insert-Has : (p x : Placed) (ps : List Placed) → Has x (insert_by_age p ps) → Has x (p ∷ ps)
unfolding insert_by_age
insert-Has p x [] h = h
insert-Has p x (q ∷ ps) h = elim (Bool-cases (leb p.1.created_ts q.1.created_ts)) [
  | inl first ↦ rw first at h
  | inr later ↦ split (insert-Has p x ps) (rw later at h)
]
  where
    split :
        (Has x (insert_by_age p ps) → Has x (p ∷ ps))
        → Has x (q ∷ insert_by_age p ps)
        → Has x (p ∷ q ∷ ps)
    split rec (inl e) = inr (inl e)
    split rec (inr k) = elim (rec k) [ inl e ↦ inl e | inr m ↦ inr (inr m) ]

is_victim-sort : (x : Placed) (ps : List Placed) → is_victim (sort_by_age ps) x ≡ is_victim ps x
unfolding sort_by_age
is_victim-sort x [] = refl
is_victim-sort x (p ∷ ps) =
    ground (arith, is_victim-insert p x (sort_by_age ps), is_victim-sort x ps)

sort-Distinct : (ps : List Placed) → Distinct ps → Distinct (sort_by_age ps)
unfolding sort_by_age
sort-Distinct [] h = tt
sort-Distinct (p ∷ ps) (new, h) =
    insert-Distinct p (sort_by_age ps) (is_victim-sort p ps ∙ new, sort-Distinct ps h)

sort-Has : (x : Placed) (ps : List Placed) → Has x (sort_by_age ps) → Has x ps
unfolding sort_by_age
sort-Has x [] h = h
sort-Has x (p ∷ ps) h = elim (insert-Has p x (sort_by_age ps) h) [
  | inl e ↦ inl e
  | inr k ↦ inr (sort-Has x ps k)
]

take-Has : (n : ℕ) (x : Placed) (ps : List Placed) → Has x (take n ps) → Has x ps
take-Has zero x ps h = absurd h
take-Has (suc n) x [] h = h
take-Has (suc n) x (p ∷ ps) (inl e) = inl e
take-Has (suc n) x (p ∷ ps) (inr h) = inr (take-Has n x ps h)

is_victim-take :
    (n : ℕ) (x : Placed) (ps : List Placed)
    → is_victim ps x ≡ false
    → is_victim (take n ps) x ≡ false
is_victim-take zero x ps h = refl
is_victim-take (suc n) x [] h = h
is_victim-take (suc n) x (p ∷ ps) h = ground (arith, is_victim-take n x ps)

take-Distinct : (n : ℕ) (ps : List Placed) → Distinct ps → Distinct (take n ps)
take-Distinct zero ps h = tt
take-Distinct (suc n) [] h = tt
take-Distinct (suc n) (p ∷ ps) (new, h) = (is_victim-take n p ps new, take-Distinct n ps h)

candidates-Distinct : (ps : List Placed) → Distinct ps → Distinct (candidates ps)
unfolding candidates
candidates-Distinct ps h =
    choose (keep_if deferred (keep_if evictable ps)) (keep_if evictable ps)
      (keep_if-Distinct deferred (keep_if evictable ps) (keep_if-Distinct evictable ps h))
      (keep_if-Distinct evictable ps h)
  where
    choose : (xs ys : List Placed) → Distinct xs → Distinct ys → Distinct (or_else xs ys)
    choose [] ys a b = b
    choose (x ∷ xs) ys a b = a

-- A candidate may be evicted.
candidates-Has :
    (x : Placed) (ps : List Placed) → Has x (candidates ps) → (evictable x ≡ true) × Has x ps
unfolding candidates
candidates-Has x ps h =
    choose (keep_if deferred (keep_if evictable ps)) (keep_if evictable ps)
      (λ k. keep_if-Has evictable x ps (keep_if-Has deferred x (keep_if evictable ps) k).1)
      (keep_if-Has evictable x ps) h
  where
    choose :
        (xs ys : List Placed)
        → (Has x xs → (evictable x ≡ true) × Has x ps)
        → (Has x ys → (evictable x ≡ true) × Has x ps)
        → Has x (or_else xs ys)
        → (evictable x ≡ true) × Has x ps
    choose [] ys a b k = b k
    choose (y ∷ xs) ys a b k = a k

pub victims-Distinct : (n : ℕ) (ps : List Placed) → Distinct ps → Distinct (victims n ps)
unfolding victims
victims-Distinct n ps h =
    take-Distinct n (sort_by_age (candidates ps))
      (sort-Distinct (candidates ps) (candidates-Distinct ps h))

pub victims-Has :
    (n : ℕ) (x : Placed) (ps : List Placed) → Has x (victims n ps) → (evictable x ≡ true) × Has x ps
unfolding victims
victims-Has n x ps h =
    candidates-Has x ps (sort-Has x (candidates ps) (take-Has n x (sort_by_age (candidates ps)) h))

abbrev pub spared : List Placed → List Placed → List Placed
spared vs ps = keep_if (λ p. not (is_victim vs p)) ps

spared-le : (v : Placed) (vs ps : List Placed) → length (spared (v ∷ vs) ps) ≤ length (spared vs ps)
spared-le v vs [] = omega arith
spared-le v vs (p ∷ ps) = ground (arith, spared-le v vs ps)

-- One more victim that stands in the queue, and was spared so far, leaves one record fewer.
spared-lt :
    (v : Placed) (vs ps : List Placed)
    → is_victim vs v ≡ false
    → Has v ps
    → length (spared (v ∷ vs) ps) < length (spared vs ps)
spared-lt v vs [] new h = absurd h
spared-lt v vs (p ∷ ps) new (inl e) =
    ground
      (arith, spared-le v vs ps, ap (λ (x : Placed). is_victim vs x) e, ap (λ (x : Placed). x.0) e)
spared-lt v vs (p ∷ ps) new (inr h) = ground (arith, spared-lt v vs ps new h, spared-le v vs ps)

pub spared_bound :
    (vs ps : List Placed)
    → Distinct vs
    → Within vs ps
    → length (spared vs ps) + length vs ≤ length ps
spared_bound [] ps d w = all_spared ps
  where
    all_spared : (ps : List Placed) → length (spared [] ps) + 0 ≤ length ps
    all_spared [] = omega arith
    all_spared (p ∷ ps) = omega (arith, all_spared ps)
spared_bound (v ∷ vs) ps (new, d) w =
    omega (arith, spared-lt v vs ps new (w v (inl refl)), spared_bound vs ps d (λ p h. w p (inr h)))

pub length-survivors : (ps : List Placed) → length (map (λ (p : Placed). p.1) ps) ≡ length ps
length-survivors [] = refl
length-survivors (p ∷ ps) = ap suc (length-survivors ps)
