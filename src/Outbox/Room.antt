-- ===== src/Outbox/Room.antt =====
-- The steps of `enqueue` one by one: each keeps the records that may not be evicted, and bounds the
-- length of the queue.
use binance.Base.{
  ℕ, suc, ◌+◌, ◌-◌, ◌≤◌, ◌<◌, ◌≡◌, ◌≢◌, refl, sym, ap, ◌∙◌, subst, true, false, not, ◌&&◌, inl, inr,
  ◌⊎◌, some, List, [], ◌∷◌, map, arith, length, Has, Has-keep_if, Bool-cases, Option-cases,
  length-keep_if,
}
use binance.Outbox.Types.{Rec, is_pending}
use binance.Outbox.Guards.{is_trend_deferred, safe_to_evict, same_deferred_stream}
use binance.Outbox.Request.{Request}
use binance.Outbox.Capacity.{Placed, enumerate, is_victim, survivors, victims, make_room}
use binance.Outbox.Enqueue.{dedup, dedup_target, drop_superseded, refresh}
use binance.Outbox.Eviction.{
  Distinct, spared, enumerate-Distinct, length-enumerate, victims-Distinct, victims-Has,
  spared_bound, length-survivors,
}

room_lem :
    (n limit : ℕ) (rs : List Rec)
    → length rs + 1 ≤ limit + length (victims n (enumerate 0 rs))
    → length (survivors (victims n (enumerate 0 rs)) (enumerate 0 rs)) + 1 ≤ limit
unfolding survivors
room_lem n limit rs h =
    let ps : List Placed = enumerate 0 rs in
    omega (
      arith,
      length-survivors (spared (victims n ps) ps),
      length-enumerate 0 rs,
      spared_bound (victims n ps) ps (victims-Distinct n ps (enumerate-Distinct 0 rs))
          (λ p k. (victims-Has n p ps k).1),
    )

-- Where `make_room` gives a queue, there is room for one more record, however full it was before.
pub make_room_bound :
    (limit : ℕ) (rs : List Rec) {rs' : List Rec}
    → 0 < limit
    → make_room limit rs ≡ some rs'
    → length rs' + 1 ≤ limit
unfolding make_room
make_room_bound limit rs positive e = ground (arith, room_lem (length rs + 1 - limit) limit rs)

place_of :
    (n : ℕ) (r : Rec) (rs : List Rec)
    → Has r rs
    → (i : ℕ) × Has {A = Placed} (i, r) (enumerate n rs)
unfolding enumerate
place_of n r [] h = absurd h
place_of n r (x ∷ rs) (inl e) = (n, inl (ap (λ (y : Rec). (n, y)) e))
place_of n r (x ∷ rs) (inr h) = let (i, k) = place_of (suc n) r rs h in (i, inr k)

is_victim-Has : (p : Placed) (ps : List Placed) → Has p ps → is_victim ps p ≡ true
is_victim-Has p [] h = absurd h
is_victim-Has p (q ∷ ps) (inl e) = ground (arith, ap (λ (x : Placed). x.0) e)
is_victim-Has p (q ∷ ps) (inr h) = ground (arith, is_victim-Has p ps h)

is_victim_ext : (p q : Placed) (ps : List Placed) → p.0 ≡ q.0 → is_victim ps p ≡ is_victim ps q
is_victim_ext p q [] e = refl
is_victim_ext p q (x ∷ ps) e = ground (arith, is_victim_ext p q ps e)

-- A place names one record.
place_unique :
    (p q : Placed) (ps : List Placed) → Distinct ps → Has p ps → Has q ps → p.0 ≡ q.0 → p ≡ q
place_unique p q [] d h k e = absurd h
place_unique p q (x ∷ ps) (new, d) (inl a) (inl b) e = a ∙ sym b
place_unique p q (x ∷ ps) (new, d) (inl a) (inr k) e =
    ground (arith, is_victim-Has q ps k, is_victim_ext q x ps, ap (λ (y : Placed). y.0) a)
place_unique p q (x ∷ ps) (new, d) (inr h) (inl b) e =
    ground (arith, is_victim-Has p ps h, is_victim_ext p x ps, ap (λ (y : Placed). y.0) b)
place_unique p q (x ∷ ps) (new, d) (inr h) (inr k) e = place_unique p q ps d h k e

-- An entry that is no candidate is no victim.
not_victim :
    (p : Placed) (vs : List Placed) → ((v : Placed) → Has v vs → v.0 ≢ p.0) → is_victim vs p ≡ false
not_victim p [] h = refl
not_victim p (v ∷ vs) h = ground (arith, h v (inl refl), not_victim p vs (λ x k. h x (inr k)))

Has-record : (p : Placed) (ps : List Placed) → Has p ps → Has p.1 (map (λ (q : Placed). q.1) ps)
Has-record p [] h = absurd h
Has-record p (q ∷ ps) (inl e) = inl (ap (λ (x : Placed). x.1) e)
Has-record p (q ∷ ps) (inr h) = inr (Has-record p ps h)

make_room-cases :
    (limit : ℕ) (rs : List Rec) {rs' : List Rec}
    → make_room limit rs ≡ some rs'
    → let vs = victims (length rs + 1 - limit) (enumerate 0 rs) in
      (rs ≡ rs') ⊎ (survivors vs (enumerate 0 rs) ≡ rs')
unfolding make_room
make_room-cases limit rs e = ground arith

-- A record that may not be evicted is no victim.
unevictable-spared :
    (n : ℕ) (i : ℕ) (r : Rec) (rs : List Rec)
    → safe_to_evict r ≡ false
    → Has {A = Placed} (i, r) (enumerate 0 rs)
    → is_victim (victims n (enumerate 0 rs)) (i, r) ≡ false
unevictable-spared n i r rs safe k =
    let ps : List Placed = enumerate 0 rs in
    not_victim (i, r) (victims n ps)
      (λ v m same.
        let (may, here) = victims-Has n v ps m in
        ground (
          arith,
          may,
          safe,
          ap (λ (x : Placed). safe_to_evict x.1)
              (place_unique v (i, r) ps (enumerate-Distinct 0 rs) here k same),
        ))

survivors-Has :
    (n : ℕ) (r : Rec) (rs : List Rec)
    → safe_to_evict r ≡ false
    → Has r rs
    → Has r (survivors (victims n (enumerate 0 rs)) (enumerate 0 rs))
unfolding survivors
survivors-Has n r rs safe h =
    let ps : List Placed = enumerate 0 rs in
    let (i, k) = place_of 0 r rs h in
    Has-record (i, r) (spared (victims n ps) ps)
      (Has-keep_if (λ p. not (is_victim (victims n ps) p)) (i, r) ps
        (ap not (unevictable-spared n i r rs safe k)) k)

pub make_room-Has :
    (limit : ℕ) (rs : List Rec) {rs' : List Rec} (r : Rec)
    → safe_to_evict r ≡ false
    → make_room limit rs ≡ some rs'
    → Has r rs
    → Has r rs'
make_room-Has limit rs r safe e h = elim (make_room-cases limit rs e) [
  | inl same ↦ subst (Has r) same h
  | inr fewer ↦ subst (Has r) fewer (survivors-Has (length rs + 1 - limit) r rs safe h)
]

target_not_protected : (new x : Rec) → dedup_target new x ≡ true → safe_to_evict x ≡ false → ⊥
unfolding dedup_target
target_not_protected new x hit safe = ground arith

module _ (q : Request) (now : ℕ) (new : Rec) where
  pub drop_superseded-Has :
      (r : Rec) (rs : List Rec)
      → safe_to_evict r ≡ false
      → Has r rs
      → Has r (drop_superseded q new rs)
  unfolding drop_superseded
  drop_superseded-Has r rs safe h =
      let kept =
        Has-keep_if (λ x. not (safe_to_evict x && same_deferred_stream x new)) r rs (rw safe) h in
      elim (Bool-cases (is_pending new.lifecycle && is_trend_deferred q.failure_reason)) [
        | inl deferral ↦ rw deferral kept
        | inr other ↦ rw other h
      ]

  pub length-drop_superseded : (rs : List Rec) → length (drop_superseded q new rs) ≤ length rs
  unfolding drop_superseded
  length-drop_superseded rs =
      ground (arith, length-keep_if (λ x. not (safe_to_evict x && same_deferred_stream x new)) rs)

  dedup-inversion :
      (r : Rec) (rs : List Rec) {rs' : List Rec} {id : ℕ}
      → dedup q now new (r ∷ rs) ≡ some (rs', id)
      → (dedup_target new r ≡ true) × (rs' ≡ refresh q now new r ∷ rs)
        ⊎ ((done : List Rec) × (dedup q now new rs ≡ some (done, id)) × (rs' ≡ r ∷ done))
  unfolding dedup
  dedup-inversion r rs e = elim (Option-cases (dedup q now new rs)) [
    | inl nothing ↦ ground arith
    | inr ((done, id), found) ↦ elim (Bool-cases (dedup_target new r)) [
      | inl hit ↦ inl (hit, ground arith)
      | inr miss ↦ inr (done, ground arith, ground arith)
    ]
  ]

  pub length-dedup :
      (rs : List Rec) {rs' : List Rec} {id : ℕ}
      → dedup q now new rs ≡ some (rs', id)
      → length rs' ≡ length rs
  unfolding dedup
  length-dedup [] e = cc
  length-dedup (r ∷ rs) e = elim (dedup-inversion r rs e) [
    | inl (hit, same) ↦ rw same
    | inr (done, found, same) ↦ rw same (ap suc (length-dedup rs found))
  ]

  pub dedup-Has :
      (r : Rec) (rs : List Rec) {rs' : List Rec} {id : ℕ}
      → safe_to_evict r ≡ false
      → dedup q now new rs ≡ some (rs', id)
      → Has r rs
      → Has r rs'
  dedup-Has r [] safe e h = absurd h
  dedup-Has r (x ∷ rs) safe e (inl here) = elim (dedup-inversion x rs e) [
    | inl (hit, same) ↦ absurd (target_not_protected new x hit (ap safe_to_evict (sym here) ∙ safe))
    | inr (done, found, same) ↦ subst (Has r) (sym same) (inl here)
  ]
  dedup-Has r (x ∷ rs) safe e (inr h) = elim (dedup-inversion x rs e) [
    | inl (hit, same) ↦ subst (Has r) (sym same) (inr h)
    | inr (done, found, same) ↦ subst (Has r) (sym same) (inr (dedup-Has r rs safe found h))
  ]
