-- ===== src/Outbox/Intake.antt =====
-- What `enqueue` promises: the queue stays within its bound, what may stand for a real order stays,
-- the new record is stored, and a repeated replacement changes nothing.
use binance.Base.{
  ℕ, ◌≤◌, ◌<◌, ◌≡◌, Bool, true, false, inl, inr, Option, none, some, List, [], ◌∷◌, ◌++◌, arith,
  length, Has, Option-cases, if◌then◌else◌, Has-append, length-append,
}
use binance.Outbox.Types.{Rec, Config}
use binance.Outbox.Guards.{safe_to_evict}
use binance.Outbox.File.{Change, after}
use binance.Outbox.Request.{Request, Enqueued, stored}
use binance.Outbox.Capacity.{make_room}
use binance.Outbox.Enqueue.{
  enqueue_on, dedup, dedup_allowed, drop_superseded, existing_replacement, after_store,
}
use binance.Outbox.Room.{
  make_room_bound, make_room-Has, drop_superseded-Has, length-drop_superseded, length-dedup,
  dedup-Has,
}

-- The three ends of an `enqueue`: nothing is written, a record is refreshed, or the new one is added.
data Ends (c : Config) (q : Request) (now : ℕ) (new : Rec) (rs : List Rec)
    : Change Enqueued → Type 0 where
  unchanged : {out : Enqueued} → Ends c q now new rs (none, out)
  refreshed :
      {done : List Rec} {id : ℕ}
      → dedup q now new (drop_superseded q new rs) ≡ some (done, id)
      → Ends c q now new rs (some done, stored id)
  added :
      {room : List Rec}
      → make_room c.max_queue (drop_superseded q new rs) ≡ some room
      → Ends c q now new rs (some (room ++ new ∷ []), after_store q new)

if-eq-some {ℓ} :
    {A : Type ℓ} (b : Bool) (o : Option A) {a : A} → (if b then o else none) ≡ some a → o ≡ some a
if-eq-some true o e = e
if-eq-some false o e = cc

module _ (c : Config) (q : Request) (now : ℕ) (new : Rec) (rs : List Rec) where
  enqueue_on-Ends : Ends c q now new rs (enqueue_on c q now new rs)
  unfolding enqueue_on
  enqueue_on-Ends = elim (Option-cases (existing_replacement new rs)) [
    | inr (id, waiting) ↦ rw waiting unchanged
    | inl fresh ↦ rw fresh (elim (Option-cases target) [
      | inr ((done, id), found) ↦
          rw found (refreshed (if-eq-some (dedup_allowed c q new) (dedup q now new kept) found))
      | inl nothing ↦ rw nothing (elim (Option-cases (make_room c.max_queue kept)) [
        | inl full ↦ rw full unchanged
        | inr (room, e) ↦ rw e (added e)
      ])
    ])
  ]
    where
      kept : List Rec
      kept = drop_superseded q new rs

      target : Option (List Rec × ℕ)
      target = if dedup_allowed c q new then dedup q now new kept else none

  Ends-Has :
      {x : Change Enqueued} (r : Rec)
      → safe_to_evict r ≡ false
      → Ends c q now new rs x
      → Has r rs
      → Has r (after rs x.0)
  Ends-Has r safe unchanged h = h
  Ends-Has r safe (refreshed found) h =
      dedup-Has q now new r (drop_superseded q new rs) safe found
        (drop_superseded-Has q now new r rs safe h)
  Ends-Has r safe (added {room = room} e) h = Has-append r room (new ∷ []) (
      make_room-Has c.max_queue (drop_superseded q new rs) r safe e
        (drop_superseded-Has q now new r rs safe h))

  Ends-bound :
      {x : Change Enqueued}
      → 0 < c.max_queue
      → length rs ≤ c.max_queue
      → Ends c q now new rs x
      → length (after rs x.0) ≤ c.max_queue
  Ends-bound bounded h unchanged = h
  Ends-bound bounded h (refreshed found) = omega (
    arith,
    length-dedup q now new (drop_superseded q new rs) found,
    length-drop_superseded q now new rs,
  )
  Ends-bound bounded h (added {room = room} e) = omega (
    arith,
    make_room_bound c.max_queue (drop_superseded q new rs) bounded e,
    length-append room (new ∷ []),
  )

-- A record that may not be evicted is still in the queue after any `enqueue`, whether that refuses,
-- refreshes a record, replaces deferred ones, or evicts the oldest to make room.
pub enqueue_on-Has :
    (c : Config) (q : Request) (now : ℕ) (new : Rec) (rs : List Rec) (r : Rec)
    → safe_to_evict r ≡ false
    → Has r rs
    → Has r (after rs (enqueue_on c q now new rs).0)
enqueue_on-Has c q now new rs r safe h =
    Ends-Has c q now new rs r safe (enqueue_on-Ends c q now new rs) h

-- With a positive bound, a queue within it stays within it.
pub enqueue_on_bound :
    (c : Config) (q : Request) (now : ℕ) (new : Rec) (rs : List Rec)
    → 0 < c.max_queue
    → length rs ≤ c.max_queue
    → length (after rs (enqueue_on c q now new rs).0) ≤ c.max_queue
enqueue_on_bound c q now new rs bounded h =
    Ends-bound c q now new rs bounded h (enqueue_on-Ends c q now new rs)
