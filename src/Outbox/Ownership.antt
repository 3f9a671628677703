-- ===== src/Outbox/Ownership.antt =====
-- Only the owner of a lease ends it, and only a terminal status takes an accepted order out.
use binance.Base.{
  ℕ, ◌≡◌, ◌≢◌, ◌⊎◌, opt_eq→≡, or_default, refl, Bool, true, false, inl, inr, Option, none, some,
  List, [], ◌∷◌, arith, length, Has, Bool-cases, Option-cases,
}
use binance.Outbox.Types.{Rec, ClientId, derived, own, client_opt_eq, OrderStatus, terminal}
use binance.Outbox.File.{after}
use binance.Outbox.Complete.{
  Outcome, observed, Details, no_details, apply_outcome, owns, complete_each, complete_claim,
  finish,
}
use binance.Outbox.Status.{act_observed, Transition, choose, advance_claimed_status}

module _ (o : Outcome) (d : Details) (now : ℕ) (claimed : Rec) where
  complete_each-Has :
      (r : Rec) (rs : List Rec)
      → owns claimed r ≡ false
      → Has r rs
      → Has r (complete_each o d now claimed rs).0
  unfolding complete_each
  complete_each-Has r [] foreign h = h
  complete_each-Has r (x ∷ rs) foreign (inl e) = rw (← e) (rw foreign (inl refl))
  complete_each-Has r (x ∷ rs) foreign (inr h) = elim (Bool-cases (owns claimed x)) [
    | inl mine ↦ rw mine (kept (apply_outcome o d now claimed x) (complete_each-Has r rs foreign h))
    | inr other ↦ rw other (inr (complete_each-Has r rs foreign h))
  ]
    where
      kept :
          (n : Option Rec)
          → Has r (complete_each o d now claimed rs).0
          → Has r (finish o d (complete_each o d now claimed rs).0 n)
      kept none k = k
      kept (some n) k = inr k

  complete_each-unchanged :
      (rs : List Rec)
      → (complete_each o d now claimed rs).1 ≡ false
      → (complete_each o d now claimed rs).0 ≡ rs
  unfolding complete_each
  complete_each-unchanged [] h = refl
  complete_each-unchanged (r ∷ rs) h = ground (arith, complete_each-unchanged rs)

  pub after-complete_claim :
      (rs : List Rec) {w : Option (List Rec)} {b : Bool}
      → complete_claim o d now claimed rs ≡ some (w, b)
      → (after rs w ≡ (complete_each o d now claimed rs).0)
        × (b ≡ (complete_each o d now claimed rs).1)
  unfolding complete_claim
  after-complete_claim rs e = ground (arith, complete_each-unchanged rs)

-- The end of a lease that writes returns true.
pub complete_claim-written :
    (o : Outcome) (d : Details) (now : ℕ) (claimed : Rec) (rs done : List Rec) {b : Bool}
    → complete_claim o d now claimed rs ≡ some (some done, b)
    → b ≡ true
unfolding complete_claim
complete_claim-written o d now claimed rs done e = ground arith

-- The record differs from the claimed one in its ID, its token, its revision or its client order ID.
abbrev pub IsForeign : Rec → Rec → Type 0
IsForeign claimed r =
    (r.id ≢ claimed.id)
    ⊎ ((r.claim_token ≢ claimed.claim_token)
        ⊎ ((r.revision ≢ or_default claimed.claim_revision 0)
            ⊎ (r.client_order_id ≢ claimed.client_order_id)))

client_opt_eq→≡ : (a b : Option ClientId) → client_opt_eq a b ≡ true → a ≡ b
client_opt_eq→≡ none none h = refl
client_opt_eq→≡ none (some b) h = cc
client_opt_eq→≡ (some a) none h = cc
client_opt_eq→≡ (some (derived a n)) (some (derived b m)) h =
    let id : a ≡ b = ground arith in let revision : n ≡ m = ground arith in rw (id, revision) refl
client_opt_eq→≡ (some (own a)) (some (own b)) h = let same : a ≡ b = ground arith in rw same refl
client_opt_eq→≡ (some (derived a n)) (some (own b)) h = cc
client_opt_eq→≡ (some (own a)) (some (derived b m)) h = cc

owns-equal :
    (claimed r : Rec)
    → owns claimed r ≡ true
    → (r.id ≡ claimed.id)
      × (r.claim_token ≡ claimed.claim_token)
      × (r.revision ≡ or_default claimed.claim_revision 0)
      × (r.client_order_id ≡ claimed.client_order_id)
unfolding owns
owns-equal claimed r h = (
  ground arith,
  opt_eq→≡ r.claim_token claimed.claim_token (ground arith),
  ground arith,
  client_opt_eq→≡ r.client_order_id claimed.client_order_id (ground arith),
)

IsForeign-owns : (claimed r : Rec) → IsForeign claimed r → owns claimed r ≡ false
IsForeign-owns claimed r foreign = elim (Bool-cases (owns claimed r)) [
  | inr other ↦ other
  | inl mine ↦
      let (id, token, revision, client) = owns-equal claimed r mine in
      absurd (by_part foreign id token revision client)
]
  where
    by_part :
        IsForeign claimed r
        → r.id ≡ claimed.id
        → r.claim_token ≡ claimed.claim_token
        → r.revision ≡ or_default claimed.claim_revision 0
        → r.client_order_id ≡ claimed.client_order_id
        → ⊥
    by_part (inl id) e1 e2 e3 e4 = id e1
    by_part (inr (inl token)) e1 e2 e3 e4 = token e2
    by_part (inr (inr (inl revision))) e1 e2 e3 e4 = revision e3
    by_part (inr (inr (inr client))) e1 e2 e3 e4 = client e4

-- Whatever the outcome, the end of a lease leaves every record that differs from the claimed one in its ID, its
-- token, its revision or its client order ID in the queue, exactly as it was.
pub complete_claim-Has :
    (o : Outcome) (d : Details) (now : ℕ) (claimed : Rec) (rs : List Rec) (r : Rec)
    {w : Option (List Rec)} {b : Bool}
    → complete_claim o d now claimed rs ≡ some (w, b)
    → IsForeign claimed r
    → Has r rs
    → Has r (after rs w)
complete_claim-Has o d now claimed rs r e foreign h =
    rw (after-complete_claim o d now claimed rs e).0
      (complete_each-Has o d now claimed r rs (IsForeign-owns claimed r foreign) h)

length-complete_each-observed :
    (d : Details) (now : ℕ) (claimed : Rec) (rs : List Rec)
    → length (complete_each observed d now claimed rs).0 ≡ length rs
unfolding complete_each apply_outcome
length-complete_each-observed d now claimed [] = refl
length-complete_each-observed d now claimed (r ∷ rs) =
    ground (arith, length-complete_each-observed d now claimed rs)

-- One status of an order that is still open is only observed: the action says so, and no record is
-- taken out of the queue.
pub advance_claimed_status-open :
    (claimed : Rec) (s : OrderStatus) (now : ℕ) (rs : List Rec) {w : Option (List Rec)}
    {t : Transition}
    → terminal s ≡ false
    → advance_claimed_status claimed s now rs ≡ some (w, t)
    → (t.action ≡ act_observed) × (length (after rs w) ≡ length rs)
unfolding advance_claimed_status choose
advance_claimed_status-open claimed s now rs {w} open_ e =
    let d : Details = record no_details { status = some s } in
    elim (Option-cases (complete_claim observed d now claimed rs)) [
      | inl nothing ↦ ground arith
      | inr ((w', b), found) ↦
          let same : some w' ≡ some w = ground arith in
          (
            ground arith,
            ground (
              arith,
              after-complete_claim observed d now claimed rs found,
              length-complete_each-observed d now claimed rs,
              same,
            ),
          )
    ]
