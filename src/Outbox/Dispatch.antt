-- ===== src/Outbox/Dispatch.antt =====
-- A record that is about to be submitted is marked as possibly submitted first, under a lease.
use binance.Base.{
  ℕ, ◌+◌, ◌≤◌, ◌≡◌, refl, sym, ap, ◌∙◌, subst, Bool, true, false, ◌&&◌, inl, inr, Option, none,
  some, List, [], ◌∷◌, arith, Has, Bool-cases, is_some, or_default, ltb, opt_eq→≡,
}
use binance.Base.Fallible.{◌>>=◌, ◌>>◌, require}
use binance.Outbox.Types.{Rec, is_pending}
use binance.Outbox.Guards.{safe_to_evict, is_possibly_submitted, set_safe_to_discard}
use binance.Outbox.File.{Change, after}
use binance.Outbox.Request.{Host, identity_of}
use binance.Outbox.Claim.{begin_each, begin_with, begin_claimed_submit, dispatch, exact_claim}

module _ (test : Rec → Bool) (change : Rec → Rec) where
  -- What is returned is the changed record, and it has been written.
  abbrev pub Dispatched : List Rec → Change (Option Rec) → Type 0
  Dispatched rs (w, none) = Unit
  Dispatched rs (w, some r) =
      (x : Rec) × (test x ≡ true)
      × (r ≡ change x)
      × (done : List Rec) × (w ≡ some done)
      × Has r done

  behind :
      (x : Rec) (rs : List Rec) (c : Change (Option Rec))
      → Dispatched rs c
      → Dispatched (x ∷ rs) (c.0 >>= λ done. some (x ∷ done), c.1)
  behind x rs (w, none) h = tt
  behind x rs (w, some r) (y, hit, same, done, e, here) =
      (y, hit, same, x ∷ done, ap (λ (o : Option (List Rec)). o >>= λ q. some (x ∷ q)) e, inr here)

  pub begin_each-Dispatched : (rs : List Rec) → Dispatched rs (begin_each test change rs)
  unfolding begin_each
  begin_each-Dispatched [] = tt
  begin_each-Dispatched (x ∷ rs) = elim (Bool-cases (test x)) [
    | inl hit ↦ rw hit (x, hit, refl, change x ∷ rs, refl, inl refl)
    | inr miss ↦ rw miss (behind x rs (begin_each test change rs) (begin_each-Dispatched rs))
  ]

-- What holds of a record on which a submission may begin.
pub record IsDispatched (snapshot r : Rec) (until : ℕ) : Type 0 where
  pub same_id : r.id ≡ snapshot.id
  pub same_token : r.claim_token ≡ snapshot.claim_token
  pub leased_until : until ≤ or_default r.claim_until 0
  pub possibly_submitted : is_possibly_submitted r ≡ is_pending r.lifecycle
  pub not_evictable : safe_to_evict r ≡ false

dispatch-IsDispatched :
    (pid start now seconds : ℕ) (snapshot x : Rec)
    → exact_claim snapshot x ≡ true
    → IsDispatched snapshot (dispatch pid start now seconds x) (now + seconds)
unfolding exact_claim dispatch set_safe_to_discard is_possibly_submitted safe_to_evict
dispatch-IsDispatched pid start now seconds snapshot x h = record {
  same_id = ground arith;
  same_token = opt_eq→≡ x.claim_token snapshot.claim_token (ground arith);
  leased_until = omega arith;
  possibly_submitted = ground arith;
  not_evictable = ground arith;
}

Dispatched-IsDispatched :
    (pid start now seconds : ℕ) (snapshot : Rec) (rs : List Rec) (c : Change (Option Rec)) {r : Rec}
    → Dispatched (exact_claim snapshot) (dispatch pid start now seconds) rs c
    → c.1 ≡ some r
    → IsDispatched snapshot r (now + seconds) × Has r (after rs c.0)
Dispatched-IsDispatched pid start now seconds snapshot rs (w, none) d e = absurd (none-some e)
  where
    none-some : {r : Rec} → none ≡ some r → ⊥
    none-some e = cc
Dispatched-IsDispatched pid start now seconds snapshot rs (w, some y) {r}
      (x, hit, same, done, written, here) e =
    let inj : y ≡ r = cc in
    let eq : r ≡ dispatch pid start now seconds x = sym inj ∙ same in
    (
      subst (λ (z : Rec). IsDispatched snapshot z (now + seconds)) (sym eq)
          (dispatch-IsDispatched pid start now seconds snapshot x hit),
      rw written (subst (λ (z : Rec). Has z done) inj here),
    )

begin_with-IsDispatched :
    (h : Host) (snapshot : Rec) (now seconds : ℕ) (rs : List Rec) (identity : Option ℕ) {r : Rec}
    → (begin_with h snapshot now seconds rs identity).1 ≡ some r
    → IsDispatched snapshot r (now + seconds)
      × Has r (after rs (begin_with h snapshot now seconds rs identity).0)
begin_with-IsDispatched h snapshot now seconds rs none {r} e =
    let impossible : none ≡ some r = e in absurd (cc)
begin_with-IsDispatched h snapshot now seconds rs (some start) e =
    Dispatched-IsDispatched h.pid start now seconds snapshot rs
      (begin_each (exact_claim snapshot) (dispatch h.pid start now seconds) rs)
      (begin_each-Dispatched (exact_claim snapshot) (dispatch h.pid start now seconds) rs) e

-- Where `begin_claimed_submit` returns a record, that record is the one of the snapshot's ID and token,
-- it is durably in the queue, leased for the time asked for, counts as possibly submitted while it is
-- pending, and cannot be evicted.
pub begin_claimed_submit-IsDispatched :
    (h : Host) (snapshot : Rec) (now seconds : ℕ) (rs : List Rec) {r : Rec}
    → (begin_claimed_submit h snapshot now seconds rs).1 ≡ some r
    → IsDispatched snapshot r (now + seconds)
      × Has r (after rs (begin_claimed_submit h snapshot now seconds rs).0)
unfolding begin_claimed_submit
begin_claimed_submit-IsDispatched h snapshot now seconds rs e =
    begin_with-IsDispatched h snapshot now seconds rs
      (require (ltb 0 now && ltb 0 seconds && is_some snapshot.client_order_id)
        >> identity_of (h.process h.pid))
      e
