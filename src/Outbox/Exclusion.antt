-- ===== src/Outbox/Exclusion.antt =====
-- A lease excludes every other claim until it ends.
use binance.Base.{
  ℕ, ◌+◌, ◌<◌, ◌≡◌, refl, ◌∙◌, ap, ◌≢◌, Bool, true, false, inl, inr, Option, some, List, [], ◌∷◌,
  arith, opt_eq, keep_if, Bool-cases, ==_refl,
}
use binance.Outbox.Types.{Rec}
use binance.Outbox.File.{after}
use binance.Outbox.Claim.{claim, claim_each, claimable, lease}

abbrev pub held_by : ℕ → Rec → Bool
held_by token r = opt_eq r.claim_token (some token)

-- The records under a token.
abbrev pub holders : ℕ → List Rec → List Rec
holders token rs = keep_if (held_by token) rs

module _ (ids ids' : List ℕ) (now seconds token now' seconds' token' : ℕ) (other : token ≢ token')
    (early : now' < now + seconds) where
  claimed_is_held :
      (r : Rec)
      → (held_by token (lease now seconds token r) ≡ true)
        × (claimable ids' now' (lease now seconds token r) ≡ false)
  unfolding lease claimable
  claimed_is_held r = (==_refl token, ground arith)

  new_lease_not_held : (r : Rec) → held_by token (lease now' seconds' token' r) ≡ false
  unfolding lease
  new_lease_not_held r = ground arith

  holders-tail :
      (r : Rec) (rs : List Rec)
      → holders token (r ∷ rs) ≡ []
      → (held_by token r ≡ false) × (holders token rs ≡ [])
  holders-tail r rs h = ground arith

  second_claim_skips :
      (r : Rec) (rs : List Rec)
      → claimable ids' now' r ≡ false
      → (claim_each ids' now' seconds' token' (r ∷ rs)).0
        ≡ r ∷ (claim_each ids' now' seconds' token' rs).0
  unfolding claim_each
  second_claim_skips r rs h = rw h

  keeps_unheld :
      (r : Rec) (rs : List Rec)
      → held_by token r ≡ false
      → holders token (claim_each ids' now' seconds' token' (r ∷ rs)).0
        ≡ holders token (claim_each ids' now' seconds' token' rs).0
  unfolding claim_each
  keeps_unheld r rs h = elim (Bool-cases (claimable ids' now' r)) [
    | inl free ↦ rw (free, new_lease_not_held r)
    | inr taken ↦ rw (taken, h)
  ]

  holders-claim_each :
      (rs : List Rec)
      → holders token rs ≡ []
      → holders token
          (claim_each ids' now' seconds' token' (claim_each ids now seconds token rs).0).0
        ≡ (claim_each ids now seconds token rs).1
  unfolding claim_each
  holders-claim_each [] h = refl
  holders-claim_each (r ∷ rs) h = elim (Bool-cases (claimable ids now r)) [
    | inl free ↦ rw free (
        rw (claimed_is_held r).1 (
          rw (claimed_is_held r).0 (
            ap (λ c. lease now seconds token r ∷ c)
              (holders-claim_each rs (holders-tail r rs h).1))))
    | inr taken ↦ rw taken (
        keeps_unheld r (claim_each ids now seconds token rs).0 (holders-tail r rs h).0
        ∙ holders-claim_each rs (holders-tail r rs h).1)
  ]

-- Where nothing is claimed, nothing changes.
claim_each-none :
    (ids : List ℕ) (now seconds token : ℕ) (rs : List Rec)
    → (claim_each ids now seconds token rs).1 ≡ []
    → (claim_each ids now seconds token rs).0 ≡ rs
unfolding claim_each
claim_each-none ids now seconds token [] h = refl
claim_each-none ids now seconds token (r ∷ rs) h =
    ground (arith, claim_each-none ids now seconds token rs)

after-claim :
    (i : ℕ) (ids : List ℕ) (now seconds token : ℕ) (rs : List Rec) {w : Option (List Rec)}
    {c : List Rec}
    → claim (i ∷ ids) now seconds token rs ≡ some (w, c)
    → (after rs w ≡ (claim_each (i ∷ ids) now seconds token rs).0)
      × (c ≡ (claim_each (i ∷ ids) now seconds token rs).1)
unfolding claim
after-claim i ids now seconds token rs h =
    ground (arith, claim_each-none (i ∷ ids) now seconds token rs)

-- Two claims in a row: where the first uses a token that no record of the queue holds, and the second
-- uses another token and comes before the first lease ends, the records under the first token are
-- afterwards exactly those that the first claim returned, unchanged. The second can take none of them.
pub claim-exclusive :
    (i : ℕ) (ids : List ℕ) (now seconds token : ℕ) (j : ℕ) (ids' : List ℕ)
    (now' seconds' token' : ℕ) (rs : List Rec) {w w' : Option (List Rec)} {c c' : List Rec}
    → holders token rs ≡ []
    → token ≢ token'
    → now' < now + seconds
    → claim (i ∷ ids) now seconds token rs ≡ some (w, c)
    → claim (j ∷ ids') now' seconds' token' (after rs w) ≡ some (w', c')
    → holders token (after (after rs w) w') ≡ c
claim-exclusive i ids now seconds token j ids' now' seconds' token' rs {w} fresh other early first
      second =
    let (q, e) = after-claim i ids now seconds token rs first in
    let (q', e') = after-claim j ids' now' seconds' token' (after rs w) second in
    rw (q', q, e)
      (holders-claim_each (i ∷ ids) (j ∷ ids') now seconds token now' seconds' token' other early rs
        fresh)
