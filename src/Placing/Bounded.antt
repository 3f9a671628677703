-- ===== src/Placing/Bounded.antt =====
-- The bounds of a decision on a quantity (providers/quantity.py): the request, the balance, the policy and the fees.
use binance.Base.{
  ℕ, ◌≤◌, ◌<◌, ◌≡◌, subst, sym, arith, Bool, Option, none, some, ◌==◌, if◌then◌else◌, Bool-cases,
  inl, inr,
}
use binance.Placing.Types.{Try, gives, refuses, raises, ◌>>=◌, insufficient_funds}
use binance.Placing.Quantity.{
  Decision, Market, refused_at, least, filtered, under_policy, under_balance,
}

abbrev pub Below : Option ℕ → ℕ → Type 0
Below none n = Unit
Below (some most) n = n ≤ most

abbrev pub Allows : Try (Option (Option ℕ)) → ℕ → Type 0
Allows (gives (some bound)) n = Below bound n
Allows _ n = ⊥

abbrev pub Covers : Try ℕ → ℕ → Type 0
Covers (gives fee) n = n ≤ fee
Covers _ n = ⊥

-- What holds of a positive quantity under a balance.
pub record IsBounded (m : Market) (apply : Bool) (requested : Option ℕ) (balance : ℕ) (d : Decision)
    : Type 0 where
  pub as_requested : Below requested d.final_qty
  pub in_balance : d.final_qty ≤ balance
  pub in_policy :
      Allows (if apply then m.policy_cap requested balance else gives (some requested)) d.final_qty
  pub after_fees : Covers (m.fee_cap balance) d.final_qty
  pub unfiltered : m.filter_refusal d.final_qty ≡ gives none

least_le :
    (requested : Option ℕ) (balance : ℕ) (policy : Option ℕ) (fee : ℕ)
    → Below requested (least requested balance policy fee)
      × (least requested balance policy fee ≤ balance)
      × Below policy (least requested balance policy fee)
      × (least requested balance policy fee ≤ fee)
least_le none balance none fee = (tt, omega arith, tt, omega arith)
least_le none balance (some p) fee = (tt, omega arith, omega arith, omega arith)
least_le (some r) balance none fee = (omega arith, omega arith, tt, omega arith)
least_le (some r) balance (some p) fee = (omega arith, omega arith, omega arith, omega arith)

filtered_lem :
    (m : Market) (requested : Option ℕ) (balance : ℕ) (policy : Option ℕ) (fee n : ℕ) (d : Decision)
    → filtered m requested balance policy fee n ≡ gives d
    → 0 < d.final_qty
    → (d.final_qty ≡ n) × (m.filter_refusal n ≡ gives none)
unfolding filtered
filtered_lem m requested balance policy fee n d h positive = ground arith

module _ (m : Market) (requested : Option ℕ) (balance : ℕ) (d : Decision)
    (positive : 0 < d.final_qty) where
  -- The bounds with the answers of policy and fees as they were given.
  abbrev Bounded : Try (Option (Option ℕ)) → Try ℕ → Type 0
  Bounded policy fees =
      Below requested d.final_qty
      × (d.final_qty ≤ balance)
      × Allows policy d.final_qty
      × Covers fees d.final_qty
      × (m.filter_refusal d.final_qty ≡ gives none)

  on_fee-Bounded :
      (policy : Option ℕ) (t : Try ℕ)
      → (t >>= λ fee. filtered m requested balance policy fee (least requested balance policy fee))
        ≡ gives d
      → Bounded (gives (some policy)) t
  on_fee-Bounded policy (gives fee) h =
      let n : ℕ = least requested balance policy fee in
      let (same, free) = filtered_lem m requested balance policy fee n d h positive in
      subst
        (λ x.
          Below requested x
          × (x ≤ balance)
          × Below policy x
          × (x ≤ fee)
          × (m.filter_refusal x ≡ gives none))
        (sym same) (let (r, b, p, f) = least_le requested balance policy fee in (r, b, p, f, free))
  on_fee-Bounded policy (refuses r) h = cc
  on_fee-Bounded policy raises h = cc

  on_policy-Bounded :
      (t : Try (Option (Option ℕ)))
      → (t >>= under_policy m requested balance) ≡ gives d
      → Bounded t (m.fee_cap balance)
  on_policy-Bounded (gives none) h = absurd (ground arith)
  on_policy-Bounded (gives (some policy)) h = on_fee-Bounded policy (m.fee_cap balance) h
  on_policy-Bounded (refuses r) h = cc
  on_policy-Bounded raises h = cc

pub under_balance-IsBounded :
    (m : Market) (apply : Bool) (requested : Option ℕ) (balance : ℕ) (d : Decision)
    → under_balance m apply requested (some balance) ≡ gives d
    → 0 < d.final_qty
    → IsBounded m apply requested balance d
unfolding under_balance
under_balance-IsBounded m apply requested balance d h positive = elim (Bool-cases (balance == 0)) [
  | inl nothing ↦ absurd (ground arith)
  | inr funds ↦
      let bounds : Bounded m requested balance d positive (policy) (m.fee_cap balance) =
        on_policy-Bounded m requested balance d positive (policy) (
          subst
            (λ b.
              (if b then gives (refused) else (policy >>= under_policy m requested balance))
              ≡ gives d)
            funds h) in
      record {
        as_requested = bounds.0;
        in_balance = bounds.1;
        in_policy = bounds.2;
        after_fees = bounds.3;
        unfiltered = bounds.4;
      }
]
  where
    policy : Try (Option (Option ℕ))
    policy = if apply then m.policy_cap requested balance else gives (some requested)

    refused : Decision
    refused = refused_at requested (some 0) (some 0) insufficient_funds
