-- ===== src/Placing/Decided.antt =====
-- A quantity that is decided on (providers/quantity.py), against its bounds.
use binance.Base.{
  ℕ, ◌*◌, ◌/◌, ◌≤◌, ◌<◌, ◌≡◌, refl, subst, sym, arith, Bool, true, false, Option, none, some,
  if◌then◌else◌,
}
use binance.Outbox.Types.{Side, buy, sell, bad_side}
use binance.Placing.Types.{Try, gives, refuses, raises, ◌>>=◌}
use binance.Placing.Bounds.{le_div_mul}
use binance.Placing.Quantity.{
  Wanted, unlimited, not_finite, wanted, Decision, Market, per_price, known_asset,
  balance_cap_quantity, requested_of, under_balance, decide_quantity,
}
use binance.Placing.Bounded.{Below, IsBounded, under_balance-IsBounded}

abbrev pub AsksFor : Wanted → ℕ → Type 0
AsksFor unlimited n = Unit
AsksFor not_finite n = ⊥
AsksFor (wanted most) n = n ≤ most

-- The free balance pays for the quantity.
abbrev pub Affords : Side → ℕ → Try (Option ℕ) → ℕ → Type 0
Affords buy price (gives (some balance)) n = n * price ≤ balance
Affords sell price (gives (some balance)) n = n ≤ balance
Affords _ price _ n = ⊥

-- What a decision on a positive quantity promises: it is within the quantity asked for, what the free balance
-- pays for at the price, the bound of the policy where it applies, and the bound of the fees, and the filters of
-- the venue have no objection to it.
pub record IsDecided (m : Market) (side : Side) (price : ℕ) (asked : Wanted) (apply : Bool)
    (d : Decision) : Type 0 where
  pub requested : Option ℕ
  pub balance : ℕ
  pub as_asked : AsksFor asked d.final_qty
  pub affordable : Affords side price m.free_balance d.final_qty
  pub same_request : requested_of asked ≡ gives requested
  pub same_balance : balance_cap_quantity m side price ≡ gives (some balance)
  pub bounded : IsBounded m apply requested balance d

Affords-buy :
    (price balance n : ℕ) (known : Bool) (t : Try (Option ℕ))
    → (if known then (t >>= λ b. gives (per_price buy price b)) else gives none)
      ≡ gives (some balance)
    → n ≤ balance
    → Affords buy price t n
Affords-buy price balance n false t h le = cc
Affords-buy price balance n true (gives none) h le = cc
Affords-buy price balance n true (gives (some b)) h le =
    let same : b / price ≡ balance = ground arith in le_div_mul n b price (omega arith)
Affords-buy price balance n true (refuses r) h le = cc
Affords-buy price balance n true raises h le = cc

Affords-sell :
    (price balance n : ℕ) (known : Bool) (t : Try (Option ℕ))
    → (if known then (t >>= λ b. gives (per_price sell price b)) else gives none)
      ≡ gives (some balance)
    → n ≤ balance
    → Affords sell price t n
Affords-sell price balance n false t h le = cc
Affords-sell price balance n true (gives none) h le = cc
Affords-sell price balance n true (gives (some b)) h le =
    let same : b ≡ balance = ground arith in omega arith
Affords-sell price balance n true (refuses r) h le = cc
Affords-sell price balance n true raises h le = cc

affordable :
    (m : Market) (side : Side) (price balance n : ℕ)
    → balance_cap_quantity m side price ≡ gives (some balance)
    → n ≤ balance
    → Affords side price m.free_balance n
unfolding balance_cap_quantity
affordable m buy price balance n h le =
    Affords-buy price balance n (known_asset buy price m.has_asset) m.free_balance h le
affordable m sell price balance n h le =
    Affords-sell price balance n (known_asset sell price m.has_asset) m.free_balance h le
affordable m bad_side price balance n h le = cc

as_asked :
    (asked : Wanted) (requested : Option ℕ) (n : ℕ)
    → requested_of asked ≡ gives requested
    → Below requested n
    → AsksFor asked n
as_asked unlimited requested n e h = tt
as_asked not_finite requested n e h = cc
as_asked (wanted most) requested n e h =
    let same : some most ≡ requested = cc in subst (λ r. Below r n) (sym same) h

-- Every decision on a positive quantity keeps all the bounds.
pub decide_quantity-IsDecided :
    (m : Market) (side : Side) (price : ℕ) (asked : Wanted) (apply : Bool) (d : Decision)
    → decide_quantity m side price asked apply ≡ gives d
    → 0 < d.final_qty
    → IsDecided m side price asked apply d
unfolding decide_quantity
decide_quantity-IsDecided m side price asked apply d h positive =
    by_asked (requested_of asked) refl h
  where
    by_balance :
        (requested : Option ℕ)
        → requested_of asked ≡ gives requested
        → (t : Try (Option ℕ)) → balance_cap_quantity m side price ≡ t
        → (t >>= under_balance m apply requested) ≡ gives d
        → IsDecided m side price asked apply d
    by_balance requested e (gives none) f g = absurd (unfold under_balance in ground arith)
    by_balance requested e (gives (some balance)) f g =
        let bounds : IsBounded m apply requested balance d =
          under_balance-IsBounded m apply requested balance d g positive in
        record {
          requested = requested;
          balance = balance;
          as_asked = as_asked asked requested d.final_qty e bounds.as_requested;
          affordable = affordable m side price balance d.final_qty f bounds.in_balance;
          same_request = e;
          same_balance = f;
          bounded = bounds;
        }
    by_balance requested e (refuses r) f g = cc
    by_balance requested e raises f g = cc

    by_asked :
        (t : Try (Option ℕ))
        → requested_of asked ≡ t
        → (t >>= λ r. balance_cap_quantity m side price >>= under_balance m apply r) ≡ gives d
        → IsDecided m side price asked apply d
    by_asked (gives requested) e g =
        by_balance requested e (balance_cap_quantity m side price) refl g
    by_asked (refuses r) e g = cc
    by_asked raises e g = cc
