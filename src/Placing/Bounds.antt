-- ===== src/Placing/Bounds.antt =====
-- The guards (order_guard.py) in numbers.
use binance.Base.{
  ℕ, ◌+◌, ◌-◌, ◌*◌, ◌/◌, ◌≤◌, ◌<◌, ◌≡◌, subst, arith, true, false, Option, none, some, List, [],
  ◌∷◌, max, any, length, ◌==◌, if◌then◌else◌, All, inl, inr, Bool-cases, ◌⊎◌,
}
use binance.Outbox.Types.{Side, buy, sell, bad_side, million}
use binance.Placing.Guard.{
  is_below, profit_guard, within, is_recent, daily_limit_guard, remaining_qty, at_most,
}

-- A purchase costs less than the reference by the margin of the reference, a sale earns more by the margin of
-- its own price.
abbrev pub IsProfitable : Side → ℕ → ℕ → ℕ → Type 0
IsProfitable buy price margin ref = margin * ref + price * million ≤ ref * million
IsProfitable side price margin ref = margin * price + ref * million ≤ price * million

-- A reference that is known and not 0 has been kept, unless the price is 0.
abbrev pub IsProfit : Side → ℕ → ℕ → Option ℕ → Type 0
IsProfit side price margin none = Unit
IsProfit side price margin (some ref) =
    (ref ≡ 0) ⊎ ((price ≡ 0) ⊎ IsProfitable side price margin ref)

pub profit_guard-IsProfit :
    (side : Side) (price margin : ℕ) (ref : Option ℕ)
    → profit_guard side price margin ref ≡ true
    → IsProfit side price margin ref
unfolding profit_guard is_below
profit_guard-IsProfit side price margin none h = tt
profit_guard-IsProfit buy price margin (some ref) h = ground arith
profit_guard-IsProfit sell price margin (some ref) h = ground arith
profit_guard-IsProfit bad_side price margin (some ref) h = ground arith

-- The trades of the window are at most the daily number on each of its days, the last day counted whole, and
-- none of them is recent.
abbrev pub IsOld : ℕ → ℕ → Option ℕ → Type 0
IsOld now seconds none = Unit
IsOld now seconds (some time) = time + seconds * 1_000 < now

pub IsOld-any :
    (now seconds : ℕ) (trades : List (Option ℕ))
    → any (is_recent now seconds) trades ≡ false
    → All (IsOld now seconds) trades
IsOld-any now seconds [] h = tt
IsOld-any now seconds (none ∷ ts) h = (tt, IsOld-any now seconds ts h)
IsOld-any now seconds (some t ∷ ts) h = (ground arith, IsOld-any now seconds ts (ground arith))

pub daily_limit_guard-within :
    (most window seconds now : ℕ) (trades : List (Option ℕ))
    → daily_limit_guard most window seconds now trades ≡ within
    → (length trades ≤ most * max ((window + 86_399) / 86_400) 1) × All (IsOld now seconds) trades
unfolding daily_limit_guard
daily_limit_guard-within most window seconds now trades h =
    let few : length trades ≤ most * max ((window + 86_399) / 86_400) 1 = ground arith in
    let old : any (is_recent now seconds) trades ≡ false = ground arith in
    (few, IsOld-any now seconds trades old)

pub le_div_mul : (q n d : ℕ) → q ≤ n / d → q * d ≤ n
le_div_mul q n d h = grind arith

pub at_most_le : (bound : Option ℕ) (n : ℕ) → at_most bound n ≤ n
at_most_le none n = omega arith
at_most_le (some m) n = omega arith

share_le :
    (q value share price : ℕ)
    → 0 < q
    → 0 < price
    → q * (price * million) ≤ share - value * million
    → (value + q * price) * million ≤ share
share_le q value share price h p fits =
    let some_share : 1 * (1 * million) ≤ q * (price * million) = grind arith in grind arith

pub remaining_qty_le :
    (q weight value available price : ℕ)
    → 0 < q
    → q ≤ remaining_qty weight value available price
    → (value + q * price) * million ≤ (value + available * price) * weight
remaining_qty_le q weight value available price h fits = elim (Bool-cases (price == 0)) [
  | inl free ↦ absurd (
      let nothing : q ≤ 0 =
        subst
          (λ b. q ≤ (
            if b
            then 0
            else ((value + available * price) * weight - value * million) / (price * million)))
          free fits in
      omega arith)
  | inr priced ↦ share_le q value ((value + available * price) * weight) price h (ground arith) (
      le_div_mul q ((value + available * price) * weight - value * million) (price * million) (
        subst
          (λ b. q ≤ (
            if b
            then 0
            else ((value + available * price) * weight - value * million) / (price * million)))
          priced fits))
]
