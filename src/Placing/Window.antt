-- ===== src/Placing/Window.antt =====
-- `profit_guard` against the reference of a window of trades (order_guard.py).
use binance.Base.{
  ℕ, ◌+◌, ◌-◌, ◌*◌, ◌≤◌, ◌<◌, ◌≡◌, ◌≢◌, refl, subst, arith, true, false, none, some, List, [], ◌∷◌,
  min, max, keep_if, ltb, leb, ◌==◌, if◌then◌else◌, Has, Has-keep_if, lt→ltb, inl, inr, Bool-cases,
  Option-cases,
}
use binance.Outbox.Types.{Side, buy, sell, bad_side, million}
use binance.Placing.Types.{is_buy}
use binance.Placing.Guard.{is_below, profit_guard, lowest, highest, window_reference}
use binance.Placing.Bounds.{IsProfitable}

lowest_le : (p : ℕ) (ps : List ℕ) → Has p ps → (q : ℕ) × (lowest ps ≡ some q) × (q ≤ p)
lowest_le p [] h = absurd h
lowest_le p (x ∷ xs) (inl here) = elim (Option-cases (lowest xs)) [
  | inl nothing ↦ (x, rw nothing refl, omega arith)
  | inr (q, e) ↦ (min x q, rw e refl, omega arith)
]
lowest_le p (x ∷ xs) (inr further) =
    let (q, e, le) = lowest_le p xs further in (min x q, rw e refl, omega arith)

highest_le : (p : ℕ) (ps : List ℕ) → Has p ps → (q : ℕ) × (highest ps ≡ some q) × (p ≤ q)
highest_le p [] h = absurd h
highest_le p (x ∷ xs) (inl here) = elim (Option-cases (highest xs)) [
  | inl nothing ↦ (x, rw nothing refl, omega arith)
  | inr (q, e) ↦ (max x q, rw e refl, omega arith)
]
highest_le p (x ∷ xs) (inr further) =
    let (q, e, le) = highest_le p xs further in (max x q, rw e refl, omega arith)

lowest_positive : (ps : List ℕ) (q : ℕ) → lowest (keep_if (λ p. ltb 0 p) ps) ≡ some q → 0 < q
lowest_positive [] q h = absurd (ground arith)
lowest_positive (x ∷ xs) q h = elim (Bool-cases (ltb 0 x)) [
  | inr zero_price ↦ lowest_positive xs q (
      subst
        (λ b.
          lowest (if b then x ∷ keep_if (λ p. ltb 0 p) xs else keep_if (λ p. ltb 0 p) xs) ≡ some q)
        zero_price h)
  | inl paid ↦ elim (Option-cases (lowest (keep_if (λ p. ltb 0 p) xs))) [
    | inl nothing ↦ ground arith
    | inr (r, e) ↦ ground (arith, lowest_positive xs r e)
  ]
]

mul_le : (a b c : ℕ) → a ≤ b → a * c ≤ b * c
mul_le a b c h = grind arith

-- A margin that a purchase at a positive price keeps is less than the whole.
margin_le :
    (price margin ref : ℕ)
    → 0 < price
    → margin * ref + price * million ≤ ref * million
    → margin ≤ million
margin_le price margin ref paid h = elim (Bool-cases (leb margin million)) [
  | inl le ↦ ground arith
  | inr more ↦
      let over_ref : million * ref ≤ margin * ref = mul_le million margin ref (ground arith) in
      absurd (omega arith)
]

-- A price that keeps the margin to a reference keeps it to one that is better for the order.
IsProfitable-mono :
    (price margin ref other : ℕ)
    → 0 < price
    → ref ≤ other
    → IsProfitable buy price margin ref
    → IsProfitable buy price margin other
IsProfitable-mono price margin ref other paid le h =
    let more : margin * (other - ref) ≤ million * (other - ref) =
      mul_le margin million (other - ref) (margin_le price margin ref paid h) in
    let split : margin * other ≡ margin * ref + margin * (other - ref) = grind arith in
    let same : other ≡ ref + (other - ref) = omega arith in omega arith

profit_guard-IsProfitable :
    (side : Side) (price margin ref : ℕ)
    → profit_guard side price margin (some ref) ≡ true
    → 0 < price
    → 0 < ref
    → IsProfitable side price margin ref
unfolding profit_guard is_below
profit_guard-IsProfitable buy price margin ref h paid known = ground arith
profit_guard-IsProfitable sell price margin ref h paid known = ground arith
profit_guard-IsProfitable bad_side price margin ref h paid known = ground arith

-- An order that the guard lets through against the reference of a window keeps the margin to every price of the
-- other side in that window.
pub profit_guard-window_reference :
    (side : Side) (price margin window : ℕ) (prices : List ℕ) (p : ℕ)
    → profit_guard side price margin (window_reference side window prices) ≡ true
    → 0 < price
    → window ≢ 0
    → Has p prices
    → 0 < p
    → IsProfitable side price margin p
unfolding window_reference
profit_guard-window_reference side price margin window prices p h paid open_window there positive =
    by_side side known
  where
    kept : List ℕ
    kept = keep_if (λ x. ltb 0 x) prices

    in_kept : Has p kept
    in_kept = Has-keep_if (λ x. ltb 0 x) p prices (lt→ltb 0 p positive) there

    known :
        profit_guard side price margin (if is_buy side then lowest kept else highest kept) ≡ true
    known =
        let off : (window == 0) ≡ false = ground arith in
        subst
          (λ b.
            profit_guard side price margin
              (if b then none else if is_buy side then lowest kept else highest kept)
            ≡ true)
          off h

    by_highest :
        (x : Side)
        → profit_guard x price margin (highest kept) ≡ true
        → (q : ℕ) × (p ≤ q) × (profit_guard x price margin (some q) ≡ true)
    by_highest x g =
        let (q, e, le) = highest_le p kept in_kept in
        (q, le, subst (λ o. profit_guard x price margin o ≡ true) e g)

    by_side :
        (x : Side)
        → profit_guard x price margin (if is_buy x then lowest kept else highest kept) ≡ true
        → IsProfitable x price margin p
    by_side buy g =
        let (q, e, le) = lowest_le p kept in_kept in
        IsProfitable-mono price margin q p paid le (
          profit_guard-IsProfitable buy price margin q
            (subst (λ o. profit_guard buy price margin o ≡ true) e g) paid
            (lowest_positive prices q e))
    by_side sell g =
        let (q, le, g2) = by_highest sell g in
        let best : IsProfitable sell price margin q =
          profit_guard-IsProfitable sell price margin q g2 paid (omega arith) in
        omega arith
    by_side bad_side g =
        let (q, le, g2) = by_highest bad_side g in
        let best : IsProfitable bad_side price margin q =
          profit_guard-IsProfitable bad_side price margin q g2 paid (omega arith) in
        omega arith
