-- ===== src/Filters/Market.antt =====
-- Market orders that `normalize` (providers/binance_filters.py) lets through.
use binance.Base.{ℕ, ◌*◌, ◌≤◌, ◌≡◌, refl, subst, true, inl, inr, ◌⊎◌, Option, none, some, arith}
use binance.Filters.Rules.{
  Number, malformed, number, quantity_name, business_min_notional_name, quantity_violates, ok,
  ◌>>=◌, decimal, Rules,
}
use binance.Filters.Normalize.{stepped, limit_price, notional_of, check_notional, normalize}
use binance.Filters.Steps.{bind-ok, IsStepped, stepped-IsStepped}

-- The caller asks for no least value, or there is a reference price at which the order reaches it.
abbrev pub IsWorth : ℕ → ℕ → Option Number → Type 0
IsWorth least qty reference =
    (least ≡ 0) ⊎ ((price : ℕ) × (reference ≡ some (number price)) × (least ≤ qty * price))

check-nothing :
    (r : Rules) (least : ℕ) {done : Unit {0}}
    → check_notional r true least none ≡ ok done
    → least ≡ 0
unfolding check_notional
check-nothing r least h = ground arith

check-value :
    (r : Rules) (least value : ℕ) {done : Unit {0}}
    → check_notional r true least (some value) ≡ ok done
    → least ≤ value
unfolding check_notional
check-value r least value h = ground arith

worth :
    (r : Rules) (qty least : ℕ) (reference : Option Number) {v : Option ℕ} {done : Unit {0}}
    → notional_of qty none true reference ≡ ok v
    → check_notional r true least v ≡ ok done
    → IsWorth least qty reference
unfolding notional_of decimal
worth r qty least none {v} {done} read h =
    let same : none ≡ v = cc in inl (check-nothing r least {done = done} (rw same h))
worth r qty least (some malformed) read h = absurd (cc)
worth r qty least (some (number n)) {v} {done} read h =
    let same : some (qty * n) ≡ v = ground arith in
    inr (n, refl, check-value r least (qty * n) {done = done} (rw same h))

decimal-is : (n : Number) {x : ℕ} → decimal business_min_notional_name true n ≡ ok x → n ≡ number x
unfolding decimal
decimal-is malformed h = absurd (cc)
decimal-is (number n) h = ground arith

-- Where `normalize` lets a market order through, it has no price, its quantity is the requested one rounded
-- down to the market step and within the market limits, and if the caller asks for a least value, there is
-- a reference price at which the order reaches it.
pub normalize-IsWorth :
    (r : Rules) (quantity : Number) (price reference : Option Number) (business : Number) {q : ℕ}
    {p : Option ℕ}
    → normalize r quantity price true reference business ≡ ok (q, p)
    → (n least : ℕ) × (quantity ≡ number n)
      × (business ≡ number least)
      × (p ≡ none)
      × IsStepped r.market_step r.market_min r.market_max n q
      × IsWorth least q reference
unfolding normalize limit_price
normalize-IsWorth r quantity price reference business {q} {p} h =
    let (qty, step_read, h1) =
      bind-ok
        (stepped quantity_name quantity_violates r.market_step r.market_min r.market_max quantity)
        (λ qty. notional_of qty none true reference >>= λ v.
          (decimal business_min_notional_name true business >>= λ least.
          (check_notional r true least v >>= λ checked. ok (qty, none))))
        h in
    let (n, same_n, stepped_n) =
      stepped-IsStepped quantity_name quantity_violates r.market_step r.market_min r.market_max
        quantity step_read in
    let (v, valued, h2) =
      bind-ok (notional_of qty none true reference)
        (λ v. decimal business_min_notional_name true business >>= λ least.
          (check_notional r true least v >>= λ checked. ok (qty, none)))
        h1 in
    let (least, read, h3) =
      bind-ok (decimal business_min_notional_name true business)
        (λ least. check_notional r true least v >>= λ checked. ok (qty, none)) h2 in
    let (done, passed, last) =
      bind-ok (check_notional r true least v) (λ checked. ok (qty, none)) h3 in
    let same : qty ≡ q = cc in
    (
      n,
      least,
      same_n,
      decimal-is business read,
      cc,
      subst (IsStepped r.market_step r.market_min r.market_max n) same stepped_n,
      subst (λ z. IsWorth least z reference) same
          (worth r qty least reference {v = v} {done = done} valued passed),
    )
