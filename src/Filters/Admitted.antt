-- ===== src/Filters/Admitted.antt =====
-- An order that `normalize` lets through obeys every filter, and is not changed by a second pass.
use binance.Base.{
  ℕ, ◌*◌, ◌≤◌, ◌<◌, ◌≡◌, refl, sym, ap, ◌∙◌, subst, Bool, true, false, ◌⊎◌, Option, none, some,
  arith,
}
use binance.Filters.Rules.{
  Number, malformed, number, Name, quantity_name, price_name, business_min_notional_name,
  quantity_violates, price_violates, Checked, ok, ◌>>=◌, decimal, Rules,
}
use binance.Filters.Normalize.{stepped, limit_price, notional_of, check_notional, normalize}
use binance.Filters.Steps.{bind-ok, pos→not_zero, IsStepped, stepped-IsStepped, stepped-idempotent}

-- A limit order as it leaves `normalize`: `least` is the least value that the caller asks for.
pub record IsAdmitted (r : Rules) (least asked_qty asked_price qty price : ℕ) : Type 0 where
  pub stepped_qty : IsStepped r.lot_step r.lot_min r.lot_max asked_qty qty
  pub stepped_price : IsStepped r.tick_size r.min_price r.max_price asked_price price
  pub worth_exchange : r.min_notional ≤ qty * price
  pub worth_caller : least ≤ qty * price
  pub not_above : (r.max_notional ≡ 0) ⊎ (qty * price ≤ r.max_notional)

check-limits :
    (r : Rules) (least value : ℕ) {done : Unit {0}}
    → check_notional r false least (some value) ≡ ok done
    → (r.min_notional ≤ value) × (least ≤ value) × ((r.max_notional ≡ 0) ⊎ (value ≤ r.max_notional))
unfolding check_notional
check-limits r least value h = ground arith

module _ (r : Rules) (business : Number) where
  -- What follows the checks of the notional, of the price, and of the quantity of a limit order.
  abbrev after_notional : ℕ → Option ℕ → Option ℕ → Checked (ℕ × Option ℕ)
  after_notional qty p notional = decimal business_min_notional_name true business >>= λ least.
      check_notional r false least notional >>= λ checked. ok (qty, p)

  abbrev after_price : ℕ → Option Number → Option ℕ → Checked (ℕ × Option ℕ)
  after_price qty reference p = notional_of qty p false reference >>= after_notional qty p

  abbrev after_qty : Option Number → Option Number → ℕ → Checked (ℕ × Option ℕ)
  after_qty price reference qty = limit_price r false price >>= after_price qty reference

  decimal-number :
      (name : Name) (zero_ok : Bool) (n : Number) {x : ℕ}
      → decimal name zero_ok n ≡ ok x
      → n ≡ number x
  unfolding decimal
  decimal-number name zero_ok malformed h = absurd (cc)
  decimal-number name zero_ok (number n) h = ground arith

  after_notional-limits :
      (qty value : ℕ) (p : Option ℕ) {q : ℕ} {p' : Option ℕ}
      → after_notional qty p (some value) ≡ ok (q, p')
      → (qty ≡ q)
        × (p ≡ p')
        × (least : ℕ) × (business ≡ number least)
        × (r.min_notional ≤ value)
        × (least ≤ value)
        × ((r.max_notional ≡ 0) ⊎ (value ≤ r.max_notional))
  after_notional-limits qty value p h =
      let (least, read, rest) =
        bind-ok (decimal business_min_notional_name true business)
          (λ least. check_notional r false least (some value) >>= λ checked. ok (qty, p)) h in
      let (done, passed, last) =
        bind-ok (check_notional r false least (some value)) (λ checked. ok (qty, p)) rest in
      let (exchange, caller, most) = check-limits r least value passed in
      (
        cc,
        cc,
        least,
        decimal-number business_min_notional_name true business read,
        exchange,
        caller,
        most,
      )

  limit_price-IsStepped :
      (price : Option Number) {p : Option ℕ}
      → limit_price r false price ≡ ok p
      → (asked x : ℕ) × (price ≡ some (number asked))
        × (p ≡ some x)
        × IsStepped r.tick_size r.min_price r.max_price asked x
  unfolding limit_price stepped decimal
  limit_price-IsStepped none h = absurd (cc)
  limit_price-IsStepped (some price) h =
      let (x, read, last) =
        bind-ok (stepped price_name price_violates r.tick_size r.min_price r.max_price price)
          (λ x. ok (some x)) h in
      let (asked, same, good) =
        stepped-IsStepped price_name price_violates r.tick_size r.min_price r.max_price price
          read in
      (asked, x, ap some same, cc, good)

  after_price-positive :
      (qty x : ℕ) (reference : Option Number)
      → 0 < x
      → after_price qty reference (some x) ≡ after_notional qty (some x) (some (qty * x))
  unfolding notional_of decimal
  after_price-positive qty x reference pos = rw (pos→not_zero pos) refl

  after_price-limits :
      (qty x : ℕ) (reference : Option Number) {q : ℕ} {p : Option ℕ}
      → 0 < x
      → after_price qty reference (some x) ≡ ok (q, p)
      → (qty ≡ q)
        × (some x ≡ p)
        × (least : ℕ) × (business ≡ number least)
        × (r.min_notional ≤ qty * x)
        × (least ≤ qty * x)
        × ((r.max_notional ≡ 0) ⊎ (qty * x ≤ r.max_notional))
  after_price-limits qty x reference pos h =
      after_notional-limits qty (qty * x) (some x)
        (sym (after_price-positive qty x reference pos) ∙ h)

-- Where `normalize` lets a limit order through, its quantity and its price are the requested ones rounded
-- down to their steps and within their limits, and its value is at least the minimum of the exchange and
-- that of the caller, and at most the maximum of the exchange, if there is one.
pub normalize-IsAdmitted :
    (r : Rules) (quantity : Number) (price reference : Option Number) (business : Number) {q : ℕ}
    {p : Option ℕ}
    → normalize r quantity price false reference business ≡ ok (q, p)
    → (n least asked x : ℕ) × (quantity ≡ number n)
      × (business ≡ number least)
      × (price ≡ some (number asked))
      × (p ≡ some x)
      × IsAdmitted r least n asked q x
unfolding normalize
normalize-IsAdmitted r quantity price reference business {q} {p} h =
    let (qty, step_read, h1) =
      bind-ok (stepped quantity_name quantity_violates r.lot_step r.lot_min r.lot_max quantity)
        (after_qty r business price reference) h in
    let (n, same_n, stepped_n) =
      stepped-IsStepped quantity_name quantity_violates r.lot_step r.lot_min r.lot_max quantity
        step_read in
    let (found, price_read, h2) =
      bind-ok (limit_price r false price) (after_price r business qty reference) h1 in
    let (asked, x, same_p, is_x, stepped_p) = limit_price-IsStepped r business price price_read in
    let (same_q, kept_p, least, same_b, exchange, caller, most) =
      after_price-limits r business qty x reference stepped_p.positive
        (subst (λ o. after_price r business qty reference o ≡ ok (q, p)) is_x h2) in
    (
      n,
      least,
      asked,
      x,
      same_n,
      same_b,
      same_p,
      sym kept_p,
      subst (λ z. IsAdmitted r least n asked z x) same_q
          (record {
            stepped_qty = stepped_n;
            stepped_price = stepped_p;
            worth_exchange = exchange;
            worth_caller = caller;
            not_above = most;
          }),
    )

check-passed :
    (r : Rules) (least value : ℕ)
    → r.min_notional ≤ value
    → least ≤ value
    → (r.max_notional ≡ 0) ⊎ (value ≤ r.max_notional)
    → check_notional r false least (some value) ≡ ok tt
unfolding check_notional
check-passed r least value exchange caller most = ground arith

-- An order whose quantity and price have their steps and limits, and whose value is within the bounds of
-- exchange and caller, is let through as a limit order, with both unchanged, at any reference price.
pub normalize-idempotent :
    (r : Rules) (reference : Option Number) (least n asked q x : ℕ)
    → IsAdmitted r least n asked q x
    → normalize r (number q) (some (number x)) false reference (number least) ≡ ok (q, some x)
unfolding normalize limit_price
normalize-idempotent r reference least n asked q x h =
    rw
      (
        stepped-idempotent quantity_name quantity_violates r.lot_step r.lot_min r.lot_max n
            h.stepped_qty,
        stepped-idempotent price_name price_violates r.tick_size r.min_price r.max_price asked
            h.stepped_price,
      )
      (after_price-positive r (number least) q x reference h.stepped_price.positive
        ∙ unfold decimal in
          rw (check-passed r least (q * x) h.worth_exchange h.worth_caller h.not_above) refl)
