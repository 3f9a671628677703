-- ===== src/Filters/Steps.antt =====
-- A number that is checked, rounded down to a step and held against limits (providers/binance_filters.py).
use binance.Base.{
  ℕ, ◌+◌, ◌*◌, ◌/◌, ◌≤◌, ◌<◌, ◌≡◌, refl, sym, ap, ◌∙◌, subst, Bool, true, false, inl, inr, ◌⊎◌,
  arith, ◌==◌, if◌then◌else◌, Bool-cases,
}
use native.Mathlib.Nat.{div-mul-le_self, lt-div-mul-add, mul-div_cancel}
use binance.Filters.Rules.{
  Number, malformed, number, Name, FilterError, Checked, ok, error, ◌>>=◌, decimal,
}
use binance.Filters.Normalize.{floor_step, within, stepped}

pub bind-ok :
    {A B : Type 0} (m : Checked A) (f : A → Checked B) {b : B}
    → (m >>= f) ≡ ok b
    → (a : A) × (m ≡ ok a) × (f a ≡ ok b)
bind-ok (ok a) f h = (a, refl, h)
bind-ok (error e) f h = absurd (cc)

pub pos→not_zero : {x : ℕ} → 0 < x → (x == 0) ≡ false
pos→not_zero h = ground arith

-- What has succeeded where a number is checked, floored by `f` and tested by `g`.
checks-ok :
    (zero_number zero_step : Bool) (f : ℕ → ℕ) (g : ℕ → Bool) (n : ℕ) (e1 e2 e3 : FilterError)
    {q : ℕ}
    → ((if zero_number then error e1 else ok n) >>= λ asked.
        ((if zero_step then error e2 else ok (f asked)) >>= λ floored.
        (if g floored then ok floored else error e3)))
      ≡ ok q
    → (zero_step ≡ false) × (g (f n) ≡ true) × (f n ≡ q)
checks-ok true zero_step f g n e1 e2 e3 h = absurd (cc)
checks-ok false true f g n e1 e2 e3 h = absurd (cc)
checks-ok false false f g n e1 e2 e3 h = elim (Bool-cases (g (f n))) [
  | inl good ↦ (refl, good, by_test e3 h good)
  | inr bad ↦ absurd (by_failure e3 (f n) h bad)
]
  where
    by_test :
        (e : FilterError) {q x : ℕ} {b : Bool}
        → (if b then ok x else error e) ≡ ok q
        → b ≡ true
        → x ≡ q
    by_test e {b = true} h good = cc
    by_test e {b = false} h good = absurd (cc)

    by_failure :
        (e : FilterError) (x : ℕ) {q : ℕ} {b : Bool}
        → (if b then ok x else error e) ≡ ok q
        → b ≡ false
        → ⊥
    by_failure e x {b = true} h bad = cc
    by_failure e x {b = false} h bad = cc

-- `q` is `n` rounded down to a multiple of the step, and within the limits.
pub record IsStepped (step minimum maximum n q : ℕ) : Type 0 where
  pub no_more : q ≤ n
  pub nearest : n < q + step
  pub multiple : (k : ℕ) × (q ≡ k * step)
  pub positive : 0 < q
  pub at_least : minimum ≤ q
  pub at_most : (maximum ≡ 0) ⊎ (q ≤ maximum)

module _ (name : Name) (violates : FilterError) (step minimum maximum : ℕ) where
  floored-IsStepped :
      (n : ℕ)
      → 0 < step
      → within minimum maximum (n / step * step) ≡ true
      → IsStepped step minimum maximum n (n / step * step)
  floored-IsStepped n pos inside = record {
    no_more = div-mul-le_self n step;
    nearest = lt-div-mul-add pos;
    multiple = (n / step, refl);
    positive = ground arith;
    at_least = ground arith;
    at_most = ground arith;
  }

  pub stepped-IsStepped :
      (quantity : Number) {q : ℕ}
      → stepped name violates step minimum maximum quantity ≡ ok q
      → (n : ℕ) × (quantity ≡ number n) × IsStepped step minimum maximum n q
  unfolding stepped decimal floor_step
  stepped-IsStepped malformed e = absurd (cc)
  stepped-IsStepped (number n) e =
      let (has_step, inside, same) =
        checks-ok (n == 0) (step == 0) (λ x. x / step * step) (within minimum maximum) n _ _ _ e in
      (
        n,
        refl,
        subst (IsStepped step minimum maximum n) same (floored-IsStepped n (ground arith) inside),
      )

  pub stepped-idempotent :
      (n : ℕ) {q : ℕ}
      → IsStepped step minimum maximum n q
      → stepped name violates step minimum maximum (number q) ≡ ok q
  unfolding stepped decimal floor_step
  stepped-idempotent n {q} h =
      let has_step : 0 < step = step_positive h.no_more h.nearest in
      let fixed : q / step * step ≡ q =
        ap (λ x. x / step * step) h.multiple.1
        ∙ ap (λ x. x * step) (mul-div_cancel h.multiple.0 has_step)
        ∙ sym h.multiple.1 in
      let inside : within minimum maximum q ≡ true = within-true h.positive h.at_least h.at_most in
      rw (pos→not_zero h.positive, pos→not_zero has_step, fixed, inside) refl
    where
      step_positive : {n q : ℕ} → q ≤ n → n < q + step → 0 < step
      step_positive a b = omega arith

      within-true :
          {q : ℕ}
          → 0 < q
          → minimum ≤ q
          → (maximum ≡ 0) ⊎ (q ≤ maximum)
          → within minimum maximum q ≡ true
      within-true a b c = ground arith
