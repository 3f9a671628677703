-- ===== src/Placing/Guarded.antt =====
-- The guards of `Instrument.place` (instrument.py) before the decision on the quantity.
use binance.Base.{
  ℕ, ◌+◌, ◌*◌, ◌/◌, ◌≤◌, ◌<◌, ◌≡◌, refl, subst, arith, Bool, true, false, Option, none, some, List,
  if◌then◌else◌, max, length, All,
}
use binance.Outbox.Types.{Side}
use binance.Worker.Effects.{Refusal}
use binance.Placing.Types
use binance.Placing.Types.{Try, gives, refuses, raises, ◌>>=◌, ◌>>◌, require, is_buy}
use binance.Placing.Guard.{profit_guard}
use binance.Placing.Bounds.{IsProfit, IsOld, profit_guard-IsProfit, daily_limit_guard-within}
use binance.Placing.Setting.{Call, Setting}
use binance.Placing.Checks.{
  Priced, quoted, when, checks_profit, check_profit, check_limit, before_price, priced_at,
  quantity_price_at, with_reference, reference, with_trades, with_price, check_price,
}

pub bind-gives :
    {A B : Type 0} (m : Try A) (f : A → Try B) (b : B)
    → (m >>= f) ≡ gives b
    → (a : A) × (m ≡ gives a) × (f a ≡ gives b)
bind-gives (gives a) f b h = (a, refl, h)
bind-gives (refuses r) f b h = cc
bind-gives raises f b h = cc

pub then-gives :
    {B : Type 0} (m : Try (Unit {0})) (k : Try B) (b : B)
    → (m >> k) ≡ gives b
    → (m ≡ gives tt) × (k ≡ gives b)
then-gives (gives tt) k b h = (refl, h)
then-gives (refuses r) k b h = cc
then-gives raises k b h = cc

pub when-gives :
    (b : Bool) (m : Try (Unit {0})) (u : Unit {0}) → when b m ≡ gives u → b ≡ true → m ≡ gives u
when-gives true m u h e = h
when-gives false m u h e = cc

pub required-gives :
    (t : Try Bool) (r : Refusal) → (t >>= λ b. require b r) ≡ gives tt → t ≡ gives true
required-gives (gives true) r h = refl
required-gives (gives false) r h = cc
required-gives (refuses x) r h = cc
required-gives raises r h = cc

pub require-gives : (b : Bool) (r : Refusal) (u : Unit {0}) → require b r ≡ gives u → b ≡ true
require-gives true r u h = refl
require-gives false r u h = cc

pub quoted-gives :
    (t : Try (Option ℕ)) (q : ℕ) → (t >>= quoted) ≡ gives q → (t ≡ gives (some q)) × (0 < q)
quoted-gives (gives none) q h = cc
quoted-gives (gives (some n)) q h = ground arith
quoted-gives (refuses r) q h = cc
quoted-gives raises q h = cc

-- The reference is that of the window, or else the last opposite fill; where neither is known there is none.
abbrev pub Reference : Try (Option ℕ) → Try (Option ℕ) → Option ℕ → Type 0
Reference (gives (some r)) fill ref = ref ≡ some r
Reference (gives none) fill ref = fill ≡ gives ref
Reference _ fill ref = ⊥

-- The price keeps the margin to its reference.
abbrev pub Profits : Side → ℕ → ℕ → Try (Option ℕ) → Try (Option ℕ) → Type 0
Profits side price margin window fill =
    (ref : Option ℕ) × Reference window fill ref × IsProfit side price margin ref

module _ (s : Setting) (c : Call) where
  -- The trades of the day are few enough, and old enough.
  abbrev pub IsSpread : Try (List (Option ℕ)) → Type 0
  IsSpread (gives trades) =
      (length trades ≤ s.most_trades * max ((s.window + 86_399) / 86_400) 1)
      × All (IsOld s.trades_at s.recent_seconds) trades
  IsSpread _ = ⊥

  pub check_profit-Profits :
      (price : ℕ) (ref : Option ℕ) (window fill : Try (Option ℕ)) (u : Unit {0})
      → window ≡ gives ref
      → check_profit s c price ref fill ≡ gives u
      → Profits c.side price s.margin window fill
  check_profit-Profits price (some r) window fill u e h =
      let passed : profit_guard c.side price s.margin (some r) ≡ true =
        require-gives (profit_guard c.side price s.margin (some r)) Types.profit_refused u h in
      rw e (some r, refl, profit_guard-IsProfit c.side price s.margin (some r) passed)
  check_profit-Profits price none window fill u e h =
      let (ref, known, h1) =
        bind-gives fill
          (λ (r : Option ℕ). require (profit_guard c.side price s.margin r) Types.profit_refused) u
          h in
      let passed : profit_guard c.side price s.margin ref ≡ true =
        require-gives (profit_guard c.side price s.margin ref) Types.profit_refused u h1 in
      rw e (ref, known, profit_guard-IsProfit c.side price s.margin ref passed)

  check_limit-IsSpread :
      (trades : List (Option ℕ)) (u : Unit {0})
      → check_limit s c trades ≡ gives u
      → IsSpread (gives trades)
  check_limit-IsSpread trades u h =
      daily_limit_guard-within s.most_trades s.window s.recent_seconds s.trades_at trades
        (ground arith)

  -- What the guards before the decision have made sure of.
  pub record IsPriced (p : Priced) : Type 0 where
    pub ready : before_price s c ≡ gives tt
    pub at_price : (if c.smart then s.adjusted else gives c.price) ≡ gives p.price
    pub spread : IsSpread s.trades
    pub windowed : checks_profit s c ≡ true → s.window_ref ≡ gives p.window_ref
    pub profitable :
        checks_profit s c ≡ true → Profits c.side p.price s.margin s.window_ref s.first_fill
    pub quoted_at :
        c.market ≡ true → (s.quote ≡ gives (some p.quantity_price)) × (0 < p.quantity_price)
    pub limit_at : c.market ≡ false → p.quantity_price ≡ p.price

  pub check_price-IsPriced : (p : Priced) → check_price s c ≡ gives p → IsPriced p
  unfolding check_price
  check_price-IsPriced p h =
      let (u, ready, h1) =
        bind-gives (before_price s c)
          (λ (x : Unit {0}). (if c.smart then s.adjusted else gives c.price) >>= with_price s c) p
          h in
      let (price, adjusted, h2) =
        bind-gives (if c.smart then s.adjusted else gives c.price) (with_price s c) p h1 in
      let (trades, read, h3) = bind-gives s.trades (with_trades s c price) p h2 in
      let (v, limited, h4) =
        bind-gives (check_limit s c trades)
          (λ (x : Unit {0}). reference s c >>= with_reference s c price) p h3 in
      let (ref, window, h5) = bind-gives (reference s c) (with_reference s c price) p h4 in
      let (z, guarded, h6) =
        bind-gives (when (checks_profit s c) (check_profit s c price ref s.first_fill))
          (λ (x : Unit {0}). quantity_price_at s c price >>= priced_at s c price ref) p h5 in
      let (quote, found, h7) =
        bind-gives (quantity_price_at s c price) (priced_at s c price ref) p h6 in
      let same : record { price = price; quantity_price = quote; window_ref = ref } ≡ p =
        ground arith in
      subst IsPriced same (record {
        ready = ready;
        at_price = adjusted;
        spread = rw read (check_limit-IsSpread trades v limited);
        windowed = λ on. in_window on ref window;
        profitable = λ on.
            check_profit-Profits price ref s.window_ref s.first_fill z (in_window on ref window)
              (subst (λ b. when b (check_profit s c price ref s.first_fill) ≡ gives z) on guarded);
        quoted_at = λ on.
            quoted-gives s.quote quote (
              subst (λ b. (if b then (s.quote >>= quoted) else gives price) ≡ gives quote) on
                found);
        limit_at = λ off.
            let plain : gives price ≡ gives quote =
              subst (λ b. (if b then (s.quote >>= quoted) else gives price) ≡ gives quote) off
                found in
            ground arith;
      })
    where
      in_window :
          checks_profit s c ≡ true
          → (ref : Option ℕ) → reference s c ≡ gives ref
          → s.window_ref ≡ gives ref
      in_window on ref window =
          subst (λ b. (if b then s.window_ref else gives none) ≡ gives ref) on window
