-- ===== src/Placing/Dispatched.antt =====
-- The guards of `Instrument.place` (instrument.py) that passed: the account, the permit, and the quote of the
-- dispatch.
use binance.Base.{
  ℕ, ◌<◌, ◌≡◌, ◌≢◌, refl, subst, arith, Bool, true, false, not, ◌&&◌, ◌||◌, Option, none, some,
  if◌then◌else◌, Bool-cases, inl, inr, is_some,
}
use binance.Outbox.Types.{price_unfavorable}
use binance.Worker.Effects.{reason_is}
use binance.Placing.Types
use binance.Placing.Types.{Try, gives, refuses, raises, ◌>>=◌, ◌>>◌, require, is_buy}
use binance.Placing.Setting.{Call, Setting}
use binance.Placing.Checks.{
  Priced, quoted, when, checks_profit, check_profit, take_permit, check_dispatch, check_favorable,
  check_enabled, before_price, check_constraint, fresh, is_favorable,
}
use binance.Placing.Guarded.{
  bind-gives, require-gives, quoted-gives, Profits, IsPriced, check_profit-Profits, then-gives,
  when-gives, required-gives,
}
use binance.Placing.Place.{gate, first_gate, Verdict}

module _ (s : Setting) (c : Call) where
  -- A market order keeps the margin at the quote of its dispatch.
  abbrev pub IsDispatchable : Try (Option ℕ) → Type 0
  IsDispatchable (gives (some quote)) =
      (0 < quote) × Profits c.side quote s.margin s.window_ref s.last_fill
  IsDispatchable _ = ⊥

  -- The state of the account, or the venue's own check, before the price is worked out.
  pub record IsPrepared : Type 0 where
    pub constrained : c.constraint ≢ some none
    pub own_permit : (s.is_binance && c.smart && c.has_permit) ≡ false
    pub prepared : (s.is_binance && not c.has_permit) ≡ true → s.prepared ≡ gives true
    pub preflight : not s.is_binance ≡ true → s.preflight ≡ gives tt

  -- The permit of the dispatch, where the call has brought none.
  abbrev pub IsPermitted : Type 0
  IsPermitted =
      (s.is_binance && not c.has_permit) ≡ true → (s.permit ≡ gives true) × (s.validated ≡ gives tt)

  -- The price of a retry at the quote of the dispatch.
  abbrev pub IsFavorable : Type 0
  IsFavorable =
      c.market ≡ true
      → (requested tolerance : ℕ) → c.constraint ≡ some (some (requested, tolerance))
      → (quote : ℕ) × (s.last_quote ≡ gives (some quote))
        × (is_favorable s c requested tolerance quote ≡ true)

  pub check_enabled-gives :
      (t : Try Bool) (u : Unit {0}) → check_enabled s c t ≡ gives u → t ≡ gives true
  check_enabled-gives (gives true) u h = refl
  check_enabled-gives (gives false) u h = cc
  check_enabled-gives (refuses r) u h = cc
  check_enabled-gives raises u h = cc

  gate-gives : (t : Try Bool) → gate s c t ≡ none → t ≡ gives true
  gate-gives (gives true) h = refl
  gate-gives (gives false) h = cc
  gate-gives (refuses r) h = cc
  gate-gives raises h = cc

  pub first_gate-gives : first_gate s c ≡ none → s.enabled_first ≡ gives true
  first_gate-gives h = elim (Bool-cases (c.has_permit && not s.is_binance)) [
    | inl odd ↦ absurd (ground arith)
    | inr even ↦ gate-gives s.enabled_first (
        subst
          (λ b.
            (if b
              then some (Verdict.turned_away Types.invalid_permit_provider)
              else gate s c s.enabled_first)
            ≡ none)
          even h)
  ]

  abbrev at_dispatch : Priced → ℕ → Try (Unit {0})
  at_dispatch p price =
      check_favorable s c c.constraint price
      >> when (checks_profit s c) (check_profit s c price p.window_ref s.last_fill)

  pub check_dispatch-IsDispatchable :
      (p : Priced) (u : Unit {0})
      → IsPriced s c p
      → check_dispatch s c p ≡ gives u
      → c.market ≡ true
      → checks_profit s c ≡ true
      → IsDispatchable s.last_quote
  check_dispatch-IsDispatchable p u priced h market profit =
      let due : (c.market && (checks_profit s c || is_some c.constraint)) ≡ true =
        rw (market, profit) refl in
      let body : ((s.last_quote >>= quoted) >>= at_dispatch p) ≡ gives u =
        subst (λ b. when b ((s.last_quote >>= quoted) >>= at_dispatch p) ≡ gives u) due h in
      let (quote, known, h1) = bind-gives (s.last_quote >>= quoted) (at_dispatch p) u body in
      let (z, favorable, h2) =
        bind-gives (check_favorable s c c.constraint quote)
          (λ (x : Unit {0}).
            when (checks_profit s c) (check_profit s c quote p.window_ref s.last_fill))
          u h1 in
      let (read, positive) = quoted-gives s.last_quote quote known in
      rw read (
        positive,
        check_profit-Profits s c quote p.window_ref s.window_ref s.last_fill u
            (priced.windowed profit)
            (subst (λ b. when b (check_profit s c quote p.window_ref s.last_fill) ≡ gives u) profit
              h2),
      )

  pub before_price-IsPrepared : before_price s c ≡ gives tt → IsPrepared
  before_price-IsPrepared h =
      let (constraint, h1) = then-gives (check_constraint s c) _ tt h in
      let (external, h2) =
        then-gives (require (not (s.is_binance && c.smart && c.has_permit)) Types.external_permit) _
          tt h1 in
      let (prepared, preflight) = then-gives (when (s.is_binance && not c.has_permit) _) _ tt h2 in
      let owned : not (s.is_binance && c.smart && c.has_permit) ≡ true =
        require-gives (not (s.is_binance && c.smart && c.has_permit)) Types.external_permit tt
          external in
      record {
        constrained = λ broken. by_constraint c.constraint constraint broken;
        own_permit = ground arith;
        prepared = λ b.
            required-gives s.prepared (fresh s c)
              (when-gives (s.is_binance && not c.has_permit) _ tt prepared b);
        preflight = λ b. when-gives (not s.is_binance) s.preflight tt preflight b;
      }
    where
      by_constraint :
          (x : Option (Option (ℕ × ℕ)))
          → elim x as (λ _. Try (Unit {0})) [
            | some none ↦ refuses Types.invalid_price_constraint
            | _ ↦ gives tt
          ]
            ≡ gives tt
          → x ≡ some none
          → ⊥
      by_constraint none e broken = cc
      by_constraint (some none) e broken = cc
      by_constraint (some (some y)) e broken = cc

  pub take_permit-IsPermitted : {u : Unit {0}} → take_permit s c ≡ gives u → IsPermitted
  take_permit-IsPermitted {u} h due =
      let both : ((s.permit >>= λ b. require b (fresh s c)) >> s.validated) ≡ gives u =
        when-gives (s.is_binance && not c.has_permit) _ u h due in
      let (permit, validated) =
        then-gives (s.permit >>= λ b. require b (fresh s c)) s.validated u both in
      (required-gives s.permit (fresh s c) permit, validated)

  pub check_dispatch-IsFavorable :
      {u : Unit {0}} (p : Priced) → check_dispatch s c p ≡ gives u → IsFavorable
  check_dispatch-IsFavorable {u} p h market requested tolerance known =
      let due : (c.market && (checks_profit s c || is_some c.constraint)) ≡ true =
        by_profit (checks_profit s c) in
      let body : ((s.last_quote >>= quoted) >>= at_dispatch p) ≡ gives u =
        when-gives (c.market && (checks_profit s c || is_some c.constraint)) _ u h due in
      let (quote, found, h1) = bind-gives (s.last_quote >>= quoted) (at_dispatch p) u body in
      let (read, positive) = quoted-gives s.last_quote quote found in
      let (favorable, h2) = then-gives (check_favorable s c c.constraint quote) _ u h1 in
      let fits : check_favorable s c (some (some (requested, tolerance))) quote ≡ gives tt =
        subst (λ x. check_favorable s c x quote ≡ gives tt) known favorable in
      (
        quote,
        read,
        require-gives (is_favorable s c requested tolerance quote) (reason_is price_unfavorable) tt
            fits,
      )
    where
      by_profit : (b : Bool) → (c.market && (b || is_some c.constraint)) ≡ true
      by_profit true = rw market refl
      by_profit false = rw (market, known) refl
