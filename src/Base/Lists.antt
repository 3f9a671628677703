-- ===== src/Base/Lists.antt =====
-- Lists that are measured, filtered and searched, under the native numbers and Boolean tests.
use Prim.Native.Nat.{ℕ, suc, ◌+◌, ◌≤◌}
use mathlib.Core.Path.{◌≡◌, refl}
use mathlib.Core.Logic.{◌⊎◌, inl, inr}
use mathlib.Core.Bool.{Bool, true, false, ◌||◌}
use mathlib.Core.List.{List, [], ◌∷◌, ◌++◌}
use native.Mathlib.Omega.{arith}
use binance.Base.Tests.{if◌then◌else◌, Bool-cases}

module _ {ℓ} {A : Type ℓ} where
  abbrev pub length : List A → ℕ
  length [] = 0
  length (x ∷ xs) = suc (length xs)

  -- `[x for x in xs if p(x)]`
  abbrev pub keep_if : (A → Bool) → List A → List A
  keep_if p [] = []
  keep_if p (x ∷ xs) = if p x then x ∷ keep_if p xs else keep_if p xs

  -- `any(p(x) for x in xs)`
  abbrev pub any : (A → Bool) → List A → Bool
  any p [] = false
  any p (x ∷ xs) = p x || any p xs

  -- A predicate of every entry.
  abbrev pub All {κ} : (A → Type κ) → List A → Type κ
  All P [] = Unit
  All P (x ∷ xs) = P x × All P xs

module _ {ℓ} {A : Type ℓ} where
  pub length-append : (xs ys : List A) → length (xs ++ ys) ≡ length xs + length ys
  length-append [] ys = omega arith
  length-append (x ∷ xs) ys = omega (arith, length-append xs ys)

  pub length-keep_if : (p : A → Bool) (xs : List A) → length (keep_if p xs) ≤ length xs
  length-keep_if p [] = omega arith
  length-keep_if p (x ∷ xs) = ground (arith, length-keep_if p xs)

module _ {A : Type 0} where
  -- Where an entry stands: here, or further on.
  abbrev pub Has : A → List A → Type 0
  Has a [] = ⊥
  Has a (x ∷ xs) = (a ≡ x) ⊎ Has a xs

  pub Has-append : (a : A) (xs ys : List A) → Has a xs → Has a (xs ++ ys)
  Has-append a [] ys h = absurd h
  Has-append a (x ∷ xs) ys (inl e) = inl e
  Has-append a (x ∷ xs) ys (inr h) = inr (Has-append a xs ys h)

  pub Has-append_right : (a : A) (xs ys : List A) → Has a ys → Has a (xs ++ ys)
  Has-append_right a [] ys h = h
  Has-append_right a (x ∷ xs) ys h = inr (Has-append_right a xs ys h)

  pub Has-keep_if :
      (p : A → Bool) (a : A) (xs : List A) → p a ≡ true → Has a xs → Has a (keep_if p xs)
  Has-keep_if p a [] e h = h
  Has-keep_if p a (x ∷ xs) e (inl same) = rw (← same) (rw e (inl refl))
  Has-keep_if p a (x ∷ xs) e (inr h) = elim (Bool-cases (p x)) [
    | inl kept ↦ rw kept (inr (Has-keep_if p a xs e h))
    | inr dropped ↦ rw dropped (Has-keep_if p a xs e h)
  ]
