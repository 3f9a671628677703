-- ===== src/Base/Dict.antt =====
-- A Python dict with numbers for keys, in insertion order.
use Prim.Native.Nat.{ℕ}
use mathlib.Core.Path.{◌≡◌, refl}
use mathlib.Core.Logic.{◌≢◌}
use mathlib.Core.Option.{Option, none, some}
use mathlib.Core.List.{List, [], ◌∷◌}
use native.Mathlib.Omega.{arith}
use binance.Base.Tests.{◌==◌, if◌then◌else◌}

abbrev pub Dict {ℓ} : Type ℓ → Type ℓ
Dict V = List (ℕ × V)

module _ {ℓ} {V : Type ℓ} where
  -- `d.get(key)`
  abbrev pub lookup : ℕ → Dict V → Option V
  lookup key [] = none
  lookup key ((stored, value) ∷ rest) = if stored == key then some value else lookup key rest

  -- `del d[key]`: in a Python dict a key stands once, here every entry of the key goes.
  abbrev pub erase : ℕ → Dict V → Dict V
  erase key [] = []
  erase key ((stored, value) ∷ rest) =
      if stored == key then erase key rest else (stored, value) ∷ erase key rest

  pub lookup-erase_self : (key : ℕ) (d : Dict V) → lookup key (erase key d) ≡ none
  lookup-erase_self key [] = refl
  lookup-erase_self key ((stored, value) ∷ rest) = ground (arith, lookup-erase_self key rest)

  -- `d[key] = new`
  abbrev pub insert : ℕ → V → Dict V → Dict V
  insert key new [] = (key, new) ∷ []
  insert key new ((stored, value) ∷ rest) =
      if stored == key then (key, new) ∷ rest else (stored, value) ∷ insert key new rest

  pub lookup-insert_ne :
      (other key : ℕ) (new : V) (d : Dict V)
      → other ≢ key
      → lookup other (insert key new d) ≡ lookup other d
  lookup-insert_ne other key new [] apart = ground arith
  lookup-insert_ne other key new ((stored, value) ∷ rest) apart =
      ground (arith, lookup-insert_ne other key new rest apart)

  pub lookup-erase_ne :
      (other key : ℕ) (d : Dict V) → other ≢ key → lookup other (erase key d) ≡ lookup other d
  lookup-erase_ne other key [] apart = refl
  lookup-erase_ne other key ((stored, value) ∷ rest) apart =
      ground (arith, lookup-erase_ne other key rest apart)

  pub lookup-insert_self :
      (key : ℕ) (new : V) (d : Dict V) → lookup key (insert key new d) ≡ some new
  lookup-insert_self key new [] = ground arith
  lookup-insert_self key new ((stored, value) ∷ rest) =
      ground (arith, lookup-insert_self key new rest)
