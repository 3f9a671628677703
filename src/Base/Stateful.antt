-- ===== src/Base/Stateful.antt =====
-- Code that changes a state and may raise: the state that it has reached stays, whichever way it ends.
use mathlib.Core.Path.{◌≡◌, refl}
use mathlib.Core.Bool.{Bool, true, false}
use mathlib.Core.List.{List, [], ◌∷◌}
use binance.Base.Tests.{if◌then◌else◌}

pub data Result (A : Type 0) : Type 0 where
  returned : A → Result A
  raised : Result A

abbrev pub Stateful : Type 0 → Type 0 → Type 0
Stateful W A = W → Result A × W

abbrev pub IsReturned : {A : Type 0} → Result A → Type 0
IsReturned (returned a) = Unit
IsReturned raised = ⊥

module _ {W : Type 0} where
  infixl 5 ◌>>=◌ ◌>>◌
  abbrev pub ◌>>=◌ : {A B : Type 0} → Stateful W A → (A → Stateful W B) → Stateful W B
  ◌>>=◌ m f w = let (r, w') = m w in elim r [ returned a ↦ f a w' | raised ↦ (raised, w') ]

  abbrev pub ◌>>◌ : {A B : Type 0} → Stateful W A → Stateful W B → Stateful W B
  m >> k = m >>= λ _. k

  abbrev pub pure : {A : Type 0} → A → Stateful W A
  pure a w = (returned a, w)

  abbrev pub raise : {A : Type 0} → Stateful W A
  raise w = (raised, w)

  abbrev pub skip : Stateful W (Unit {0})
  skip = pure tt

  abbrev pub for_each : {I : Type 0} → (I → Stateful W (Unit {0})) → List I → Stateful W (Unit {0})
  for_each f [] = skip
  for_each f (i ∷ rest) = f i >> for_each f rest

  -- A property of the state that holds after the code if it held before, however the code ends.
  abbrev pub Keeps : {A : Type 0} → (W → Type 0) → Stateful W A → Type 0
  Keeps P m = (w : W) → P w → P (m w).1

  abbrev pub Returns : {A : Type 0} → Stateful W A → Type 0
  Returns m = (w : W) → IsReturned (m w).0

  pub bind-Keeps :
      {A B : Type 0} (P : W → Type 0) (m : Stateful W A) (f : A → Stateful W B)
      → Keeps P m
      → ((a : A) → Keeps P (f a))
      → Keeps P (m >>= f)
  bind-Keeps {A} {B} P m f first rest w h = by_result (m w) (first w h)
    where
      by_result :
          (o : Result A × W)
          → P o.1
          → P (elim o.0 as (λ _. Result B × W) [ returned a ↦ f a o.1 | raised ↦ (raised, o.1) ]).1
      by_result (returned a, w') h = rest a w' h
      by_result (raised, w') h = h

  pub then-Keeps :
      {A B : Type 0} (P : W → Type 0) (m : Stateful W A) (k : Stateful W B)
      → Keeps P m
      → Keeps P k
      → Keeps P (m >> k)
  then-Keeps P m k first second = bind-Keeps P m (λ _. k) first (λ _. second)

  pub if-Keeps :
      {A : Type 0} (P : W → Type 0) (b : Bool) (m k : Stateful W A)
      → (b ≡ true → Keeps P m)
      → (b ≡ false → Keeps P k)
      → Keeps P (if b then m else k)
  if-Keeps P true m k first second = first refl
  if-Keeps P false m k first second = second refl

  pub for_each-Keeps :
      {I : Type 0} (P : W → Type 0) (f : I → Stateful W (Unit {0})) (is : List I)
      → ((i : I) → Keeps P (f i))
      → Keeps P (for_each f is)
  for_each-Keeps P f [] each w h = h
  for_each-Keeps P f (i ∷ rest) each w h =
      bind-Keeps P (f i) (λ _. for_each f rest) (each i) (λ _. for_each-Keeps P f rest each) w h

  pub bind-Returns :
      {A B : Type 0} (m : Stateful W A) (f : A → Stateful W B)
      → Returns m
      → ((a : A) → Returns (f a))
      → Returns (m >>= f)
  bind-Returns {A} {B} m f first rest w = by_result (m w) (first w)
    where
      by_result :
          (o : Result A × W)
          → IsReturned o.0
          → IsReturned
              (elim o.0 as (λ _. Result B × W) [ returned a ↦ f a o.1 | raised ↦ (raised, o.1) ]).0
      by_result (returned a, w') h = rest a w'
      by_result (raised, w') h = absurd h

  pub if-at :
      {A : Type 0} (P : Result A × W → Type 0) (b : Bool) (m k : Stateful W A) (w : W)
      → (b ≡ true → P (m w))
      → (b ≡ false → P (k w))
      → P ((if b then m else k) w)
  if-at P true m k w first second = first refl
  if-at P false m k w first second = second refl

  -- What holds at the end: `Q` of the value and the state where the code returns, `E` of the state where it raises.
  abbrev pub After : {A : Type 0} → (A → W → Type 0) → (W → Type 0) → Result A × W → Type 0
  After Q E (returned a, w) = Q a w
  After Q E (raised, w) = E w

  abbrev pub Ends :
      {A : Type 0} → (W → Type 0) → Stateful W A → (A → W → Type 0) → (W → Type 0) → Type 0
  Ends P m Q E = (w : W) → P w → After Q E (m w)

  pub bind-Ends :
      {A B : Type 0} (P : W → Type 0) (Q : A → W → Type 0) (R : B → W → Type 0) (E : W → Type 0)
      (m : Stateful W A) (f : A → Stateful W B)
      → Ends P m Q E
      → ((a : A) → Ends (Q a) (f a) R E)
      → Ends P (m >>= f) R E
  bind-Ends {A} {B} P Q R E m f first rest w h = by_result (m w) (first w h)
    where
      by_result :
          (o : Result A × W)
          → After Q E o
          → After R E
              (elim o.0 as (λ _. Result B × W) [ returned a ↦ f a o.1 | raised ↦ (raised, o.1) ])
      by_result (returned a, w') h = rest a w' h
      by_result (raised, w') h = h

  -- Both ways to end have the same property.
  pub to_After : {A : Type 0} (P : W → Type 0) (o : Result A × W) → P o.1 → After (λ _. P) P o
  to_After P (returned a, w) h = h
  to_After P (raised, w) h = h

  pub from_After : {A : Type 0} (P : W → Type 0) (o : Result A × W) → After (λ _. P) P o → P o.1
  from_After P (returned a, w) h = h
  from_After P (raised, w) h = h
