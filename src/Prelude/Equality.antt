-- ===== src/Prelude/Equality.antt =====
-- Boolean equality as an interface: numbers and texts are the keys of the program's dicts.
use Prim.Native.Nat.{ℕ}
use Prim.Native.String.{String}
use mathlib.Core.Path.{◌≡◌, refl}
use mathlib.Core.Logic.{◌↔◌}
use mathlib.Core.Bool.{Bool, true, false, ◌||◌}
use mathlib.Core.List.{List, [], ◌∷◌, ◌++◌}
use native.Mathlib.Omega.{arith}
use text.Mathlib.Text.{◌==◌ as str_eq}
use text.Mathlib.TextEquality.{eq_iff}
use luna_agent.Prelude.Tests.{nat_eq, nat_eq_iff}

pub record EqKey {ℓ} (A : Type ℓ) : Type ℓ where
  pub equal : A → A → Bool
  pub equal_iff : (a b : A) → (equal a b ≡ true) ↔ (a ≡ b)

instance abbrev pub String_eq : EqKey String
String_eq = record { equal = str_eq; equal_iff = eq_iff }

infix 50 ◌==◌
abbrev pub ◌==◌ {ℓ} : {A : Type ℓ} ⦃e : EqKey A⦄ → A → A → Bool
◌==◌ ⦃e⦄ = e.equal

instance abbrev pub ℕ_eq : EqKey ℕ
ℕ_eq = record { equal = nat_eq; equal_iff = nat_eq_iff }

module _ {ℓ} {A : Type ℓ} ⦃e : EqKey A⦄ where
  pub ==_iff : (a b : A) → ((a == b) ≡ true) ↔ (a ≡ b)
  ==_iff = e.equal_iff

  pub ==_self : (a : A) → (a == a) ≡ true
  ==_self a = (e.equal_iff a a).1 refl

  -- `a in xs`
  abbrev pub elem : A → List A → Bool
  elem a [] = false
  elem a (x ∷ xs) = (x == a) || elem a xs

  -- No member twice.
  abbrev pub Distinct : List A → Type 0
  Distinct [] = Unit
  Distinct (x ∷ xs) = (elem x xs ≡ false) × Distinct xs

  pub elem-append : (a : A) (xs ys : List A) → elem a (xs ++ ys) ≡ (elem a xs || elem a ys)
  elem-append a [] ys = refl
  elem-append a (x ∷ xs) ys = ground (arith, elem-append a xs ys)

  pub Distinct-snoc :
      (a : A) (xs : List A) → elem a xs ≡ false → Distinct xs → Distinct (xs ++ a ∷ [])
  Distinct-snoc a [] h d = (refl, tt)
  Distinct-snoc a (x ∷ xs) h d = (
    ground (arith, elem-append x xs (a ∷ []), e.equal_iff a x, e.equal_iff x a),
    Distinct-snoc a xs (ground arith) d.1,
  )
