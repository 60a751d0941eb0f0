-- ===== src/Prelude/Sort.antt =====
-- Python's `sorted`: a stable sort, here by insertion.
use mathlib.Core.Path.{◌≡◌, refl}
use mathlib.Core.Bool.{Bool}
use mathlib.Core.List.{List, [], ◌∷◌}
use native.Mathlib.Omega.{arith}
use luna_agent.Prelude.Tests.{if◌then◌else◌}
use luna_agent.Prelude.Lists.{keep, length}

module _ {ℓ} {A : Type ℓ} (le : A → A → Bool) where
  -- Before the first member that is not smaller.
  abbrev pub insert_sorted : A → List A → List A
  insert_sorted a [] = a ∷ []
  insert_sorted a (x ∷ xs) = if le a x then a ∷ x ∷ xs else x ∷ insert_sorted a xs

  abbrev pub sorted : List A → List A
  sorted [] = []
  sorted (x ∷ xs) = insert_sorted x (sorted xs)

  -- A sort keeps how many members pass a test.
  pub length-keep-insert_sorted :
      (p : A → Bool) (a : A) (xs : List A)
      → length (keep p (insert_sorted a xs)) ≡ length (keep p (a ∷ xs))
  length-keep-insert_sorted p a [] = refl
  length-keep-insert_sorted p a (x ∷ xs) = ground (arith, length-keep-insert_sorted p a xs)

  pub length-keep-sorted :
      (p : A → Bool) (xs : List A) → length (keep p (sorted xs)) ≡ length (keep p xs)
  length-keep-sorted p [] = refl
  length-keep-sorted p (x ∷ xs) =
      ground (arith, length-keep-insert_sorted p x (sorted xs), length-keep-sorted p xs)
