-- ===== src/Prelude/Dict.antt =====
-- Python's `dict`, with its order: a new key goes to the end, a write to a known key keeps its place.
use mathlib.Core.Path.{◌≡◌, refl}
use mathlib.Core.List.{List, [], ◌∷◌}
use mathlib.Core.Option.{Option, none, some}
use mathlib.Core.Bool.{Bool}
use native.Mathlib.Omega.{arith}
use luna_agent.Prelude.Tests.{if◌then◌else◌}
use luna_agent.Prelude.Equality.{EqKey, ◌==◌}

abbrev pub Dict {ℓ κ} : Type ℓ → Type κ → Type (ℓ ⊔ κ)
Dict K V = List (K × V)

module _ {ℓ κ} {K : Type ℓ} {V : Type κ} ⦃e : EqKey K⦄ where
  -- d.get(k)
  unfoldable pub get : Dict K V → K → Option V
  get [] k = none
  get ((j, v) ∷ d) k = if j == k then some v else get d k

  -- d[k] = v
  unfoldable pub put : Dict K V → K → V → Dict K V
  put [] k v = (k, v) ∷ []
  put ((j, w) ∷ d) k v = if j == k then (j, v) ∷ d else (j, w) ∷ put d k v

  -- d.pop(k, None); keys are distinct, and the model takes out every entry of the key.
  unfoldable pub remove : Dict K V → K → Dict K V
  remove [] k = []
  remove ((j, w) ∷ d) k = let rest = remove d k in if j == k then rest else (j, w) ∷ rest

  pub get-put :
      (d : Dict K V) (k : K) (v : V) (j : K)
      → get (put d k v) j ≡ (if k == j then some v else get d j)
  unfolding get put
  get-put [] k v j = refl
  get-put ((i, w) ∷ d) k v j =
      ground (arith, e.equal_iff k j, e.equal_iff i k, e.equal_iff i j, get-put d k v j)

  pub get-remove :
      (d : Dict K V) (k j : K) → get (remove d k) j ≡ (if k == j then none else get d j)
  unfolding get remove
  get-remove [] k j = ground arith
  get-remove ((i, w) ∷ d) k j =
      ground (arith, e.equal_iff k j, e.equal_iff i k, e.equal_iff i j, get-remove d k j)

module _ {ℓ κ} {K : Type ℓ} {V : Type κ} ⦃e : EqKey K⦄ where
  -- An update of every value.
  unfoldable pub map_values : (V → V) → Dict K V → Dict K V
  map_values f [] = []
  map_values f ((j, w) ∷ d) = (j, f w) ∷ map_values f d

  -- A delete of the entries whose value passes the test.
  unfoldable pub discard : (V → Bool) → Dict K V → Dict K V
  discard p [] = []
  discard p ((j, w) ∷ d) = let rest = discard p d in if p w then remove rest j else (j, w) ∷ rest

  pub get-map_values :
      (f : V → V) (d : Dict K V) (k : K)
      → get (map_values f d) k ≡ elim (get d k) [ none ↦ none | some w ↦ some (f w) ]
  unfolding get map_values
  get-map_values f [] k = refl
  get-map_values f ((j, w) ∷ d) k = ground (arith, get-map_values f d k)

  pub get-discard :
      (p : V → Bool) (d : Dict K V) (k : K)
      → get (discard p d) k ≡ elim (get d k) [ none ↦ none | some w ↦ if p w then none else some w ]
  unfolding get discard
  get-discard p [] k = refl
  get-discard p ((j, w) ∷ d) k =
      ground (arith, get-discard p d k, get-remove (discard p d) j k, e.equal_iff j k)

pub ruleset dict_laws = (get-put, get-remove)
