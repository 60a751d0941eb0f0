-- ===== src/Capability/Catalog.antt =====
-- src/luna_agent/plugins/runtime/catalog.py: the bindings of a snapshot to be, by their ids.
use luna_agent.Prelude.{
  String, Bool, not, none, some, List, [], ◌∷◌, ◌==◌, String_eq, if◌then◌else◌, map, keep,
}
use Prim.Native.String.{compare}
use text.Mathlib.Text.{is_le}
use luna_agent.Prelude.Dict
use luna_agent.Prelude.Dict.{Dict}
use luna_agent.Prelude.Sort.{sorted}
use luna_agent.Capability.Failure.{Result, ok, err, binding_id_exists, ◌>>=◌}
use luna_agent.Capability.Binding.{CapabilityBinding, same_binding}

abbrev pub CandidateCatalog : Type 0
CandidateCatalog = Dict String CapabilityBinding

unfoldable pub add : CandidateCatalog → CapabilityBinding → Result CandidateCatalog
add catalog binding = elim (Dict.get catalog binding.binding_id) [
  | none ↦ ok (Dict.put catalog binding.binding_id binding)
  | some existing ↦
      if not (same_binding existing binding)
      then err binding_id_exists
      else ok (Dict.put catalog binding.binding_id binding)
]

unfoldable pub extend : CandidateCatalog → List CapabilityBinding → Result CandidateCatalog
extend catalog [] = ok catalog
extend catalog (binding ∷ rest) = do catalog' ← add catalog binding; extend catalog' rest

unfoldable pub new : List CapabilityBinding → Result CandidateCatalog
unfolding extend add
new bindings = extend [] bindings

abbrev pub values {ℓ κ} : {K : Type ℓ} {V : Type κ} → Dict K V → List V
values d = map (λ (k, v). v) d

abbrev pub keys {ℓ κ} : {K : Type ℓ} {V : Type κ} → Dict K V → List K
keys d = map (λ (k, v). k) d

pub without_owner : CandidateCatalog → String → Result CandidateCatalog
without_owner catalog owner = new (keep (λ b. not (b.owner == owner)) (values catalog))

pub replace_owner : CandidateCatalog → String → List CapabilityBinding → Result CandidateCatalog
replace_owner catalog owner bindings = do
  result ← without_owner catalog owner
  extend result bindings

-- Python orders texts by code points.
abbrev pub le_id : CapabilityBinding → CapabilityBinding → Bool
le_id a b = is_le (compare a.binding_id b.binding_id)

abbrev pub bindings : CandidateCatalog → List CapabilityBinding
bindings catalog = sorted le_id (values catalog)

abbrev pub binding_ids : CandidateCatalog → List String
binding_ids catalog = keys catalog
