-- ===== src/Capability/Snapshot.antt =====
-- src/luna_agent/plugins/runtime/snapshot.py: snapshots, their views, and the builder. The
-- fingerprint, a hash that is only shown, is left out.
pub mod Build
use luna_agent.Prelude.{
  ℕ, suc, ◌<◌, String, ◌≡◌, refl, Bool, true, false, not, ◌&&◌, ◌||◌, Option, none, some, List, [],
  ◌∷◌, ◌++◌, arith, ◌==◌, String_eq, if◌then◌else◌, map, keep, elem, length, ltb, ℤ, pos, leb_ℤ,
  eq_ℤ, fold,
}
use Prim.Native.String.{compare}
use text.Mathlib.Text.{is_le}
use luna_agent.Prelude.Dict
use luna_agent.Prelude.Dict.{Dict}
use luna_agent.Prelude.Sort.{sorted}
use luna_agent.Capability.Failure.{Result, ok, err, capability_conflict, ◌>>=◌}
use luna_agent.Capability.Binding.{
  CapabilityKind, tool, skill, hook, command, workflow, platform, mcp_server, memory_provider,
  CapabilityKind_eq, CapabilityBinding, CapabilityRoute, Metadata, from_binding,
}
use luna_agent.Capability.Catalog
use luna_agent.Capability.Catalog.{CandidateCatalog}

abbrev pub RoutesByName : Type 0
RoutesByName = Dict String (List CapabilityRoute)

abbrev pub Routes : Type 0
Routes = Dict CapabilityKind RoutesByName

pub record CapabilitySnapshot : Type 0 where
  pub revision : ℕ
  pub routes : Routes
  pub binding_ids : List String

pub record CapabilityView : Type 0 where
  pub snapshot_revision : ℕ
  pub routes : Routes

abbrev pub empty : CapabilitySnapshot
empty = record { revision = 0; routes = []; binding_ids = [] }

abbrev pub names_of : Option RoutesByName → RoutesByName
names_of none = []
names_of (some by_name) = by_name

abbrev pub routes_of : Option (List CapabilityRoute) → List CapabilityRoute
routes_of none = []
routes_of (some found) = found

-- `self.routes.get(kind, {}).get(name, ())`
abbrev pub select : Routes → CapabilityKind → String → List CapabilityRoute
select routes kind name = routes_of (Dict.get (names_of (Dict.get routes kind)) name)

abbrev pub first : List CapabilityRoute → Option CapabilityRoute
first [] = none
first (route ∷ rest) = some route

abbrev pub resolve : Routes → CapabilityKind → String → Option CapabilityRoute
resolve routes kind name = first (select routes kind name)

-- The kinds in the order of their values.
abbrev kinds_by_value : List CapabilityKind
kinds_by_value =
    command ∷ hook ∷ mcp_server ∷ memory_provider ∷ platform ∷ skill ∷ tool ∷ workflow ∷ []

pub project_routes : Routes → List CapabilityKind → List CapabilityKind → Routes
project_routes routes selected [] = []
project_routes routes selected (kind ∷ rest) =
    let others = project_routes routes selected rest in
    if elem kind selected
    then (elim (Dict.get routes kind) [ none ↦ others | some by_name ↦ (kind, by_name) ∷ others ])
    else others

-- `snapshot.view(kinds)`
pub view : CapabilitySnapshot → List CapabilityKind → CapabilityView
view snapshot kinds = record {
  snapshot_revision = snapshot.revision;
  routes = project_routes snapshot.routes kinds kinds_by_value;
}

-- `view.project(kinds)`
pub project : CapabilityView → List CapabilityKind → CapabilityView
project v kinds = record v { routes = project_routes v.routes kinds kinds_by_value }

-- `grouped[binding.kind][binding.public_name].append(…)`
unfoldable pub group_one : Routes → CapabilityBinding → Routes
group_one grouped b =
    let by_name = names_of (Dict.get grouped b.kind) in
    let found = routes_of (Dict.get by_name b.public_name) in
    Dict.put grouped b.kind (Dict.put by_name b.public_name (found ++ from_binding b ∷ []))

abbrev pub number_or : Option ℤ → ℤ → ℤ
number_or none d = d
number_or (some n) d = n

abbrev pub priority : CapabilityRoute → ℤ
priority route = number_or (Dict.get route.metadata "priority") (pos 100)

abbrev pub order : CapabilityRoute → ℤ
order route = number_or (Dict.get route.metadata "order") (pos 0)

-- The order of the key (priority, order, binding_id).
unfoldable pub le_hook : CapabilityRoute → CapabilityRoute → Bool
le_hook a b =
    if not (eq_ℤ (priority a) (priority b))
    then leb_ℤ (priority a) (priority b)
    else if not (eq_ℤ (order a) (order b))
    then leb_ℤ (order a) (order b)
    else is_le (compare a.binding_id b.binding_id)

abbrev pub is_hook : CapabilityKind → Bool
is_hook kind = kind == hook

-- The routes of one name, checked and put in order.
unfoldable pub freeze_routes : CapabilityKind → List CapabilityRoute → Result (List CapabilityRoute)
freeze_routes kind routes =
    if not (is_hook kind) && ltb 1 (length routes)
    then err capability_conflict
    else ok (if is_hook kind then sorted le_hook routes else routes)

unfoldable pub freeze_names : CapabilityKind → RoutesByName → Result RoutesByName
freeze_names kind [] = ok []
freeze_names kind ((name, routes) ∷ rest) = do
  frozen ← freeze_routes kind routes
  others ← freeze_names kind rest
  ok ((name, frozen) ∷ others)

unfoldable pub freeze : Routes → Result Routes
freeze [] = ok []
freeze ((kind, by_name) ∷ rest) = do
  frozen ← freeze_names kind by_name
  others ← freeze rest
  ok ((kind, frozen) ∷ others)

unfoldable pub build : CandidateCatalog → ℕ → Result CapabilitySnapshot
build catalog revision = do
  routes ← freeze (fold group_one [] (Catalog.bindings catalog))
  ok (record { revision = revision; routes = routes; binding_ids = Catalog.binding_ids catalog })
