-- ===== src/Capability/Router.antt =====
-- src/luna_agent/plugins/runtime/router.py: CapabilityRouter.
-- A payload is a handle (a number) of any object. `on_publish` is the callback that was given, if
-- one was: it says whether it returned, and the router keeps the snapshots that it was called with,
-- the oldest first. Tasks that `publish_nowait` starts for `_retire` wait in `retiring`. An
-- operation that can raise returns the router with its result, since it may have changed by then.
-- `on_retire` is the callback for a retired snapshot: the runtimes that it discards in the router,
-- and whether it returned. `running_loop` says whether the thread runs an event loop.
pub mod Payloads
pub mod Retire
pub mod Publish
pub mod Operations
pub mod History
pub mod Release
pub mod Lasting
mod Examples
use luna_agent.Prelude.{
  ℕ, ◌+◌, String, Bool, true, false, not, ◌||◌, Option, none, some, List, [], ◌∷◌, ◌++◌, ◌==◌, ℕ_eq,
  String_eq, if◌then◌else◌, map, keep, elem, fold,
}
use luna_agent.Prelude.Dict
use luna_agent.Prelude.Dict.{Dict}
use luna_agent.Capability.Failure.{
  Result, ok, err, payload_without_binding, staged_unavailable, publish_failed, retire_failed,
  ◌>>=◌,
}
use luna_agent.Capability.Binding.{
  CapabilityBinding, CapabilityKind, CapabilityKind_eq, same_binding,
}
use luna_agent.Capability.Snapshot.{CapabilitySnapshot}
use luna_agent.Capability.Snapshot
use luna_agent.Capability.Catalog
use luna_agent.Capability.Store.{CapabilityStore, publish, retained_binding_ids}

abbrev pub Bindings : Type 0
Bindings = Dict String (List CapabilityBinding)

abbrev pub Payloads : Type 0
Payloads = Dict String ℕ

pub record CapabilityRouter : Type 0 where
  pub payloads : Payloads
  pub runtime_bindings : Bindings
  pub active_bindings : Bindings
  pub dynamic_bindings : Bindings
  pub store : CapabilityStore
  pub applied : List CapabilitySnapshot
  pub retiring : List (List CapabilitySnapshot)
  pub on_retire : Option (CapabilitySnapshot → List String × Bool)
  pub running_loop : Bool

abbrev pub ids : List CapabilityBinding → List String
ids bindings = map (λ b. b.binding_id) bindings

-- `self.payloads.update(payloads)`
pub update : Payloads → Payloads → Payloads
update payloads [] = payloads
update payloads ((id, payload) ∷ rest) = update (Dict.put payloads id payload) rest

pub any_unknown : Payloads → List String → Bool
any_unknown [] known = false
any_unknown ((id, payload) ∷ rest) known = not (elem id known) || any_unknown rest known

pub stage :
    CapabilityRouter
    → String
    → List CapabilityBinding
    → Payloads
    → Result (CapabilityRouter × List CapabilityBinding)
stage r runtime staged payloads =
    if any_unknown payloads (ids staged)
    then err payload_without_binding
    else ok (
      record r {
        payloads = update r.payloads payloads;
        runtime_bindings = Dict.put r.runtime_bindings runtime staged;
      },
      staged,
    )

-- `for id in ids: if id not in retained: self.payloads.pop(id, None)`
pub drop_payloads : Payloads → List String → List String → Payloads
drop_payloads payloads [] retained = payloads
drop_payloads payloads (id ∷ rest) retained =
    let others = drop_payloads payloads rest retained in
    if elem id retained then others else Dict.remove others id

abbrev pub list_or_nil {ℓ} : {A : Type ℓ} → Option (List A) → List A
list_or_nil none = []
list_or_nil (some xs) = xs

pub discard_runtime : CapabilityRouter → String → CapabilityRouter × List CapabilityBinding
discard_runtime r runtime =
    let bindings = list_or_nil (Dict.get r.runtime_bindings runtime) in
    (
      record r {
        payloads = drop_payloads r.payloads (ids bindings) (retained_binding_ids r.store);
        runtime_bindings = Dict.remove r.runtime_bindings runtime;
      },
      bindings,
    )

pub discard_runtimes : CapabilityRouter → List String → CapabilityRouter
discard_runtimes r [] = r
discard_runtimes r (runtime ∷ rest) = discard_runtimes (discard_runtime r runtime).0 rest

pub drop_retired : CapabilityRouter → CapabilitySnapshot → CapabilityRouter
drop_retired r snapshot = record r {
  payloads = drop_payloads r.payloads snapshot.binding_ids (retained_binding_ids r.store);
}

-- `_retire` of one snapshot, with its callback, and whether it returned.
pub retire_with :
    CapabilityRouter
    → CapabilitySnapshot
    → Option (CapabilitySnapshot → List String × Bool)
    → CapabilityRouter × Bool
retire_with r snapshot none = (drop_retired r snapshot, true)
retire_with r snapshot (some callback) =
    (discard_runtimes (drop_retired r snapshot) (callback snapshot).0, (callback snapshot).1)

pub retire : CapabilityRouter → CapabilitySnapshot → CapabilityRouter × Bool
retire r snapshot = retire_with r snapshot r.on_retire

-- `store._retire`: an exception ends the loop.
pub retire_all : CapabilityRouter → List CapabilitySnapshot → CapabilityRouter × Bool
retire_all r [] = (r, true)
retire_all r (snapshot ∷ rest) =
    let first = retire r snapshot in
    let others = retire_all first.0 rest in if first.1 then others else (first.0, false)

-- A task is started where there is a snapshot to retire.
pub with_task :
    List (List CapabilitySnapshot) → List CapabilitySnapshot → List (List CapabilitySnapshot)
with_task tasks [] = tasks
with_task tasks (snapshot ∷ rest) = tasks ++ (snapshot ∷ rest) ∷ []

-- `_update_payloads` also hands out what stood at the ids before.
pub previous_payloads : Payloads → Payloads → List (String × Option ℕ)
previous_payloads payloads [] = []
previous_payloads payloads ((id, payload) ∷ rest) =
    (id, Dict.get payloads id) ∷ previous_payloads payloads rest

pub restore_payloads : Payloads → List (String × Option ℕ) → Payloads
restore_payloads payloads [] = payloads
restore_payloads payloads ((id, none) ∷ rest) = restore_payloads (Dict.remove payloads id) rest
restore_payloads payloads ((id, some payload) ∷ rest) =
    restore_payloads (Dict.put payloads id payload) rest

pub preserve_owner_kinds :
    CapabilityRouter
    → String
    → List CapabilityBinding
    → List CapabilityKind
    → List CapabilityBinding
preserve_owner_kinds r owner staged [] = staged
preserve_owner_kinds r owner staged (kind ∷ kinds) =
    keep (λ b. not (elem b.kind (kind ∷ kinds))) staged
    ++ keep (λ b. elem b.kind (kind ∷ kinds)) (list_or_nil (Dict.get r.active_bindings owner))

pub all_bindings : Bindings → List CapabilityBinding
all_bindings [] = []
all_bindings ((owner, bindings) ∷ rest) = bindings ++ all_bindings rest

pub build : CapabilityRouter → Bindings → Bindings → Result CapabilitySnapshot
build r active dynamic = do
  catalog ← Catalog.new (all_bindings active ++ all_bindings dynamic)
  Snapshot.build catalog (r.store.current.revision + 1)

-- `self.active_bindings = active`, where the publication did not raise.
pub activate :
    CapabilityRouter × Result CapabilitySnapshot
    → Bindings
    → CapabilityRouter × Result CapabilitySnapshot
activate (r, err e) active = (r, err e)
activate (r, ok snapshot) active = (record r { active_bindings = active }, ok snapshot)

-- The payloads are put back where the publication raised.
pub or_restore :
    CapabilityRouter × Result CapabilitySnapshot
    → List (String × Option ℕ)
    → CapabilityRouter × Result CapabilitySnapshot
or_restore (r, err e) previous =
    (record r { payloads = restore_payloads r.payloads previous }, err e)
or_restore (r, ok snapshot) previous = (r, ok snapshot)

-- `active["core"] = core`, where there are core bindings.
pub with_owner : Bindings → String → List CapabilityBinding → Bindings
with_owner active owner [] = active
with_owner active owner (b ∷ bs) = Dict.put active owner (b ∷ bs)

-- `==` on tuples of bindings.
pub same_bindings : List CapabilityBinding → List CapabilityBinding → Bool
same_bindings [] [] = true
same_bindings [] (b ∷ bs) = false
same_bindings (b ∷ bs) [] = false
same_bindings (b ∷ bs) (c ∷ cs) =
    let rest = same_bindings bs cs in if same_binding b c then rest else false

-- An empty source leaves the dict.
pub with_source : Bindings → String → List CapabilityBinding → Bindings
with_source dynamic source [] = Dict.remove dynamic source
with_source dynamic source (b ∷ bs) = Dict.put dynamic source (b ∷ bs)

pub set_dynamic :
    CapabilityRouter × Result CapabilitySnapshot
    → Bindings
    → CapabilityRouter × Result CapabilitySnapshot
set_dynamic (r, err e) dynamic = (r, err e)
set_dynamic (r, ok snapshot) dynamic = (record r { dynamic_bindings = dynamic }, ok snapshot)

module _ (on_publish : Option (CapabilitySnapshot → Bool)) where
  -- A call of the callback is recorded, and its outcome returned.
  pub apply : CapabilityRouter → CapabilitySnapshot → CapabilityRouter × Bool
  apply r snapshot = elim on_publish [
    | none ↦ (r, true)
    | some callback ↦ (record r { applied = r.applied ++ snapshot ∷ [] }, callback snapshot)
  ]

  -- After `asyncio.run` of the retirement: where it raised, the callback is called again.
  pub after_retired :
      CapabilityRouter × Bool
      → (snapshot previous : CapabilitySnapshot) → CapabilityRouter × Result CapabilitySnapshot
  after_retired (r, true) snapshot previous = (r, ok snapshot)
  after_retired (r, false) snapshot previous = ((apply r previous).0, err retire_failed)

  -- `publish_nowait` retires in a task of the running loop, or at once where none runs.
  pub publish_snapshot :
      CapabilityRouter → CapabilitySnapshot → CapabilityRouter × Result CapabilitySnapshot
  publish_snapshot r snapshot =
      let (r', returned) = apply r snapshot in
      if returned
      then (elim (publish r'.store snapshot) [
        | err e ↦ ((apply r' r.store.current).0, err e)
        | ok (store, out) ↦
            if r.running_loop
            then (record r' { store = store; retiring = with_task r'.retiring out }, ok snapshot)
            else after_retired (retire_all (record r' { store = store }) out) snapshot
                r.store.current
      ])
      else ((apply r' r.store.current).0, err publish_failed)

  pub publish_bindings :
      CapabilityRouter → Bindings → Bindings → CapabilityRouter × Result CapabilitySnapshot
  publish_bindings r active dynamic = elim (build r active dynamic) [
    | err e ↦ (r, err e)
    | ok snapshot ↦ publish_snapshot r snapshot
  ]

  -- The bindings as they are.
  unfoldable pub publish_current : CapabilityRouter → CapabilityRouter × Result CapabilitySnapshot
  publish_current r = publish_bindings r r.active_bindings r.dynamic_bindings

  pub publish_plugin :
      (r : CapabilityRouter) (owner runtime : String) (core_bindings : List CapabilityBinding)
      (core_payloads : Payloads) (kinds : List CapabilityKind)
      → CapabilityRouter × Result CapabilitySnapshot
  publish_plugin r owner runtime core_bindings core_payloads kinds =
      elim (Dict.get r.runtime_bindings runtime) [
        | none ↦ (r, err staged_unavailable)
        | some bindings ↦
            let others = Dict.remove (Dict.remove r.active_bindings owner) "core" in
            let active =
              Dict.put (with_owner others "core" core_bindings) owner
                (preserve_owner_kinds r owner bindings kinds) in
            let r' = record r { payloads = update r.payloads core_payloads } in
            activate
              (or_restore (publish_bindings r' active r.dynamic_bindings)
                (previous_payloads r.payloads core_payloads))
              active
      ]

  pub publish_staged :
      CapabilityRouter
      → (owner runtime : String) → List CapabilityKind
      → CapabilityRouter × Result CapabilitySnapshot
  publish_staged r owner runtime kinds = elim (Dict.get r.runtime_bindings runtime) [
    | none ↦ (r, err staged_unavailable)
    | some bindings ↦
        let active =
          Dict.put r.active_bindings owner (preserve_owner_kinds r owner bindings kinds) in
        activate (publish_bindings r active r.dynamic_bindings) active
  ]

  -- `None`, where there is nothing to do, is no result.
  pub publish_without_owner :
      CapabilityRouter
      → String
      → List CapabilityKind
      → CapabilityRouter × Option (Result CapabilitySnapshot)
  publish_without_owner r owner kinds = elim (Dict.get r.active_bindings owner) [
    | none ↦ (r, none)
    | some bindings ↦
        let retained = keep (λ b. elem b.kind kinds) bindings in
        let active = with_owner (Dict.remove r.active_bindings owner) owner retained in
        let (r', result) = activate (publish_bindings r active r.dynamic_bindings) active in
        (r', some result)
  ]

  pub restore_owner :
      CapabilityRouter
      → (owner runtime : String) → List CapabilityKind
      → CapabilityRouter × Option (Result CapabilitySnapshot)
  restore_owner r owner runtime kinds = elim (Dict.get r.runtime_bindings runtime) [
    | none ↦ (r, none)
    | some bindings ↦
        let active =
          Dict.put r.active_bindings owner (preserve_owner_kinds r owner bindings kinds) in
        let (r', result) = activate (publish_bindings r active r.dynamic_bindings) active in
        (r', some result)
  ]

  pub replace_dynamic_source :
      CapabilityRouter
      → String
      → List CapabilityBinding
      → Payloads
      → CapabilityRouter × Option (Result CapabilitySnapshot)
  replace_dynamic_source r source staged payloads =
      if same_bindings staged (list_or_nil (Dict.get r.dynamic_bindings source))
      then (r, none)
      else let dynamic = with_source r.dynamic_bindings source staged in
        let r' = record r { payloads = update r.payloads payloads } in
        let (r'', result) =
          set_dynamic
            (or_restore (publish_bindings r' r.active_bindings dynamic)
              (previous_payloads r.payloads payloads))
            dynamic in
        (r'', some result)
