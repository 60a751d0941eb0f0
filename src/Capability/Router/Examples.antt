-- ===== src/Capability/Router/Examples.antt =====
-- A small run of the router, and its theorems at it.
use luna_agent.Prelude.{
  ◌≡◌, refl, inl, ◌⊎◌, Bool, true, false, ◌||◌, Option, none, some, List, [], ◌∷◌, elem, String_eq,
  ltb, map, keep, not, ◌&&◌, if◌then◌else◌,
}
use luna_agent.Prelude.Dict
use luna_agent.Capability.Binding.{
  CapabilityBinding, tool, from_binding, same_binding, metadata_within, metadata_eq,
}
use luna_agent.Capability.Catalog
use luna_agent.Capability.Catalog.{CandidateCatalog}
use luna_agent.Capability.Snapshot.{
  CapabilitySnapshot, empty, select, group_one, le_hook, freeze_routes, freeze_names, freeze,
}
use luna_agent.Capability.Snapshot
use luna_agent.Capability.Store.{
  CapabilityLease, init, retained_ids_of, retained_binding_ids, collect, collect_releasable,
  set_default, publish, acquire, release, acquire_lease, mark_released, lease_at, release_lease,
}
use luna_agent.Capability.Store.Leases.{init-Inv}
use luna_agent.Capability.Router.{
  CapabilityRouter, update, any_unknown, stage, drop_payloads, discard_runtime, discard_runtimes,
  drop_retired, retire_with, retire, retire_all, with_task, after_retired, previous_payloads,
  restore_payloads, preserve_owner_kinds, all_bindings, apply, publish_snapshot, publish_bindings,
  activate, or_restore, with_owner, publish_plugin, publish_staged, publish_without_owner,
  restore_owner, same_bindings, with_source, set_dynamic, replace_dynamic_source,
}
use luna_agent.Capability.Router
use luna_agent.Capability.Snapshot.Build.{IsPlaced, serves, build-select}
use luna_agent.Capability.Router.Retire.{bound_by, discarded, retire_payloads}
use luna_agent.Capability.Router.Release.{release_twice}
use luna_agent.Capability.Router.History
use luna_agent.Capability.Failure.{ok, err, retire_failed}
use luna_agent.Capability.Router.Publish.{InSync}
use luna_agent.Capability.Router.Operations.{
  Does, MayDo, publish_plugin-Does, replace_dynamic_source-MayDo,
}
use luna_agent.Capability.Router.History.{
  World, Call, leases_current, retires_next, stages, discards, publishes_plugin, publishes_without,
  step, run, Present,
}
use luna_agent.Capability.Router.Lasting.{run-Inv, leased_payload_lasts, run-InSync}

-- All that a run of the router calls.
program : Unit {0}
unfolding init retained_ids_of retained_binding_ids collect collect_releasable set_default publish
    acquire release acquire_lease mark_released lease_at release_lease Dict.get Dict.put Dict.remove
    step run update any_unknown stage drop_payloads discard_runtime discard_runtimes drop_retired
    retire_with retire retire_all with_task after_retired Router.History.release previous_payloads
    restore_payloads preserve_owner_kinds all_bindings apply publish_snapshot publish_bindings
    activate or_restore with_owner publish_plugin publish_staged publish_without_owner restore_owner
    same_bindings with_source set_dynamic replace_dynamic_source Router.build Snapshot.build
    Catalog.new Catalog.extend Catalog.add group_one le_hook freeze_routes freeze_names freeze
    same_binding metadata_within metadata_eq
program = tt

abbrev a_tool : CapabilityBinding
a_tool = record {
  binding_id = "b1";
  capability_id = "c";
  public_name = "grep";
  kind = tool;
  owner = "p";
  generation_id = "g";
  runtime_instance_id = "r";
  contract_hash = "";
  manager_key = "m";
  metadata = [];
}

abbrev start_router : CapabilityRouter
start_router = record {
  payloads = [];
  runtime_bindings = [];
  active_bindings = [];
  dynamic_bindings = [];
  store = init empty;
  applied = [];
  retiring = [];
  on_retire = some (λ s. ("r" ∷ [], true));
  running_loop = true;
}

abbrev start_world : World
start_world = record { router = start_router; leases = [] }

-- A callback that refuses the second revision.
abbrev on_publish : Option (CapabilitySnapshot → Bool)
on_publish = some (λ s. ltb s.revision 3)

abbrev published_and_leased : List Call
published_and_leased =
    stages "r" (a_tool ∷ []) (("b1", 7) ∷ [])
    ∷ publishes_plugin "p" "r" [] [] []
    ∷ leases_current
    ∷ []

abbrev leased_world : World
leased_world = run on_publish start_world published_and_leased

abbrev unloaded : List Call
unloaded = publishes_without "p" [] ∷ retires_next ∷ discards "r" ∷ retires_next ∷ []

payload_there : Dict.get leased_world.router.payloads "b1" ≡ some 7
unfolding program
payload_there = refl

payload_kept_while_leased :
    Dict.get (run on_publish leased_world unloaded).router.payloads "b1" ≡ some 7
unfolding program
payload_kept_while_leased = refl

abbrev leased_one : CapabilityLease
leased_one = record { snapshot = leased_world.router.store.current; released = false }

leased_payload_lasts_example : Present (run on_publish leased_world unloaded) "b1"
unfolding program
leased_payload_lasts_example =
    leased_payload_lasts on_publish leased_world unloaded 0 leased_one "b1" refl
      (run-Inv on_publish start_world published_and_leased refl (init-Inv empty)) refl refl refl
      refl (λ e. cc)

run-InSync_example : InSync on_publish (run on_publish start_world published_and_leased).router
run-InSync_example = run-InSync on_publish start_world published_and_leased refl (inl refl)

loop_runs : leased_world.router.running_loop ≡ true
unfolding program
loop_runs = refl

publish_plugin-Does_example :
    Does on_publish leased_world.router
      (publish_plugin on_publish leased_world.router "q" "r" [] (("b1", 8) ∷ []) (tool ∷ []))
publish_plugin-Does_example =
    publish_plugin-Does on_publish leased_world.router loop_runs "q" "r" [] (("b1", 8) ∷ [])
      (tool ∷ [])

replace_dynamic_source-MayDo_example :
    MayDo on_publish leased_world.router
      (replace_dynamic_source on_publish leased_world.router "mcp" (a_tool ∷ []) (("b1", 8) ∷ []))
replace_dynamic_source-MayDo_example =
    replace_dynamic_source-MayDo on_publish leased_world.router loop_runs "mcp" (a_tool ∷ [])
      (("b1", 8) ∷ [])

retire_payloads_example : Dict.get (retire leased_world.router empty).0.payloads "b1" ≡ (
    if (elem "b1" empty.binding_ids
        || elem "b1" (
            bound_by leased_world.router.runtime_bindings
              (discarded leased_world.router.on_retire empty)))
      && not (elem "b1" (retained_binding_ids leased_world.router.store))
    then none
    else Dict.get leased_world.router.payloads "b1")
retire_payloads_example = retire_payloads leased_world.router empty "b1"

release_twice_example :
    let first = History.release leased_world 0 in
    ((first.1 ≡ ok tt) ⊎ (first.1 ≡ err retire_failed))
    × (lease_at first.0.leases 0 ≡ some (record leased_one { released = true }))
    × (History.release first.0 0 ≡ (first.0, ok tt))
unfolding program
release_twice_example =
    release_twice leased_world 0 leased_one
      (run-Inv on_publish start_world published_and_leased refl (init-Inv empty)) refl refl

abbrev one_tool : CandidateCatalog
one_tool = ("b1", a_tool) ∷ []

abbrev one_tool_snapshot : CapabilitySnapshot
one_tool_snapshot = record {
  revision = 4;
  routes = (tool, ("grep", from_binding a_tool ∷ []) ∷ []) ∷ [];
  binding_ids = "b1" ∷ [];
}

build-select_example :
    IsPlaced tool
      (map from_binding (keep (serves tool "grep") (Catalog.bindings one_tool)))
      (select one_tool_snapshot.routes tool "grep")
    × (one_tool_snapshot.revision ≡ 4)
    × (one_tool_snapshot.binding_ids ≡ Catalog.binding_ids one_tool)
unfolding program
build-select_example = build-select one_tool 4 one_tool_snapshot tool "grep" refl
