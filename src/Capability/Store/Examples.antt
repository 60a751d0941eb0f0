-- ===== src/Capability/Store/Examples.antt =====
-- A small run of the store, and its theorems at it.
use luna_agent.Prelude.{◌≡◌, refl, true, false, List, [], ◌∷◌, elem, String_eq}
use luna_agent.Prelude.Dict
use luna_agent.Capability.Snapshot.{CapabilitySnapshot}
use luna_agent.Capability.Store.{
  CapabilityLease, init, retained_ids_of, retained_binding_ids, collect, collect_releasable,
  set_default, publish, acquire, release, acquire_lease, mark_released, lease_at, release_lease,
  publish_leased,
}
use luna_agent.Capability.Store.Leases.{Inv}
use luna_agent.Capability.Store.History.{
  Event, acquires, publishes, releases, start, step, run, run-start-Inv, open_lease_retained,
}

-- All that a run of the store calls.
program : Unit {0}
unfolding init retained_ids_of retained_binding_ids collect collect_releasable set_default publish
    acquire release acquire_lease mark_released lease_at release_lease publish_leased Dict.get
    Dict.put Dict.remove step run
program = tt

abbrev first_snapshot : CapabilitySnapshot
first_snapshot = record { revision = 1; routes = []; binding_ids = "a" ∷ [] }

abbrev second_snapshot : CapabilitySnapshot
second_snapshot = record { revision = 2; routes = []; binding_ids = "b" ∷ [] }

abbrev swapped_under_lease : List Event
swapped_under_lease = acquires ∷ publishes second_snapshot ∷ []

abbrev leased_first : CapabilityLease
leased_first = record { snapshot = first_snapshot; released = false }

old_ids_retained :
    retained_binding_ids (run (start first_snapshot) swapped_under_lease).store ≡ "b" ∷ "a" ∷ []
unfolding program
old_ids_retained = refl

old_ids_go_on_release :
    retained_binding_ids
      (run (start first_snapshot) (acquires ∷ publishes second_snapshot ∷ releases 0 ∷ [])).store
    ≡ "b" ∷ []
unfolding program
old_ids_go_on_release = refl

run-start-Inv_example : Inv (run (start first_snapshot) swapped_under_lease)
run-start-Inv_example = run-start-Inv first_snapshot swapped_under_lease

open_lease_retained_example :
    elem "a" (retained_binding_ids (run (start first_snapshot) swapped_under_lease).store) ≡ true
unfolding program
open_lease_retained_example =
    open_lease_retained (run (start first_snapshot) swapped_under_lease) 0 leased_first "a"
      (run-start-Inv first_snapshot swapped_under_lease) refl refl refl
