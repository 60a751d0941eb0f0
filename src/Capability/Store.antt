-- ===== src/Capability/Store.antt =====
-- src/luna_agent/plugins/runtime/snapshot.py: CapabilityStore and CapabilityLease. The store's lock
-- is held over each of these functions, so each is one step. `publish` and `publish_nowait` differ
-- only in how the retire callbacks run: both hand out the snapshots to retire.
pub mod Collect
pub mod Leases
pub mod History
mod Examples
use luna_agent.Prelude.{
  ℕ, zero, suc, ◌+◌, ◌-◌, String, ◌≡◌, refl, Bool, true, false, not, ◌&&◌, ◌||◌, Option, none, some,
  List, [], ◌∷◌, ◌++◌, arith, ◌==◌, ℕ_eq, String_eq, if◌then◌else◌, map, keep, elem, length, leb,
  ltb,
}
use luna_agent.Prelude.Dict
use luna_agent.Prelude.Dict.{Dict}
use luna_agent.Capability.Failure.{Result, ok, err, revision_must_increase, lease_not_active, ◌>>=◌}
use luna_agent.Capability.Snapshot.{CapabilitySnapshot}
use luna_agent.Capability.Snapshot

pub record CapabilityStore : Type 0 where
  pub current : CapabilitySnapshot
  pub refcounts : Dict ℕ ℕ
  pub retired : Dict ℕ CapabilitySnapshot

unfoldable pub init : CapabilitySnapshot → CapabilityStore
init initial = record { current = initial; refcounts = (initial.revision, 0) ∷ []; retired = [] }

abbrev pub count_or_0 : Option ℕ → ℕ
count_or_0 none = 0
count_or_0 (some n) = n

-- `self._refcounts.get(revision, 0)`
abbrev pub refcount : CapabilityStore → ℕ → ℕ
refcount s revision = count_or_0 (Dict.get s.refcounts revision)

unfoldable pub retained_ids_of : List (ℕ × CapabilitySnapshot) → List String
retained_ids_of [] = []
retained_ids_of ((revision, snapshot) ∷ rest) = snapshot.binding_ids ++ retained_ids_of rest

unfoldable pub retained_binding_ids : CapabilityStore → List String
retained_binding_ids s = s.current.binding_ids ++ retained_ids_of s.retired

-- The loop of `_collect_releasable_locked` over the entries that were retired when it began.
unfoldable pub collect :
    List (ℕ × CapabilitySnapshot) → CapabilityStore → CapabilityStore × List CapabilitySnapshot
collect [] s = (s, [])
collect ((revision, snapshot) ∷ rest) s = elim (refcount s revision == 0) [
  | false ↦ collect rest s
  | true ↦
      let (s', released) = collect rest (record s {
        retired = Dict.remove s.retired revision;
        refcounts = Dict.remove s.refcounts revision;
      }) in
      (s', snapshot ∷ released)
]

unfoldable pub collect_releasable : CapabilityStore → CapabilityStore × List CapabilitySnapshot
collect_releasable s = collect s.retired s

-- `self._refcounts.setdefault(revision, 0)`
unfoldable pub set_default : Dict ℕ ℕ → ℕ → Dict ℕ ℕ
set_default counts revision = elim (Dict.get counts revision) [
  | none ↦ Dict.put counts revision 0
  | some n ↦ counts
]

-- The state that `publish` writes, and the snapshots that it hands to the retire callback.
unfoldable pub publish :
    CapabilityStore → CapabilitySnapshot → Result (CapabilityStore × List CapabilitySnapshot)
publish s snapshot =
    if leb snapshot.revision s.current.revision
    then err revision_must_increase
    else ok (
        collect_releasable (record {
          current = snapshot;
          refcounts = set_default s.refcounts snapshot.revision;
          retired = Dict.put s.retired s.current.revision s.current;
        }))

unfoldable pub acquire : CapabilityStore → CapabilityStore × CapabilitySnapshot
acquire s = (
  record s {
    refcounts = Dict.put s.refcounts s.current.revision (refcount s s.current.revision + 1);
  },
  s.current,
)

-- The part under the lock: `if count is None or count <= 0: raise`, and the snapshots that the caller
-- then awaits the retirement of (Capability/Router/History.release).
unfoldable pub release : CapabilityStore → ℕ → Result (CapabilityStore × List CapabilitySnapshot)
release s revision = elim (Dict.get s.refcounts revision) [
  | none ↦ err lease_not_active
  | some count ↦
      if leb count 0
      then err lease_not_active
      else ok
          (collect_releasable (record s { refcounts = Dict.put s.refcounts revision (count - 1) }))
]

pub record CapabilityLease : Type 0 where
  pub snapshot : CapabilitySnapshot
  pub released : Bool

-- The store with all the lease objects that it gave out.
pub record Leased : Type 0 where
  pub store : CapabilityStore
  pub leases : List CapabilityLease

unfoldable pub acquire_lease : Leased → Leased
acquire_lease w =
    let (store, snapshot) = acquire w.store in
    record {
      store = store;
      leases = w.leases ++ record { snapshot = snapshot; released = false } ∷ [];
    }

unfoldable pub mark_released : List CapabilityLease → ℕ → List CapabilityLease
mark_released [] i = []
mark_released (l ∷ ls) zero = record l { released = true } ∷ ls
mark_released (l ∷ ls) (suc i) = l ∷ mark_released ls i

unfoldable pub lease_at : List CapabilityLease → ℕ → Option CapabilityLease
lease_at [] i = none
lease_at (l ∷ ls) zero = some l
lease_at (l ∷ ls) (suc i) = lease_at ls i

-- `lease.release()` up to the awaited retirement: the flag is set before the store is called, also where that raises.
unfoldable pub release_lease : Leased → ℕ → Result (Leased × List CapabilitySnapshot)
release_lease w i = elim (lease_at w.leases i) [
  | none ↦ ok (w, [])
  | some lease ↦ if lease.released then ok (w, []) else do
    (store, retiring) ← release w.store lease.snapshot.revision
    ok (record { store = store; leases = mark_released w.leases i }, retiring)
]

pub publish_leased : Leased → CapabilitySnapshot → Result (Leased × List CapabilitySnapshot)
publish_leased w snapshot = do
  (store, retiring) ← publish w.store snapshot
  ok (record w { store = store }, retiring)

pub record Health : Type 0 where
  pub current_revision : ℕ
  pub current_bindings : ℕ
  pub active_leases : ℕ

pub sum_counts : Dict ℕ ℕ → ℕ
sum_counts [] = 0
sum_counts ((revision, count) ∷ rest) = count + sum_counts rest

pub health_snapshot : CapabilityStore → Health
health_snapshot s = record {
  current_revision = s.current.revision;
  current_bindings = length s.current.binding_ids;
  active_leases = sum_counts s.refcounts;
}
