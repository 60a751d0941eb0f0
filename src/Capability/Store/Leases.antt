-- ===== src/Capability/Store/Leases.antt =====
-- A lease keeps its snapshot: the reference counts count the open leases, and a snapshot that is
-- still leased is the current one or a retired one that is kept.
use luna_agent.Prelude.{
  ℕ, zero, suc, ◌+◌, ◌-◌, ◌<◌, ◌≡◌, ◌⊎◌, inl, inr, Bool, false, not, ◌&&◌, none, some, List, [],
  ◌∷◌, ◌++◌, arith, ◌==◌, ℕ_eq, ==_iff, if◌then◌else◌, Bool-cases, length, keep, leb,
}
use luna_agent.Prelude.Dict
use luna_agent.Prelude.Dict.{get-put, get-remove}
use luna_agent.Capability.Failure.{ok}
use luna_agent.Capability.Snapshot.{CapabilitySnapshot}
use luna_agent.Capability.Store.{
  CapabilityStore, CapabilityLease, Leased, init, refcount, collect_releasable, set_default,
  publish, acquire, release, lease_at, mark_released, acquire_lease, publish_leased,
}
use luna_agent.Capability.Store.Collect.{
  collect_releasable_retired, collect_releasable_counts, collect_releasable_current,
  set_default_counts,
}

abbrev pub is_open_at : ℕ → CapabilityLease → Bool
is_open_at revision l = not l.released && (l.snapshot.revision == revision)

-- How many leases of a revision are open.
abbrev pub open_count : ℕ → List CapabilityLease → ℕ
open_count revision leases = length (keep (is_open_at revision) leases)

pub record Inv (w : Leased) : Type 0 where
  pub counts : (j : ℕ) → refcount w.store j ≡ open_count j w.leases
  pub older :
      (j : ℕ) (s : CapabilitySnapshot)
      → Dict.get w.store.retired j ≡ some s
      → (s.revision ≡ j) × (j < w.store.current.revision) × (0 < refcount w.store j)
  pub held :
      (i : ℕ) (l : CapabilityLease)
      → lease_at w.leases i ≡ some l
      → l.released ≡ false
      → (l.snapshot ≡ w.store.current)
        ⊎ (Dict.get w.store.retired l.snapshot.revision ≡ some l.snapshot)

open_count-snoc :
    (j : ℕ) (ls : List CapabilityLease) (l : CapabilityLease)
    → open_count j (ls ++ l ∷ []) ≡ open_count j ls + (if is_open_at j l then 1 else 0)
open_count-snoc j [] l = ground arith
open_count-snoc j (x ∷ ls) l = ground (arith, open_count-snoc j ls l)

open_count_pos :
    (ls : List CapabilityLease) (i : ℕ) (l : CapabilityLease)
    → lease_at ls i ≡ some l
    → l.released ≡ false
    → 0 < open_count l.snapshot.revision ls
unfolding lease_at
open_count_pos [] i l e h = cc
open_count_pos (x ∷ ls) zero l e h = ground (arith, ==_iff l.snapshot.revision l.snapshot.revision)
open_count_pos (x ∷ ls) (suc i) l e h = ground (arith, open_count_pos ls i l e h)

open_count-mark_released :
    (ls : List CapabilityLease) (i : ℕ) (l : CapabilityLease) (j : ℕ)
    → lease_at ls i ≡ some l
    → l.released ≡ false
    → open_count j (mark_released ls i)
      ≡ open_count j ls - (if l.snapshot.revision == j then 1 else 0)
unfolding lease_at mark_released
open_count-mark_released [] i l j e h = cc
open_count-mark_released (x ∷ ls) zero l j e h = ground arith
open_count-mark_released (x ∷ ls) (suc i) l j e h = ground (
  arith,
  open_count-mark_released ls i l j e h,
  open_count_pos ls i l e h,
  ==_iff l.snapshot.revision j,
)

lease_at-mark_released :
    (ls : List CapabilityLease) (i k : ℕ) (l : CapabilityLease)
    → lease_at (mark_released ls i) k ≡ some l
    → l.released ≡ false
    → (lease_at ls k ≡ some l) × ((i ≡ k) → ⊥)
unfolding lease_at mark_released
lease_at-mark_released [] i k l e h = cc
lease_at-mark_released (x ∷ ls) zero zero l e h = ground arith
lease_at-mark_released (x ∷ ls) zero (suc k) l e h = (e, λ p. omega arith)
lease_at-mark_released (x ∷ ls) (suc i) zero l e h = (e, λ p. omega arith)
lease_at-mark_released (x ∷ ls) (suc i) (suc k) l e h =
    let (same, other) = lease_at-mark_released ls i k l e h in (same, λ p. other (omega arith))

lease_at-snoc :
    (ls : List CapabilityLease) (x : CapabilityLease) (k : ℕ) (l : CapabilityLease)
    → lease_at (ls ++ x ∷ []) k ≡ some l
    → (lease_at ls k ≡ some l) ⊎ (l ≡ x)
unfolding lease_at
lease_at-snoc [] x zero l e = ground arith
lease_at-snoc [] x (suc k) l e = cc
lease_at-snoc (y ∷ ls) x zero l e = inl e
lease_at-snoc (y ∷ ls) x (suc k) l e = lease_at-snoc ls x k l e

pub init-Inv : (initial : CapabilitySnapshot) → Inv (record { store = init initial; leases = [] })
unfolding init Dict.get lease_at
init-Inv initial = record { counts = λ j. ground arith; older = λ j s e. cc; held = λ i l e h. cc }

pub acquire_lease-Inv : (w : Leased) → Inv w → Inv (acquire_lease w)
unfolding acquire_lease acquire
acquire_lease-Inv w inv = record {
  counts = λ j. ground (
    arith,
    get-put w.store.refcounts w.store.current.revision
        (refcount w.store w.store.current.revision + 1) j,
    open_count-snoc j w.leases (record { snapshot = w.store.current; released = false }),
    ==_iff w.store.current.revision j,
    inv.counts j,
  );
  older = λ j s e. ground (
    arith,
    get-put w.store.refcounts w.store.current.revision
        (refcount w.store w.store.current.revision + 1) j,
    ==_iff w.store.current.revision j,
    inv.older j s e,
  );
  held = λ i l e h. ground (
    arith,
    lease_at-snoc w.leases (record { snapshot = w.store.current; released = false }) i l e,
    inv.held i l,
  );
}

module _ (w : Leased) (snapshot : CapabilitySnapshot) (inv : Inv w)
    (newer : w.store.current.revision < snapshot.revision) where
  -- The store before the collection.
  abbrev swapped : CapabilityStore
  swapped = record {
    current = snapshot;
    refcounts = set_default w.store.refcounts snapshot.revision;
    retired = Dict.put w.store.retired w.store.current.revision w.store.current;
  }

  swapped_count : (j : ℕ) → refcount swapped j ≡ refcount w.store j
  swapped_count = set_default_counts w.store snapshot.revision

  swapped_retired :
      (j : ℕ)
      → Dict.get (collect_releasable swapped).0.retired j ≡ (
          if refcount w.store j == 0
          then none
          else if w.store.current.revision == j
          then some w.store.current
          else Dict.get w.store.retired j)
  swapped_retired j = ground (
    arith,
    swapped_count j,
    collect_releasable_retired swapped j,
    get-put w.store.retired w.store.current.revision w.store.current j,
  )

  published-Inv : Inv (record w { store = (collect_releasable swapped).0 })
  published-Inv = record {
    counts =
        λ j. ground (arith, collect_releasable_counts swapped j, swapped_count j, inv.counts j);
    older = λ j s e. ground (
      arith,
      collect_releasable_counts swapped j,
      collect_releasable_current swapped,
      swapped_count j,
      swapped_retired j,
      inv.older j s,
    );
    held = λ i l e h. ground (
      arith,
      collect_releasable_current swapped,
      swapped_retired l.snapshot.revision,
      inv.held i l e h,
      inv.older l.snapshot.revision l.snapshot,
      inv.counts l.snapshot.revision,
      open_count_pos w.leases i l e h,
    );
  }

pub publish_leased-Inv :
    (w w' : Leased) (snapshot : CapabilitySnapshot) (retiring : List CapabilitySnapshot)
    → Inv w
    → publish_leased w snapshot ≡ ok (w', retiring)
    → Inv w'
unfolding publish_leased publish
publish_leased-Inv w w' snapshot retiring inv e =
    elim (Bool-cases (leb snapshot.revision w.store.current.revision)) [
      | inl stale ↦ ground arith
      | inr fresh ↦
          let same : w' ≡ record w {
            store = (collect_releasable (swapped w snapshot inv (ground arith))).0;
          } =
            ground arith in
          rw same (published-Inv w snapshot inv (ground arith))
    ]

module _ (w : Leased) (i : ℕ) (l : CapabilityLease) (inv : Inv w)
    (at_i : lease_at w.leases i ≡ some l) (live : l.released ≡ false) where
  abbrev pub lowered : CapabilityStore
  lowered = record w.store {
    refcounts =
        Dict.put w.store.refcounts l.snapshot.revision (refcount w.store l.snapshot.revision - 1);
  }

  lowered_count :
      (j : ℕ)
      → refcount lowered j ≡ refcount w.store j - (if l.snapshot.revision == j then 1 else 0)
  lowered_count j = ground (
    arith,
    get-put w.store.refcounts l.snapshot.revision (refcount w.store l.snapshot.revision - 1) j,
    ==_iff l.snapshot.revision j,
  )

  lowered_retired :
      (j : ℕ)
      → Dict.get (collect_releasable lowered).0.retired j
        ≡ (if refcount lowered j == 0 then none else Dict.get w.store.retired j)
  lowered_retired j = collect_releasable_retired lowered j

  pub released-Inv :
      Inv (record { store = (collect_releasable lowered).0; leases = mark_released w.leases i })
  released-Inv = record {
    counts = λ j. ground (
      arith,
      collect_releasable_counts lowered j,
      lowered_count j,
      inv.counts j,
      open_count-mark_released w.leases i l j at_i live,
    );
    older = λ j s e. ground (
      arith,
      collect_releasable_counts lowered j,
      collect_releasable_current lowered,
      lowered_retired j,
      inv.older j s,
    );
    held = λ k x e h. ground (
      arith,
      collect_releasable_current lowered,
      lowered_retired x.snapshot.revision,
      lowered_count x.snapshot.revision,
      lease_at-mark_released w.leases i k x e h,
      inv.held k x,
      inv.counts x.snapshot.revision,
      open_count-mark_released w.leases i l x.snapshot.revision at_i live,
      open_count_pos (mark_released w.leases i) k x e h,
    );
  }

  -- An open lease is always released without an error.
  pub release_open : release w.store l.snapshot.revision ≡ ok (collect_releasable lowered)
  unfolding release
  release_open =
      ground (arith, inv.counts l.snapshot.revision, open_count_pos w.leases i l at_i live)

-- A publication that succeeds, on the store with its leases.
pub published_store-Inv :
    (w : Leased) (store : CapabilityStore) (snapshot : CapabilitySnapshot)
    (retiring : List CapabilitySnapshot)
    → Inv w
    → publish w.store snapshot ≡ ok (store, retiring)
    → Inv (record w { store = store })
unfolding publish_leased
published_store-Inv w store snapshot retiring inv e =
    publish_leased-Inv w (record w { store = store }) snapshot retiring inv (ground arith)
