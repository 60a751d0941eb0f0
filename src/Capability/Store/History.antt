-- ===== src/Capability/Store/History.antt =====
-- Any history of the store: snapshots are leased, leases are released, other snapshots are
-- published, in any order and any number at once.
use luna_agent.Prelude.{
  ℕ, zero, suc, ◌≡◌, refl, ◌⊎◌, inl, inr, true, false, none, some, List, [], ◌∷◌, ◌++◌, arith, ℕ_eq,
  String, String_eq, Bool-cases, Option-cases, elem, elem-append, leb,
}
use luna_agent.Prelude.Dict
use luna_agent.Capability.Failure.{Result, ok, err}
use luna_agent.Capability.Snapshot.{CapabilitySnapshot}
use luna_agent.Capability.Store.{
  CapabilityLease, Leased, init, acquire, release, lease_at, mark_released, acquire_lease,
  release_lease, publish_leased, collect_releasable, retained_ids_of, retained_binding_ids,
}
use luna_agent.Capability.Store.Collect.{collect_releasable_current}
use luna_agent.Capability.Store.Leases.{
  Inv, init-Inv, acquire_lease-Inv, publish_leased-Inv, released-Inv, release_open, lowered,
}

pub data Event : Type 0 where
  acquires : Event
  publishes : CapabilitySnapshot → Event
  releases : ℕ → Event

abbrev pub after : Leased → Result (Leased × List CapabilitySnapshot) → Leased
after w (ok (w', _)) = w'
after w (err _) = w

unfoldable pub step : Leased → Event → Leased
step w acquires = acquire_lease w
step w (publishes snapshot) = after w (publish_leased w snapshot)
step w (releases i) = after w (release_lease w i)

unfoldable pub run : Leased → List Event → Leased
run w [] = w
run w (e ∷ es) = run (step w e) es

abbrev pub start : CapabilitySnapshot → Leased
start initial = record { store = init initial; leases = [] }

pub release_lease_open :
    (w : Leased) (i : ℕ) (l : CapabilityLease) (inv : Inv w) (at_i : lease_at w.leases i ≡ some l)
    (live : l.released ≡ false)
    → release_lease w i
      ≡ ok (
        record {
          store = (collect_releasable (lowered w i l inv at_i live)).0;
          leases = mark_released w.leases i;
        },
        (collect_releasable (lowered w i l inv at_i live)).1,
      )
unfolding release_lease
release_lease_open w i l inv at_i live = ground (arith, release_open w i l inv at_i live)

pub release_lease_settled :
    (w : Leased) (i : ℕ) (l : CapabilityLease)
    → lease_at w.leases i ≡ some l
    → l.released ≡ true
    → release_lease w i ≡ ok (w, [])
unfolding release_lease
release_lease_settled w i l at_i gone = rw (at_i, gone, release_lease) refl

release_lease-none :
    (w : Leased) (i : ℕ) → lease_at w.leases i ≡ none → release_lease w i ≡ ok (w, [])
unfolding release_lease
release_lease-none w i e = rw (e, release_lease) refl

pub release_step-Inv : (w : Leased) (i : ℕ) → Inv w → Inv (after w (release_lease w i))
release_step-Inv w i inv = elim (Option-cases (lease_at w.leases i)) [
  | inl absent ↦ rw (release_lease-none w i absent) inv
  | inr (l, at_i) ↦ elim (Bool-cases l.released) [
    | inl gone ↦ rw (release_lease_settled w i l at_i gone) inv
    | inr live ↦ rw (release_lease_open w i l inv at_i live) (released-Inv w i l inv at_i live)
  ]
]

publish_step-Inv :
    (w : Leased) (snapshot : CapabilitySnapshot) → Inv w → Inv (after w (publish_leased w snapshot))
publish_step-Inv w snapshot inv =
    of_result (publish_leased w snapshot) (λ w' out e. publish_leased-Inv w w' snapshot out inv e)
  where
    of_result :
        (r : Result (Leased × List CapabilitySnapshot))
        → ((w' : Leased) (out : List CapabilitySnapshot) → r ≡ ok (w', out) → Inv w')
        → Inv (after w r)
    of_result (ok (w', out)) f = f w' out refl
    of_result (err x) f = inv

step-Inv : (w : Leased) (e : Event) → Inv w → Inv (step w e)
unfolding step
step-Inv w acquires inv = acquire_lease-Inv w inv
step-Inv w (publishes snapshot) inv = publish_step-Inv w snapshot inv
step-Inv w (releases i) inv = release_step-Inv w i inv

pub run-Inv : (w : Leased) (es : List Event) → Inv w → Inv (run w es)
unfolding run
run-Inv w [] inv = inv
run-Inv w (e ∷ es) inv = run-Inv (step w e) es (step-Inv w e inv)

-- After any history of leases, publications and releases from a store with one snapshot, each count
-- is the number of open leases of its revision, each retired snapshot is older than the current one
-- and leased, and the snapshot of each open lease is the current or a retired one.
pub run-start-Inv : (initial : CapabilitySnapshot) (es : List Event) → Inv (run (start initial) es)
run-start-Inv initial es = run-Inv (start initial) es (init-Inv initial)

retained_of_get :
    (d : List (ℕ × CapabilitySnapshot)) (k : ℕ) (s : CapabilitySnapshot) (id : String)
    → Dict.get d k ≡ some s
    → elem id s.binding_ids ≡ true
    → elem id (retained_ids_of d) ≡ true
unfolding Dict.get retained_ids_of
retained_of_get [] k s id e h = cc
retained_of_get ((j, x) ∷ d) k s id e h =
    ground (arith, elem-append id x.binding_ids (retained_ids_of d), retained_of_get d k s id)

-- In a store that agrees with its leases, every binding of the snapshot of an open lease is among
-- the retained ones.
pub open_lease_retained :
    (w : Leased) (i : ℕ) (l : CapabilityLease) (id : String)
    → Inv w
    → lease_at w.leases i ≡ some l
    → l.released ≡ false
    → elem id l.snapshot.binding_ids ≡ true
    → elem id (retained_binding_ids w.store) ≡ true
unfolding retained_binding_ids
open_lease_retained w i l id inv at_i live h = ground (
  arith,
  inv.held i l at_i live,
  elem-append id w.store.current.binding_ids (retained_ids_of w.store.retired),
  retained_of_get w.store.retired l.snapshot.revision l.snapshot id,
)

pub lease_at-marked :
    (ls : List CapabilityLease) (i : ℕ) (l : CapabilityLease)
    → lease_at ls i ≡ some l
    → lease_at (mark_released ls i) i ≡ some (record l { released = true })
unfolding lease_at mark_released
lease_at-marked [] i l e = cc
lease_at-marked (x ∷ ls) zero l e = ground arith
lease_at-marked (x ∷ ls) (suc i) l e = lease_at-marked ls i l e

-- A release never changes the current snapshot.
pub release_step_current :
    (w : Leased) (i : ℕ) → (after w (release_lease w i)).store.current ≡ w.store.current
unfolding release_lease release
release_step_current w i = elim (Option-cases (lease_at w.leases i)) [
  | inl absent ↦ rw (absent, release_lease) refl
  | inr (l, at_i) ↦ elim (Bool-cases l.released) [
    | inl gone ↦ rw (at_i, gone, release_lease) refl
    | inr live ↦ elim (Option-cases (Dict.get w.store.refcounts l.snapshot.revision)) [
      | inl unknown ↦ rw (at_i, live, unknown, release_lease, release) refl
      | inr (count, known) ↦ elim (Bool-cases (leb count 0)) [
        | inl none_left ↦ rw (at_i, live, known, none_left, release_lease, release) refl
        | inr some_left ↦
            rw (at_i, live, known, some_left, release_lease, release) (collect_releasable_current _)
      ]
    ]
  ]
]

-- A lease afterwards: as it was, or released.
abbrev pub StaysOrCloses : List CapabilityLease → ℕ → CapabilityLease → Type 0
StaysOrCloses leases i l =
    (lease_at leases i ≡ some l) ⊎ (lease_at leases i ≡ some (record l { released = true }))

lease_at-mark :
    (ls : List CapabilityLease) (k i : ℕ) (l : CapabilityLease)
    → lease_at ls i ≡ some l
    → StaysOrCloses (mark_released ls k) i l
unfolding lease_at mark_released
lease_at-mark [] k i l e = inl e
lease_at-mark (x ∷ ls) zero zero l e = inr (ground arith)
lease_at-mark (x ∷ ls) zero (suc i) l e = inl e
lease_at-mark (x ∷ ls) (suc k) zero l e = inl e
lease_at-mark (x ∷ ls) (suc k) (suc i) l e = lease_at-mark ls k i l e

pub acquire_lease-StaysOrCloses :
    (w : Leased) (i : ℕ) (l : CapabilityLease)
    → lease_at w.leases i ≡ some l
    → StaysOrCloses (acquire_lease w).leases i l
unfolding acquire_lease lease_at
acquire_lease-StaysOrCloses w i l e = inl (appended w.leases _ i e)
  where
    appended :
        (ls : List CapabilityLease) (x : CapabilityLease) (i : ℕ)
        → lease_at ls i ≡ some l
        → lease_at (ls ++ x ∷ []) i ≡ some l
    appended [] x i e = cc
    appended (y ∷ ls) x zero e = e
    appended (y ∷ ls) x (suc i) e = appended ls x i e

pub release_step-StaysOrCloses :
    (w : Leased) (k i : ℕ) (l : CapabilityLease)
    → Inv w
    → lease_at w.leases i ≡ some l
    → StaysOrCloses (after w (release_lease w k)).leases i l
release_step-StaysOrCloses w k i l inv e = elim (Option-cases (lease_at w.leases k)) [
  | inl absent ↦ rw (release_lease-none w k absent) (inl e)
  | inr (x, at_k) ↦ elim (Bool-cases x.released) [
    | inl gone ↦ rw (release_lease_settled w k x at_k gone) (inl e)
    | inr live ↦ rw (release_lease_open w k x inv at_k live) (lease_at-mark w.leases k i l e)
  ]
]

pub acquire_lease_current : (w : Leased) → (acquire_lease w).store.current ≡ w.store.current
unfolding acquire_lease acquire
acquire_lease_current w = refl
