-- ===== src/Capability/Store/Collect.antt =====
-- What `_collect_releasable_locked` leaves in the store.
use luna_agent.Prelude.{
  ℕ, ◌<◌, ◌≡◌, refl, inl, inr, Bool, false, ◌&&◌, ◌||◌, none, List, [], ◌∷◌, arith, ◌==◌, ℕ_eq,
  ==_iff, if◌then◌else◌, Bool-cases,
}
use luna_agent.Prelude.Dict
use luna_agent.Prelude.Dict.{Dict, get-put, get-remove}
use luna_agent.Capability.Failure.{ok}
use luna_agent.Capability.Snapshot.{CapabilitySnapshot}
use luna_agent.Capability.Store.{
  CapabilityStore, refcount, collect, collect_releasable, set_default, publish,
}

abbrev has_key {ℓ} : {V : Type ℓ} → ℕ → List (ℕ × V) → Bool
has_key j [] = false
has_key j ((k, v) ∷ d) = (k == j) || has_key j d

get_of_no_key {ℓ} : {V : Type ℓ} (d : Dict ℕ V) (j : ℕ) → has_key j d ≡ false → Dict.get d j ≡ none
unfolding Dict.get
get_of_no_key [] j h = refl
get_of_no_key ((k, v) ∷ d) j h = ground (arith, get_of_no_key d j)

record Collected (es : List (ℕ × CapabilitySnapshot)) (s s' : CapabilityStore) : Type 0 where
  current_same : s'.current ≡ s.current
  counts_same : (j : ℕ) → refcount s' j ≡ refcount s j
  retired_is :
      (j : ℕ)
      → Dict.get s'.retired j
        ≡ (if has_key j es && (refcount s j == 0) then none else Dict.get s.retired j)

-- Dropping a count of zero changes no count.
dropped_count :
    (s : CapabilityStore) (k j : ℕ)
    → refcount s k ≡ 0
    → refcount
        (record s { retired = Dict.remove s.retired k; refcounts = Dict.remove s.refcounts k })
        j
      ≡ refcount s j
dropped_count s k j e = ground (arith, get-remove s.refcounts k j, ==_iff k j)

collect-Collected :
    (es : List (ℕ × CapabilitySnapshot)) (s : CapabilityStore) → Collected es s (collect es s).0
unfolding collect
collect-Collected [] s = record {
  current_same = refl;
  counts_same = λ j. refl;
  retired_is = λ j. refl;
}
collect-Collected ((k, snapshot) ∷ es) s = elim (Bool-cases (refcount s k == 0)) [
  | inl free ↦
      let s₁ = record s {
        retired = Dict.remove s.retired k;
        refcounts = Dict.remove s.refcounts k;
      } in
      let c = collect-Collected es s₁ in
      rw (free, collect)
        (record {
          current_same = c.current_same;
          counts_same = λ j. ground (arith, c.counts_same j, dropped_count s k j);
          retired_is = λ j.
              ground
                (arith, c.retired_is j, dropped_count s k j, get-remove s.retired k j, ==_iff k j);
        })
  | inr used ↦
      let c = collect-Collected es s in
      rw (used, collect)
        (record {
          current_same = c.current_same;
          counts_same = c.counts_same;
          retired_is = λ j. ground (arith, c.retired_is j, ==_iff k j);
        })
]

module _ (s : CapabilityStore) where
  -- Exactly the retired snapshots without a lease go.
  pub collect_releasable_retired :
      (j : ℕ)
      → Dict.get (collect_releasable s).0.retired j
        ≡ (if refcount s j == 0 then none else Dict.get s.retired j)
  unfolding collect_releasable
  collect_releasable_retired j =
      ground (arith, (collect-Collected s.retired s).retired_is j, get_of_no_key s.retired j)

  pub collect_releasable_counts : (j : ℕ) → refcount (collect_releasable s).0 j ≡ refcount s j
  unfolding collect_releasable
  collect_releasable_counts = (collect-Collected s.retired s).counts_same

  pub collect_releasable_current : (collect_releasable s).0.current ≡ s.current
  unfolding collect_releasable
  collect_releasable_current = (collect-Collected s.retired s).current_same

pub set_default_counts :
    (s : CapabilityStore) (k j : ℕ)
    → refcount (record s { refcounts = set_default s.refcounts k }) j ≡ refcount s j
unfolding set_default
set_default_counts s k j = ground (arith, get-put s.refcounts k 0 j, ==_iff k j)

-- A publication that succeeds makes a newer snapshot the current one.
pub publish_ok :
    (s s' : CapabilityStore) (snapshot : CapabilitySnapshot) (out : List CapabilitySnapshot)
    → publish s snapshot ≡ ok (s', out)
    → (s'.current ≡ snapshot) × (s.current.revision < snapshot.revision)
unfolding publish
publish_ok s s' snapshot out e =
    let swapped : CapabilityStore = record {
      current = snapshot;
      refcounts = set_default s.refcounts snapshot.revision;
      retired = Dict.put s.retired s.current.revision s.current;
    } in
    ground (arith, collect_releasable_current swapped)
