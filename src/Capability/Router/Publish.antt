-- ===== src/Capability/Router/Publish.antt =====
-- What a publication by the router does where it succeeds, and that it does nothing where it fails.
use luna_agent.Prelude.{
  ◌≡◌, refl, sym, subst, ◌⊎◌, inl, inr, Bool, true, Option, none, some, List, [], ◌∷◌, ◌++◌, arith,
  ℕ_eq, String_eq, Bool-cases,
}
use luna_agent.Capability.Failure.{Result, CapabilityError, ok, err, publish_failed}
use luna_agent.Capability.Snapshot.{CapabilitySnapshot}
use luna_agent.Capability.Store.{publish}
use luna_agent.Capability.Store.Collect.{publish_ok}
use luna_agent.Capability.Router.{
  CapabilityRouter, Bindings, build, apply, with_task, publish_snapshot, publish_bindings,
}

pub Result-cases {ℓ} :
    {A : Type ℓ} (r : Result A) → ((e : CapabilityError) × (r ≡ err e)) ⊎ ((a : A) × (r ≡ ok a))
Result-cases (err e) = inl (e, refl)
Result-cases (ok a) = inr (a, refl)

abbrev pub last {ℓ} : {A : Type ℓ} → List A → Option A
last [] = none
last (x ∷ []) = some x
last (x ∷ y ∷ ys) = last (y ∷ ys)

last-snoc {ℓ} : {A : Type ℓ} (xs : List A) (a : A) → last (xs ++ a ∷ []) ≡ some a
last-snoc [] a = refl
last-snoc (x ∷ []) a = refl
last-snoc (x ∷ y ∷ ys) a = last-snoc (y ∷ ys) a

-- The callback, where there is one, was last called with the committed snapshot, if at all.
abbrev pub Synced :
    Option (CapabilitySnapshot → Bool) → List CapabilitySnapshot → CapabilitySnapshot → Type 0
Synced none applied current = Unit
Synced (some callback) applied current = (applied ≡ []) ⊎ (last applied ≡ some current)

abbrev pub InSync : Option (CapabilitySnapshot → Bool) → CapabilityRouter → Type 0
InSync on_publish r = Synced on_publish r.applied r.store.current

-- What a publication does, by its outcome.
abbrev pub Outcome :
    Option (CapabilitySnapshot → Bool)
    → CapabilityRouter
    → CapabilityRouter × Result CapabilitySnapshot
    → Type 0
Outcome on_publish r (r', err e) =
    (r' ≡ record r { applied = r'.applied }) × (InSync on_publish r → InSync on_publish r')
Outcome on_publish r (r', ok snapshot) =
    (out : List CapabilitySnapshot) × (r'
      ≡ record r { store = r'.store; applied = r'.applied; retiring = with_task r.retiring out })
    × (publish r.store snapshot ≡ ok (r'.store, out))
    × (InSync on_publish r → InSync on_publish r')

-- The router after a publication that the callback, called again, took back.
abbrev undone :
    (CapabilitySnapshot → Bool) → CapabilityRouter → CapabilitySnapshot → CapabilityRouter
undone f r snapshot = record r { applied = (r.applied ++ snapshot ∷ []) ++ r.store.current ∷ [] }

undone-InSync :
    (f : CapabilitySnapshot → Bool) (r : CapabilityRouter) (snapshot : CapabilitySnapshot)
    → (undone f r snapshot ≡ record r { applied = (undone f r snapshot).applied })
      × (InSync (some f) r → InSync (some f) (undone f r snapshot))
undone-InSync f r snapshot =
    (refl, λ s. inr (last-snoc (r.applied ++ snapshot ∷ []) r.store.current))

publish_snapshot-Outcome :
    (on_publish : Option (CapabilitySnapshot → Bool)) (r : CapabilityRouter)
    (snapshot : CapabilitySnapshot)
    → r.running_loop ≡ true
    → Outcome on_publish r (publish_snapshot on_publish r snapshot)
unfolding publish_snapshot apply
publish_snapshot-Outcome none r snapshot loop = elim (Result-cases (publish r.store snapshot)) [
  | inl (e, stale) ↦ rw (stale, publish_snapshot) (refl, λ s. s)
  | inr ((store, out), done) ↦ rw (done, loop, publish_snapshot) (out, refl, done, λ s. tt)
]
publish_snapshot-Outcome (some f) r snapshot loop = elim (Bool-cases (f snapshot)) [
  | inl returned ↦ elim (Result-cases (publish r.store snapshot)) [
    | inl (e, stale) ↦
        let run : publish_snapshot (some f) r snapshot ≡ (undone f r snapshot, err e) =
          ground arith in
        subst (Outcome (some f) r) (sym run) (undone-InSync f r snapshot)
    | inr ((store, out), done) ↦
        let (now, newer) = publish_ok r.store store snapshot out done in
        let run : publish_snapshot (some f) r snapshot ≡ (
          record r {
            store = store;
            applied = r.applied ++ snapshot ∷ [];
            retiring = with_task r.retiring out;
          },
          ok snapshot,
        ) =
          ground arith in
        subst (Outcome (some f) r) (sym run)
          (out, refl, done, λ s. inr (rw now (last-snoc r.applied snapshot)))
  ]
  | inr raised ↦
      let run : publish_snapshot (some f) r snapshot ≡ (undone f r snapshot, err publish_failed) =
        ground arith in
      subst (Outcome (some f) r) (sym run) (undone-InSync f r snapshot)
]

pub publish_bindings-Outcome :
    (on_publish : Option (CapabilitySnapshot → Bool)) (r : CapabilityRouter)
    (active dynamic : Bindings)
    → r.running_loop ≡ true
    → Outcome on_publish r (publish_bindings on_publish r active dynamic)
unfolding publish_bindings
publish_bindings-Outcome on_publish r active dynamic loop =
    elim (Result-cases (build r active dynamic)) [
      | inl (e, bad) ↦ rw (bad, publish_bindings) (refl, λ s. s)
      | inr (snapshot, built) ↦
          rw (built, publish_bindings) (publish_snapshot-Outcome on_publish r snapshot loop)
    ]
