-- ===== src/Capability/Router/History.antt =====
-- Any history of the router while turns lease snapshots and release them, in any order; tasks that
-- retire a snapshot run at any later step. An operation that raises ends in the state that it left.
use luna_agent.Prelude.{
  ℕ, String, ◌≡◌, ◌≢◌, ◌∙◌, refl, inl, inr, Bool, true, false, Option, none, some, List, [], ◌∷◌,
  ℕ_eq, String_eq, Bool-cases, elem, if◌then◌else◌,
}
use luna_agent.Prelude.Dict
use luna_agent.Capability.Failure.{Result, ok, err, retire_failed}
use luna_agent.Capability.Binding.{CapabilityBinding, CapabilityKind}
use luna_agent.Capability.Snapshot.{CapabilitySnapshot}
use luna_agent.Capability.Store.{CapabilityLease, Leased, lease_at, acquire_lease, release_lease}
use luna_agent.Capability.Store.Leases
use luna_agent.Capability.Store.Leases.{published_store-Inv, acquire_lease-Inv}
use luna_agent.Capability.Store.History.{release_step-Inv, open_lease_retained}
use luna_agent.Capability.Store.History
use luna_agent.Capability.Router.{
  CapabilityRouter, Payloads, stage, discard_runtime, retire_all, publish_current, publish_plugin,
  publish_staged, publish_without_owner, restore_owner, replace_dynamic_source, any_unknown, ids,
}
use luna_agent.Capability.Router.Payloads.{update_present}
use luna_agent.Capability.Router.Retire.{Retires, retire_all-Retires, discard_runtime-Retires}
use luna_agent.Capability.Router.Operations.{
  Does, MayDo, publish_current-Does, publish_plugin-Does, publish_staged-Does,
  publish_without_owner-MayDo, restore_owner-MayDo, replace_dynamic_source-MayDo,
}

pub record World : Type 0 where
  pub router : CapabilityRouter
  pub leases : List CapabilityLease

pub data Call : Type 0 where
  leases_current : Call
  releases_lease : ℕ → Call
  retires_next : Call
  stages : (runtime : String) (staged : List CapabilityBinding) (payloads : Payloads) → Call
  discards : (runtime : String) → Call
  publishes_plugin :
      (owner runtime : String) (core : List CapabilityBinding) (payloads : Payloads)
      (kinds : List CapabilityKind)
      → Call
  publishes_current : Call
  publishes_staged : (owner runtime : String) (kinds : List CapabilityKind) → Call
  publishes_without : (owner : String) (kinds : List CapabilityKind) → Call
  restores : (owner runtime : String) (kinds : List CapabilityKind) → Call
  replaces_source : (source : String) (staged : List CapabilityBinding) (payloads : Payloads) → Call

abbrev pub leased : World → Leased
leased w = record { store = w.router.store; leases = w.leases }

abbrev pub with_leased : World → Leased → World
with_leased w l = record { router = record w.router { store = l.store }; leases = l.leases }

-- A lease that was released, and the snapshots that the caller then retires.
abbrev pub retired : World → Leased → List CapabilitySnapshot → World × Result (Unit {0})
retired w l out =
    let r = retire_all (record w.router { store = l.store }) out in
    (record { router = r.0; leases = l.leases }, if r.1 then ok tt else err retire_failed)

abbrev pub released : World → Result (Leased × List CapabilitySnapshot) → World × Result (Unit {0})
released w (ok (l, out)) = retired w l out
released w (err e) = (w, err e)

-- `await lease.release()`
unfoldable pub release : World → ℕ → World × Result (Unit {0})
release w i = released w (release_lease (leased w) i)

abbrev pub with_router : World → CapabilityRouter → World
with_router w r = record w { router = r }

abbrev pub staged_router : World → Result (CapabilityRouter × List CapabilityBinding) → World
staged_router w (ok (r, staged)) = with_router w r
staged_router w (err e) = w

-- The oldest task runs.
abbrev pub retire_next : World → List (List CapabilitySnapshot) → World
retire_next w [] = w
retire_next w (task ∷ rest) =
    with_router w (retire_all (record w.router { retiring = rest }) task).0

module _ (on_publish : Option (CapabilitySnapshot → Bool)) where
  unfoldable pub step : World → Call → World
  step w leases_current = with_leased w (acquire_lease (leased w))
  step w (releases_lease i) = (release w i).0
  step w retires_next = retire_next w w.router.retiring
  step w (stages runtime staged payloads) = staged_router w (stage w.router runtime staged payloads)
  step w (discards runtime) = with_router w (discard_runtime w.router runtime).0
  step w (publishes_plugin owner runtime core payloads kinds) =
      with_router w (publish_plugin on_publish w.router owner runtime core payloads kinds).0
  step w publishes_current = with_router w (publish_current on_publish w.router).0
  step w (publishes_staged owner runtime kinds) =
      with_router w (publish_staged on_publish w.router owner runtime kinds).0
  step w (publishes_without owner kinds) =
      with_router w (publish_without_owner on_publish w.router owner kinds).0
  step w (restores owner runtime kinds) =
      with_router w (restore_owner on_publish w.router owner runtime kinds).0
  step w (replaces_source source staged payloads) =
      with_router w (replace_dynamic_source on_publish w.router source staged payloads).0

  unfoldable pub run : World → List Call → World
  run w [] = w
  run w (c ∷ cs) = run (step w c) cs

-- The leases and the store agree.
abbrev pub Inv : World → Type 0
Inv w = Leases.Inv (leased w)

-- A payload that an open lease needs is there.
abbrev pub Present : World → String → Type 0
Present w id = Dict.get w.router.payloads id ≢ none

-- What a step does to the world, as far as leases go: the leases and the store agree, and a payload
-- that an open lease names is kept.
pub record Keeps (w w' : World) : Type 0 where
  pub inv : Inv w → Inv w'
  pub loop_same : w'.router.running_loop ≡ w.router.running_loop
  pub payloads_kept :
      (i : ℕ) (l : CapabilityLease) (id : String)
      → Inv w
      → lease_at w.leases i ≡ some l
      → l.released ≡ false
      → elem id l.snapshot.binding_ids ≡ true
      → lease_at w'.leases i ≡ some l
      → Present w id
      → Present w' id

module _ (on_publish : Option (CapabilitySnapshot → Bool)) (w : World) where
  Does-Keeps :
      (p : CapabilityRouter × Result CapabilitySnapshot)
      → Does on_publish w.router p
      → Keeps w (with_router w p.0)
  Does-Keeps (r, err e) d = record {
    inv = λ inv. rw d.store_same inv;
    loop_same = d.loop_same;
    payloads_kept = λ i l id inv at_i live h still present. rw (d.payloads_same id) present;
  }
  Does-Keeps (r, ok snapshot) d = record {
    inv = λ inv. published_store-Inv (leased w) r.store snapshot d.out inv d.store_is;
    loop_same = d.loop_same;
    payloads_kept = λ i l id inv at_i live h still present. d.payloads_kept id present;
  }

  MayDo-Keeps :
      (p : CapabilityRouter × Option (Result CapabilitySnapshot))
      → MayDo on_publish w.router p
      → Keeps w (with_router w p.0)
  MayDo-Keeps (r, none) same = rw same (record {
    inv = λ inv. inv;
    loop_same = refl;
    payloads_kept = λ i l id inv at_i live h still present. present;
  })
  MayDo-Keeps (r, some result) d = Does-Keeps (r, result) d

module _ (w : World) where
  same_payloads-Keeps :
      (w' : World)
      → (Inv w → Inv w')
      → w'.router.running_loop ≡ w.router.running_loop
      → w'.router.payloads ≡ w.router.payloads
      → Keeps w w'
  same_payloads-Keeps w' f loop same = record {
    inv = f;
    loop_same = loop;
    payloads_kept = λ i l id inv at_i live h still present. rw same present;
  }

  acquire-Keeps : Keeps w (with_leased w (acquire_lease (leased w)))
  acquire-Keeps = same_payloads-Keeps _ (acquire_lease-Inv (leased w)) refl refl

  -- Retiring with a store that agrees with the leases keeps the payloads of those that are open.
  Retires-Keeps :
      (r r' : CapabilityRouter) (leases : List CapabilityLease)
      → (Inv w → Leases.Inv (record { store = r.store; leases = leases }))
      → r.running_loop ≡ w.router.running_loop
      → r.payloads ≡ w.router.payloads
      → Retires r r'
      → Keeps w (record { router = r'; leases = leases })
  Retires-Keeps r r' leases f loop same d = record {
    inv = λ inv. rw d.store_same (f inv);
    loop_same = d.loop_same ∙ loop;
    payloads_kept = λ i l id inv at_i live h still present.
        let retained =
          open_lease_retained (record { store = r.store; leases = leases }) i l id (f inv) still
            live h in
        rw (d.payloads_retained id retained, same) present;
  }

  release-Keeps : (i : ℕ) → Keeps w (release w i).0
  unfolding release
  release-Keeps i = of_result (release_lease (leased w) i) (release_step-Inv (leased w) i)
    where
      of_result :
          (r : Result (Leased × List CapabilitySnapshot))
          → (Inv w → Leases.Inv (History.after (leased w) r))
          → Keeps w (released w r).0
      of_result (ok (l, out)) f =
          Retires-Keeps (record w.router { store = l.store }) _ l.leases f refl refl
            (retire_all-Retires (record w.router { store = l.store }) out)
      of_result (err e) f = same_payloads-Keeps w f refl refl

  retire-Keeps : (q : List (List CapabilitySnapshot)) → Keeps w (retire_next w q)
  retire-Keeps [] = same_payloads-Keeps w (λ inv. inv) refl refl
  retire-Keeps (task ∷ rest) =
      Retires-Keeps (record w.router { retiring = rest }) _ w.leases (λ inv. inv) refl refl
        (retire_all-Retires (record w.router { retiring = rest }) task)

  discard-Keeps : (runtime : String) → Keeps w (with_router w (discard_runtime w.router runtime).0)
  discard-Keeps runtime =
      Retires-Keeps w.router _ w.leases (λ inv. inv) refl refl
        (discard_runtime-Retires w.router runtime)

  stage-Keeps :
      (runtime : String) (staged : List CapabilityBinding) (payloads : Payloads)
      → Keeps w (staged_router w (stage w.router runtime staged payloads))
  unfolding stage
  stage-Keeps runtime staged payloads = elim (Bool-cases (any_unknown payloads (ids staged))) [
    | inl unknown ↦ rw (unknown, stage) (same_payloads-Keeps w (λ inv. inv) refl refl)
    | inr known ↦
        rw (known, stage)
          (record {
            inv = λ inv. inv;
            loop_same = refl;
            payloads_kept = λ i l id inv at_i live h still present.
                update_present w.router.payloads payloads id present;
          })
  ]

module _ (on_publish : Option (CapabilitySnapshot → Bool)) where
  pub step-Keeps :
      (w : World) (c : Call) → w.router.running_loop ≡ true → Keeps w (step on_publish w c)
  unfolding step
  step-Keeps w leases_current loop = acquire-Keeps w
  step-Keeps w (releases_lease i) loop = release-Keeps w i
  step-Keeps w retires_next loop = retire-Keeps w w.router.retiring
  step-Keeps w (stages runtime staged payloads) loop = stage-Keeps w runtime staged payloads
  step-Keeps w (discards runtime) loop = discard-Keeps w runtime
  step-Keeps w (publishes_plugin owner runtime core payloads kinds) loop =
      Does-Keeps on_publish w _
        (publish_plugin-Does on_publish w.router loop owner runtime core payloads kinds)
  step-Keeps w publishes_current loop =
      Does-Keeps on_publish w _ (publish_current-Does on_publish w.router loop)
  step-Keeps w (publishes_staged owner runtime kinds) loop =
      Does-Keeps on_publish w _ (publish_staged-Does on_publish w.router loop owner runtime kinds)
  step-Keeps w (publishes_without owner kinds) loop =
      MayDo-Keeps on_publish w _ (publish_without_owner-MayDo on_publish w.router loop owner kinds)
  step-Keeps w (restores owner runtime kinds) loop =
      MayDo-Keeps on_publish w _ (restore_owner-MayDo on_publish w.router loop owner runtime kinds)
  step-Keeps w (replaces_source source staged payloads) loop =
      MayDo-Keeps on_publish w _
        (replace_dynamic_source-MayDo on_publish w.router loop source staged payloads)
