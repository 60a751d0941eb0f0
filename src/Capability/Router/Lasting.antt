-- ===== src/Capability/Router/Lasting.antt =====
-- What lasts over any history of the router: open leases keep their payloads, and the callback has
-- the committed snapshot.
use luna_agent.Prelude.{
  ℕ, ◌≡◌, refl, sym, ap, ◌∙◌, inl, inr, Bool, true, false, Option, none, some, List, [], ◌∷◌, arith,
  String, String_eq, elem, Bool-cases,
}
use luna_agent.Capability.Failure.{Result, ok, err}
use luna_agent.Capability.Binding.{CapabilityBinding}
use luna_agent.Capability.Snapshot.{CapabilitySnapshot}
use luna_agent.Capability.Store.{CapabilityLease, Leased, lease_at, release_lease}
use luna_agent.Capability.Store.History.{
  StaysOrCloses, acquire_lease-StaysOrCloses, release_step-StaysOrCloses, release_step_current,
  acquire_lease_current,
}
use luna_agent.Capability.Store.History
use luna_agent.Capability.Router.{
  CapabilityRouter, Payloads, stage, discard_runtime, any_unknown, ids,
}
use luna_agent.Capability.Router.Retire.{Retires, retire_all-Retires}
use luna_agent.Capability.Router.Publish.{InSync}
use luna_agent.Capability.Router.Operations.{
  Does, MayDo, publish_current-Does, publish_plugin-Does, publish_staged-Does,
  publish_without_owner-MayDo, restore_owner-MayDo, replace_dynamic_source-MayDo,
}
use luna_agent.Capability.Router.History.{
  World, Call, leases_current, releases_lease, retires_next, stages, discards, publishes_plugin,
  publishes_current, publishes_staged, publishes_without, restores, replaces_source, step, run, Inv,
  Present, leased, released, release, retire_next, staged_router, step-Keeps,
}

module _ (on_publish : Option (CapabilitySnapshot → Bool)) where
  pub run-Inv :
      (w : World) (cs : List Call)
      → w.router.running_loop ≡ true
      → Inv w
      → Inv (run on_publish w cs)
  unfolding run
  run-Inv w [] loop inv = inv
  run-Inv w (c ∷ cs) loop inv =
      let keeps = step-Keeps on_publish w c loop in
      run-Inv (step on_publish w c) cs (keeps.loop_same ∙ loop) (keeps.inv inv)

  step-StaysOrCloses :
      (w : World) (c : Call) (i : ℕ) (l : CapabilityLease)
      → Inv w
      → lease_at w.leases i ≡ some l
      → StaysOrCloses (step on_publish w c).leases i l
  unfolding step release
  step-StaysOrCloses w leases_current i l inv e = acquire_lease-StaysOrCloses (leased w) i l e
  step-StaysOrCloses w (releases_lease k) i l inv e =
      of_result (release_lease (leased w) k) (release_step-StaysOrCloses (leased w) k i l inv e)
    where
      of_result :
          (r : Result (Leased × List CapabilitySnapshot))
          → StaysOrCloses (History.after (leased w) r).leases i l
          → StaysOrCloses (released w r).0.leases i l
      of_result (ok (x, out)) h = h
      of_result (err x) h = h
  step-StaysOrCloses w retires_next i l inv e = of_queue w.router.retiring
    where
      of_queue : (q : List (List CapabilitySnapshot)) → StaysOrCloses (retire_next w q).leases i l
      of_queue [] = inl e
      of_queue (s ∷ rest) = inl e
  step-StaysOrCloses w (stages runtime staged payloads) i l inv e =
      of_result (stage w.router runtime staged payloads)
    where
      of_result :
          (r : Result (CapabilityRouter × List CapabilityBinding))
          → StaysOrCloses (staged_router w r).leases i l
      of_result (ok (x, out)) = inl e
      of_result (err x) = inl e
  step-StaysOrCloses w (discards runtime) i l inv e = inl e
  step-StaysOrCloses w (publishes_plugin owner runtime core payloads kinds) i l inv e = inl e
  step-StaysOrCloses w publishes_current i l inv e = inl e
  step-StaysOrCloses w (publishes_staged owner runtime kinds) i l inv e = inl e
  step-StaysOrCloses w (publishes_without owner kinds) i l inv e = inl e
  step-StaysOrCloses w (restores owner runtime kinds) i l inv e = inl e
  step-StaysOrCloses w (replaces_source source staged payloads) i l inv e = inl e

  -- A released lease stays as it is.
  run_closed :
      (w : World) (cs : List Call) (i : ℕ) (l : CapabilityLease)
      → w.router.running_loop ≡ true
      → Inv w
      → lease_at w.leases i ≡ some l
      → l.released ≡ true
      → lease_at (run on_publish w cs).leases i ≡ some l
  unfolding run
  run_closed w [] i l loop inv e gone = e
  run_closed w (c ∷ cs) i l loop inv e gone =
      let keeps = step-Keeps on_publish w c loop in
      let same : record l { released = true } ≡ l =
        ap (λ b. record l { released = b }) (sym gone) in
      let now : lease_at (step on_publish w c).leases i ≡ some l =
        elim (step-StaysOrCloses w c i l inv e) [ inl k ↦ k | inr k ↦ k ∙ ap some same ] in
      run_closed (step on_publish w c) cs i l (keeps.loop_same ∙ loop) (keeps.inv inv) now gone

  -- In a world whose store agrees with its leases and whose thread runs an event loop, let a lease
  -- be open both before and after any list of router calls and lease steps, and let some payload be
  -- there before for a binding of its snapshot. Then some payload is there for that binding
  -- afterwards.
  pub leased_payload_lasts :
      (w : World) (cs : List Call) (i : ℕ) (l : CapabilityLease) (id : String)
      → w.router.running_loop ≡ true
      → Inv w
      → lease_at w.leases i ≡ some l
      → lease_at (run on_publish w cs).leases i ≡ some l
      → l.released ≡ false
      → elem id l.snapshot.binding_ids ≡ true
      → Present w id
      → Present (run on_publish w cs) id
  unfolding run
  leased_payload_lasts w [] i l id loop inv e e' live h present = present
  leased_payload_lasts w (c ∷ cs) i l id loop inv e e' live h present =
      let keeps = step-Keeps on_publish w c loop in
      elim (step-StaysOrCloses w c i l inv e) [
        | inl now ↦
            leased_payload_lasts (step on_publish w c) cs i l id (keeps.loop_same ∙ loop)
              (keeps.inv inv) now e' live h (keeps.payloads_kept i l id inv e live h now present)
        | inr closed ↦
            let at_end =
              run_closed (step on_publish w c) cs i (record l { released = true })
                (keeps.loop_same ∙ loop) (keeps.inv inv) closed refl in
            ground (arith, e', at_end, live)
      ]

  synced_of :
      (r : CapabilityRouter) (p : CapabilityRouter × Result CapabilitySnapshot)
      → Does on_publish r p
      → InSync on_publish r
      → InSync on_publish p.0
  synced_of r (r', err e) d = d.in_sync
  synced_of r (r', ok snapshot) d = d.in_sync

  may_be_synced :
      (r : CapabilityRouter) (p : CapabilityRouter × Option (Result CapabilitySnapshot))
      → MayDo on_publish r p
      → InSync on_publish r
      → InSync on_publish p.0
  may_be_synced r (r', none) same s = rw same s
  may_be_synced r (r', some result) d s = synced_of r (r', result) d s

  Retires-InSync :
      (r r' : CapabilityRouter) → Retires r r' → InSync on_publish r → InSync on_publish r'
  Retires-InSync r r' d s = rw (d.store_same, d.applied_same) s

  release-InSync :
      (w : World) (k : ℕ) → InSync on_publish w.router → InSync on_publish (release w k).0.router
  unfolding release
  release-InSync w k s = of_result (release_lease (leased w) k) (release_step_current (leased w) k)
    where
      of_result :
          (r : Result (Leased × List CapabilitySnapshot))
          → (History.after (leased w) r).store.current ≡ w.router.store.current
          → InSync on_publish (released w r).0.router
      of_result (ok (x, out)) same =
          let r = record w.router { store = x.store } in
          Retires-InSync r _ (retire_all-Retires r out) (rw same s)
      of_result (err x) same = s

  retire-InSync :
      (w : World) (q : List (List CapabilitySnapshot))
      → InSync on_publish w.router
      → InSync on_publish (retire_next w q).router
  retire-InSync w [] s = s
  retire-InSync w (task ∷ rest) s =
      let r = record w.router { retiring = rest } in
      Retires-InSync r _ (retire_all-Retires r task) s

  stage-InSync :
      (w : World) (runtime : String) (staged : List CapabilityBinding) (payloads : Payloads)
      → InSync on_publish w.router
      → InSync on_publish (staged_router w (stage w.router runtime staged payloads)).router
  unfolding stage
  stage-InSync w runtime staged payloads s = elim (Bool-cases (any_unknown payloads (ids staged))) [
    | inl unknown ↦ rw (unknown, stage) s
    | inr known ↦ rw (known, stage) s
  ]

  -- A callback that was given the committed snapshot last has it after any step.
  step-InSync :
      (w : World) (c : Call)
      → w.router.running_loop ≡ true
      → InSync on_publish w.router
      → InSync on_publish (step on_publish w c).router
  unfolding step discard_runtime
  step-InSync w leases_current loop s = rw (acquire_lease_current (leased w)) s
  step-InSync w (releases_lease k) loop s = release-InSync w k s
  step-InSync w retires_next loop s = retire-InSync w w.router.retiring s
  step-InSync w (stages runtime staged payloads) loop s = stage-InSync w runtime staged payloads s
  step-InSync w (discards runtime) loop s = s
  step-InSync w (publishes_plugin owner runtime core payloads kinds) loop s =
      synced_of w.router _
        (publish_plugin-Does on_publish w.router loop owner runtime core payloads kinds) s
  step-InSync w publishes_current loop s =
      synced_of w.router _ (publish_current-Does on_publish w.router loop) s
  step-InSync w (publishes_staged owner runtime kinds) loop s =
      synced_of w.router _ (publish_staged-Does on_publish w.router loop owner runtime kinds) s
  step-InSync w (publishes_without owner kinds) loop s =
      may_be_synced w.router _ (publish_without_owner-MayDo on_publish w.router loop owner kinds) s
  step-InSync w (restores owner runtime kinds) loop s =
      may_be_synced w.router _ (restore_owner-MayDo on_publish w.router loop owner runtime kinds) s
  step-InSync w (replaces_source source staged payloads) loop s =
      may_be_synced w.router _
        (replace_dynamic_source-MayDo on_publish w.router loop source staged payloads) s

  -- Where the thread runs an event loop: if the publish callback was last called with the committed
  -- snapshot, or not yet called, this holds after any list of router calls and lease steps too,
  -- those that fail to publish included.
  pub run-InSync :
      (w : World) (cs : List Call)
      → w.router.running_loop ≡ true
      → InSync on_publish w.router
      → InSync on_publish (run on_publish w cs).router
  unfolding run
  run-InSync w [] loop s = s
  run-InSync w (c ∷ cs) loop s =
      let keeps = step-Keeps on_publish w c loop in
      run-InSync (step on_publish w c) cs (keeps.loop_same ∙ loop) (step-InSync w c loop s)
