-- ===== src/Capability/Router/Operations.antt =====
-- The publishing operations of the router, on all their branches.
use luna_agent.Prelude.{
  String, ◌≡◌, ◌≢◌, refl, ap, inl, inr, Bool, true, Option, none, some, List, String_eq, Bool-cases,
  Option-cases,
}
use luna_agent.Prelude.Dict
use luna_agent.Capability.Failure.{Result, ok, err}
use luna_agent.Capability.Binding.{CapabilityBinding, CapabilityKind, CapabilityKind_eq}
use luna_agent.Capability.Snapshot.{CapabilitySnapshot}
use luna_agent.Capability.Store.{publish}
use luna_agent.Capability.Router.{
  CapabilityRouter, Bindings, Payloads, publish_bindings, activate, or_restore, publish_current,
  publish_plugin, publish_staged, publish_without_owner, restore_owner, replace_dynamic_source,
  update, with_task, previous_payloads, set_dynamic, same_bindings, list_or_nil,
}
use luna_agent.Capability.Router.Payloads.{restore_payloads-update, update_present}
use luna_agent.Capability.Router.Publish.{Outcome, InSync, publish_bindings-Outcome}

module _ (on_publish : Option (CapabilitySnapshot → Bool)) where
  -- An operation that raised: all is as it was, and the callback's registry too.
  pub record Failed (r r' : CapabilityRouter) : Type 0 where
    pub runtime_same : r'.runtime_bindings ≡ r.runtime_bindings
    pub active_same : r'.active_bindings ≡ r.active_bindings
    pub dynamic_same : r'.dynamic_bindings ≡ r.dynamic_bindings
    pub store_same : r'.store ≡ r.store
    pub retiring_same : r'.retiring ≡ r.retiring
    pub payloads_same : (id : String) → Dict.get r'.payloads id ≡ Dict.get r.payloads id
    pub loop_same : r'.running_loop ≡ r.running_loop
    pub in_sync : InSync on_publish r → InSync on_publish r'

  -- An operation that published: the store took the snapshot, and no payload went.
  pub record Published (r r' : CapabilityRouter) (snapshot : CapabilitySnapshot) : Type 0 where
    pub out : List CapabilitySnapshot
    pub store_is : publish r.store snapshot ≡ ok (r'.store, out)
    pub retiring_is : r'.retiring ≡ with_task r.retiring out
    pub runtime_same : r'.runtime_bindings ≡ r.runtime_bindings
    pub payloads_kept :
        (id : String) → Dict.get r.payloads id ≢ none → Dict.get r'.payloads id ≢ none
    pub loop_same : r'.running_loop ≡ r.running_loop
    pub in_sync : InSync on_publish r → InSync on_publish r'

  abbrev pub Does : CapabilityRouter → CapabilityRouter × Result CapabilitySnapshot → Type 0
  Does r (r', err e) = Failed r r'
  Does r (r', ok snapshot) = Published r r' snapshot

  -- An operation that may have nothing to do.
  abbrev pub MayDo :
      CapabilityRouter → CapabilityRouter × Option (Result CapabilitySnapshot) → Type 0
  MayDo r (r', none) = r' ≡ r
  MayDo r (r', some result) = Does r (r', result)

  Failed-refl : (r : CapabilityRouter) → Failed r r
  Failed-refl r = record {
    runtime_same = refl;
    active_same = refl;
    dynamic_same = refl;
    store_same = refl;
    retiring_same = refl;
    payloads_same = λ id. refl;
    loop_same = refl;
    in_sync = λ s. s;
  }

  module _ (r : CapabilityRouter) where
    activate-Does :
        (p : CapabilityRouter × Result CapabilitySnapshot) (active : Bindings)
        → Does r p
        → Does r (activate p active)
    unfolding activate
    activate-Does (r', err e) active d = d
    activate-Does (r', ok snapshot) active d = record {
      out = d.out;
      store_is = d.store_is;
      retiring_is = d.retiring_is;
      runtime_same = d.runtime_same;
      payloads_kept = d.payloads_kept;
      loop_same = d.loop_same;
      in_sync = d.in_sync;
    }

    set_dynamic-Does :
        (p : CapabilityRouter × Result CapabilitySnapshot) (dynamic : Bindings)
        → Does r p
        → Does r (set_dynamic p dynamic)
    unfolding set_dynamic
    set_dynamic-Does (r', err e) dynamic d = d
    set_dynamic-Does (r', ok snapshot) dynamic d = record {
      out = d.out;
      store_is = d.store_is;
      retiring_is = d.retiring_is;
      runtime_same = d.runtime_same;
      payloads_kept = d.payloads_kept;
      loop_same = d.loop_same;
      in_sync = d.in_sync;
    }

    outcome-Does :
        (p : CapabilityRouter × Result CapabilitySnapshot) → Outcome on_publish r p → Does r p
    outcome-Does (r', err e) (same, sync) = record {
      runtime_same = ap (λ x. x.runtime_bindings) same;
      active_same = ap (λ x. x.active_bindings) same;
      dynamic_same = ap (λ x. x.dynamic_bindings) same;
      store_same = ap (λ x. x.store) same;
      retiring_same = ap (λ x. x.retiring) same;
      payloads_same = λ id. ap (λ x. Dict.get x.payloads id) same;
      loop_same = ap (λ x. x.running_loop) same;
      in_sync = sync;
    }
    outcome-Does (r', ok snapshot) (out, same, done, sync) = record {
      out = out;
      store_is = done;
      retiring_is = ap (λ x. x.retiring) same;
      runtime_same = ap (λ x. x.runtime_bindings) same;
      payloads_kept = λ id h. rw (ap (λ x. Dict.get x.payloads id) same) h;
      loop_same = ap (λ x. x.running_loop) same;
      in_sync = sync;
    }

    or_restore-Does :
        (p : CapabilityRouter × Result CapabilitySnapshot) (changes : Payloads)
        → Outcome on_publish (record r { payloads = update r.payloads changes }) p
        → Does r (or_restore p (previous_payloads r.payloads changes))
    unfolding or_restore
    or_restore-Does (r', err e) changes (same, sync) = record {
      runtime_same = ap (λ x. x.runtime_bindings) same;
      active_same = ap (λ x. x.active_bindings) same;
      dynamic_same = ap (λ x. x.dynamic_bindings) same;
      store_same = ap (λ x. x.store) same;
      retiring_same = ap (λ x. x.retiring) same;
      payloads_same =
          λ id. rw (ap (λ x. x.payloads) same) (restore_payloads-update r.payloads changes id);
      loop_same = ap (λ x. x.running_loop) same;
      in_sync = sync;
    }
    or_restore-Does (r', ok snapshot) changes (out, same, done, sync) = record {
      out = out;
      store_is = done;
      retiring_is = ap (λ x. x.retiring) same;
      runtime_same = ap (λ x. x.runtime_bindings) same;
      payloads_kept = λ id h.
          rw (ap (λ x. Dict.get x.payloads id) same) (update_present r.payloads changes id h);
      loop_same = ap (λ x. x.running_loop) same;
      in_sync = sync;
    }

  -- The thread runs an event loop.
  module _ (r : CapabilityRouter) (loop : r.running_loop ≡ true) where
    published_active-Does :
        (active : Bindings)
        → Does r (activate (publish_bindings on_publish r active r.dynamic_bindings) active)
    published_active-Does active =
        activate-Does r _ active
          (outcome-Does r _ (publish_bindings-Outcome on_publish r active r.dynamic_bindings loop))

    -- Where the thread runs an event loop, publishing a plugin either raises, with the bindings,
    -- the store, the waiting retirements and every payload lookup as before, or the store takes the
    -- snapshot, no payload goes, and the snapshots that the store lets go wait for their
    -- retirement. Either way a callback that was in step with the committed snapshot still is.
    pub publish_plugin-Does :
        (owner runtime : String) (core_bindings : List CapabilityBinding) (core_payloads : Payloads)
        (kinds : List CapabilityKind)
        → Does r (publish_plugin on_publish r owner runtime core_bindings core_payloads kinds)
    unfolding publish_plugin
    publish_plugin-Does owner runtime core_bindings core_payloads kinds =
        elim (Option-cases (Dict.get r.runtime_bindings runtime)) [
          | inl absent ↦ rw (absent, publish_plugin) (Failed-refl r)
          | inr (bindings, present) ↦
              rw (present, publish_plugin)
                (activate-Does r _ _ (
                  or_restore-Does r _ core_payloads
                    (publish_bindings-Outcome on_publish _ _ _ loop)))
        ]

    pub publish_current-Does : Does r (publish_current on_publish r)
    unfolding publish_current
    publish_current-Does =
        outcome-Does r _
          (publish_bindings-Outcome on_publish r r.active_bindings r.dynamic_bindings loop)

    pub publish_staged-Does :
        (owner runtime : String) (kinds : List CapabilityKind)
        → Does r (publish_staged on_publish r owner runtime kinds)
    unfolding publish_staged
    publish_staged-Does owner runtime kinds =
        elim (Option-cases (Dict.get r.runtime_bindings runtime)) [
          | inl absent ↦ rw (absent, publish_staged) (Failed-refl r)
          | inr (bindings, present) ↦ rw (present, publish_staged) (published_active-Does _)
        ]

    pub publish_without_owner-MayDo :
        (owner : String) (kinds : List CapabilityKind)
        → MayDo r (publish_without_owner on_publish r owner kinds)
    unfolding publish_without_owner
    publish_without_owner-MayDo owner kinds =
        elim (Option-cases (Dict.get r.active_bindings owner)) [
          | inl absent ↦ rw (absent, publish_without_owner) refl
          | inr (bindings, present) ↦ rw (present, publish_without_owner) (published_active-Does _)
        ]

    pub restore_owner-MayDo :
        (owner runtime : String) (kinds : List CapabilityKind)
        → MayDo r (restore_owner on_publish r owner runtime kinds)
    unfolding restore_owner
    restore_owner-MayDo owner runtime kinds =
        elim (Option-cases (Dict.get r.runtime_bindings runtime)) [
          | inl absent ↦ rw (absent, restore_owner) refl
          | inr (bindings, present) ↦ rw (present, restore_owner) (published_active-Does _)
        ]

    -- Where the thread runs an event loop, replacing a dynamic source leaves the router alone, or
    -- raises with the bindings, the store, the waiting retirements and every payload lookup as
    -- before, or the store takes the snapshot and no payload goes. A callback that was in step with
    -- the committed snapshot still is.
    pub replace_dynamic_source-MayDo :
        (source : String) (staged : List CapabilityBinding) (payloads : Payloads)
        → MayDo r (replace_dynamic_source on_publish r source staged payloads)
    unfolding replace_dynamic_source
    replace_dynamic_source-MayDo source staged payloads =
        elim (Bool-cases
          (same_bindings staged (list_or_nil (Dict.get r.dynamic_bindings source)))) [
            | inl same ↦ rw (same, replace_dynamic_source) refl
            | inr other ↦
                rw (other, replace_dynamic_source)
                  (set_dynamic-Does r _ _
                    (or_restore-Does r _ payloads (publish_bindings-Outcome on_publish _ _ _ loop)))
          ]
