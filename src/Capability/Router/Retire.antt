-- ===== src/Capability/Router/Retire.antt =====
-- What retiring snapshots leaves of the payloads.
use luna_agent.Prelude.{
  String, ◌≡◌, ◌∙◌, ap, refl, Bool, true, false, not, ◌&&◌, ◌||◌, Option, none, some, List, [], ◌∷◌,
  ◌++◌, arith, String_eq, if◌then◌else◌, elem, elem-append, if_elim,
}
use luna_agent.Prelude.Dict
use luna_agent.Capability.Snapshot.{CapabilitySnapshot}
use luna_agent.Capability.Store.{retained_binding_ids}
use luna_agent.Capability.Router.{
  CapabilityRouter, Bindings, discard_runtime, discard_runtimes, drop_retired, retire_with, retire,
  retire_all, list_or_nil, ids,
}
use luna_agent.Capability.Router.Payloads.{get-drop_payloads}

-- The ids that runtimes bind, each runtime once.
abbrev pub bound_by : Bindings → List String → List String
bound_by bindings [] = []
bound_by bindings (runtime ∷ rest) =
    ids (list_or_nil (Dict.get bindings runtime)) ++ bound_by (Dict.remove bindings runtime) rest

-- The runtimes that the retire callback discards.
abbrev pub discarded :
    Option (CapabilitySnapshot → List String × Bool) → CapabilitySnapshot → List String
discarded none snapshot = []
discarded (some callback) snapshot = (callback snapshot).0

-- What retiring leaves alone.
pub record Retires (r r' : CapabilityRouter) : Type 0 where
  pub store_same : r'.store ≡ r.store
  pub applied_same : r'.applied ≡ r.applied
  pub loop_same : r'.running_loop ≡ r.running_loop
  pub payloads_retained :
      (id : String)
      → elem id (retained_binding_ids r.store) ≡ true
      → Dict.get r'.payloads id ≡ Dict.get r.payloads id

Retires-trans : (a b c : CapabilityRouter) → Retires a b → Retires b c → Retires a c
Retires-trans a b c f g = record {
  store_same = g.store_same ∙ f.store_same;
  applied_same = g.applied_same ∙ f.applied_same;
  loop_same = g.loop_same ∙ f.loop_same;
  payloads_retained = λ id h.
      g.payloads_retained id (ap (λ s. elem id (retained_binding_ids s)) f.store_same ∙ h)
      ∙ f.payloads_retained id h;
}

pub Retires-refl : (r : CapabilityRouter) → Retires r r
Retires-refl r = record {
  store_same = refl;
  applied_same = refl;
  loop_same = refl;
  payloads_retained = λ id h. refl;
}

pub discard_runtime-Retires :
    (r : CapabilityRouter) (runtime : String) → Retires r (discard_runtime r runtime).0
unfolding discard_runtime
discard_runtime-Retires r runtime = record {
  store_same = refl;
  applied_same = refl;
  loop_same = refl;
  payloads_retained = λ id h. ground (
    arith,
    h,
    get-drop_payloads r.payloads (ids (list_or_nil (Dict.get r.runtime_bindings runtime)))
        (retained_binding_ids r.store) id,
  );
}

discard_runtimes-Retires :
    (r : CapabilityRouter) (runtimes : List String) → Retires r (discard_runtimes r runtimes)
unfolding discard_runtimes
discard_runtimes-Retires r [] = Retires-refl r
discard_runtimes-Retires r (runtime ∷ rest) =
    Retires-trans r (discard_runtime r runtime).0 _ (discard_runtime-Retires r runtime)
      (discard_runtimes-Retires (discard_runtime r runtime).0 rest)

drop_retired-Retires :
    (r : CapabilityRouter) (snapshot : CapabilitySnapshot) → Retires r (drop_retired r snapshot)
unfolding drop_retired
drop_retired-Retires r snapshot = record {
  store_same = refl;
  applied_same = refl;
  loop_same = refl;
  payloads_retained = λ id h. ground (
    arith,
    h,
    get-drop_payloads r.payloads snapshot.binding_ids (retained_binding_ids r.store) id,
  );
}

retire_with_is :
    (r : CapabilityRouter) (snapshot : CapabilitySnapshot)
    (callback : Option (CapabilitySnapshot → List String × Bool))
    → (retire_with r snapshot callback).0
      ≡ discard_runtimes (drop_retired r snapshot) (discarded callback snapshot)
unfolding retire_with discard_runtimes
retire_with_is r snapshot none = refl
retire_with_is r snapshot (some callback) = refl

-- Retiring is dropping the payloads of the snapshot, and then discarding runtimes.
retire_is :
    (r : CapabilityRouter) (snapshot : CapabilitySnapshot)
    → (retire r snapshot).0
      ≡ discard_runtimes (drop_retired r snapshot) (discarded r.on_retire snapshot)
unfolding retire
retire_is r snapshot = retire_with_is r snapshot r.on_retire

retire-Retires :
    (r : CapabilityRouter) (snapshot : CapabilitySnapshot) → Retires r (retire r snapshot).0
retire-Retires r snapshot = rw (retire_is r snapshot) (
    Retires-trans r (drop_retired r snapshot) _ (drop_retired-Retires r snapshot)
      (discard_runtimes-Retires (drop_retired r snapshot) (discarded r.on_retire snapshot)))

pub retire_all-Retires :
    (r : CapabilityRouter) (snapshots : List CapabilitySnapshot)
    → Retires r (retire_all r snapshots).0
unfolding retire_all
retire_all-Retires r [] = Retires-refl r
retire_all-Retires r (snapshot ∷ rest) =
    let first = retire r snapshot in
    if_elim (λ x. Retires r x.0) first.1 (retire_all first.0 rest) (first.0, false)
      (λ returned.
        Retires-trans r first.0 _ (retire-Retires r snapshot) (retire_all-Retires first.0 rest))
      (λ raised. retire-Retires r snapshot)

get-discard_runtimes :
    (r : CapabilityRouter) (runtimes : List String) (id : String)
    → Dict.get (discard_runtimes r runtimes).payloads id ≡ (
        if elem id (bound_by r.runtime_bindings runtimes)
          && not (elem id (retained_binding_ids r.store))
        then none
        else Dict.get r.payloads id)
unfolding discard_runtimes discard_runtime
get-discard_runtimes r [] id = refl
get-discard_runtimes r (runtime ∷ rest) id =
    let bound = ids (list_or_nil (Dict.get r.runtime_bindings runtime)) in
    ground (
      arith,
      get-discard_runtimes (discard_runtime r runtime).0 rest id,
      get-drop_payloads r.payloads bound (retained_binding_ids r.store) id,
      elem-append id bound (bound_by (Dict.remove r.runtime_bindings runtime) rest),
    )

-- Retiring a snapshot drops exactly the payloads of its bindings, and of those that the runtimes
-- bind which the retire callback discards, that are not among the retained ones.
pub retire_payloads :
    (r : CapabilityRouter) (snapshot : CapabilitySnapshot) (id : String)
    → Dict.get (retire r snapshot).0.payloads id ≡ (
        if (elem id snapshot.binding_ids
            || elem id (bound_by r.runtime_bindings (discarded r.on_retire snapshot)))
          && not (elem id (retained_binding_ids r.store))
        then none
        else Dict.get r.payloads id)
unfolding drop_retired
retire_payloads r snapshot id =
    ap (λ x. Dict.get x.payloads id) (retire_is r snapshot)
    ∙ ground (
      arith,
      get-discard_runtimes (drop_retired r snapshot) (discarded r.on_retire snapshot) id,
      get-drop_payloads r.payloads snapshot.binding_ids (retained_binding_ids r.store) id,
    )
