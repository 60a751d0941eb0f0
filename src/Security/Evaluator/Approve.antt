-- ===== src/Security/Evaluator/Approve.antt =====
-- What an approval gives.
use luna_agent.Prelude.{
  ℕ, suc, ◌+◌, ◌≤◌, ◌<◌, max, String, ◌≡◌, refl, sym, subst, ◌∙◌, inl, inr, true, false, List, [],
  ◌∷◌, arith, ==_self, String_eq, Bool-cases, All, All-map,
}
use luna_agent.Security.Profile.{PermissionProfile, ResourceRequirement, key, allows}
use luna_agent.Security.Grants.{
  SecuritySessionState, prune_expired, has_tool_grant, grant_tool, grant_resource, tool_end,
  resource_end,
}
use luna_agent.Security.Grants.Expiry.{
  granted, granted-unexpired, granted_earlier, has_tool_grant_lem, grant_tool_lem,
  grant_resource_lem, grant_resource_tools,
}
use luna_agent.Security.Evaluator.{
  SecurityContext, PreparedToolCall, allow, effective_approval_mode, needs_grant, is_refused,
  evaluate_tool_security, grant_resources, grant_prepared_call,
}
use luna_agent.Security.Evaluator.Decide.{IsCovered, IsCovered-pruned, select_resources_complete}

same_mode :
    (p : PreparedToolCall) (context : SecurityContext) (s : SecuritySessionState)
    → effective_approval_mode p (record context { state = s }) ≡ effective_approval_mode p context
unfolding effective_approval_mode
same_mode p context s = refl

module _ (resolve : String → List String) (clock : ℕ → ℕ) (ttl late : ℕ)
    (lasts : (i : ℕ) → late < clock i + max 1 ttl) where
  -- Granting the resources of a call keeps what counts at a later time.
  grants_kept :
      (profile : PermissionProfile) (rs : List ResourceRequirement) (s : SecuritySessionState)
      (i : ℕ) (k : String)
      → granted resource_end s.resource_grants k late ≡ true
      → granted resource_end
          (grant_resources resolve clock profile ttl rs s i).0.resource_grants
          k
          late
        ≡ true
  unfolding grant_resources
  grants_kept profile [] s i k h = h
  grants_kept profile (r ∷ rs) s i k h = elim (Bool-cases (allows resolve profile r)) [
    | inl permitted ↦ let rest = grants_kept profile rs s i k h in ground arith
    | inr other ↦
        let now = grant_resource_lem s r ttl (clock i) late k (lasts i) (ground arith) in
        let rest = grants_kept profile rs (grant_resource s r ttl (clock i)).0 (suc i) k now in
        ground arith
  ]

  tools_kept :
      (profile : PermissionProfile) (rs : List ResourceRequirement) (s : SecuritySessionState)
      (i : ℕ)
      → (grant_resources resolve clock profile ttl rs s i).0.tool_grants ≡ s.tool_grants
  unfolding grant_resources
  tools_kept profile [] s i = refl
  tools_kept profile (r ∷ rs) s i = elim (Bool-cases (allows resolve profile r)) [
    | inl permitted ↦ let rest = tools_kept profile rs s i in ground arith
    | inr other ↦
        let rest = tools_kept profile rs (grant_resource s r ttl (clock i)).0 (suc i) in
        ground (arith, grant_resource_tools s r ttl (clock i))
  ]

  All-IsCovered :
      (profile : PermissionProfile) (rs : List ResourceRequirement) (s : SecuritySessionState)
      (i : ℕ)
      → All (IsCovered resolve profile (grant_resources resolve clock profile ttl rs s i).0 late) rs
  unfolding grant_resources
  All-IsCovered profile [] s i = tt
  All-IsCovered profile (r ∷ rs) s i = elim (Bool-cases (allows resolve profile r)) [
    | inl permitted ↦
        let run : (grant_resources resolve clock profile ttl (r ∷ rs) s i).0
            ≡ (grant_resources resolve clock profile ttl rs s i).0 =
          ground arith in
        subst (λ x. All (IsCovered resolve profile x late) (r ∷ rs)) (sym run)
          (inl permitted, All-IsCovered profile rs s i)
    | inr other ↦
        let s' = (grant_resource s r ttl (clock i)).0 in
        let run : (grant_resources resolve clock profile ttl (r ∷ rs) s i).0
            ≡ (grant_resources resolve clock profile ttl rs s' (suc i)).0 =
          ground arith in
        let now =
          grant_resource_lem s r ttl (clock i) late (key r) (lasts i)
            (ground (arith, ==_self (key r))) in
        subst (λ x. All (IsCovered resolve profile x late) (r ∷ rs)) (sym run)
          (inr (grants_kept profile rs s' (suc i) (key r) now), All-IsCovered profile rs s' (suc i))
  ]

  -- A call that needs a grant has one, and its resources are covered.
  call_granted :
      (p : PreparedToolCall) (context : SecurityContext)
      → (needs_grant (effective_approval_mode p context) ≡ true
          → granted tool_end
              (grant_prepared_call resolve clock p context ttl).0.tool_grants
              p.tool_key
              late
            ≡ true)
        × All
            (IsCovered resolve context.profile
              (grant_prepared_call resolve clock p context ttl).0
              late)
            p.resources
  unfolding grant_prepared_call
  call_granted p context = elim (Bool-cases (needs_grant (effective_approval_mode p context))) [
    | inl needed ↦
        let s' = (grant_tool context.state p.tool_key ttl (clock 0)).0 in
        let run : (grant_prepared_call resolve clock p context ttl).0
            ≡ (grant_resources resolve clock context.profile ttl p.resources s' 1).0 =
          ground arith in
        let tool = grant_tool_lem context.state p.tool_key ttl (clock 0) late (lasts 0) in
        (
          λ h. ground (arith, tools_kept context.profile p.resources s' 1),
          subst (λ x. All (IsCovered resolve context.profile x late) p.resources) (sym run)
              (All-IsCovered context.profile p.resources s' 1),
        )
    | inr free ↦
        let run : (grant_prepared_call resolve clock p context ttl).0
            ≡ (grant_resources resolve clock context.profile ttl p.resources context.state 0).0 =
          ground arith in
        (
          λ h. ground arith,
          subst (λ x. All (IsCovered resolve context.profile x late) p.resources) (sym run)
              (All-IsCovered context.profile p.resources context.state 0),
        )
  ]

  -- A call whose effective mode does not refuse it is allowed by the state that its approval
  -- leaves, as long as no reading of the clock in the evaluation comes after a time at which every
  -- grant of the approval still counts.
  pub approved_call_allowed :
      (later : ℕ → ℕ)
      → ((i : ℕ) → later i ≤ late)
      → (p : PreparedToolCall) (context : SecurityContext)
      → is_refused (effective_approval_mode p context) ≡ false
      → (evaluate_tool_security resolve later p (record context {
        state = (grant_prepared_call resolve clock p context ttl).0;
      })).1.decision
        ≡ allow
  unfolding evaluate_tool_security prune_expired
  approved_call_allowed later before p context kept =
      let s = (grant_prepared_call resolve clock p context ttl).0 in
      let context' : SecurityContext = record context { state = s } in
      let mode_same : effective_approval_mode p context' ≡ effective_approval_mode p context =
        same_mode p context s in
      let (tool, covered) = call_granted p context in
      let pruned = prune_expired s (later 0) in
      let (same, has) = has_tool_grant_lem pruned p.tool_key (later 1) in
      let s₁ = (has_tool_grant pruned p.tool_key (later 1)).0 in
      let covered₁ : All (IsCovered resolve context.profile s₁ late) p.resources =
        subst (λ x. All (IsCovered resolve context.profile x late) p.resources) (sym same)
          (All-map (IsCovered-pruned resolve context.profile pruned (later 1) late (before 1))
            p.resources
            (All-map (IsCovered-pruned resolve context.profile s (later 0) late (before 0))
              p.resources covered)) in
      let nothing_missing =
        select_resources_complete resolve later late before context.profile p.resources s₁ 2
          covered₁ in
      elim (Bool-cases (needs_grant (effective_approval_mode p context))) [
        | inl needed ↦
            let kept_grant : granted tool_end pruned.tool_grants p.tool_key late ≡ true =
              granted-unexpired tool_end s.tool_grants p.tool_key (later 0) late (before 0)
              ∙ tool needed in
            let matched =
              granted_earlier tool_end pruned.tool_grants p.tool_key (later 1) late (before 1)
                kept_grant in
            ground arith
        | inr free ↦ ground arith
      ]
