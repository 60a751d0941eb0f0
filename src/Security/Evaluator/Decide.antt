-- ===== src/Security/Evaluator/Decide.antt =====
-- When a call is allowed, and that an approved call is.
use luna_agent.Prelude.{
  ℕ, suc, ◌≤◌, String, ◌≡◌, refl, sym, subst, ◌∙◌, ◌⊎◌, inl, inr, true, false, not, ◌||◌, List, [],
  ◌∷◌, arith, String_eq, Bool-cases, All, All-map,
}
use luna_agent.Security.Profile.{PermissionProfile, ResourceRequirement, key, allows}
use luna_agent.Security.Grants.{
  SecuritySessionState, prune_expired, has_tool_grant, tool_end, resource_end,
}
use luna_agent.Security.Grants.Expiry.{
  granted, granted-unexpired, granted_earlier, has_resource_grant_lem, has_tool_grant_lem,
}
use luna_agent.Security.Evaluator.{
  SecurityContext, PreparedToolCall, allow, effective_approval_mode, needs_grant, is_refused,
  is_nil, select_resources, evaluate_tool_security,
}

module _ (resolve : String → List String) where
  -- The profile allows a requirement, or a grant for it counts at a time.
  abbrev pub IsCovered : PermissionProfile → SecuritySessionState → ℕ → ResourceRequirement → Type 0
  IsCovered profile s now r =
      (allows resolve profile r ≡ true)
      ⊎ (granted resource_end s.resource_grants (key r) now ≡ true)

  IsCovered-earlier :
      (profile : PermissionProfile) (s : SecuritySessionState) (earlier now : ℕ)
      → earlier ≤ now
      → (r : ResourceRequirement) → IsCovered profile (prune_expired s earlier) now r
      → IsCovered profile s earlier r
  unfolding prune_expired
  IsCovered-earlier profile s earlier now h r (inl a) = inl a
  IsCovered-earlier profile s earlier now h r (inr g) = inr (
      granted_earlier resource_end s.resource_grants (key r) earlier now h
        (sym (granted-unexpired resource_end s.resource_grants (key r) earlier now h) ∙ g))

  IsCovered-unpruned :
      (profile : PermissionProfile) (s : SecuritySessionState) (earlier now : ℕ)
      → earlier ≤ now
      → (r : ResourceRequirement) → IsCovered profile (prune_expired s earlier) now r
      → IsCovered profile s now r
  unfolding prune_expired
  IsCovered-unpruned profile s earlier now h r (inl a) = inl a
  IsCovered-unpruned profile s earlier now h r (inr g) =
      inr (sym (granted-unexpired resource_end s.resource_grants (key r) earlier now h) ∙ g)

  pub IsCovered-pruned :
      (profile : PermissionProfile) (s : SecuritySessionState) (earlier now : ℕ)
      → earlier ≤ now
      → (r : ResourceRequirement) → IsCovered profile s now r
      → IsCovered profile (prune_expired s earlier) now r
  unfolding prune_expired
  IsCovered-pruned profile s earlier now h r (inl a) = inl a
  IsCovered-pruned profile s earlier now h r (inr g) =
      inr (granted-unexpired resource_end s.resource_grants (key r) earlier now h ∙ g)

  module _ (clock : ℕ → ℕ) where
    -- No resource is missing only if each is covered.
    select_resources_sound :
        ((i j : ℕ) → i ≤ j → clock i ≤ clock j)
        → (profile : PermissionProfile) (rs : List ResourceRequirement) (s : SecuritySessionState)
          (i : ℕ)
        → is_nil (select_resources resolve clock false profile rs s i).2 ≡ true
        → All (IsCovered profile s (clock i)) rs
    unfolding select_resources
    select_resources_sound mono profile [] s i h = tt
    select_resources_sound mono profile (r ∷ rs) s i h =
        elim (Bool-cases (allows resolve profile r)) [
          | inl permitted ↦
              (inl permitted, select_resources_sound mono profile rs s i (ground arith))
          | inr other ↦
              let s' = prune_expired s (clock i) in
              let (same, has) = has_resource_grant_lem s r (clock i) in
              let later = mono i (suc i) (omega arith) in
              (
                inr (ground arith),
                All-map (IsCovered-earlier profile s (clock i) (clock (suc i)) later) rs
                    (select_resources_sound mono profile rs s' (suc i) (ground arith)),
              )
        ]

    -- No resource is missing where each is covered for as long as the check lasts.
    pub select_resources_complete :
        (late : ℕ)
        → ((i : ℕ) → clock i ≤ late)
        → (profile : PermissionProfile) (rs : List ResourceRequirement) (s : SecuritySessionState)
          (i : ℕ)
        → All (IsCovered profile s late) rs
        → is_nil (select_resources resolve clock false profile rs s i).2 ≡ true
    unfolding select_resources
    select_resources_complete late before profile [] s i c = refl
    select_resources_complete late before profile (r ∷ rs) s i c =
        elim (Bool-cases (allows resolve profile r)) [
          | inl permitted ↦
              let rest = select_resources_complete late before profile rs s i c.1 in ground arith
          | inr other ↦
              let s' = prune_expired s (clock i) in
              let (same, has) = has_resource_grant_lem s r (clock i) in
              let rest =
                select_resources_complete late before profile rs s' (suc i)
                  (All-map (IsCovered-pruned profile s (clock i) late (before i)) rs c.1) in
              ground (
                arith,
                granted_earlier resource_end s.resource_grants (key r) (clock i) late (before i),
                c.0,
              )
        ]

    -- Where the clock never runs backwards, a call that is allowed is not refused by its effective
    -- mode, has a grant for its tool at the second reading of the clock if that mode needs one, and
    -- each of its resources is allowed by the profile or has a grant at the third reading.
    pub evaluate_tool_security_sound :
        ((i j : ℕ) → i ≤ j → clock i ≤ clock j)
        → (p : PreparedToolCall) (context : SecurityContext)
        → (evaluate_tool_security resolve clock p context).1.decision ≡ allow
        → (is_refused (effective_approval_mode p context) ≡ false)
          × ((not (needs_grant (effective_approval_mode p context))
                || granted tool_end context.state.tool_grants p.tool_key (clock 1))
              ≡ true)
          × All (IsCovered context.profile context.state (clock 2)) p.resources
    unfolding evaluate_tool_security prune_expired
    evaluate_tool_security_sound mono p context e =
        let s = context.state in
        let pruned = prune_expired s (clock 0) in
        let (same, has) = has_tool_grant_lem pruned p.tool_key (clock 1) in
        let pruned_tools =
          granted-unexpired tool_end s.tool_grants p.tool_key (clock 0) (clock 1)
            (mono 0 1 (omega arith)) in
        let s₁ = (has_tool_grant pruned p.tool_key (clock 1)).0 in
        let nothing_missing : is_nil
              (select_resources resolve clock false context.profile p.resources s₁ 2).2
            ≡ true =
          ground arith in
        let covered₁ =
          select_resources_sound mono context.profile p.resources s₁ 2 nothing_missing in
        let covered : All (IsCovered context.profile (prune_expired pruned (clock 1)) (clock 2))
            p.resources =
          subst (λ x. All (IsCovered context.profile x (clock 2)) p.resources) same covered₁ in
        (
          ground arith,
          ground arith,
          All-map
              (IsCovered-unpruned context.profile s (clock 0) (clock 2) (mono 0 2 (omega arith)))
              p.resources
              (All-map
                (IsCovered-unpruned context.profile pruned (clock 1) (clock 2)
                  (mono 1 2 (omega arith)))
                p.resources covered),
        )
