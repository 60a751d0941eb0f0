-- ===== src/Security/Evaluator.antt =====
-- src/luna_agent/security/evaluator.py: the decision on a prepared call, and the grants that an
-- approval gives. Every check of a grant reads the clock anew: `clock i` is its i-th reading. The
-- texts of a decision's message are left out. The resources of a call come prepared.
pub mod Decide
pub mod Approve
mod Examples
use luna_agent.Prelude.{
  ℕ, zero, suc, ◌+◌, String, Bool, true, false, not, ◌&&◌, ◌||◌, Option, none, some, List, [], ◌∷◌,
  ◌++◌, ◌==◌, String_eq, if◌then◌else◌, map,
}
use luna_agent.Prelude.Dict
use luna_agent.Prelude.Dict.{Dict}
use Prim.Native.Char.{code}
use luna_agent.Prelude.{nat_eq}
use luna_agent.Security.Profile.{
  ModeId, mode_preset, ApprovalPolicy, on_request, never, PermissionProfile, ResourceRequirement,
  key, allows,
}
use luna_agent.Security.Grants.{
  SecuritySessionState, prune_expired, has_tool_grant, has_resource_grant, grant_tool,
  grant_resource,
}

pub data ToolApprovalMode : Type 0 where
  auto cached prompt refuse : ToolApprovalMode

pub record SecurityContext : Type 0 where
  pub session_key : String
  pub profile : PermissionProfile
  pub approval_policy : ApprovalPolicy
  pub state : SecuritySessionState
  pub mode_id : ModeId
  pub tool_approval_default_external : ToolApprovalMode
  pub tool_approval_tools : Dict String ToolApprovalMode
  pub tool_approval_mcp_servers : Dict String ToolApprovalMode

pub record PreparedToolCall : Type 0 where
  pub name : String
  pub tool_key : String
  pub source : String
  pub approval_mode : ToolApprovalMode
  pub approval_inherited : Bool
  pub resources : List ResourceRequirement

pub data Decision : Type 0 where
  allow ask deny : Decision

pub record SecurityDecision : Type 0 where
  pub decision : Decision
  pub tool_approval_mode : ToolApprovalMode
  pub missing_resources : List ResourceRequirement
  pub tool_grant_matched : Bool
  pub resource_grants_matched : List String

-- `text.startswith(prefix)`
unfoldable pub starts_with : String → String → Bool
starts_with String.[] s = true
starts_with (String.◌∷◌ c p) String.[] = false
starts_with (String.◌∷◌ c p) (String.◌∷◌ d s) = nat_eq (code c) (code d) && starts_with p s

-- The texts before and after the first "__", if there is one.
unfoldable pub cut : String → Option (String × String)
cut String.[] = none
cut (String.◌∷◌ c String.[]) = none
cut (String.◌∷◌ c (String.◌∷◌ d s)) =
    let rest = cut (String.◌∷◌ d s) in
    if nat_eq (code c) 95 && nat_eq (code d) 95
    then some (String.[], s)
    else (elim rest [ none ↦ none | some (a, b) ↦ some (String.◌∷◌ c a, b) ])

-- `parts = name.split("__", 2)`, and `parts[1] if len(parts) > 2 else ""`
unfoldable pub mcp_server_of : String → String
mcp_server_of name = elim (cut name) [
  | none ↦ ""
  | some (a, rest) ↦ elim (cut rest) [ none ↦ "" | some (server, b) ↦ server ]
]

abbrev pub or_else {ℓ} : {A : Type ℓ} → Option A → Option A → Option A
or_else none o = o
or_else (some a) o = some a

unfoldable pub is_builtin : String → Bool
is_builtin source = (source == "core") || starts_with "builtin/" source

abbrev pub mcp_configured : PreparedToolCall → SecurityContext → Option ToolApprovalMode
mcp_configured p context =
    if starts_with "mcp__" p.name
    then Dict.get context.tool_approval_mcp_servers (mcp_server_of p.name)
    else none

abbrev pub in_mode : ModeId → ToolApprovalMode → ToolApprovalMode
in_mode mode cached = if (mode_preset mode).auto_approve_cached_tools then auto else cached
in_mode mode other = other

abbrev pub configured_or : Option ToolApprovalMode → ToolApprovalMode → ToolApprovalMode
configured_or none other = other
configured_or (some mode) other = mode

unfoldable pub effective_approval_mode : PreparedToolCall → SecurityContext → ToolApprovalMode
effective_approval_mode p context =
    let configured =
      or_else (Dict.get context.tool_approval_tools p.name)
        (Dict.get context.tool_approval_tools p.tool_key) in
    let default =
      if p.approval_inherited && not (is_builtin p.source)
      then context.tool_approval_default_external
      else p.approval_mode in
    configured_or configured
      (configured_or (mcp_configured p context) (in_mode context.mode_id default))

abbrev pub needs_grant : ToolApprovalMode → Bool
needs_grant cached = true
needs_grant prompt = true
needs_grant _ = false

abbrev pub is_refused : ToolApprovalMode → Bool
is_refused refuse = true
is_refused _ = false

abbrev pub is_never : ApprovalPolicy → Bool
is_never never = true
is_never on_request = false

abbrev pub is_nil {ℓ} : {A : Type ℓ} → List A → Bool
is_nil [] = true
is_nil (x ∷ xs) = false

module _ (resolve : String → List String) (clock : ℕ → ℕ) where
  -- The requirements, of those that the profile does not allow, that have a grant as `wanted` says,
  -- with the state and the number of the next reading of the clock.
  unfoldable pub select_resources :
      (wanted : Bool)
      → PermissionProfile
      → List ResourceRequirement
      → SecuritySessionState
      → ℕ
      → SecuritySessionState × ℕ × List ResourceRequirement
  select_resources wanted profile [] s i = (s, i, [])
  select_resources wanted profile (r ∷ rest) s i =
      if allows resolve profile r
      then select_resources wanted profile rest s i
      else let (s', has) = has_resource_grant s r (clock i) in
        let (s'', j, found) = select_resources wanted profile rest s' (suc i) in
        let keep_it = if wanted then has else not has in
        (s'', j, if keep_it then r ∷ found else found)

  unfoldable pub evaluate_tool_security :
      PreparedToolCall → SecurityContext → SecuritySessionState × SecurityDecision
  evaluate_tool_security p context =
      let pruned = prune_expired context.state (clock 0) in
      let mode = effective_approval_mode p context in
      let (s₁, tool_granted) = has_tool_grant pruned p.tool_key (clock 1) in
      let needs_approval = needs_grant mode && not tool_granted in
      let (s₂, i, missing) = select_resources false context.profile p.resources s₁ 2 in
      let (s₃, j, matched) = select_resources true context.profile p.resources s₂ i in
      let decide : Decision → List ResourceRequirement → SecurityDecision = λ d rs. record {
        decision = d;
        tool_approval_mode = mode;
        missing_resources = rs;
        tool_grant_matched = tool_granted;
        resource_grants_matched = map key matched;
      } in
      if is_refused mode
      then (
        pruned,
        record {
          decision = deny;
          tool_approval_mode = mode;
          missing_resources = [];
          tool_grant_matched = false;
          resource_grants_matched = [];
        },
      )
      else if not needs_approval && is_nil missing
      then (s₃, decide allow [])
      else if is_never context.approval_policy
      then (s₃, decide deny missing)
      else (s₃, decide ask missing)

  -- The loop of `grant_prepared_call` over the resources.
  pub grant_resources :
      PermissionProfile
      → ℕ
      → List ResourceRequirement
      → SecuritySessionState
      → ℕ
      → SecuritySessionState × List String
  grant_resources profile ttl [] s i = (s, [])
  grant_resources profile ttl (r ∷ rest) s i =
      if allows resolve profile r
      then grant_resources profile ttl rest s i
      else let (s', keys) =
          grant_resources profile ttl rest (grant_resource s r ttl (clock i)).0 (suc i) in
        (s', key r ∷ keys)

  pub grant_prepared_call :
      PreparedToolCall
      → SecurityContext
      → (ttl_seconds : ℕ) → SecuritySessionState × List String × List String
  grant_prepared_call p context ttl =
      if needs_grant (effective_approval_mode p context)
      then (let (s, keys) =
            grant_resources context.profile ttl p.resources
              (grant_tool context.state p.tool_key ttl (clock 0)).0 1 in
          (s, p.tool_key ∷ [], keys))
      else (let (s, keys) = grant_resources context.profile ttl p.resources context.state 0 in
          (s, [], keys))

abbrev pub remove_all {ℓ} : {V : Type ℓ} → Dict String V → List String → Dict String V
remove_all d [] = d
remove_all d (k ∷ ks) = remove_all (Dict.remove d k) ks

pub revoke_grants : SecurityContext → (tool_keys resource_keys : List String) → SecurityContext
revoke_grants context tool_keys resource_keys =
    let s = context.state in
    record context {
      state = record s {
        tool_grants = remove_all s.tool_grants tool_keys;
        resource_grants = remove_all s.resource_grants resource_keys;
      };
    }
