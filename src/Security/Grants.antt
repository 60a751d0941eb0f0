-- ===== src/Security/Grants.antt =====
-- src/luna_agent/security/session.py: the grants of a session, which end by themselves, and the
-- store of the sessions' states. A time is a number of ticks; a state method returns the new state.
pub mod Expiry
use luna_agent.Prelude.{
  ℕ, ◌+◌, max, ◌*◌, String, Bool, true, false, Option, none, some, List, [], ◌∷◌, ◌==◌, String_eq,
  if◌then◌else◌, keep, ltb,
}
use luna_agent.Prelude.Dict
use luna_agent.Prelude.Dict.{Dict}
use luna_agent.Security.Profile.{ModeId, ResourceRequirement, key}

pub record ToolGrant : Type 0 where
  pub tool_key : String
  pub expires_at : ℕ

pub record ResourceGrant : Type 0 where
  pub requirement : ResourceRequirement
  pub expires_at : ℕ

pub record SecuritySessionState : Type 0 where
  pub mode_id : ModeId
  pub revision : ℕ
  pub tool_grants : Dict String ToolGrant
  pub resource_grants : Dict String ResourceGrant

abbrev pub tool_end : ToolGrant → ℕ
tool_end g = g.expires_at

abbrev pub resource_end : ResourceGrant → ℕ
resource_end g = g.expires_at

unfoldable pub clear_grants : SecuritySessionState → SecuritySessionState
clear_grants s = record s { tool_grants = []; resource_grants = [] }

abbrev pub unexpired {ℓ} : {G : Type ℓ} → (G → ℕ) → ℕ → Dict String G → Dict String G
unexpired end now grants = keep (λ (k, g). ltb now (end g)) grants

unfoldable pub prune_expired : SecuritySessionState → ℕ → SecuritySessionState
prune_expired s now = record s {
  tool_grants = unexpired tool_end now s.tool_grants;
  resource_grants = unexpired resource_end now s.resource_grants;
}

abbrev pub is_some {ℓ} : {A : Type ℓ} → Option A → Bool
is_some none = false
is_some (some a) = true

unfoldable pub has_tool_grant : SecuritySessionState → String → ℕ → SecuritySessionState × Bool
has_tool_grant s tool_key now =
    let pruned = prune_expired s now in (pruned, is_some (Dict.get pruned.tool_grants tool_key))

unfoldable pub has_resource_grant :
    SecuritySessionState → ResourceRequirement → ℕ → SecuritySessionState × Bool
has_resource_grant s requirement now =
    let pruned = prune_expired s now in
    (pruned, is_some (Dict.get pruned.resource_grants (key requirement)))

unfoldable pub grant_tool :
    SecuritySessionState → String → (ttl_seconds now : ℕ) → SecuritySessionState × ℕ
grant_tool s tool_key ttl_seconds now =
    let end = now + max 1 ttl_seconds in
    (
      record s {
        tool_grants =
            Dict.put s.tool_grants tool_key (record { tool_key = tool_key; expires_at = end });
      },
      end,
    )

unfoldable pub grant_resource :
    SecuritySessionState → ResourceRequirement → (ttl_seconds now : ℕ) → SecuritySessionState × ℕ
grant_resource s requirement ttl_seconds now =
    let end = now + max 1 ttl_seconds in
    (
      record s {
        resource_grants =
            Dict.put s.resource_grants (key requirement)
              (record { requirement = requirement; expires_at = end });
      },
      end,
    )
