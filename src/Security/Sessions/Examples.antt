-- ===== src/Security/Sessions/Examples.antt =====
-- A change of mode, and the theorems at it.
use luna_agent.Prelude.{
  ==_iff, ◌≢◌, ℕ, ◌≡◌, refl, true, false, String, List, [], ◌∷◌, arith, All, String_eq,
}
use luna_agent.Prelude.Dict
use luna_agent.Security.Profile.{
  ask_first, local_auto, allows, filesystem_access, profile_for, mode_preset, is_within, key,
}
use luna_agent.Security.Grants.{
  SecuritySessionState, clear_grants, prune_expired, has_tool_grant, has_resource_grant, grant_tool,
}
use luna_agent.Security.Evaluator.{
  PreparedToolCall, cached, effective_approval_mode, needs_grant, starts_with, cut, mcp_server_of,
  is_builtin, select_resources, evaluate_tool_security,
}
use luna_agent.Security.Sessions.{
  SecurityStateStore, fresh, state_of, get, set_mode, clear, move, context,
}
use luna_agent.Security.Sessions.Revoke.{move_takes_grants, set_mode_revokes}

-- All that the sessions call.
program : Unit {0}
unfolding filesystem_access allows profile_for mode_preset is_within key clear_grants prune_expired
    has_tool_grant has_resource_grant grant_tool effective_approval_mode starts_with cut
    mcp_server_of is_builtin select_resources evaluate_tool_security state_of get set_mode clear
    move context Dict.get Dict.put Dict.remove
program = tt

abbrev resolve : String → List String
resolve path = path ∷ []

abbrev clock : ℕ → ℕ
clock i = 5

abbrev store : SecurityStateStore
store = record {
  settings = record {
    execution_mode = ask_first;
    permission_grant_ttl_minutes = 60;
    sandbox_roots = ("home" ∷ []) ∷ [];
    sandbox_read_roots = [];
    default_external = cached;
    tools = [];
    mcp_servers = [];
  };
  states = [];
}

abbrev granted_state : SecuritySessionState
granted_state = (grant_tool (fresh ask_first) "plug:write" 60 1).0

abbrev granted_store : SecurityStateStore
granted_store = record store { states = ("s", granted_state) ∷ [] }

abbrev call : PreparedToolCall
call = record {
  name = "write";
  tool_key = "plug:write";
  source = "plug";
  approval_mode = cached;
  approval_inherited = true;
  resources =
      record { kind = "filesystem"; resource = "home"; access = "write"; reason = "write" } ∷ [];
}

set_mode_revokes_example :
    let changed = context (set_mode granted_store "s" local_auto).0 "s" in
    (needs_grant (effective_approval_mode call changed) ≡ false)
    × All (λ r. allows resolve changed.profile r ≡ true) call.resources
unfolding program
set_mode_revokes_example =
    set_mode_revokes resolve clock granted_store "s" local_auto call (λ i j h. omega arith) refl

keys_apart : ◌≢◌ {A = String} "s" "t"
keys_apart e = false_not_true ((==_iff "s" "t").1 e)
  where
    false_not_true : false ≡ true → ⊥
    false_not_true h = cc

move_takes_grants_example :
    (state_of (move granted_store "s" "t") "t" ≡ granted_state)
    × (state_of (move granted_store "s" "t") "s" ≡ fresh ask_first)
unfolding program
move_takes_grants_example = move_takes_grants granted_store "s" "t" granted_state refl keys_apart
