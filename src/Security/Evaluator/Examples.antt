-- ===== src/Security/Evaluator/Examples.antt =====
-- A call of a tool under a mode that asks, and the theorems at it.
use luna_agent.Prelude.{
  ℕ, ◌+◌, ◌≡◌, refl, ◌⊎◌, true, false, not, ◌||◌, String, List, [], ◌∷◌, arith, All, keep,
}
use luna_agent.Prelude.Dict
use luna_agent.Security.Profile.{
  ask_first, PermissionProfile, read_only_profile, FileSystemRule, deny, on_request, matches,
  filesystem_access, allows, profile_for, mode_preset, is_within, key,
}
use luna_agent.Security.Profile.Longest.{Among, NoLonger, filesystem_access_longest}
use luna_agent.Security.Grants
use luna_agent.Security.Grants.{SecuritySessionState, clear_grants, prune_expired, tool_end}
use luna_agent.Security.Grants.Expiry.{granted}
use luna_agent.Security.Evaluator.{
  SecurityContext, PreparedToolCall, cached, prompt, allow, ask, effective_approval_mode,
  needs_grant, is_refused, starts_with, cut, mcp_server_of, is_builtin, select_resources,
  evaluate_tool_security, grant_resources, grant_prepared_call,
}
use luna_agent.Security.Evaluator.Decide.{IsCovered, evaluate_tool_security_sound}
use luna_agent.Security.Evaluator.Approve.{approved_call_allowed}

-- Paths of one part, as texts.
abbrev resolve : String → List String
resolve path = path ∷ []

abbrev clock : ℕ → ℕ
clock i = 100 + i

abbrev stopped : ℕ → ℕ
stopped i = 150

abbrev reading : PermissionProfile
reading = profile_for (("home" ∷ []) ∷ []) [] read_only_profile

abbrev context : SecurityContext
context = record {
  session_key = "s";
  profile = reading;
  approval_policy = on_request;
  state = record { mode_id = ask_first; revision = 0; tool_grants = []; resource_grants = [] };
  mode_id = ask_first;
  tool_approval_default_external = cached;
  tool_approval_tools = [];
  tool_approval_mcp_servers = [];
}

abbrev call : PreparedToolCall
call = record {
  name = "write";
  tool_key = "plug:write";
  source = "plug";
  approval_mode = prompt;
  approval_inherited = false;
  resources =
      record { kind = "filesystem"; resource = "home"; access = "write"; reason = "write" } ∷ [];
}

-- All that an evaluation calls.
program : Unit {0}
unfolding filesystem_access allows profile_for mode_preset is_within key clear_grants prune_expired
    effective_approval_mode starts_with cut mcp_server_of is_builtin select_resources
    evaluate_tool_security grant_resources grant_prepared_call Dict.get Dict.put
    Grants.has_tool_grant Grants.has_resource_grant Grants.grant_tool Grants.grant_resource
program = tt

asks_first : (evaluate_tool_security resolve clock call context).1.decision ≡ ask
unfolding program
asks_first = refl

abbrev approved : SecurityContext
approved = record context { state = (grant_prepared_call resolve clock call context 60).0 }

approved_call_allowed_example :
    (evaluate_tool_security resolve stopped call approved).1.decision ≡ allow
unfolding program
approved_call_allowed_example =
    approved_call_allowed resolve clock 60 150 (λ i. omega arith) stopped (λ i. omega arith) call
      context refl

evaluate_tool_security_sound_example :
    (is_refused (effective_approval_mode call approved) ≡ false)
    × ((not (needs_grant (effective_approval_mode call approved))
          || granted tool_end approved.state.tool_grants call.tool_key 150)
        ≡ true)
    × All (IsCovered resolve reading approved.state 150) call.resources
unfolding program
evaluate_tool_security_sound_example =
    evaluate_tool_security_sound resolve stopped (λ i j h. omega arith) call approved refl

filesystem_access_longest_example :
    ((keep (λ rule. matches rule ("home" ∷ "x" ∷ [])) reading.filesystem ≡ [])
      × (filesystem_access reading ("home" ∷ "x" ∷ []) ≡ deny))
    ⊎ ((best : FileSystemRule) × Among best reading.filesystem
        × (matches best ("home" ∷ "x" ∷ []) ≡ true)
        × All (NoLonger best) (keep (λ rule. matches rule ("home" ∷ "x" ∷ [])) reading.filesystem)
        × (filesystem_access reading ("home" ∷ "x" ∷ []) ≡ best.access))
filesystem_access_longest_example = filesystem_access_longest reading ("home" ∷ "x" ∷ [])
