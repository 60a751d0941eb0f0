-- ===== src/Security/Sessions.antt =====
-- src/luna_agent/security/session.py: SecurityStateStore, the states of all sessions. The settings
-- come normalised, and minutes as a number that is not negative. A state is an object that the
-- store and the contexts share; a context that is made from the store has the state of that moment.
pub mod Revoke
mod Examples
use luna_agent.Prelude.{ℕ, ◌+◌, ◌*◌, max, String, Option, none, some, List, [], ◌∷◌, String_eq}
use luna_agent.Prelude.Dict
use luna_agent.Prelude.Dict.{Dict}
use luna_agent.Security.Profile.{ModeId, mode_preset, profile_for}
use luna_agent.Security.Grants.{SecuritySessionState, clear_grants}
use luna_agent.Security.Evaluator.{SecurityContext, ToolApprovalMode}

pub record Settings : Type 0 where
  pub execution_mode : ModeId
  pub permission_grant_ttl_minutes : ℕ
  pub sandbox_roots : List (List String)
  pub sandbox_read_roots : List (List String)
  pub default_external : ToolApprovalMode
  pub tools : Dict String ToolApprovalMode
  pub mcp_servers : Dict String ToolApprovalMode

pub record SecurityStateStore : Type 0 where
  pub settings : Settings
  pub states : Dict String SecuritySessionState

unfoldable pub grant_ttl_seconds : SecurityStateStore → ℕ
grant_ttl_seconds store = max 60 (store.settings.permission_grant_ttl_minutes * 60)

abbrev pub fresh : ModeId → SecuritySessionState
fresh mode = record { mode_id = mode; revision = 0; tool_grants = []; resource_grants = [] }

abbrev pub state_or : Option SecuritySessionState → SecuritySessionState → SecuritySessionState
state_or none other = other
state_or (some state) other = state

-- The state that a session has or gets.
unfoldable pub state_of : SecurityStateStore → String → SecuritySessionState
state_of store session_key =
    state_or (Dict.get store.states session_key) (fresh store.settings.execution_mode)

unfoldable pub get : SecurityStateStore → String → SecurityStateStore × SecuritySessionState
get store session_key =
    let state = state_of store session_key in
    (record store { states = Dict.put store.states session_key state }, state)

unfoldable pub set_mode :
    SecurityStateStore → String → ModeId → SecurityStateStore × SecuritySessionState
set_mode store session_key mode =
    let (store', state) = get store session_key in
    let changed : SecuritySessionState =
      clear_grants (record state { mode_id = mode; revision = state.revision + 1 }) in
    (record store' { states = Dict.put store'.states session_key changed }, changed)

unfoldable pub clear : SecurityStateStore → String → SecurityStateStore
clear store session_key = record store { states = Dict.remove store.states session_key }

unfoldable pub move : SecurityStateStore → (old_key new_key : String) → SecurityStateStore
move store old_key new_key = elim (Dict.get store.states old_key) [
  | none ↦ clear store old_key
  | some state ↦ record store { states = Dict.put (Dict.remove store.states old_key) new_key state }
]

unfoldable pub context : SecurityStateStore → String → SecurityContext
context store session_key =
    let state = state_of store session_key in
    let preset = mode_preset state.mode_id in
    record {
      session_key = session_key;
      profile =
          profile_for store.settings.sandbox_roots store.settings.sandbox_read_roots preset.profile;
      approval_policy = preset.approval_policy;
      state = state;
      mode_id = preset.id;
      tool_approval_default_external = store.settings.default_external;
      tool_approval_tools = store.settings.tools;
      tool_approval_mcp_servers = store.settings.mcp_servers;
    }
