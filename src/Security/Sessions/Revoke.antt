-- ===== src/Security/Sessions/Revoke.antt =====
-- A change of mode takes every grant of its session away, and none of another.
use luna_agent.Prelude.{
  ℕ, ◌+◌, ◌≤◌, String, ◌≡◌, ◌≢◌, ap, subst, inl, inr, true, false, not, ◌||◌, some, List, [], arith,
  ◌==◌, ==_iff, ==_self, String_eq, if◌then◌else◌, All, All-map,
}
use luna_agent.Prelude.Dict
use luna_agent.Prelude.Dict.{get-put, get-remove}
use luna_agent.Security.Profile.{ModeId, allows, ResourceRequirement}
use luna_agent.Security.Grants
use luna_agent.Security.Profile
use luna_agent.Security.Grants.{SecuritySessionState, clear_grants, tool_end}
use luna_agent.Security.Grants.Expiry.{granted}
use luna_agent.Security.Evaluator.{
  SecurityContext, PreparedToolCall, allow, effective_approval_mode, needs_grant,
  evaluate_tool_security,
}
use luna_agent.Security.Evaluator.Decide.{IsCovered, evaluate_tool_security_sound}
use luna_agent.Security.Sessions.{SecurityStateStore, state_of, fresh, set_mode, move, context, get}

state_of-set_mode :
    (store : SecurityStateStore) (session : String) (mode : ModeId)
    → state_of (set_mode store session mode).0 session ≡ record {
      mode_id = mode;
      revision = (state_of store session).revision + 1;
      tool_grants = [];
      resource_grants = [];
    }
unfolding state_of set_mode get clear_grants
state_of-set_mode store session mode = ground (arith, got, ==_self session)
  where
    changed : SecuritySessionState
    changed = record {
      mode_id = mode;
      revision = (state_of store session).revision + 1;
      tool_grants = [];
      resource_grants = [];
    }

    got :
        Dict.get
          (Dict.put (Dict.put store.states session (state_of store session)) session changed)
          session
        ≡ (if session == session
            then some changed
            else Dict.get (Dict.put store.states session (state_of store session)) session)
    got = get-put (Dict.put store.states session (state_of store session)) session changed session

-- Moving the state of a session to another key leaves that state at the new key, and a fresh one at
-- the old key.
pub move_takes_grants :
    (store : SecurityStateStore) (old_key new_key : String) (state : SecuritySessionState)
    → Dict.get store.states old_key ≡ some state
    → old_key ≢ new_key
    → (state_of (move store old_key new_key) new_key ≡ state)
      × (state_of (move store old_key new_key) old_key ≡ fresh store.settings.execution_mode)
unfolding state_of move
move_takes_grants store old_key new_key state e apart = ground (
  arith,
  e,
  get-put (Dict.remove store.states old_key) new_key state new_key,
  get-put (Dict.remove store.states old_key) new_key state old_key,
  get-remove store.states old_key old_key,
  ==_iff new_key old_key,
  ==_self new_key,
  ==_self old_key,
)

allowed_alone :
    (resolve : String → List String) (c : SecurityContext) (now : ℕ)
    → c.state.resource_grants ≡ []
    → (r : ResourceRequirement) → IsCovered resolve c.profile c.state now r
    → allows resolve c.profile r ≡ true
allowed_alone resolve c now e r (inl a) = a
allowed_alone resolve c now e r (inr g) =
    absurd (subst (λ d. granted Grants.resource_end d (Profile.key r) now ≡ true) e g)
  where
    absurd : false ≡ true → allows resolve c.profile r ≡ true
    absurd h = cc

-- Where the clock never runs backwards, a call that is allowed by the context of a session whose
-- mode has just been set needs no grant for its tool, and the profile allows each of its resources.
pub set_mode_revokes :
    (resolve : String → List String) (clock : ℕ → ℕ) (store : SecurityStateStore) (session : String)
    (mode : ModeId) (p : PreparedToolCall)
    → ((i j : ℕ) → i ≤ j → clock i ≤ clock j)
    → (evaluate_tool_security resolve clock p
        (context (set_mode store session mode).0 session)).1.decision
      ≡ allow
    → let changed = context (set_mode store session mode).0 session in
      (needs_grant (effective_approval_mode p changed) ≡ false)
      × All (λ r. allows resolve changed.profile r ≡ true) p.resources
unfolding context
set_mode_revokes resolve clock store session mode p mono e =
    let st = (set_mode store session mode).0 in
    let none_left = state_of-set_mode store session mode in
    let (kept, tool, covered) =
      evaluate_tool_security_sound resolve clock mono p (context st session) e in
    let tool' =
      subst
        (λ s.
          (not (needs_grant (effective_approval_mode p (context st session)))
            || granted tool_end s.tool_grants p.tool_key (clock 1))
          ≡ true)
        none_left tool in
    (
      ground (arith, tool'),
      All-map
          (allowed_alone resolve (context st session) (clock 2)
            (ap (λ s. s.resource_grants) none_left))
          p.resources covered,
    )
