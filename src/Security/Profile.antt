-- ===== src/Security/Profile.antt =====
-- src/luna_agent/security/models.py and modes.py: modes, filesystem rules and permission profiles.
-- A mode is its preset's id after normalize_mode_id. Resolved paths are lists of their parts; how
-- pathlib resolves the path of a requirement is a parameter of what reads it.
pub mod Longest
use luna_agent.Prelude.{
  ℕ, String, Bool, true, false, not, ◌&&◌, ◌||◌, Option, none, some, List, [], ◌∷◌, ◌++◌, ◌==◌,
  String_eq, if◌then◌else◌, map, keep, leb, length,
}
use luna_agent.Prelude.Sort.{sorted}
use Prim.Native.String.{◌++◌ as ◌+s◌}

pub data ModeId : Type 0 where
  read_only ask_first local_auto full_auto : ModeId

pub data ProfileName : Type 0 where
  read_only_profile workspace trusted : ProfileName

pub data ApprovalPolicy : Type 0 where
  on_request never : ApprovalPolicy

pub record ModePreset : Type 0 where
  pub id : ModeId
  pub profile : ProfileName
  pub approval_policy : ApprovalPolicy
  pub auto_approve_cached_tools : Bool

unfoldable pub mode_preset : ModeId → ModePreset
mode_preset read_only = record {
  id = read_only;
  profile = read_only_profile;
  approval_policy = never;
  auto_approve_cached_tools = false;
}
mode_preset ask_first = record {
  id = ask_first;
  profile = read_only_profile;
  approval_policy = on_request;
  auto_approve_cached_tools = false;
}
mode_preset local_auto = record {
  id = local_auto;
  profile = workspace;
  approval_policy = on_request;
  auto_approve_cached_tools = true;
}
mode_preset full_auto = record {
  id = full_auto;
  profile = trusted;
  approval_policy = never;
  auto_approve_cached_tools = true;
}

pub data FileAccess : Type 0 where
  read write deny : FileAccess

pub record FileSystemRule : Type 0 where
  pub path : List String
  pub access : FileAccess

-- `target == root or root in target.parents`
unfoldable pub is_within : List String → List String → Bool
is_within [] target = true
is_within (part ∷ root) [] = false
is_within (part ∷ root) (q ∷ target) = (part == q) && is_within root target

abbrev pub matches : FileSystemRule → List String → Bool
matches rule target = is_within rule.path target

pub record PermissionProfile : Type 0 where
  pub name : ProfileName
  pub filesystem : List FileSystemRule
  pub network_enabled : Bool

abbrev pub le_longest : FileSystemRule → FileSystemRule → Bool
le_longest a b = leb (length b.path) (length a.path)

abbrev pub first_access : List FileSystemRule → FileAccess
first_access [] = deny
first_access (rule ∷ rest) = rule.access

-- The rules that match, those with the longest paths first; the first one decides.
unfoldable pub filesystem_access : PermissionProfile → List String → FileAccess
filesystem_access profile path =
    first_access (sorted le_longest (keep (λ rule. matches rule path) profile.filesystem))

pub record ResourceRequirement : Type 0 where
  pub kind : String
  pub resource : String
  pub access : String
  pub reason : String

unfoldable pub key : ResourceRequirement → String
key r = r.kind +s (":" +s (r.access +s (":" +s r.resource)))

abbrev permits : FileAccess → String → Bool
permits deny wanted = false
permits write wanted = true
permits read wanted = wanted == "read"

unfoldable pub allows :
    (resolve : String → List String) → PermissionProfile → ResourceRequirement → Bool
allows resolve profile requirement =
    if requirement.kind == "network"
    then profile.network_enabled
    else permits (filesystem_access profile (resolve requirement.resource)) requirement.access

abbrev rules_of : FileAccess → List (List String) → List FileSystemRule
rules_of access roots = map (λ root. record { path = root; access = access }) roots

abbrev is_read_only : ProfileName → Bool
is_read_only read_only_profile = true
is_read_only _ = false

-- `_profile_for(settings, name)` over the resolved roots of the settings.
unfoldable pub profile_for :
    (sandbox_roots sandbox_read_roots : List (List String)) → ProfileName → PermissionProfile
profile_for roots read_roots name = record {
  name = name;
  filesystem =
      if is_read_only name
      then rules_of read roots
      else rules_of write roots ++ rules_of read read_roots;
  network_enabled = not (is_read_only name);
}
