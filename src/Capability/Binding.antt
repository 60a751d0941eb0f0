-- ===== src/Capability/Binding.antt =====
-- src/luna_agent/plugins/runtime/models.py: the kinds, bindings and routes of capabilities.
-- The metadata is read for two integers only, so its values are integers here.
use luna_agent.Prelude.{
  ℕ, String, ◌≡◌, ◌↔◌, Bool, true, false, ◌&&◌, length, none, some, [], ◌∷◌, arith, ◌==◌, EqKey,
  ℕ_eq, String_eq, ℤ, eq_ℤ, nat_eq, is_empty, strip, ◌||◌,
}
use luna_agent.Prelude.Dict
use luna_agent.Prelude.Dict.{Dict}

pub data CapabilityKind : Type 0 where
  tool skill hook command workflow platform mcp_server memory_provider : CapabilityKind

abbrev pub kind_code : CapabilityKind → ℕ
kind_code tool = 0
kind_code skill = 1
kind_code hook = 2
kind_code command = 3
kind_code workflow = 4
kind_code platform = 5
kind_code mcp_server = 6
kind_code memory_provider = 7

abbrev pub kind_beq : CapabilityKind → CapabilityKind → Bool
kind_beq a b = nat_eq (kind_code a) (kind_code b)

pub kind_beq_iff : (a b : CapabilityKind) → (kind_beq a b ≡ true) ↔ (a ≡ b)
kind_beq_iff a b = ground arith

instance abbrev pub CapabilityKind_eq : EqKey CapabilityKind
CapabilityKind_eq = record { equal = kind_beq; equal_iff = kind_beq_iff }

abbrev pub Metadata : Type 0
Metadata = Dict String ℤ

pub record CapabilityBinding : Type 0 where
  pub binding_id : String
  pub capability_id : String
  pub public_name : String
  pub kind : CapabilityKind
  pub owner : String
  pub generation_id : String
  pub runtime_instance_id : String
  pub contract_hash : String
  pub manager_key : String
  pub metadata : Metadata

pub missing : String → Bool
missing value = is_empty (strip value)

-- `__post_init__`: a binding with a blank name is refused.
pub binding_error : CapabilityBinding → Bool
binding_error b =
    missing b.binding_id
    || missing b.capability_id
    || missing b.public_name
    || missing b.owner
    || missing b.generation_id
    || missing b.runtime_instance_id
    || missing b.manager_key

-- `==` on dicts: as many keys, and each with an equal value.
unfoldable pub metadata_within : Metadata → Metadata → Bool
metadata_within [] other = true
metadata_within ((k, v) ∷ rest) other =
    (elim (Dict.get other k) [ none ↦ false | some w ↦ eq_ℤ v w ]) && metadata_within rest other

unfoldable pub metadata_eq : Metadata → Metadata → Bool
metadata_eq a b = nat_eq (length a) (length b) && metadata_within a b

-- `==` on the frozen dataclass.
unfoldable pub same_binding : CapabilityBinding → CapabilityBinding → Bool
same_binding a b =
    (a.binding_id == b.binding_id)
    && (a.capability_id == b.capability_id)
    && (a.public_name == b.public_name)
    && (a.kind == b.kind)
    && (a.owner == b.owner)
    && (a.generation_id == b.generation_id)
    && (a.runtime_instance_id == b.runtime_instance_id)
    && (a.contract_hash == b.contract_hash)
    && (a.manager_key == b.manager_key)
    && metadata_eq a.metadata b.metadata

pub record CapabilityRoute : Type 0 where
  pub capability_id : String
  pub public_name : String
  pub kind : CapabilityKind
  pub owner : String
  pub generation_id : String
  pub runtime_instance_id : String
  pub binding_id : String
  pub manager_key : String
  pub contract_hash : String
  pub metadata : Metadata

abbrev pub from_binding : CapabilityBinding → CapabilityRoute
from_binding b = record {
  capability_id = b.capability_id;
  public_name = b.public_name;
  kind = b.kind;
  owner = b.owner;
  generation_id = b.generation_id;
  runtime_instance_id = b.runtime_instance_id;
  binding_id = b.binding_id;
  manager_key = b.manager_key;
  contract_hash = b.contract_hash;
  metadata = b.metadata;
}
