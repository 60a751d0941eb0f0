-- ===== src/Capability/Failure.antt =====
-- The exceptions of src/luna_agent/plugins/runtime, as values.
pub data CapabilityError : Type 0 where
  binding_id_exists capability_conflict payload_without_binding staged_unavailable : CapabilityError
  revision_must_increase lease_not_active publish_failed retire_failed : CapabilityError

pub data Result {ℓ} (A : Type ℓ) : Type ℓ where
  ok : A → Result A
  err : CapabilityError → Result A

infixl 5 ◌>>=◌
abbrev pub ◌>>=◌ {ℓ κ} : {A : Type ℓ} {B : Type κ} → Result A → (A → Result B) → Result B
ok a >>= f = f a
err e >>= f = err e
