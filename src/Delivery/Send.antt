-- ===== src/Delivery/Send.antt =====
-- src/luna_agent/delivery/service.py: how one operation is sent. The adapter, the artifact store,
-- `str.lower` and the digits of a number are arguments; what they answer may differ at each attempt.
use luna_agent.Prelude.{
  ℕ, String, Bool, false, not, ◌&&◌, ◌||◌, Option, none, some, ◌==◌, String_eq, if◌then◌else◌,
  is_empty, ltb, nat_eq,
}
use Prim.Native.String.{◌++◌ as join}
use text.Mathlib.Text.{starts_with}
use luna_agent.Delivery.Planner.{DeliveryOperation, or_text}
use luna_agent.Delivery.Parts.{DeliveryPartResult}

-- A call of the adapter or of the store: what it returned, or the exception.
pub data Called (A : Type 0) : Type 0 where
  returns : A → Called A
  raises : (exception message : String) → Called A

pub record Sent : Type 0 where
  pub success : Bool
  pub message_id : String
  pub error : String

pub record ArtifactRef : Type 0 where
  pub artifact_id : String
  pub session_key : String
  pub delivery_eligible : Bool
  pub size_bytes : ℕ
  pub filename : String
  pub mime_type : String

-- The adapter of the platform, and the artifact store where there is one. The first argument is the
-- number of the attempt.
pub record Platform : Type 0 where
  pub send_message : ℕ → String → Called Sent
  pub send_artifact : ℕ → (kind path filename mime_type : String) → Called Sent
  pub max_file_bytes : ℕ
  pub has_store : Bool
  pub get_artifact : ℕ → String → Called (Option ArtifactRef)
  pub resolve_path : ℕ → ArtifactRef → Called String
  pub lower : String → String
  pub decimal : ℕ → String

-- `word in text`
unfoldable pub occurs : String → String → Bool
occurs word String.[] = is_empty word
occurs word (String.◌∷◌ c text) =
    let later = occurs word text in starts_with (String.◌∷◌ c text) word || later

unfoldable pub is_ambiguous_error : (lower : String → String) → String → Bool
is_ambiguous_error lower error =
    let value = lower error in
    occurs "timeout" value || occurs "timed out" value || occurs "partial delivery" value

module _ (p : Platform) (session_key : String) where
  -- The branch of `_execute_operation` that sends an artifact.
  unfoldable pub send_stored : (attempt : ℕ) → DeliveryOperation → ArtifactRef → Called Sent
  send_stored attempt op ref = elim (p.resolve_path attempt ref) [
    | raises exception message ↦ raises exception message
    | returns path ↦
        if not (nat_eq p.max_file_bytes 0) && ltb p.max_file_bytes ref.size_bytes
        then raises "RuntimeError" (
            join "artifact exceeds platform limit of " (join (p.decimal p.max_file_bytes) " bytes"))
        else p.send_artifact attempt op.kind path (or_text op.filename ref.filename)
            (or_text op.mime_type ref.mime_type)
  ]

  unfoldable pub send_artifact_of : (attempt : ℕ) → DeliveryOperation → Called Sent
  send_artifact_of attempt op =
      if not p.has_store
      then raises "RuntimeError" "artifact store is unavailable"
      else elim (p.get_artifact attempt op.artifact_id) [
        | raises exception message ↦ raises exception message
        | returns none ↦
            raises "RuntimeError" "artifact is unavailable or outside the delivery session"
        | returns (some ref) ↦
            if not (ref.session_key == session_key) || not ref.delivery_eligible
            then raises "RuntimeError" "artifact is unavailable or outside the delivery session"
            else send_stored attempt op ref
      ]

  unfoldable pub send_operation : (attempt : ℕ) → DeliveryOperation → Called Sent
  send_operation attempt op =
      if op.kind == "text" then p.send_message attempt op.text else send_artifact_of attempt op

  unfoldable pub execute_operation : DeliveryOperation → (attempts : ℕ) → DeliveryPartResult
  execute_operation op attempts = elim (send_operation attempts op) [
    | returns sent ↦ record {
      index = op.index;
      operation = op;
      success = sent.success;
      message_id = sent.message_id;
      error = sent.error;
      attempts = attempts;
      ambiguous = is_ambiguous_error p.lower sent.error;
      skipped = false;
    }
    | raises exception message ↦ record {
      index = op.index;
      operation = op;
      success = false;
      message_id = "";
      error = join exception (join ": " message);
      attempts = attempts;
      ambiguous = is_ambiguous_error p.lower message;
      skipped = false;
    }
  ]
