-- ===== src/Delivery/Planner.antt =====
-- src/luna_agent/delivery/planner.py: the operations of a message on a platform, and
-- normalize_artifact_kind of src/luna_agent/artifacts/models.py. `str.lower` is an argument.
pub mod Numbered
mod Examples
use luna_agent.Prelude.{
  ℕ, zero, suc, ◌+◌, String, Bool, true, false, not, ◌&&◌, ◌||◌, Option, none, some, List, [], ◌∷◌,
  ◌++◌, map, elem, ◌==◌, String_eq, if◌then◌else◌, is_empty, ltb, nat_eq, strip, length,
}
use text.Mathlib.Text.{starts_with}
use Prim.Native.String.{◌++◌ as join}
use luna_agent.Conversation.Message.{MessagePart, OutboundMessage}

pub record DeliveryOperation : Type 0 where
  pub index : ℕ
  pub kind : String
  pub text : String
  pub artifact_id : String
  pub filename : String
  pub mime_type : String
  pub degraded_from : String

pub record DeliveryPlan : Type 0 where
  pub operations : List DeliveryOperation
  pub degraded : Bool

-- The capabilities of a platform that a plan reads.
pub record PlatformCapabilities : Type 0 where
  pub image_send : Bool
  pub file_send : Bool
  pub audio_send : Bool
  pub video_send : Bool
  pub max_attachments : ℕ

-- What the loop of `plan` has so far.
pub record Planned : Type 0 where
  pub operations : List DeliveryOperation
  pub degraded : Bool
  pub attachment_count : ℕ

abbrev pub text_operation : ℕ → String → String → DeliveryOperation
text_operation index text degraded_from = record {
  index = index;
  kind = "text";
  text = text;
  artifact_id = "";
  filename = "";
  mime_type = "";
  degraded_from = degraded_from;
}

-- `x or y`
abbrev pub or_text : String → String → String
or_text x y = if is_empty x then y else x

-- The lookup in the table of kinds.
abbrev pub supported : PlatformCapabilities → String → Option Bool
supported caps kind =
    if kind == "image"
    then some caps.image_send
    else if kind == "audio"
    then some caps.audio_send
    else if kind == "video"
    then some caps.video_send
    else if (kind == "file") || (kind == "document") || (kind == "resource")
    then some caps.file_send
    else none

abbrev pub document_kinds : List String
document_kinds = "document" ∷ "resource" ∷ []

module _ (lower : String → String) where
  unfoldable pub normalize_artifact_kind : String → String → String
  normalize_artifact_kind kind mime_type =
      let normalized = or_text (lower (strip (or_text kind "file"))) "file" in
      let mime = lower (strip mime_type) in
      if not (elem normalized document_kinds)
      then normalized
      else if starts_with mime "image/"
      then "image"
      else if starts_with mime "audio/"
      then "audio"
      else if starts_with mime "video/"
      then "video"
      else "file"

  unfoldable pub delivery_kind : String → PlatformCapabilities → Option String
  delivery_kind kind caps =
      let normalized = lower (or_text kind "file") in
      elim (supported caps normalized) [
        | none ↦ none
        | some sends ↦
            if sends
            then some (if elem normalized document_kinds then "file" else normalized)
            else if caps.file_send
            then some "file"
            else none
      ]

abbrev pub no_plan : Planned
no_plan = record { operations = []; degraded = false; attachment_count = 0 }

-- A plan has an operation.
abbrev pub or_one : List DeliveryOperation → DeliveryOperation → List DeliveryOperation
or_one [] operation = operation ∷ []
or_one (op ∷ ops) operation = op ∷ ops

-- `operations.append(...)`
abbrev pub appended : Planned → DeliveryOperation → Bool → ℕ → Planned
appended s operation degraded count = record {
  operations = s.operations ++ operation ∷ [];
  degraded = degraded;
  attachment_count = count;
}

abbrev pub over_limit : PlatformCapabilities → ℕ → Bool
over_limit caps count = not (nat_eq caps.max_attachments 0) && ltb caps.max_attachments count

module _ {M : Type 0} where
  unfoldable pub unsupported_operation : ℕ → MessagePart M → String → DeliveryOperation
  unsupported_operation index part reason =
      text_operation index
        (join "[附件未发送: " (join (or_text part.name part.artifact_id) (join "，" (join reason "]"))))
        part.type

  -- A media part: `none` is a kind that the platform does not support.
  unfoldable pub plan_media :
      Planned → MessagePart M → (requested : String) → (kind : Option String) → Planned
  plan_media s part requested none =
      appended s
        (unsupported_operation (length s.operations) part
          "platform does not support this media type")
        true (suc s.attachment_count)
  plan_media s part requested (some kind) =
      let same = kind == requested in
      appended s
        (record {
          index = length s.operations;
          kind = kind;
          text = "";
          artifact_id = part.artifact_id;
          filename = part.name;
          mime_type = part.mime_type;
          degraded_from = if same then "" else requested;
        })
        (s.degraded || (not same && not (is_empty requested))) (suc s.attachment_count)

  -- One turn of the loop of `plan`.
  unfoldable pub plan_part :
      (lower : String → String) → PlatformCapabilities → Planned → MessagePart M → Planned
  plan_part lower caps s part =
      let requested = normalize_artifact_kind lower part.type part.mime_type in
      if part.type == "text"
      then if is_empty part.text
        then s
        else appended s (text_operation (length s.operations) part.text "") s.degraded
            s.attachment_count
      else if is_empty part.artifact_id
      then s
      else if over_limit caps (suc s.attachment_count)
      then appended s (unsupported_operation (length s.operations) part "attachment limit exceeded")
          true (suc s.attachment_count)
      else plan_media s part requested (delivery_kind lower requested caps)

  unfoldable pub plan_parts :
      (lower : String → String) → PlatformCapabilities → Planned → List (MessagePart M) → Planned
  plan_parts lower caps s [] = s
  plan_parts lower caps s (part ∷ parts) = plan_parts lower caps (plan_part lower caps s part) parts

  -- `OutboundMessage.text_content`
  unfoldable pub text_content : List (MessagePart M) → String
  text_content [] = ""
  text_content (part ∷ parts) =
      let rest = text_content parts in if part.type == "text" then join part.text rest else rest

  unfoldable pub plan :
      (lower : String → String) → OutboundMessage M → PlatformCapabilities → DeliveryPlan
  plan lower message caps =
      let s = plan_parts lower caps no_plan message.parts in
      record {
        operations = or_one s.operations (text_operation 0 (text_content message.parts) "");
        degraded = s.degraded;
      }
