-- ===== src/Delivery/Service.antt =====
-- src/luna_agent/delivery/service.py: DeliveryService.deliver_once and deliver over the tables of
-- deliveries and of their parts. What a hook answers before a delivery is an argument; the hook after
-- it is only told.
pub mod Attempt
pub mod Pass
pub mod Complete
pub mod History
pub mod Resend
mod Examples
use luna_agent.Prelude.{
  ℕ, zero, suc, ◌+◌, max, String, Bool, true, false, not, ◌&&◌, ◌||◌, Option, none, some, List, [],
  ◌∷◌, ◌++◌, ◌==◌, String_eq, ℕ_eq, if◌then◌else◌, is_empty, ltb, nat_eq, length, keep, find?, elem,
}
use Prim.Native.String.{◌++◌ as join}
use text.Mathlib.Text.{starts_with}
use luna_agent.Prelude.Dict
use luna_agent.Prelude.Dict.{Dict}
use luna_agent.Delivery.Send.{Platform, execute_operation}
use luna_agent.Delivery.{DeliveryStatus, DeliveryResult, Outbox, enqueue, claim, record_result}
use luna_agent.Delivery.Planner.{
  DeliveryOperation, DeliveryPlan, PlatformCapabilities, or_text, plan,
}
use luna_agent.Conversation.Message.{MessagePart, OutboundMessage}
use luna_agent.Delivery.Parts.{
  PartStatus, OutboxPartRecord, DeliveryPartResult, Rows, ensure_parts, start_part,
  record_part_result, recover,
}

abbrev pub is_delivered : PartStatus → Bool
is_delivered PartStatus.delivered = true
is_delivered _ = false

abbrev pub is_given_up : PartStatus → Bool
is_given_up PartStatus.failed = true
is_given_up PartStatus.ambiguous = true
is_given_up _ = false

-- What is reported of a part that an earlier attempt has settled.
abbrev pub skipped_part : DeliveryOperation → OutboxPartRecord → Bool → DeliveryPartResult
skipped_part op found success = record {
  index = op.index;
  operation = found.operation;
  success = success;
  message_id = found.message_id;
  error = if success then "" else found.error;
  attempts = found.attempts;
  ambiguous = not success && found.ambiguous;
  skipped = true;
}

module _ (p : Platform) (session_key : String) where
  -- One operation that is sent now.
  unfoldable pub send_part :
      (max_attempts : ℕ) → Rows → DeliveryOperation → (attempts : ℕ) → Rows × DeliveryPartResult
  send_part max_attempts rows op attempts =
      let part = execute_operation p session_key op attempts in
      (record_part_result max_attempts (start_part rows op.index) part, part)

  -- The loop over the operations of the plan, with the records that were read before it.
  unfoldable pub deliver_parts :
      (max_attempts : ℕ)
      → (records rows : Rows) → List DeliveryOperation
      → Rows × List DeliveryPartResult
  deliver_parts max_attempts records rows [] = (rows, [])
  deliver_parts max_attempts records rows (op ∷ ops) = elim (Dict.get records op.index) [
    | none ↦
        let sent = send_part max_attempts rows op 1 in
        let rest = deliver_parts max_attempts records sent.0 ops in
        if sent.1.success then (rest.0, sent.1 ∷ rest.1) else (sent.0, sent.1 ∷ [])
    | some found ↦
        let sent = send_part max_attempts rows found.operation (found.attempts + 1) in
        let rest = deliver_parts max_attempts records sent.0 ops in
        let passed = deliver_parts max_attempts records rows ops in
        if is_delivered found.status
        then (passed.0, skipped_part op found true ∷ passed.1)
        else if is_given_up found.status
        then (rows, skipped_part op found false ∷ [])
        else if sent.1.success
        then (rest.0, sent.1 ∷ rest.1)
        else (sent.0, sent.1 ∷ [])
  ]

abbrev pub failed_part : List DeliveryPartResult → Option DeliveryPartResult
failed_part results = find? (λ part. not part.success) results

-- The last message id that is not empty.
abbrev pub last_message_id : List DeliveryPartResult → String
last_message_id [] = ""
last_message_id (part ∷ parts) =
    if is_empty (last_message_id parts) then part.message_id else last_message_id parts

abbrev pub most_attempts : List DeliveryPartResult → ℕ
most_attempts [] = 0
most_attempts (part ∷ parts) = max part.attempts (most_attempts parts)

abbrev pub all_succeed : List DeliveryPartResult → Bool
all_succeed [] = true
all_succeed (part ∷ parts) = part.success && all_succeed parts

abbrev pub error_of : Option DeliveryPartResult → String
error_of none = ""
error_of (some part) = part.error

abbrev pub ambiguous_of : Option DeliveryPartResult → Bool
ambiguous_of none = false
ambiguous_of (some part) = part.ambiguous

pub record ServiceResult : Type 0 where
  pub result : DeliveryResult
  pub message_id : String
  pub partial : Bool
  pub degraded : Bool
  pub parts : List DeliveryPartResult

-- The result of a plan whose operations were tried.
unfoldable pub result_of :
    (delivery_id : String) → DeliveryPlan → List DeliveryPartResult → ServiceResult
result_of delivery_id plan parts =
    let success =
      ltb 0 (length parts) && nat_eq (length parts) (length plan.operations) && all_succeed parts in
    let delivered_count = length (keep (λ part. part.success) parts) in
    record {
      result = record {
        delivery_id = delivery_id;
        status = if success then DeliveryStatus.delivered else DeliveryStatus.failed;
        error = error_of (failed_part parts);
        attempts = most_attempts parts;
        ambiguous = ambiguous_of (failed_part parts);
      };
      message_id = last_message_id parts;
      partial = ltb 0 delivered_count && not success;
      degraded = plan.degraded;
      parts = parts;
    }

-- What a hook answers before a delivery.
pub record PreDeliveryOutcome : Type 0 where
  pub suppressed : Bool
  pub removed_artifact_ids : List String
  pub text : Option String

abbrev is_some : Option String → Bool
is_some none = false
is_some (some text) = true

abbrev no_member : List String → Bool
no_member [] = true
no_member (x ∷ xs) = false

module _ {M : Type 0} (no_metadata : M) where
  abbrev text_part : String → MessagePart M
  text_part text = record {
    type = "text";
    text = text;
    url = "";
    path = "";
    file_id = "";
    artifact_id = "";
    name = "";
    mime_type = "";
    metadata = no_metadata;
  }

  abbrev kept_part : PreDeliveryOutcome → MessagePart M → Bool
  kept_part outcome part =
      not (not (is_empty part.artifact_id) && elem part.artifact_id outcome.removed_artifact_ids)
      && not (is_some outcome.text && (part.type == "text"))

  -- The message that is delivered, or none where the hook suppresses it.
  unfoldable pub pre_delivery :
      Option PreDeliveryOutcome → OutboundMessage M → Option (OutboundMessage M)
  pre_delivery none message = some message
  pre_delivery (some outcome) message =
      let parts = keep (kept_part outcome) message.parts in
      if outcome.suppressed then none else elim outcome.text [
        | some text ↦ some (record { parts = text_part text ∷ parts })
        | none ↦
            if no_member outcome.removed_artifact_ids
            then some message
            else some (record { parts = parts })
      ]

pub data DeliveryKind : Type 0 where
  conversation command notification approval auth system : DeliveryKind

-- `DeliveryKind.protected`
abbrev pub is_protected : DeliveryKind → Bool
is_protected approval = true
is_protected auth = true
is_protected system = true
is_protected _ = false

pub record DeliveryRequest (M : Type 0) : Type 0 where
  pub session_key : String
  pub message : OutboundMessage M
  pub kind : DeliveryKind
  pub delivery_id : String

-- The binding of the session and the adapter of its platform.
pub data Route : Type 0 where
  unbound : Route
  unavailable : (platform : String) → Route
  connected : Platform → PlatformCapabilities → Route

-- `DeliveryService._failed`, and the result of a delivery that is suppressed.
abbrev pub untried : String → DeliveryStatus → String → ServiceResult
untried delivery_id status error = record {
  result = record {
    delivery_id = delivery_id;
    status = status;
    error = error;
    attempts = 0;
    ambiguous = false;
  };
  message_id = "";
  partial = false;
  degraded = false;
  parts = [];
}

module _ {M : Type 0} (no_metadata : M) (lower : String → String) (max_attempts : ℕ) where
  unfoldable pub deliver_planned :
      Rows → Platform → DeliveryRequest M → DeliveryPlan → Rows × ServiceResult
  deliver_planned rows p request planned =
      let records = ensure_parts rows planned.operations in
      let tried =
        deliver_parts p request.session_key max_attempts records records planned.operations in
      (tried.0, result_of request.delivery_id planned tried.1)

  -- A message after the hook; none is one that the hook suppressed.
  unfoldable pub deliver_message :
      Rows
      → Platform
      → PlatformCapabilities
      → DeliveryRequest M
      → Option (OutboundMessage M)
      → Rows × ServiceResult
  deliver_message rows p caps request none =
      (rows, untried request.delivery_id DeliveryStatus.suppressed "")
  deliver_message rows p caps request (some message) =
      deliver_planned rows p request (plan lower message caps)

  unfoldable pub deliver_once :
      Rows → Route → Option PreDeliveryOutcome → DeliveryRequest M → Rows × ServiceResult
  deliver_once rows unbound hook request =
      (rows, untried request.delivery_id DeliveryStatus.deferred "session has no delivery binding")
  deliver_once rows (unavailable platform) hook request = (
    rows,
    untried request.delivery_id DeliveryStatus.deferred
        (join "platform adapter is unavailable: " platform),
  )
  deliver_once rows (connected p caps) hook request = deliver_message rows p caps request (
      if is_protected request.kind
      then some request.message
      else pre_delivery no_metadata hook request.message)

  -- The tables, and the result that the caller gets.
  unfoldable pub deliver :
      Outbox
      → Rows
      → Route
      → Option PreDeliveryOutcome
      → DeliveryRequest M
      → (now : ℕ) → Outbox × Rows × DeliveryResult
  deliver o rows route hook request now =
      let claimed = claim (enqueue o request.delivery_id now) request.delivery_id in
      let once = deliver_once rows route hook request in
      let recorded = record_result claimed.0 once.1.result now in
      if claimed.1 then (recorded.0, once.0, recorded.1) else (
        claimed.0,
        rows,
        (untried request.delivery_id DeliveryStatus.deferred
            "delivery is already being processed").result,
      )
