-- ===== src/Conversation/Coordinator/Execute.antt =====
-- How ConversationCoordinator of src/luna_agent/conversation/coordinator.py carries out one request.
-- What the command dispatcher, the turn of the agent, the delivery service and the last write of the
-- ledger end with are arguments; the steers of a turn and the leases are in their own modules.
use luna_agent.Prelude.{
  String, Bool, true, false, not, ◌&&◌, ◌||◌, Option, none, some, [], ◌∷◌, ◌==◌, String_eq,
  if◌then◌else◌, is_empty,
}
use Prim.Native.String.{◌++◌ as join}
use luna_agent.Conversation.Submission.{
  ResponseMode, SubmissionKind, SubmissionStatus, SubmissionRequest, SubmissionOutcome,
}
use luna_agent.Conversation.Message.{Json, OutboundMessage}
use luna_agent.Conversation.Table.{Rows}
use luna_agent.Conversation.Ledger.{Payload, mark_running, store_conversation, store_final}
use luna_agent.Conversation.Coordinator.{CommandExecutionPolicy, control}
use luna_agent.Delivery.{DeliveryStatus, DeliveryResult}
use luna_agent.Delivery.Send.{Called, returns, raises}
use luna_agent.Prelude.{ℕ}

pub record CommandResult : Type 0 where
  pub response : String
  pub error : String
  pub continue_text : Option String

-- What a turn of the agent ends with.
pub record TurnResult (M : Type 0) : Type 0 where
  pub status : String
  pub final_response : String
  pub error : String
  pub outbound_message : Option (OutboundMessage M)

pub data TurnEnd (M : Type 0) : Type 0 where
  returned : TurnResult M → TurnEnd M
  was_cancelled : TurnEnd M
  raised : (exception message : String) → TurnEnd M

-- An outcome, with the delivery result of its payload.
pub record Completed (M : Type 0) : Type 0 where
  pub outcome : SubmissionOutcome M
  pub delivery_result : Option DeliveryResult

abbrev pub is_deliver : ResponseMode → Bool
is_deliver ResponseMode.deliver = true
is_deliver _ = false

abbrev pub is_completed : SubmissionStatus → Bool
is_completed SubmissionStatus.completed = true
is_completed _ = false

abbrev pub is_control : Option CommandExecutionPolicy → Bool
is_control (some control) = true
is_control _ = false

-- The statuses of a delivery that did not fail.
abbrev pub went_out : DeliveryStatus → Bool
went_out DeliveryStatus.failed = false
went_out _ = true

abbrev pub is_deferred : Option DeliveryResult → Bool
is_deferred (some result) = deferred_status result.status
  where
    deferred_status : DeliveryStatus → Bool
    deferred_status DeliveryStatus.deferred = true
    deferred_status _ = false
is_deferred none = false

abbrev pub delivery_id_of : Option DeliveryResult → String
delivery_id_of none = ""
delivery_id_of (some result) = result.delivery_id

abbrev pub turn_status : String → SubmissionStatus
turn_status status =
    if (status == "completed") || is_empty status
    then SubmissionStatus.completed
    else if status == "stopped"
    then SubmissionStatus.cancelled
    else SubmissionStatus.failed

module _ {M : Type 0} where
  abbrev pub plain_outcome :
      SubmissionRequest
      → SubmissionStatus
      → SubmissionKind
      → (response error : String) → Option (OutboundMessage M)
      → SubmissionOutcome M
  plain_outcome r status kind response error message = record {
    request_id = r.request_id;
    session_key = r.session_key;
    status = status;
    kind = kind;
    response = response;
    error = error;
    message = message;
  }

  -- `f"{type(exc).__name__}: {exc}"`
  abbrev pub failed_outcome :
      SubmissionRequest → SubmissionKind → (exception message : String) → SubmissionOutcome M
  failed_outcome r kind exception message =
      plain_outcome r SubmissionStatus.failed kind "" (join exception (join ": " message)) none

  unfoldable pub command_outcome :
      SubmissionRequest → CommandResult → Option CommandExecutionPolicy → SubmissionOutcome M
  command_outcome r result policy =
      plain_outcome r
        (if is_empty result.error then SubmissionStatus.completed else SubmissionStatus.failed)
        (if is_control policy then SubmissionKind.control else SubmissionKind.command)
        result.response result.error none

  -- A message of no parts counts as none.
  abbrev pub with_parts : Option (OutboundMessage M) → Option (OutboundMessage M)
  with_parts none = none
  with_parts (some message) = elim message.parts [
    | [] ↦ none
    | part ∷ parts ↦ some (record { parts = part ∷ parts })
  ]

  unfoldable pub turn_outcome : SubmissionRequest → TurnEnd M → SubmissionOutcome M
  turn_outcome r (returned result) =
      plain_outcome r (turn_status result.status) SubmissionKind.conversation result.final_response
        result.error (with_parts result.outbound_message)
  turn_outcome r was_cancelled =
      plain_outcome r SubmissionStatus.cancelled SubmissionKind.conversation ""
        "conversation turn cancelled" none
  turn_outcome r (raised exception message) =
      failed_outcome r SubmissionKind.conversation exception message

  abbrev pub has_answer : SubmissionOutcome M → Bool
  has_answer o = not (is_empty o.response) || elim o.message [ none ↦ false | some m ↦ true ]

module _ {M : Type 0} (json : Json M) (digest : Payload → String) (has_ledger : Bool) where
  abbrev pub is_kept : SubmissionRequest → Bool
  is_kept r = r.durable && has_ledger

  unfoldable pub running : Rows → SubmissionRequest → (turn_id : String) → Rows
  running rows r turn_id = if is_kept r then mark_running json digest rows r turn_id else rows

  unfoldable pub run_turn :
      Rows
      → SubmissionRequest
      → (turn_id : String) → TurnEnd M
      → Rows × Called (SubmissionOutcome M)
  run_turn rows r turn_id turn =
      (running (running rows r "") r turn_id, returns (turn_outcome r turn))

  -- A command that is handled; one with a text to go on with starts a turn.
  unfoldable pub execute_result :
      Rows
      → SubmissionRequest
      → CommandResult
      → Option String
      → (turn_id : String) → TurnEnd M
      → Rows × Called (SubmissionOutcome M)
  execute_result rows r result none turn_id turn =
      (running rows r "", returns (command_outcome r result none))
  execute_result rows r result (some text) turn_id turn = run_turn rows r turn_id turn

  -- `_execute_with_capabilities`: none dispatched is a text that is no command.
  unfoldable pub execute :
      Rows
      → SubmissionRequest
      → Called (Option CommandResult)
      → (turn_id : String) → TurnEnd M
      → Rows × Called (SubmissionOutcome M)
  execute rows r (raises exception message) turn_id turn =
      (running rows r "", raises exception message)
  execute rows r (returns none) turn_id turn = run_turn rows r turn_id turn
  execute rows r (returns (some result)) turn_id turn =
      execute_result rows r result result.continue_text turn_id turn

  -- `_complete_immediate_bound`, up to the storing of its outcome.
  unfoldable pub execute_command :
      Rows
      → SubmissionRequest
      → CommandExecutionPolicy
      → Called (Option CommandResult)
      → Rows × Called (SubmissionOutcome M)
  execute_command rows r policy (raises exception message) =
      (running rows r "", raises exception message)
  execute_command rows r policy (returns none) = (
    running rows r "",
    returns (
        plain_outcome r SubmissionStatus.rejected
          (if is_control (some policy) then SubmissionKind.control else SubmissionKind.command) ""
          "slash command was not handled" none),
  )
  execute_command rows r policy (returns (some result)) = elim result.continue_text [
    | some text ↦ (
      running rows r "",
      returns (
          plain_outcome r SubmissionStatus.rejected SubmissionKind.command ""
            "forwarding commands must use the conversation queue" none),
    )
    | none ↦ (running rows r "", returns (command_outcome r result (some policy)))
  ]

  unfoldable pub persist_conversation : Rows → SubmissionRequest → SubmissionOutcome M → Rows
  persist_conversation rows r o =
      if is_kept r && is_deliver r.response_mode && is_completed o.status && has_answer o
      then store_conversation json digest rows r o
      else rows

  unfoldable pub persist_final : Rows → SubmissionRequest → Completed M → (now : ℕ) → Rows
  persist_final rows r completed now =
      if is_kept r
      then store_final json digest rows r completed.outcome
          (delivery_id_of completed.delivery_result) (is_deferred completed.delivery_result) now
      else rows

  -- Where the write raises, nothing is stored and the request has failed.
  unfoldable pub safe_persist_final :
      Rows
      → SubmissionRequest
      → Completed M
      → (now : ℕ) → (stored : Called Unit) → Rows × SubmissionOutcome M
  safe_persist_final rows r completed now (returns u) =
      (persist_final rows r completed now, completed.outcome)
  safe_persist_final rows r completed now (raises exception message) =
      if is_kept r
      then (
        rows,
        record completed.outcome {
          status = SubmissionStatus.failed;
          error =
              join "durable submission persistence failed: " (join exception (join ": " message));
        },
      )
      else (rows, completed.outcome)

-- What an outcome becomes by its delivery.
unfoldable pub delivered_outcome : {M : Type 0} → SubmissionOutcome M → DeliveryResult → Completed M
delivered_outcome o delivery = record {
  outcome = record o {
    status = if went_out delivery.status then o.status else SubmissionStatus.failed;
    error =
        if not (is_empty o.error)
        then o.error
        else if went_out delivery.status
        then ""
        else delivery.error;
  };
  delivery_result = some delivery;
}

-- What the delivery service answers, where there is one.
unfoldable pub apply_delivery :
    {M : Type 0} → SubmissionOutcome M → Option (Called DeliveryResult) → Called (Completed M)
apply_delivery o none = returns (record {
  outcome = record o {
    status = SubmissionStatus.failed;
    error = "delivery service is unavailable";
    message = none;
  };
  delivery_result = none;
})
apply_delivery o (some (raises exception message)) = raises exception message
apply_delivery o (some (returns delivery)) = returns (delivered_outcome o delivery)

-- `_apply_response_mode`
unfoldable pub apply_response_mode :
    {M : Type 0}
    → SubmissionRequest
    → SubmissionOutcome M
    → Option (Called DeliveryResult)
    → Called (Completed M)
apply_response_mode r o service =
    if not (is_deliver r.response_mode) || not (has_answer o)
    then returns (record { outcome = o; delivery_result = none })
    else apply_delivery o service
