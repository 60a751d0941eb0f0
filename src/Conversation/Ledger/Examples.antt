-- ===== src/Conversation/Ledger/Examples.antt =====
-- A request of the gateway, a ledger with its row, and the theorems at them.
use luna_agent.Prelude.{
  String, ◌≡◌, refl, ◌⊎◌, inl, true, Option, none, some, List, [], ◌∷◌, String_eq,
}
use luna_agent.Prelude.Dict
use luna_agent.Conversation.Submission.{
  SubmissionRequest, SubmissionOutcome, SubmissionStatus, SubmissionKind, SubmissionOrigin,
  ResponseMode,
}
use luna_agent.Conversation.Message.{
  Json, Value, ReadsBack, as_dict, message_dict, set_field, set_fields, parts_of, message_of,
  message_json,
}
use luna_agent.Conversation.Table.{
  RowStatus, RowKey_eq, SubmissionRow, Rows, claim_submission, update_submission, prune_submissions,
  initialize,
}
use luna_agent.Conversation.Ledger.{
  SubmissionClaim, SubmissionClaimKind, SubmissionLedgerRecord, Payload, payload_of, record_of,
  new_row, claim_kind, claim, mark_running, store_conversation, store_final, outcome, prune,
}
use luna_agent.Conversation.Ledger.History.{Step, step, run}
use luna_agent.Conversation.Ledger.Once.{owned_once, interrupted_once}
use luna_agent.Conversation.Ledger.Replay.{store_final_replayed, store_conversation_resumed}

-- All that a claim calls.
program : Unit {0}
unfolding as_dict message_dict set_field set_fields parts_of message_of message_json ReadsBack
    claim_submission update_submission prune_submissions initialize payload_of record_of new_row
    claim_kind claim mark_running store_conversation store_final outcome prune step run Dict.get
    Dict.put Dict.remove Dict.map_values Dict.discard
program = tt

-- A message of one text part, as a text.
abbrev text_of : List (Dict.Dict String (Value (Unit {0}))) → String
text_of ((a ∷ (name, Value.str text) ∷ d) ∷ ds) = text
text_of ds = ""

abbrev dict_of : String → Option (List (Dict.Dict String (Value (Unit {0}))))
dict_of text = some (
    (("type", Value.str "text")
      ∷ ("text", Value.str text)
      ∷ ("url", Value.str "")
      ∷ ("path", Value.str "")
      ∷ ("file_id", Value.str "")
      ∷ ("artifact_id", Value.str "")
      ∷ ("name", Value.str "")
      ∷ ("mime_type", Value.str "")
      ∷ ("metadata", Value.dict tt)
      ∷ [])
    ∷ [])

abbrev json : Json Unit
json = record { dumps = text_of; loads = dict_of; no_metadata = tt }

abbrev digest : Payload → String
digest p = p.text

abbrev request : SubmissionRequest
request = record {
  session_key = "s";
  text = "hello";
  attachments = [];
  origin = SubmissionOrigin.gateway;
  response_mode = ResponseMode.deliver;
  request_id = "r";
  owner_id = "o";
  durable = true;
}

abbrev answer : SubmissionOutcome Unit
answer = record {
  request_id = "r";
  session_key = "s";
  status = SubmissionStatus.completed;
  kind = SubmissionKind.conversation;
  response = "hi";
  error = "";
  message = some (record {
    parts =
        record {
          type = "text";
          text = "hi";
          url = "";
          path = "";
          file_id = "";
          artifact_id = "";
          name = "";
          mime_type = "";
          metadata = tt;
        }
        ∷ [];
  });
}

abbrev no_rows : Rows
no_rows = []

abbrev claimed : Rows
claimed = (claim json digest no_rows request).0

abbrev row : SubmissionRow
row = new_row json digest request

abbrev accepted_record : SubmissionLedgerRecord Unit
accepted_record = record {
  scope = "gateway";
  owner_id = "o";
  request_id = "r";
  session_key = "s";
  payload_hash = "hello";
  response_mode = ResponseMode.deliver;
  status = RowStatus.accepted_row;
  kind = SubmissionKind.conversation;
  turn_id = "";
  delivery_id = "";
  response = "";
  message = none;
  error = "";
  attempts = 1;
}

abbrev new_claim_of : SubmissionClaim Unit
new_claim_of = record { kind = SubmissionClaimKind.new_claim; ledger_record = accepted_record }

first_claim_is_new : (claim json digest no_rows request).1 ≡ some new_claim_of
unfolding program
first_claim_is_new = refl

abbrev worked_on : Rows
worked_on = run json digest claimed (Step.runs request "t" ∷ Step.prunes 7200 9000 ∷ [])

abbrev active_claim_of : SubmissionClaim Unit
active_claim_of = record {
  kind = SubmissionClaimKind.active_claim;
  ledger_record = record accepted_record { status = RowStatus.running_row; turn_id = "t" };
}

abbrev second_claim : SubmissionClaim Unit
second_claim = record {
  kind = SubmissionClaimKind.new_claim;
  ledger_record = record accepted_record { attempts = 2 };
}

abbrev third_claim : SubmissionClaim Unit
third_claim = record second_claim { kind = SubmissionClaimKind.active_claim }

owned_once_example :
    ((claim json digest worked_on request).0 ≡ worked_on)
    × ((active_claim_of.kind ≡ SubmissionClaimKind.resume_claim)
        ⊎ (active_claim_of.kind ≡ SubmissionClaimKind.active_claim)
        ⊎ (active_claim_of.kind ≡ SubmissionClaimKind.conflict_claim))
unfolding program
owned_once_example =
    owned_once json digest no_rows request request
      (Step.runs request "t" ∷ Step.prunes 7200 9000 ∷ []) new_claim_of active_claim_of refl refl
      refl refl refl

interrupted_once_example :
    (second_claim.kind ≡ SubmissionClaimKind.new_claim)
    × (second_claim.ledger_record.attempts ≡ 2)
    × (third_claim.kind ≡ SubmissionClaimKind.active_claim)
unfolding program
interrupted_once_example =
    interrupted_once json digest claimed request row second_claim third_claim refl (inl refl) refl
      refl refl

store_final_replayed_example :
    (found : SubmissionLedgerRecord Unit) × ((claim json digest
        (initialize (store_final json digest claimed request answer "d" true 10))
        request).1
      ≡ some (record { kind = SubmissionClaimKind.cached_claim; ledger_record = found }))
    × (outcome json digest found ≡ answer)
unfolding program
store_final_replayed_example =
    store_final_replayed json digest claimed request row answer "d" true 10 (refl, refl) refl refl
      refl

store_conversation_resumed_example :
    (found : SubmissionLedgerRecord Unit) × ((claim json digest
        (initialize (store_conversation json digest claimed request answer))
        request).1
      ≡ some (record { kind = SubmissionClaimKind.resume_claim; ledger_record = found }))
    × (outcome json digest found ≡ answer)
unfolding program
store_conversation_resumed_example =
    store_conversation_resumed json digest claimed request row answer (refl, refl) refl refl
