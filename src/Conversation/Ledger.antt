-- ===== src/Conversation/Ledger.antt =====
-- src/luna_agent/conversation/ledger.py: DurableSubmissionLedger over its table. Times are arguments,
-- and so are the `json` module and the hash, `digest` of the fields of a request.
pub mod History
pub mod Once
pub mod Replay
mod Examples
use luna_agent.Prelude.{
  ℕ, suc, ◌-◌, max, String, Bool, true, false, not, ◌&&◌, ◌||◌, Option, none, some, List, [], ◌∷◌,
  map, ◌≡◌, ◌↔◌, arith, EqKey, ◌==◌, ==_iff, String_eq, if◌then◌else◌, is_empty, ltb,
}
use luna_agent.Prelude.Dict
use luna_agent.Prelude.Dict.{Dict}
use luna_agent.Conversation.Submission.{
  ResponseMode, SubmissionKind, SubmissionStatus, SubmissionRequest, SubmissionOutcome,
  origin_value,
}
use luna_agent.Conversation.Table.{
  RowStatus, status_value, SubmissionRow, RowKey, RowKey_eq, Rows, claim_submission,
  update_submission, is_final, prune_submissions, initialize,
}
use luna_agent.Conversation.Message.{OutboundMessage, Json, message_of, message_json}

pub data SubmissionClaimKind : Type 0 where
  new_claim resume_claim cached_claim active_claim conflict_claim : SubmissionClaimKind

pub record SubmissionLedgerRecord (M : Type 0) : Type 0 where
  pub scope : String
  pub owner_id : String
  pub request_id : String
  pub session_key : String
  pub payload_hash : String
  pub response_mode : ResponseMode
  pub status : RowStatus
  pub kind : SubmissionKind
  pub turn_id : String
  pub delivery_id : String
  pub response : String
  pub message : Option (OutboundMessage M)
  pub error : String
  pub attempts : ℕ

pub record SubmissionClaim (M : Type 0) : Type 0 where
  pub kind : SubmissionClaimKind
  pub ledger_record : SubmissionLedgerRecord M

-- What the hash is taken of.
pub record Payload : Type 0 where
  pub session_key : String
  pub origin : String
  pub owner_id : String
  pub response_mode : ResponseMode
  pub text : String
  pub attachments : List (String × String × String)

unfoldable pub payload_of : SubmissionRequest → Payload
payload_of r = record {
  session_key = r.session_key;
  origin = origin_value r.origin;
  owner_id = r.owner_id;
  response_mode = r.response_mode;
  text = r.text;
  attachments = map (λ a. (a.id, a.kind, a.name)) r.attachments;
}

abbrev pub key_of : SubmissionRequest → RowKey
key_of r = record {
  scope = origin_value r.origin;
  owner_id = r.owner_id;
  request_id = r.request_id;
}

abbrev pub is_completed : RowStatus → Bool
is_completed RowStatus.conversation_completed_row = true
is_completed _ = false

abbrev pub outcome_status : RowStatus → SubmissionStatus
outcome_status RowStatus.conversation_completed_row = SubmissionStatus.completed
outcome_status RowStatus.completed_row = SubmissionStatus.completed
outcome_status RowStatus.delivery_pending_row = SubmissionStatus.completed
outcome_status RowStatus.failed_row = SubmissionStatus.failed
outcome_status RowStatus.cancelled_row = SubmissionStatus.cancelled
outcome_status RowStatus.rejected_row = SubmissionStatus.rejected
outcome_status _ = SubmissionStatus.accepted

module _ {M : Type 0} (json : Json M) (digest : Payload → String) where
  unfoldable pub record_of : RowKey → SubmissionRow → Option (SubmissionLedgerRecord M)
  record_of key row = elim (message_of json row.message_json) [
    | none ↦ none
    | some message ↦ some (record {
      scope = key.scope;
      owner_id = key.owner_id;
      request_id = key.request_id;
      session_key = row.session_key;
      payload_hash = row.payload_hash;
      response_mode = row.response_mode;
      status = row.status;
      kind = row.kind;
      turn_id = row.turn_id;
      delivery_id = row.delivery_id;
      response = row.response;
      message = message;
      error = row.error;
      attempts = row.attempts;
    })
  ]

  unfoldable pub new_row : SubmissionRequest → SubmissionRow
  new_row r = record {
    session_key = r.session_key;
    payload_hash = digest (payload_of r);
    response_mode = r.response_mode;
    status = RowStatus.accepted_row;
    kind = SubmissionKind.conversation;
    turn_id = "";
    delivery_id = "";
    response = "";
    message_json = "";
    error = "";
    attempts = 1;
    completed_at = 0;
  }

  -- What a row of the key, and whether the caller owns it, say of the request.
  unfoldable pub claim_kind : SubmissionRequest → SubmissionRow → Bool → SubmissionClaimKind
  claim_kind r row owned =
      if not (row.payload_hash == digest (payload_of r))
      then conflict_claim
      else if owned
      then new_claim
      else if is_completed row.status
      then resume_claim
      else if is_final row.status
      then cached_claim
      else active_claim

  -- The table after the claim, and the claim unless the row could not be read.
  unfoldable pub claim : Rows → SubmissionRequest → Rows × Option (SubmissionClaim M)
  claim rows r =
      let result = claim_submission rows (key_of r) (new_row r) in
      (
        result.0,
        elim (record_of (key_of r) result.1) [
          | none ↦ none
          | some found ↦
              some (record { kind = claim_kind r result.1 result.2; ledger_record = found })
        ],
      )

  unfoldable pub mark_running : Rows → SubmissionRequest → (turn_id : String) → Rows
  mark_running rows r turn_id =
      update_submission rows (key_of r)
        (λ row. record row { status = RowStatus.running_row; turn_id = turn_id })

  unfoldable pub store_conversation : Rows → SubmissionRequest → SubmissionOutcome M → Rows
  store_conversation rows r outcome = update_submission rows (key_of r) (λ row. record row {
    status = RowStatus.conversation_completed_row;
    kind = outcome.kind;
    response = outcome.response;
    message_json = message_json json outcome.message;
    error = outcome.error;
  })

  unfoldable pub store_final :
      Rows
      → SubmissionRequest
      → SubmissionOutcome M
      → (delivery_id : String) → (delivery_pending : Bool) → (now : ℕ) → Rows
  store_final rows r outcome delivery_id delivery_pending now =
      update_submission rows (key_of r) (λ row. record row {
        status =
            if delivery_pending
            then RowStatus.delivery_pending_row
            else status_value outcome.status;
        kind = outcome.kind;
        delivery_id = delivery_id;
        response = outcome.response;
        message_json = message_json json outcome.message;
        error = outcome.error;
        completed_at = now;
      })

  -- `SubmissionLedgerRecord.outcome`, less its payload for display.
  unfoldable pub outcome : SubmissionLedgerRecord M → SubmissionOutcome M
  outcome found = record {
    request_id = found.request_id;
    session_key = found.session_key;
    status = outcome_status found.status;
    kind = found.kind;
    response = found.response;
    error = found.error;
    message = found.message;
  }

unfoldable pub prune : Rows → (retention_seconds now : ℕ) → Rows
prune rows retention_seconds now = prune_submissions rows (now - max 3600 retention_seconds)
