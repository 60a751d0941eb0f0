-- ===== src/Conversation/Table.antt =====
-- The table of src/luna_agent/db/database.py that keeps the durable submissions, and its queries. A
-- write lock is held over each query, so each is one step. Times are whole seconds; 0 is no time.
use luna_agent.Prelude.{
  ℕ, suc, String, ◌≡◌, ◌↔◌, arith, Bool, true, false, ◌&&◌, none, some, EqKey, ◌==◌, ==_iff,
  String_eq, if◌then◌else◌, ltb,
}
use luna_agent.Prelude.Dict
use luna_agent.Prelude.Dict.{Dict}
use luna_agent.Conversation.Submission.{ResponseMode, SubmissionKind, SubmissionStatus}

-- The texts that a row has as its status.
pub data RowStatus : Type 0 where
  accepted_row running_row retryable_row conversation_completed_row : RowStatus
  completed_row delivery_pending_row failed_row cancelled_row rejected_row : RowStatus

abbrev pub status_value : SubmissionStatus → RowStatus
status_value SubmissionStatus.accepted = accepted_row
status_value SubmissionStatus.running = running_row
status_value SubmissionStatus.completed = completed_row
status_value SubmissionStatus.failed = failed_row
status_value SubmissionStatus.cancelled = cancelled_row
status_value SubmissionStatus.rejected = rejected_row

pub record SubmissionRow : Type 0 where
  pub session_key : String
  pub payload_hash : String
  pub response_mode : ResponseMode
  pub status : RowStatus
  pub kind : SubmissionKind
  pub turn_id : String
  pub delivery_id : String
  pub response : String
  pub message_json : String
  pub error : String
  pub attempts : ℕ
  pub completed_at : ℕ

-- The key of the table.
pub record RowKey : Type 0 where
  pub scope : String
  pub owner_id : String
  pub request_id : String

abbrev pub row_key_eq : RowKey → RowKey → Bool
row_key_eq a b =
    (a.scope == b.scope) && (a.owner_id == b.owner_id) && (a.request_id == b.request_id)

pub row_key_eq_iff : (a b : RowKey) → (row_key_eq a b ≡ true) ↔ (a ≡ b)
row_key_eq_iff a b =
    ground (
      arith,
      ==_iff a.scope b.scope,
      ==_iff a.owner_id b.owner_id,
      ==_iff a.request_id b.request_id,
    )

instance abbrev pub RowKey_eq : EqKey RowKey
RowKey_eq = record { equal = row_key_eq; equal_iff = row_key_eq_iff }

-- The table.
abbrev pub Rows : Type 0
Rows = Dict RowKey SubmissionRow

abbrev pub is_retryable : RowStatus → Bool
is_retryable retryable_row = true
is_retryable _ = false

-- INSERT OR IGNORE, and the claim of an interrupted row. The row, and whether the caller owns it.
unfoldable pub claim_submission : Rows → RowKey → SubmissionRow → Rows × SubmissionRow × Bool
claim_submission rows key values = elim (Dict.get rows key) [
  | none ↦ (Dict.put rows key values, values, true)
  | some row ↦
      let again = record row { status = accepted_row; attempts = suc row.attempts } in
      if (row.payload_hash == values.payload_hash) && is_retryable row.status
      then (Dict.put rows key again, again, true)
      else (rows, row, false)
]

-- UPDATE of a row that is there.
unfoldable pub update_submission : Rows → RowKey → (SubmissionRow → SubmissionRow) → Rows
update_submission rows key changes = elim (Dict.get rows key) [
  | none ↦ rows
  | some row ↦ Dict.put rows key (changes row)
]

abbrev pub is_final : RowStatus → Bool
is_final completed_row = true
is_final delivery_pending_row = true
is_final failed_row = true
is_final cancelled_row = true
is_final rejected_row = true
is_final _ = false

-- The condition of the delete.
abbrev pub is_old : ℕ → SubmissionRow → Bool
is_old before row = ltb 0 row.completed_at && ltb row.completed_at before && is_final row.status

unfoldable pub prune_submissions : Rows → (before : ℕ) → Rows
prune_submissions rows before = Dict.discard (is_old before) rows

-- What `Database.initialize` does to the rows that a stopped process left.
abbrev pub interrupted : RowStatus → RowStatus
interrupted accepted_row = retryable_row
interrupted running_row = retryable_row
interrupted status = status

unfoldable pub initialize : Rows → Rows
initialize rows = Dict.map_values (λ row. record row { status = interrupted row.status }) rows
