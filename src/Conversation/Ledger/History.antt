-- ===== src/Conversation/Ledger/History.antt =====
-- Any history of the ledger: the calls of the coordinator, and restarts of the process.
use luna_agent.Prelude.{
  ℕ, suc, String, ◌≡◌, refl, ◌∙◌, inl, inr, Bool, true, false, not, ◌&&◌, Option, none, some, List,
  [], ◌∷◌, arith, ◌==◌, ==_iff, String_eq, if◌then◌else◌, Option-cases,
}
use luna_agent.Prelude.Dict
use luna_agent.Prelude.Dict.{get-put, get-map_values, get-discard}
use luna_agent.Conversation.Submission.{SubmissionRequest, SubmissionOutcome}
use luna_agent.Conversation.Message.{Json}
use luna_agent.Conversation.Table.{
  RowStatus, SubmissionRow, RowKey, RowKey_eq, Rows, claim_submission, update_submission,
  is_retryable, is_final, is_old, prune_submissions, initialize,
}
use luna_agent.Conversation.Ledger.{
  Payload, key_of, new_row, claim, mark_running, store_conversation, store_final, prune,
}

pub data Step (M : Type 0) : Type 0 where
  claims : SubmissionRequest → Step M
  runs : SubmissionRequest → (turn_id : String) → Step M
  stores_conversation : SubmissionRequest → SubmissionOutcome M → Step M
  stores_final :
      SubmissionRequest
      → SubmissionOutcome M
      → (delivery_id : String) → (pending : Bool) → (now : ℕ) → Step M
  prunes : (retention_seconds now : ℕ) → Step M
  restarts : Step M

module _ {M : Type 0} (json : Json M) (digest : Payload → String) where
  unfoldable pub step : Rows → Step M → Rows
  step rows (claims r) = (claim json digest rows r).0
  step rows (runs r turn_id) = mark_running json digest rows r turn_id
  step rows (stores_conversation r outcome) = store_conversation json digest rows r outcome
  step rows (stores_final r outcome delivery_id pending now) =
      store_final json digest rows r outcome delivery_id pending now
  step rows (prunes retention_seconds now) = prune rows retention_seconds now
  step rows restarts = initialize rows

  unfoldable pub run : Rows → List (Step M) → Rows
  run rows [] = rows
  run rows (s ∷ ss) = run (step rows s) ss

-- A row that its owner works on, or whose answer is still to be delivered.
abbrev pub is_working : Option SubmissionRow → Bool
is_working none = false
is_working (some row) = not (is_final row.status) && not (is_retryable row.status)

-- No restart, and no final outcome of the key.
abbrev pub keeps : {M : Type 0} → RowKey → Step M → Bool
keeps k restarts = false
keeps k (stores_final r outcome delivery_id pending now) = not (key_of r == k)
keeps k _ = true

abbrev pub all_keep : {M : Type 0} → RowKey → List (Step M) → Bool
all_keep k [] = true
all_keep k (s ∷ ss) = keeps k s && all_keep k ss

abbrev pub changed_at :
    Bool → (SubmissionRow → SubmissionRow) → Option SubmissionRow → Option SubmissionRow
changed_at here f none = none
changed_at here f (some row) = if here then some (f row) else some row

pub get-update_submission :
    (rows : Rows) (k : RowKey) (f : SubmissionRow → SubmissionRow) (j : RowKey)
    → Dict.get (update_submission rows k f) j ≡ changed_at (k == j) f (Dict.get rows j)
unfolding update_submission
get-update_submission rows k f j = elim (Option-cases (Dict.get rows k)) [
  | inl missing ↦ ground (arith, missing, ==_iff k j)
  | inr (row, found) ↦ ground (arith, found, ==_iff k j, get-put rows k (f row) j)
]

-- The row that a claim leaves at a key, by the row that was there.
abbrev pub claimed_row : SubmissionRow → Option SubmissionRow → SubmissionRow
claimed_row values none = values
claimed_row values (some row) =
    if (row.payload_hash == values.payload_hash) && is_retryable row.status
    then record row { status = RowStatus.accepted_row; attempts = suc row.attempts }
    else row

pub claim_submission_row :
    (rows : Rows) (k : RowKey) (values : SubmissionRow)
    → (claim_submission rows k values).1 ≡ claimed_row values (Dict.get rows k)
unfolding claim_submission
claim_submission_row rows k values = ground arith

pub get-claim_submission :
    (rows : Rows) (k : RowKey) (values : SubmissionRow) (j : RowKey)
    → Dict.get (claim_submission rows k values).0 j
      ≡ (if k == j then some (claimed_row values (Dict.get rows k)) else Dict.get rows j)
unfolding claim_submission
get-claim_submission rows k values j = elim (Option-cases (Dict.get rows k)) [
  | inl missing ↦ ground (arith, missing, ==_iff k j, get-put rows k values j)
  | inr (row, found) ↦ ground (
    arith,
    found,
    ==_iff k j,
    get-put rows k (record row { status = RowStatus.accepted_row; attempts = suc row.attempts }) j,
  )
]

pub update_working :
    (rows : Rows) (j : RowKey) (f : SubmissionRow → SubmissionRow) (k : RowKey)
    → ((row : SubmissionRow) → is_working (some (f row)) ≡ true)
    → is_working (Dict.get rows k) ≡ true
    → is_working (Dict.get (update_submission rows j f) k) ≡ true
update_working rows j f k keeps_working w = elim (Option-cases (Dict.get rows k)) [
  | inl missing ↦ ground (arith, missing)
  | inr (row, found) ↦ ground (arith, found, get-update_submission rows j f k, keeps_working row)
]

pub update_elsewhere :
    (rows : Rows) (j : RowKey) (f : SubmissionRow → SubmissionRow) (k : RowKey)
    → (j == k) ≡ false
    → Dict.get (update_submission rows j f) k ≡ Dict.get rows k
update_elsewhere rows j f k other = get-update_submission rows j f k ∙ rw other (ground arith)

prune_working :
    (rows : Rows) (before : ℕ) (k : RowKey)
    → is_working (Dict.get rows k) ≡ true
    → Dict.get (prune_submissions rows before) k ≡ Dict.get rows k
unfolding prune_submissions
prune_working rows before k w = get-discard (is_old before) rows k ∙ (ground arith)

claim_working :
    (rows : Rows) (j : RowKey) (values : SubmissionRow) (k : RowKey)
    → is_working (Dict.get rows k) ≡ true
    → Dict.get (claim_submission rows j values).0 k ≡ Dict.get rows k
claim_working rows j values k w = elim (Option-cases (Dict.get rows k)) [
  | inl missing ↦ ground (arith, missing)
  | inr (row, found) ↦ ground (arith, found, ==_iff j k, get-claim_submission rows j values k)
]

module _ {M : Type 0} (json : Json M) (digest : Payload → String) where
  -- The owner's row stays one that is worked on.
  step_working :
      (rows : Rows) (s : Step M) (k : RowKey)
      → keeps k s ≡ true
      → is_working (Dict.get rows k) ≡ true
      → is_working (Dict.get (step json digest rows s) k) ≡ true
  unfolding step claim mark_running store_conversation store_final prune
  step_working rows (claims r) k h w =
      rw (claim_working rows (key_of r) (new_row json digest r) k w) w
  step_working rows (runs r turn_id) k h w = update_working rows (key_of r) _ k (λ row. refl) w
  step_working rows (stores_conversation r outcome) k h w =
      update_working rows (key_of r) _ k (λ row. refl) w
  step_working rows (stores_final r outcome delivery_id pending now) k h w =
      rw (update_elsewhere rows (key_of r) _ k (ground arith)) w
  step_working rows (prunes retention_seconds now) k h w = rw (prune_working rows _ k w) w
  step_working rows restarts k h w = ground arith

  pub run_working :
      (rows : Rows) (ss : List (Step M)) (k : RowKey)
      → all_keep k ss ≡ true
      → is_working (Dict.get rows k) ≡ true
      → is_working (Dict.get (run json digest rows ss) k) ≡ true
  unfolding run
  run_working rows [] k h w = w
  run_working rows (s ∷ ss) k h w =
      run_working (step json digest rows s) ss k (ground arith)
        (step_working rows s k (ground arith) w)
