-- ===== src/Conversation/Ledger/Replay.antt =====
-- What was stored is replayed after a restart.
use luna_agent.Prelude.{
  ℕ, String, ◌≡◌, refl, ap, ◌∙◌, Bool, true, false, ◌||◌, Option, some, arith, ==_iff, ==_self,
  String_eq, if◌then◌else◌,
}
use luna_agent.Prelude.Dict
use luna_agent.Prelude.Dict.{get-put, get-map_values, get-discard}
use luna_agent.Conversation.Submission.{SubmissionRequest, SubmissionOutcome, SubmissionStatus}
use luna_agent.Conversation.Message.{
  Json, ReadsBack, OutboundMessage, message_json, message_of-message_json,
}
use luna_agent.Conversation.Table.{
  RowStatus, SubmissionRow, RowKey, RowKey_eq, Rows, status_value, update_submission, is_retryable,
  is_final, interrupted, initialize,
}
use luna_agent.Conversation.Ledger.{
  SubmissionClaimKind, SubmissionLedgerRecord, Payload, payload_of, key_of, record_of, new_row,
  claim_kind, claim, store_conversation, store_final, outcome,
}
use luna_agent.Conversation.Ledger.Once.{claim_kept, get-initialize}
use luna_agent.Conversation.Ledger.History.{get-update_submission}

module _ {M : Type 0} (json : Json M) (digest : Payload → String) where
  -- The record of a row whose message was written.
  abbrev written : RowKey → SubmissionRow → Option (OutboundMessage M) → SubmissionLedgerRecord M
  written key row m = record {
    scope = key.scope;
    owner_id = key.owner_id;
    request_id = key.request_id;
    session_key = row.session_key;
    payload_hash = row.payload_hash;
    response_mode = row.response_mode;
    status = row.status;
    kind = row.kind;
    turn_id = row.turn_id;
    delivery_id = row.delivery_id;
    response = row.response;
    message = m;
    error = row.error;
    attempts = row.attempts;
  }

  claim-written :
      (rows : Rows) (r : SubmissionRequest) (row : SubmissionRow) (m : Option (OutboundMessage M))
      → ReadsBack json m
      → Dict.get rows (key_of r) ≡ some row
      → is_retryable row.status ≡ false
      → row.message_json ≡ message_json json m
      → (claim json digest rows r).1
        ≡ some (record {
          kind = claim_kind json digest r row false;
          ledger_record = written (key_of r) row m;
        })
  unfolding claim record_of
  claim-written rows r row m back found kept e = ground (
    arith,
    claim_kept rows (key_of r) (new_row json digest r) row found kept,
    message_of-message_json json m back,
    e,
  )

  update_restarted :
      (rows : Rows) (k : RowKey) (f : SubmissionRow → SubmissionRow) (row : SubmissionRow)
      → Dict.get rows k ≡ some row
      → interrupted (f row).status ≡ (f row).status
      → Dict.get (initialize (update_submission rows k f)) k ≡ some (f row)
  update_restarted rows k f row found lasting =
      get-initialize (update_submission rows k f) k (f row)
        (get-update_submission rows k f k ∙ (ground (arith, found, ==_self k)))
      ∙ ap (λ status. some (record (f row) { status = status })) lasting

  -- A stored row, and its claim after a restart.
  replayed :
      (rows : Rows) (r : SubmissionRequest) (f : SubmissionRow → SubmissionRow)
      (row : SubmissionRow) (m : Option (OutboundMessage M))
      → ReadsBack json m
      → Dict.get rows (key_of r) ≡ some row
      → interrupted (f row).status ≡ (f row).status
      → is_retryable (f row).status ≡ false
      → (f row).message_json ≡ message_json json m
      → (claim json digest (initialize (update_submission rows (key_of r) f)) r).1
        ≡ some (record {
          kind = claim_kind json digest r (f row) false;
          ledger_record = written (key_of r) (f row) m;
        })
  replayed rows r f row m back found lasting kept e =
      claim-written (initialize (update_submission rows (key_of r) f)) r (f row) m back
        (update_restarted rows (key_of r) f row found lasting) kept e

  final_lasting :
      (status : RowStatus)
      → is_final status ≡ true
      → (interrupted status ≡ status) × (is_retryable status ≡ false)
  final_lasting status h = ground arith

  final_kind :
      (r : SubmissionRequest) (row : SubmissionRow)
      → row.payload_hash ≡ digest (payload_of r)
      → is_final row.status ≡ true
      → claim_kind json digest r row false ≡ SubmissionClaimKind.cached_claim
  unfolding claim_kind
  final_kind r row same h = ground (arith, ==_iff row.payload_hash (digest (payload_of r)))

  -- Let a request have a row with its hash, and an outcome that is pending delivery or final, whose
  -- message the JSON functions read back. After the outcome was stored and a restart, a claim is
  -- cached, and its outcome is the stored one under the request's id and the row's session,
  -- completed where it is pending.
  pub store_final_replayed :
      (rows : Rows) (r : SubmissionRequest) (row : SubmissionRow) (o : SubmissionOutcome M)
      (delivery_id : String) (pending : Bool) (now : ℕ)
      → ReadsBack json o.message
      → Dict.get rows (key_of r) ≡ some row
      → row.payload_hash ≡ digest (payload_of r)
      → (pending || is_final (status_value o.status)) ≡ true
      → (found : SubmissionLedgerRecord M) × ((claim json digest
            (initialize (store_final json digest rows r o delivery_id pending now))
            r).1
          ≡ some (record { kind = SubmissionClaimKind.cached_claim; ledger_record = found }))
        × (outcome json digest found ≡ record o {
          request_id = r.request_id;
          session_key = row.session_key;
          status = if pending then SubmissionStatus.completed else o.status;
        })
  unfolding store_final outcome
  store_final_replayed rows r row o delivery_id pending now back found same final =
      let status : RowStatus =
        if pending then RowStatus.delivery_pending_row else status_value o.status in
      let f = λ (row : SubmissionRow). record row {
        status = status;
        kind = o.kind;
        delivery_id = delivery_id;
        response = o.response;
        message_json = message_json json o.message;
        error = o.error;
        completed_at = now;
      } in
      let is_last : is_final status ≡ true = ground arith in
      (
        written (key_of r) (f row) o.message,
        replayed rows r f row o.message back found (final_lasting status is_last).0
              (final_lasting status is_last).1 refl
            ∙ ap
                (λ k.
                  some (record { kind = k; ledger_record = written (key_of r) (f row) o.message }))
                (final_kind r (f row) same is_last),
        ground arith,
      )

  -- Let a request have a row with its hash, and an outcome whose message the JSON functions read
  -- back. After it was stored as a conversation and a restart, a claim is a resume, and its outcome
  -- is the stored one, completed, under the request's id and the row's session.
  pub store_conversation_resumed :
      (rows : Rows) (r : SubmissionRequest) (row : SubmissionRow) (o : SubmissionOutcome M)
      → ReadsBack json o.message
      → Dict.get rows (key_of r) ≡ some row
      → row.payload_hash ≡ digest (payload_of r)
      → (found : SubmissionLedgerRecord M) × ((claim json digest
            (initialize (store_conversation json digest rows r o))
            r).1
          ≡ some (record { kind = SubmissionClaimKind.resume_claim; ledger_record = found }))
        × (outcome json digest found ≡ record o {
          request_id = r.request_id;
          session_key = row.session_key;
          status = SubmissionStatus.completed;
        })
  unfolding store_conversation outcome claim_kind
  store_conversation_resumed rows r row o back found same =
      let f = λ (row : SubmissionRow). record row {
        status = RowStatus.conversation_completed_row;
        kind = o.kind;
        response = o.response;
        message_json = message_json json o.message;
        error = o.error;
      } in
      (
        written (key_of r) (f row) o.message,
        replayed rows r f row o.message back found refl refl refl
            ∙ ap
                (λ k.
                  some (record { kind = k; ledger_record = written (key_of r) (f row) o.message }))
                (ground (arith, ==_iff row.payload_hash (digest (payload_of r)))),
        refl,
      )
