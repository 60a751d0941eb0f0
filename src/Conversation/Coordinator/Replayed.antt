-- ===== src/Conversation/Coordinator/Replayed.antt =====
-- What the coordinator answers to a durable request is what the ledger replays.
use luna_agent.Prelude.{
  ℕ, String, ◌≡◌, refl, ap, ◌∙◌, Bool, true, false, not, ◌&&◌, ◌||◌, Option, none, some, arith,
  ==_self, String_eq, if◌then◌else◌, if_elim,
}
use luna_agent.Prelude.Dict
use luna_agent.Conversation.Submission.{
  SubmissionKind, SubmissionStatus, SubmissionRequest, SubmissionOutcome,
}
use luna_agent.Conversation.Message.{Json, ReadsBack}
use luna_agent.Conversation.Table.{
  SubmissionRow, RowKey_eq, Rows, status_value, is_final, update_submission, initialize,
}
use luna_agent.Conversation.Ledger.{
  SubmissionClaimKind, SubmissionLedgerRecord, Payload, payload_of, key_of, claim, mark_running,
  store_conversation, outcome,
}
use luna_agent.Conversation.Ledger.History.{get-update_submission}
use luna_agent.Conversation.Ledger.Replay.{store_final_replayed}
use luna_agent.Conversation.Coordinator.Execute.{
  CommandResult, TurnEnd, returned, was_cancelled, raised, Completed, turn_outcome, command_outcome,
  running, run_turn, execute_result, execute, persist_conversation, persist_final,
  safe_persist_final, delivered_outcome, apply_delivery, apply_response_mode, is_deferred,
  delivery_id_of, is_deliver, has_answer, is_completed,
}
use luna_agent.Conversation.Coordinator.Serve.{Answers, complete_with, complete, run_item}
use luna_agent.Delivery.{DeliveryResult}
use luna_agent.Delivery.Send.{Called, returns, raises}

-- A status that a row ends with.
abbrev Ends : {M : Type 0} → SubmissionOutcome M → Type 0
Ends o = is_final (status_value o.status) ≡ true

abbrev CalledEnds : {M : Type 0} → Called (SubmissionOutcome M) → Type 0
CalledEnds (returns o) = Ends o
CalledEnds (raises exception message) = Unit

abbrev CompletedEnds : {M : Type 0} → Called (Completed M) → Type 0
CompletedEnds (returns completed) =
    Ends completed.outcome × (is_deferred completed.delivery_result ≡ false)
CompletedEnds (raises exception message) = Unit

-- Whether the delivery service defers.
abbrev pub defers : Option (Called DeliveryResult) → Bool
defers (some (returns delivery)) = is_deferred (some delivery)
defers _ = false

module _ {M : Type 0} (r : SubmissionRequest) where
  Ends-turn_outcome : (turn : TurnEnd M) → Ends (turn_outcome r turn)
  unfolding turn_outcome
  Ends-turn_outcome (returned result) = ground arith
  Ends-turn_outcome was_cancelled = refl
  Ends-turn_outcome (raised exception message) = refl

  CompletedEnds-apply_delivery :
      (o : SubmissionOutcome M) (service : Option (Called DeliveryResult))
      → Ends o
      → defers service ≡ false
      → CompletedEnds (apply_delivery o service)
  unfolding apply_delivery delivered_outcome
  CompletedEnds-apply_delivery o none e now = (refl, refl)
  CompletedEnds-apply_delivery o (some (raises exception message)) e now = tt
  CompletedEnds-apply_delivery o (some (returns delivery)) e now = (ground (arith, e), now)

  CompletedEnds-apply :
      (o : SubmissionOutcome M) (service : Option (Called DeliveryResult))
      → Ends o
      → defers service ≡ false
      → CompletedEnds (apply_response_mode r o service)
  unfolding apply_response_mode
  CompletedEnds-apply o service e now =
      if_elim CompletedEnds (not (is_deliver r.response_mode) || not (has_answer o)) _ _
        (λ quiet. (e, refl)) (λ answers. CompletedEnds-apply_delivery o service e now)

module _ {M : Type 0} (json : Json M) (digest : Payload → String) (session : String)
    (r : SubmissionRequest) where
  -- The request has a row with its hash.
  Owned : Rows → Type 0
  Owned rows =
      (row : SubmissionRow) × (Dict.get rows (key_of r) ≡ some row)
      × (row.payload_hash ≡ digest (payload_of r))
      × (row.session_key ≡ session)

  Owned-update :
      (rows : Rows) (f : SubmissionRow → SubmissionRow)
      → ((row : SubmissionRow) → (f row).payload_hash ≡ row.payload_hash)
      → ((row : SubmissionRow) → (f row).session_key ≡ row.session_key)
      → Owned rows
      → Owned (update_submission rows (key_of r) f)
  unfolding Owned
  Owned-update rows f hash key (row, found, same, at) = (
    f row,
    get-update_submission rows (key_of r) f (key_of r)
        ∙ (ground (arith, found, ==_self (key_of r))),
    hash row ∙ same,
    key row ∙ at,
  )

  Owned-running :
      (rows : Rows) (turn_id : String)
      → Owned rows
      → Owned (running json digest true rows r turn_id)
  unfolding running mark_running
  Owned-running rows turn_id owned =
      if_elim Owned (r.durable && true) _ _
        (λ kept. Owned-update rows _ (λ row. refl) (λ row. refl) owned) (λ volatile. owned)

  Owned-persist_conversation :
      (rows : Rows) (o : SubmissionOutcome M)
      → Owned rows
      → Owned (persist_conversation json digest true rows r o)
  unfolding persist_conversation store_conversation
  Owned-persist_conversation rows o owned =
      if_elim Owned
        (r.durable && true && is_deliver r.response_mode && is_completed o.status && has_answer o)
        (store_conversation json digest rows r o) rows
        (λ kept. Owned-update rows _ (λ row. refl) (λ row. refl) owned) (λ volatile. owned)

  Executed : Rows × Called (SubmissionOutcome M) → Type 0
  Executed result = Owned result.0 × CalledEnds result.1

  Executed-run_turn :
      (rows : Rows) (turn_id : String) (turn : TurnEnd M)
      → Owned rows
      → Executed (run_turn json digest true rows r turn_id turn)
  unfolding Executed run_turn
  Executed-run_turn rows turn_id turn owned =
      (Owned-running _ turn_id (Owned-running rows "" owned), Ends-turn_outcome r turn)

  Executed-result :
      (rows : Rows) (result : CommandResult) (text : Option String) (turn_id : String)
      (turn : TurnEnd M)
      → Owned rows
      → Executed (execute_result json digest true rows r result text turn_id turn)
  unfolding Executed execute_result command_outcome
  Executed-result rows result none turn_id turn owned = (Owned-running rows "" owned, ground arith)
  Executed-result rows result (some text) turn_id turn owned =
      Executed-run_turn rows turn_id turn owned

  Executed-execute :
      (rows : Rows) (dispatched : Called (Option CommandResult)) (turn_id : String)
      (turn : TurnEnd M)
      → Owned rows
      → Executed (execute json digest true rows r dispatched turn_id turn)
  unfolding Executed execute
  Executed-execute rows (raises exception message) turn_id turn owned =
      (Owned-running rows "" owned, tt)
  Executed-execute rows (returns none) turn_id turn owned =
      Executed-run_turn rows turn_id turn owned
  Executed-execute rows (returns (some result)) turn_id turn owned =
      Executed-result rows result result.continue_text turn_id turn owned

  -- After a restart, the ledger answers the request with the outcome.
  Replayed : Rows × SubmissionOutcome M → Type 0
  Replayed result =
      (found : SubmissionLedgerRecord M) × ((claim json digest (initialize result.0) r).1
        ≡ some (record { kind = SubmissionClaimKind.cached_claim; ledger_record = found }))
      × (outcome json digest found
          ≡ record result.1 { request_id = r.request_id; session_key = session })

  Replayed-persist_final :
      (rows : Rows) (completed : Completed M) (now : ℕ)
      → r.durable ≡ true
      → Owned rows
      → CompletedEnds (returns completed)
      → ReadsBack json completed.outcome.message
      → Replayed (persist_final json digest true rows r completed now, completed.outcome)
  unfolding Replayed persist_final Owned
  Replayed-persist_final rows completed now durable (row, found, same, at) (ends, sent) back =
      let o = completed.outcome in
      let told =
        store_final_replayed json digest rows r row o (delivery_id_of completed.delivery_result)
          (is_deferred completed.delivery_result) now back found same
          (ground (arith, sent, ends)) in
      if_elim (λ rows. Replayed (rows, o)) (r.durable && true) _ _
        (λ kept. (
          told.0,
          told.1,
          told.2
              ∙ ap
                  (λ b. record o {
                    request_id = r.request_id;
                    session_key = row.session_key;
                    status = if b then SubmissionStatus.completed else o.status;
                  })
                  sent
              ∙ ap (λ k. record o { request_id = r.request_id; session_key = k }) at,
        ))
        (λ volatile. absurd (ground (arith, durable, volatile)))

  Replayed-safe_persist_final :
      (rows : Rows) (completed : Completed M) (now : ℕ) (stored : Called Unit)
      → r.durable ≡ true
      → stored ≡ returns tt
      → Owned rows
      → CompletedEnds (returns completed)
      → ReadsBack json (safe_persist_final json digest true rows r completed now stored).1.message
      → Replayed (safe_persist_final json digest true rows r completed now stored)
  unfolding safe_persist_final
  Replayed-safe_persist_final rows completed now (returns u) durable writes owned ends back =
      Replayed-persist_final rows completed now durable owned ends back
  Replayed-safe_persist_final rows completed now (raises exception message) durable writes owned
        ends back =
      absurd (ground (arith, writes))

  Replayed-complete_with :
      (rows : Rows) (kind : SubmissionKind) (a : Answers M) (completed : Called (Completed M))
      → r.durable ≡ true
      → a.stored ≡ returns tt
      → Owned rows
      → CompletedEnds completed
      → ReadsBack json (complete_with json digest true rows r kind a completed).1.message
      → Replayed (complete_with json digest true rows r kind a completed)
  unfolding complete_with
  Replayed-complete_with rows kind a (raises exception message) durable writes owned ends back =
      Replayed-safe_persist_final rows _ a.now a.stored durable writes owned (refl, refl) back
  Replayed-complete_with rows kind a (returns completed) durable writes owned ends back =
      Replayed-safe_persist_final rows completed a.now a.stored durable writes owned ends back

  Replayed-complete :
      (rows : Rows) (kind : SubmissionKind) (a : Answers M) (o : Called (SubmissionOutcome M))
      → r.durable ≡ true
      → a.stored ≡ returns tt
      → defers a.service ≡ false
      → Owned rows
      → CalledEnds o
      → ReadsBack json (complete json digest true rows r kind a o).1.message
      → Replayed (complete json digest true rows r kind a o)
  unfolding complete
  Replayed-complete rows kind a (raises exception message) durable writes sent owned ends back =
      Replayed-complete_with rows kind a (raises exception message) durable writes owned tt back
  Replayed-complete rows kind a (returns o) durable writes sent owned ends back =
      Replayed-complete_with (persist_conversation json digest true rows r o) kind a
        (apply_response_mode r o a.service) durable writes (Owned-persist_conversation rows o owned)
        (CompletedEnds-apply r o a.service ends sent) back

-- Let a durable request have a row with its hash, let the last write succeed, let the delivery
-- service not defer, and let the JSON functions read back the message of the outcome that the
-- worker answers with. After a restart, a claim is cached, and its outcome is that outcome under
-- the request's id and the row's session.
pub run_item_replayed :
    {M : Type 0} (json : Json M) (digest : Payload → String) (rows : Rows) (r : SubmissionRequest)
    (row : SubmissionRow) (a : Answers M)
    → r.durable ≡ true
    → Dict.get rows (key_of r) ≡ some row
    → row.payload_hash ≡ digest (payload_of r)
    → a.stored ≡ returns tt
    → defers a.service ≡ false
    → ReadsBack json (run_item json digest true rows r a).1.message
    → let ran = run_item json digest true rows r a in
      (found : SubmissionLedgerRecord M) × ((claim json digest (initialize ran.0) r).1
        ≡ some (record { kind = SubmissionClaimKind.cached_claim; ledger_record = found }))
      × (outcome json digest found
          ≡ record ran.1 { request_id = r.request_id; session_key = row.session_key })
unfolding run_item Replayed Owned Executed
run_item_replayed json digest rows r row a durable found same writes sent back =
    let session = row.session_key in
    let executed =
      Executed-execute json digest session r rows a.dispatched a.turn_id a.turn
        (row, found, same, refl) in
    Replayed-complete json digest session r _ SubmissionKind.conversation a _ durable writes sent
      executed.0 executed.1 back
