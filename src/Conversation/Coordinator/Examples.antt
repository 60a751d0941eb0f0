-- ===== src/Conversation/Coordinator/Examples.antt =====
-- A request of a terminal, sent to a new coordinator, and the theorems at it.
use luna_agent.Prelude.{
  String, ◌≡◌, refl, true, false, none, some, List, [], ◌∷◌, ◌++◌, String_eq, ℕ_eq, All,
}
use luna_agent.Prelude.Dict
use luna_agent.Conversation.Submission.{
  SubmissionRequest, SubmissionOrigin, SubmissionStatus, ResponseMode,
}
use luna_agent.Conversation.Message.{Json, ReadsBack, message_json}
use luna_agent.Conversation.Table.{Rows, RowKey_eq, claim_submission, update_submission, initialize}
use luna_agent.Conversation.Ledger.{
  SubmissionClaimKind, SubmissionLedgerRecord, Payload, payload_of, record_of, new_row, claim_kind,
  claim, mark_running, store_conversation, store_final, outcome,
}
use luna_agent.Conversation.Coordinator.{
  QueuedSubmission, waiting, Coordinator, SubmissionHandle, queue_of, new, prune_records,
  prune_submissions, rejected_handle,
}
use luna_agent.Conversation.Coordinator.Submit.{
  submit, submit_again, submit_lane, submit_fresh, submit_accepted, enqueue,
}
use luna_agent.Conversation.Coordinator.Execute.{
  TurnEnd, turn_outcome, running, run_turn, execute_result, apply_delivery, delivered_outcome,
  execute, persist_conversation, persist_final, safe_persist_final, apply_response_mode,
}
use luna_agent.Conversation.Coordinator.Serve.{
  Answers, complete_with, complete, run_item, set_result, take_item, begin_with, begin_item,
  leave_with, answer_item, finish_with, finish_item, run_session, cancel, cancel_queued,
  cancel_queues, close,
}
use luna_agent.Conversation.Coordinator.History.{Step, step, run}
use luna_agent.Conversation.Coordinator.Queue.{of_session}
use luna_agent.Conversation.Coordinator.Fifo.{queue_is_fifo}
use luna_agent.Conversation.Coordinator.Drain.{Answered, run_session_drains}
use luna_agent.Conversation.Coordinator.Replayed.{run_item_replayed}
use luna_agent.Conversation.Coordinator.Remember.{submit_twice}
use luna_agent.Delivery.{DeliveryStatus}
use luna_agent.Delivery.Send.{Called}

-- All that the coordinator calls for requests that are not durable.
program : Unit {0}
unfolding run_turn execute_result apply_delivery complete_with new prune_records prune_submissions
    rejected_handle submit submit_again submit_lane submit_fresh submit_accepted enqueue
    turn_outcome running execute persist_conversation persist_final safe_persist_final
    apply_response_mode complete run_item set_result take_item begin_with begin_item leave_with
    answer_item finish_with finish_item run_session cancel cancel_queued cancel_queues close step
    run Dict.get Dict.put Dict.remove
program = tt

-- What the ledger computes with.
ledger_program : Unit {0}
unfolding program ReadsBack claim_submission payload_of new_row claim_kind claim initialize
    record_of execute run_turn turn_outcome delivered_outcome apply_delivery apply_response_mode
    running persist_conversation complete complete_with safe_persist_final persist_final run_item
    mark_running update_submission store_conversation store_final message_json Dict.get Dict.put
ledger_program = tt

abbrev json : Json Unit
json = record { dumps = λ ds. ""; loads = λ text. none; no_metadata = tt }

abbrev digest : Payload → String
digest p = p.text

abbrev content_hash : SubmissionRequest → String
content_hash r = r.text

abbrev hello : SubmissionRequest
hello = record {
  session_key = "s";
  text = "hello";
  attachments = [];
  origin = SubmissionOrigin.tui;
  response_mode = ResponseMode.return_only;
  request_id = "a";
  owner_id = "";
  durable = false;
}

abbrev bye : SubmissionRequest
bye = record hello { text = "bye"; request_id = "b" }

abbrev answers : SubmissionRequest → Answers Unit
answers r = record {
  dispatched = Called.returns none;
  turn_id = "t";
  turn =
      TurnEnd.returned (record {
        status = "completed";
        final_response = "hi";
        error = "";
        outbound_message = none;
      });
  service = none;
  now = 0;
  stored = Called.returns tt;
}

abbrev start : Coordinator Unit
start = new 10 []

abbrev two_steps : List (Step Unit)
two_steps = Step.submits hello none ∷ Step.submits bye none ∷ []

abbrev two_queued : Coordinator Unit
two_queued = (run json digest content_hash true start two_steps).coordinator

abbrev first_item : QueuedSubmission
first_item = record { request = hello; future = 0 }

abbrev second_item : QueuedSubmission
second_item = record { request = bye; future = 1 }

both_wait : queue_of two_queued.queues "s" ≡ first_item ∷ second_item ∷ []
unfolding program
both_wait = refl

abbrev more_steps : List (Step Unit)
more_steps = Step.begins "s" ∷ Step.submits bye none ∷ Step.finishes "s" (answers hello) ∷ []

queue_is_fifo_example :
    of_session "s" (run json digest content_hash true two_queued more_steps).taken
      ++ queue_of (run json digest content_hash true two_queued more_steps).coordinator.queues "s"
    ≡ queue_of two_queued.queues "s"
      ++ of_session "s" (run json digest content_hash true two_queued more_steps).queued
queue_is_fifo_example = queue_is_fifo json digest content_hash true two_queued more_steps "s"

run_session_drains_example :
    (c' : Coordinator Unit) × (run_session json digest true answers 2 two_queued "s" ≡ some c')
    × (queue_of c'.queues "s" ≡ [])
    × (Dict.get c'.workers "s" ≡ none)
    × (Dict.get c'.active "s" ≡ none)
    × All (λ i. Answered two_queued c' i.future) (first_item ∷ second_item ∷ [])
unfolding program
run_session_drains_example =
    run_session_drains json digest true answers two_queued "s" first_item (second_item ∷ []) refl
      refl refl

submit_twice_example :
    let first = submit json digest content_hash true start hello none in
    let second = submit json digest content_hash true first.0 hello none in
    (h k : SubmissionHandle) × (first.1 ≡ some h)
    × (second.1 ≡ some k)
    × (h.accepted ≡ true)
    × (k.accepted ≡ true)
    × (k.future ≡ h.future)
    × (second.0.queues ≡ first.0.queues)
    × (second.0.immediate_tasks ≡ first.0.immediate_tasks)
unfolding program
submit_twice_example =
    submit_twice json digest content_hash true start hello none none refl refl refl

abbrev kept : SubmissionRequest
kept = record hello { response_mode = ResponseMode.deliver; owner_id = "o"; durable = true }

abbrev kept_rows : Rows
kept_rows = (claim json digest [] kept).0

abbrev sent : Answers Unit
sent = record (answers kept) {
  service = some (
      Called.returns (record {
        delivery_id = "d";
        status = DeliveryStatus.delivered;
        error = "";
        attempts = 1;
        ambiguous = false;
      }));
}

run_item_replayed_example :
    let ran = run_item json digest true kept_rows kept sent in
    (found : SubmissionLedgerRecord Unit) × ((claim json digest (initialize ran.0) kept).1
      ≡ some (record { kind = SubmissionClaimKind.cached_claim; ledger_record = found }))
    × (outcome json digest found ≡ record ran.1 { request_id = "a"; session_key = "s" })
unfolding ledger_program
run_item_replayed_example =
    run_item_replayed json digest kept_rows kept (new_row json digest kept) sent refl refl refl refl
      refl tt

-- The request was delivered, and its handle says so.
kept_is_completed :
    (run_item json digest true kept_rows kept sent).1.status ≡ SubmissionStatus.completed
unfolding ledger_program
kept_is_completed = refl

-- A close that cancels what is queued before the worker took its first item leaves the worker with an
-- empty queue that nothing fills again.
abbrev closed_early : Coordinator Unit
closed_early = close json digest true (submit json digest content_hash true start hello none).0 true

worker_waits_for_ever :
    (Dict.get closed_early.workers "s" ≡ some waiting)
    × (queue_of closed_early.queues "s" ≡ [])
    × (begin_item json digest true closed_early "s" ≡ (closed_early, []))
    × (closed_early.accepting ≡ false)
unfolding program
worker_waits_for_ever = (refl, refl, refl, refl)
