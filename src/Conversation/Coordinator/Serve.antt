-- ===== src/Conversation/Coordinator/Serve.antt =====
-- The worker of a session, the tasks that no queue holds back, and `close` of ConversationCoordinator
-- in src/luna_agent/conversation/coordinator.py. What the outside answers to a request is an argument.
use luna_agent.Prelude.{
  ℕ, zero, suc, String, Bool, true, false, not, Option, none, some, List, [], ◌∷◌, ◌==◌, String_eq,
  ℕ_eq, if◌then◌else◌, keep,
}
use luna_agent.Prelude.Dict
use luna_agent.Prelude.Dict.{Dict}
use luna_agent.Conversation.Submission.{SubmissionKind, SubmissionRequest, SubmissionOutcome}
use luna_agent.Conversation.Message.{Json}
use luna_agent.Conversation.Table.{Rows}
use luna_agent.Conversation.Ledger.{Payload, outcome}
use luna_agent.Conversation.Coordinator.{
  Future, cancelled, done, QueuedSubmission, Worker, waiting, running, Task, command, resume,
  Coordinator, queue_of, is_done,
}
use luna_agent.Conversation.Coordinator.Execute.{
  CommandResult, TurnEnd, Completed, failed_outcome, execute, execute_command, persist_conversation,
  safe_persist_final, apply_response_mode,
}
use luna_agent.Delivery.{DeliveryResult}
use luna_agent.Delivery.Send.{Called, returns, raises}

-- What the outside answers while a request is carried out. An exception is an answer; a cancellation
-- of the worker's own task outside the turn is `stop_worker`.
pub record Answers (M : Type 0) : Type 0 where
  pub dispatched : Called (Option CommandResult)
  pub turn_id : String
  pub turn : TurnEnd M
  pub service : Option (Called DeliveryResult)
  pub now : ℕ
  pub stored : Called Unit

abbrev pub is_cancelled : {M : Type 0} → Option (Future M) → Bool
is_cancelled (some cancelled) = true
is_cancelled _ = false

abbrev pub has_worker : Option Worker → Bool
has_worker none = false
has_worker (some worker) = true

abbrev no_answers : {M : Type 0} → Answers M
no_answers = record {
  dispatched = returns none;
  turn_id = "";
  turn = TurnEnd.was_cancelled;
  service = none;
  now = 0;
  stored = returns tt;
}

-- The answers to what a worker took.
abbrev pub answers_of :
    {M : Type 0} → (SubmissionRequest → Answers M) → List QueuedSubmission → Answers M
answers_of answers [] = no_answers
answers_of answers (item ∷ items) = answers item.request

module _ {M : Type 0} (json : Json M) (digest : Payload → String) (has_ledger : Bool) where
  abbrev pub undelivered : SubmissionOutcome M → Completed M
  undelivered o = record { outcome = o; delivery_result = none }

  -- The outcome of a delivery, or of one that raised.
  unfoldable pub complete_with :
      Rows
      → SubmissionRequest
      → SubmissionKind
      → Answers M
      → Called (Completed M)
      → Rows × SubmissionOutcome M
  complete_with rows r kind a (raises exception message) =
      safe_persist_final json digest has_ledger rows r
        (undelivered (failed_outcome r kind exception message)) a.now a.stored
  complete_with rows r kind a (returns completed) =
      safe_persist_final json digest has_ledger rows r completed a.now a.stored

  -- From the answer of a request to its stored outcome.
  unfoldable pub complete :
      Rows
      → SubmissionRequest
      → SubmissionKind
      → Answers M
      → Called (SubmissionOutcome M)
      → Rows × SubmissionOutcome M
  complete rows r kind a (raises exception message) =
      complete_with rows r kind a (raises exception message)
  complete rows r kind a (returns o) =
      complete_with (persist_conversation json digest has_ledger rows r o) r kind a
        (apply_response_mode r o a.service)

  -- The body of `_run_session` for one request.
  unfoldable pub run_item : Rows → SubmissionRequest → Answers M → Rows × SubmissionOutcome M
  run_item rows r a =
      let executed = execute json digest has_ledger rows r a.dispatched a.turn_id a.turn in
      complete executed.0 r SubmissionKind.conversation a executed.1

  unfoldable pub run_task : Rows → Task M → Answers M → Rows × SubmissionOutcome M
  run_task rows (command item policy) a =
      let executed = execute_command json digest has_ledger rows item.request policy a.dispatched in
      complete executed.0 item.request SubmissionKind.command a executed.1
  run_task rows (resume item found) a =
      let o = outcome json digest found in
      elim (apply_response_mode item.request o a.service) [
        | raises exception message ↦
            safe_persist_final json digest has_ledger rows item.request
              (undelivered (record (failed_outcome item.request found.kind exception message) {
                response = found.response;
                message = found.message;
              }))
              a.now a.stored
        | returns completed ↦
            safe_persist_final json digest has_ledger rows item.request completed a.now a.stored
      ]

  -- `if not future.done(): future.set_result(outcome)`
  unfoldable pub set_result : Coordinator M → ℕ → SubmissionOutcome M → Coordinator M
  set_result c future o =
      if is_done (Dict.get c.futures future)
      then c
      else record c { futures = Dict.put c.futures future (done o) }

  -- `queue.get()` of a worker that waits: a cancelled request is not made active.
  unfoldable pub take_item :
      Coordinator M → (session : String) → QueuedSubmission → List QueuedSubmission → Coordinator M
  take_item c session item rest = record c {
    queues = Dict.put c.queues session rest;
    workers = Dict.put c.workers session (running item);
    active =
        if is_cancelled (Dict.get c.futures item.future)
        then c.active
        else Dict.put c.active session item.request;
  }

  -- By the worker and the queue of the session: only a worker that waits takes.
  unfoldable pub begin_with :
      Coordinator M
      → (session : String) → Option Worker
      → List QueuedSubmission
      → Coordinator M × List QueuedSubmission
  begin_with c session (some waiting) (item ∷ rest) = (take_item c session item rest, item ∷ [])
  begin_with c session (some waiting) [] = (c, [])
  begin_with c session (some (running busy)) items = (c, [])
  begin_with c session none items = (c, [])

  unfoldable pub begin_item :
      Coordinator M → (session : String) → Coordinator M × List QueuedSubmission
  begin_item c session =
      begin_with c session (Dict.get c.workers session) (queue_of c.queues session)

  -- The worker goes on, or is done where its queue is empty.
  unfoldable pub leave_with :
      Coordinator M → (session : String) → List QueuedSubmission → Coordinator M
  leave_with c session [] = record c {
    active = Dict.remove c.active session;
    queues = Dict.remove c.queues session;
    workers = Dict.remove c.workers session;
  }
  leave_with c session (item ∷ rest) = record c {
    active = Dict.remove c.active session;
    workers = Dict.put c.workers session waiting;
  }

  abbrev pub leave_item : Coordinator M → (session : String) → Coordinator M
  leave_item c session = leave_with c session (queue_of c.queues session)

  -- A request that is active is answered.
  unfoldable pub answer_item :
      Coordinator M → QueuedSubmission → Answers M → Option SubmissionRequest → Coordinator M
  answer_item c item a none = c
  answer_item c item a (some r) =
      let ran = run_item c.rows item.request a in
      set_result (record c { rows = ran.0 }) item.future ran.1

  unfoldable pub finish_with :
      Coordinator M → (session : String) → Answers M → Option Worker → Coordinator M
  finish_with c session a (some (running item)) =
      leave_item (answer_item c item a (Dict.get c.active session)) session
  finish_with c session a (some waiting) = c
  finish_with c session a none = c

  unfoldable pub finish_item : Coordinator M → (session : String) → Answers M → Coordinator M
  finish_item c session a = finish_with c session a (Dict.get c.workers session)

  -- A cancellation of the worker's task outside the turn, which no `except Exception` catches: the
  -- request gets no outcome, and what waits stays queued. `written` are the rows by then. A worker
  -- that is done is told as none, as `submit` treats it.
  unfoldable pub stop_worker : Coordinator M → (session : String) → (written : Rows) → Coordinator M
  stop_worker c session written = record c {
    rows = written;
    active = Dict.remove c.active session;
    workers = Dict.remove c.workers session;
  }

  -- `_run_session` where nothing else happens meanwhile, on fuel.
  unfoldable pub run_session :
      (answers : SubmissionRequest → Answers M)
      → (fuel : ℕ) → Coordinator M
      → (session : String) → Option (Coordinator M)
  run_session answers zero c session = none
  run_session answers (suc fuel) c session =
      let begun = begin_item c session in
      let next = finish_item begun.0 session (answers_of answers begun.1) in
      let rest = run_session answers fuel next session in
      if has_worker (Dict.get next.workers session) then rest else some next

  abbrev pub future_of : Task M → ℕ
  future_of (command item policy) = item.future
  future_of (resume item found) = item.future

  unfoldable pub finish_task : Coordinator M → Task M → Answers M → Coordinator M
  finish_task c task a =
      let ran = run_task c.rows task a in
      let answered = set_result (record c { rows = ran.0 }) (future_of task) ran.1 in
      record answered {
        immediate_tasks = keep (λ t. not (future_of t == future_of task)) answered.immediate_tasks;
      }

  -- `Future.cancel`
  unfoldable pub cancel : Coordinator M → ℕ → Coordinator M
  cancel c future =
      if is_done (Dict.get c.futures future)
      then c
      else record c { futures = Dict.put c.futures future cancelled }

  unfoldable pub cancel_queued : Coordinator M → List QueuedSubmission → Coordinator M
  cancel_queued c [] = c
  cancel_queued c (item ∷ items) = cancel_queued (cancel c item.future) items

  unfoldable pub cancel_queues : Coordinator M → Dict String (List QueuedSubmission) → Coordinator M
  cancel_queues c [] = c
  cancel_queues c ((session, items) ∷ rest) =
      let after = cancel_queued c items in
      cancel_queues (record after { queues = Dict.put after.queues session [] }) rest

  -- `close`, up to the wait for the workers and the tasks.
  unfoldable pub close : Coordinator M → (cancel_pending : Bool) → Coordinator M
  close c cancel_pending =
      let shut = record c { accepting = false } in
      if cancel_pending then cancel_queues shut c.queues else shut
