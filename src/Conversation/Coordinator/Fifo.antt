-- ===== src/Conversation/Coordinator/Fifo.antt =====
-- What a worker takes is what was queued for its session, in order.
use luna_agent.Prelude.{
  String, ◌≡◌, refl, sym, ap, ◌∙◌, Bool, Option, none, some, List, [], ◌∷◌, ◌++◌, arith, ==_iff,
  String_eq, ℕ_eq, map,
}
use luna_agent.Prelude.Dict
use luna_agent.Prelude.Dict.{Dict, get-put, get-remove}
use luna_agent.Conversation.Submission.{SubmissionRequest}
use luna_agent.Conversation.Message.{Json}
use luna_agent.Conversation.Ledger.{Payload}
use luna_agent.Conversation.Coordinator.{
  QueuedSubmission, Worker, waiting, running, Coordinator, queue_of,
}
use luna_agent.Conversation.Coordinator.Queue.{
  of_session, append-nil, append_assoc, of_session-append, queue_of-put, queue_of-remove, Queues,
  Queues-submit,
}
use luna_agent.Conversation.Coordinator.Serve.{
  begin_with, leave_with, answer_item, finish_with, Answers, begin_item, take_item, finish_item,
  finish_task, set_result, stop_worker, cancel, close,
}
use luna_agent.Conversation.Coordinator.History.{
  Step, submits, begins, finishes, stops, finishes_task, cancels, closes, Log, step, run,
}

-- What a step takes and leaves of a queue is what was there and what it adds.
unfoldable Follows : {M : Type 0} → (queues : Dict String (List QueuedSubmission)) → Log M → Type 0
Follows queues log =
    (session : String)
    → of_session session log.taken ++ queue_of log.coordinator.queues session
      ≡ queue_of queues session ++ of_session session log.queued

module _ {M : Type 0} (json : Json M) (digest : Payload → String)
    (content_hash : SubmissionRequest → String) (has_ledger : Bool) where
  Follows-same :
      (c c' : Coordinator M)
      → c'.queues ≡ c.queues
      → Follows c.queues (record { coordinator = c'; queued = []; taken = [] })
  unfolding Follows
  Follows-same c c' same session = ground (arith, same, append-nil (queue_of c.queues session))

  Follows-begin :
      (c : Coordinator M) (session : String) (worker : Option Worker)
      (items : List QueuedSubmission)
      → queue_of c.queues session ≡ items
      → let result = begin_with json digest has_ledger c session worker items in
        Follows c.queues (record {
          coordinator = result.0;
          queued = [];
          taken = map (λ item. (session, item)) result.1;
        })
  unfolding begin_with take_item Follows
  Follows-begin c session (some waiting) (item ∷ rest) e k = ground (
    arith,
    e,
    queue_of-put c.queues session rest k,
    ==_iff session k,
    append-nil (queue_of c.queues k),
  )
  Follows-begin c session (some waiting) [] e k = Follows-same c c refl k
  Follows-begin c session (some (running busy)) items e k = Follows-same c c refl k
  Follows-begin c session none items e k = Follows-same c c refl k

  leave_queues :
      (c : Coordinator M) (session : String) (items : List QueuedSubmission) (k : String)
      → queue_of c.queues session ≡ items
      → queue_of (leave_with json digest has_ledger c session items).queues k ≡ queue_of c.queues k
  unfolding leave_with
  leave_queues c session [] k e =
      queue_of-remove c.queues session k ∙ (ground (arith, e, ==_iff session k))
  leave_queues c session (item ∷ rest) k e = refl

  pub answer_queues :
      (c : Coordinator M) (item : QueuedSubmission) (a : Answers M)
      (active : Option SubmissionRequest)
      → (answer_item json digest has_ledger c item a active).queues ≡ c.queues
  unfolding answer_item set_result
  answer_queues c item a none = refl
  answer_queues c item a (some r) = ground arith

  finish_queues :
      (c : Coordinator M) (session : String) (a : Answers M) (worker : Option Worker) (k : String)
      → queue_of (finish_with json digest has_ledger c session a worker).queues k
        ≡ queue_of c.queues k
  unfolding finish_with
  finish_queues c session a (some (running item)) k =
      leave_queues (answer_item json digest has_ledger c item a (Dict.get c.active session)) session
        _ k refl
      ∙ ap (λ q. queue_of q k) (answer_queues c item a (Dict.get c.active session))
  finish_queues c session a (some waiting) k = refl
  finish_queues c session a none k = refl

  Follows-step :
      (c : Coordinator M) (s : Step M)
      → Follows c.queues (step json digest content_hash has_ledger c s)
  unfolding Follows step Queues begin_item finish_item finish_task set_result stop_worker cancel
      close
  Follows-step c (submits r policy) k =
      Queues-submit json digest content_hash has_ledger c r policy k
  Follows-step c (begins session) k =
      Follows-begin c session (Dict.get c.workers session) (queue_of c.queues session) refl k
  Follows-step c (finishes session a) k =
      finish_queues c session a (Dict.get c.workers session) k
      ∙ sym (append-nil (queue_of c.queues k))
  Follows-step c (stops session written) k = ground (arith, append-nil (queue_of c.queues k))
  Follows-step c (finishes_task task a) k = ground (arith, append-nil (queue_of c.queues k))
  Follows-step c (cancels future) k = ground (arith, append-nil (queue_of c.queues k))
  Follows-step c closes k = ground (arith, append-nil (queue_of c.queues k))

  -- After any list of submissions, worker steps, workers that are cancelled, finished tasks,
  -- cancelled handles and closes that cancel nothing, what the worker of a session took, followed
  -- by what its queue holds, is what the queue held before, followed by the requests of the session
  -- that were told a place in the queue, in order.
  pub queue_is_fifo :
      (c : Coordinator M) (ss : List (Step M)) (session : String)
      → let log = run json digest content_hash has_ledger c ss in
        of_session session log.taken ++ queue_of log.coordinator.queues session
        ≡ queue_of c.queues session ++ of_session session log.queued
  unfolding run Follows
  queue_is_fifo c [] session = sym (append-nil (queue_of c.queues session))
  queue_is_fifo c (s ∷ ss) session =
      let first = step json digest content_hash has_ledger c s in
      let rest = run json digest content_hash has_ledger first.coordinator ss in
      let here = Follows-step c s session in
      let later = queue_is_fifo first.coordinator ss session in
      ap (λ l. l ++ queue_of rest.coordinator.queues session)
        (of_session-append session first.taken rest.taken)
      ∙ append_assoc (of_session session first.taken) (of_session session rest.taken)
          (queue_of rest.coordinator.queues session)
      ∙ ap (λ l. of_session session first.taken ++ l) later
      ∙ sym (
          append_assoc (of_session session first.taken) (queue_of first.coordinator.queues session)
            (of_session session rest.queued))
      ∙ ap (λ l. l ++ of_session session rest.queued) here
      ∙ append_assoc (queue_of c.queues session) (of_session session first.queued)
          (of_session session rest.queued)
      ∙ ap (λ l. queue_of c.queues session ++ l)
          (sym (of_session-append session first.queued rest.queued))
