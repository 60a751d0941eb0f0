-- ===== src/Conversation/Coordinator/History.antt =====
-- Any history of the coordinator, with what was queued for each session, and what its worker took.
use luna_agent.Prelude.{
  ℕ, String, Bool, false, Option, none, some, List, [], ◌∷◌, ◌++◌, if◌then◌else◌, nat_eq, map,
}
use luna_agent.Conversation.Submission.{SubmissionRequest}
use luna_agent.Conversation.Message.{Json}
use luna_agent.Conversation.Table.{Rows}
use luna_agent.Conversation.Ledger.{Payload}
use luna_agent.Conversation.Coordinator.{
  CommandExecutionPolicy, QueuedSubmission, Task, Coordinator, SubmissionHandle,
}
use luna_agent.Conversation.Coordinator.Submit.{submit}
use luna_agent.Conversation.Coordinator.Serve.{
  Answers, begin_item, finish_item, stop_worker, finish_task, cancel, close,
}

-- `closes` without cancelling what is queued.
pub data Step (M : Type 0) : Type 0 where
  submits : SubmissionRequest → Option CommandExecutionPolicy → Step M
  begins : (session : String) → Step M
  finishes : (session : String) → Answers M → Step M
  stops : (session : String) → Rows → Step M
  finishes_task : Task M → Answers M → Step M
  cancels : (future : ℕ) → Step M
  closes : Step M

-- The session and the item of a request that was told a place in the queue.
abbrev pub queued_item :
    SubmissionRequest → Option SubmissionHandle → List (String × QueuedSubmission)
queued_item r none = []
queued_item r (some h) =
    if nat_eq h.queue_position 0
    then []
    else (r.session_key, record { request = r; future = h.future }) ∷ []

pub record Log (M : Type 0) : Type 0 where
  pub coordinator : Coordinator M
  pub queued : List (String × QueuedSubmission)
  pub taken : List (String × QueuedSubmission)

module _ {M : Type 0} (json : Json M) (digest : Payload → String)
    (content_hash : SubmissionRequest → String) (has_ledger : Bool) where
  unfoldable pub step : Coordinator M → Step M → Log M
  step c (submits r policy) =
      let result = submit json digest content_hash has_ledger c r policy in
      record { coordinator = result.0; queued = queued_item r result.1; taken = [] }
  step c (begins session) =
      let result = begin_item json digest has_ledger c session in
      record { coordinator = result.0; queued = []; taken = map (λ item. (session, item)) result.1 }
  step c (finishes session a) = record {
    coordinator = finish_item json digest has_ledger c session a;
    queued = [];
    taken = [];
  }
  step c (stops session written) = record {
    coordinator = stop_worker json digest has_ledger c session written;
    queued = [];
    taken = [];
  }
  step c (finishes_task task a) = record {
    coordinator = finish_task json digest has_ledger c task a;
    queued = [];
    taken = [];
  }
  step c (cancels future) = record {
    coordinator = cancel json digest has_ledger c future;
    queued = [];
    taken = [];
  }
  step c closes = record {
    coordinator = close json digest has_ledger c false;
    queued = [];
    taken = [];
  }

  unfoldable pub run : Coordinator M → List (Step M) → Log M
  run c [] = record { coordinator = c; queued = []; taken = [] }
  run c (s ∷ ss) =
      let first = step c s in
      let rest = run first.coordinator ss in
      record {
        coordinator = rest.coordinator;
        queued = first.queued ++ rest.queued;
        taken = first.taken ++ rest.taken;
      }
