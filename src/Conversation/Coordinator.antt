-- ===== src/Conversation/Coordinator.antt =====
-- src/luna_agent/conversation/coordinator.py: the queues of ConversationCoordinator. Futures are a heap
-- of results; a lock is held over `submit`, so it is one step. The lane of a command and the hash of a
-- request's content are arguments. A worker of a session waits for its queue or runs an item of it.
pub mod Submit
pub mod Execute
pub mod Serve
pub mod Remember
pub mod History
pub mod Queue
pub mod Fifo
pub mod Drain
pub mod Replayed
mod Examples
use luna_agent.Prelude.{
  ℕ, zero, suc, ◌+◌, max, String, Bool, true, false, not, ◌&&◌, ◌||◌, Option, none, some, List, [],
  ◌∷◌, ◌++◌, ◌==◌, String_eq, ℕ_eq, if◌then◌else◌, leb, nat_eq, length,
}
use luna_agent.Prelude.Dict
use luna_agent.Prelude.Dict.{Dict}
use luna_agent.Conversation.Submission.{
  ResponseMode, SubmissionKind, SubmissionStatus, SubmissionRequest, SubmissionOutcome,
  origin_value,
}
use luna_agent.Conversation.Message.{Json}
use luna_agent.Conversation.Table.{Rows}
use luna_agent.Conversation.Ledger.{
  SubmissionClaimKind, SubmissionLedgerRecord, SubmissionClaim, Payload, claim, outcome,
}

pub data CommandExecutionPolicy : Type 0 where
  control snapshot immediate next_turn barrier : CommandExecutionPolicy

-- A future; its place in the heap is what a handle holds.
pub data Future (M : Type 0) : Type 0 where
  pending : Future M
  cancelled : Future M
  done : SubmissionOutcome M → Future M

pub record QueuedSubmission : Type 0 where
  pub request : SubmissionRequest
  pub future : ℕ

-- What a submission is recognised by.
pub record Identity : Type 0 where
  pub session_key : String
  pub origin : String
  pub owner_id : String
  pub response_mode : ResponseMode
  pub content_hash : String

pub record SubmissionRecord : Type 0 where
  pub identity : Identity
  pub future : ℕ

-- A worker of a session.
pub data Worker : Type 0 where
  waiting : Worker
  running : QueuedSubmission → Worker

-- A task that no queue holds back.
pub data Task (M : Type 0) : Type 0 where
  command : QueuedSubmission → CommandExecutionPolicy → Task M
  resume : QueuedSubmission → SubmissionLedgerRecord M → Task M

pub record Coordinator (M : Type 0) : Type 0 where
  pub queues : Dict String (List QueuedSubmission)
  pub workers : Dict String Worker
  pub immediate_tasks : List (Task M)
  pub active : Dict String SubmissionRequest
  pub accepting : Bool
  pub cache_size : ℕ
  pub submissions : Dict String SubmissionRecord
  pub futures : Dict ℕ (Future M)
  pub next_future : ℕ
  pub rows : Rows

-- What a caller gets at once.
pub record SubmissionHandle : Type 0 where
  pub accepted : Bool
  pub status : SubmissionStatus
  pub queue_position : ℕ
  pub future : ℕ

abbrev pub mode_eq : ResponseMode → ResponseMode → Bool
mode_eq ResponseMode.return_only ResponseMode.return_only = true
mode_eq ResponseMode.deliver ResponseMode.deliver = true
mode_eq ResponseMode.silent ResponseMode.silent = true
mode_eq _ _ = false

abbrev pub identity_eq : Identity → Identity → Bool
identity_eq a b =
    (a.session_key == b.session_key)
    && (a.origin == b.origin)
    && (a.owner_id == b.owner_id)
    && mode_eq a.response_mode b.response_mode
    && (a.content_hash == b.content_hash)

abbrev pub identity_of : (content_hash : SubmissionRequest → String) → SubmissionRequest → Identity
identity_of content_hash r = record {
  session_key = r.session_key;
  origin = origin_value r.origin;
  owner_id = r.owner_id;
  response_mode = r.response_mode;
  content_hash = content_hash r;
}

abbrev pub queue_of : Dict String (List QueuedSubmission) → String → List QueuedSubmission
queue_of queues session = elim (Dict.get queues session) [ none ↦ [] | some items ↦ items ]

module _ {M : Type 0} where
  unfoldable pub new : (cache_size : ℕ) → Rows → Coordinator M
  new cache_size rows = record {
    queues = [];
    workers = [];
    immediate_tasks = [];
    active = [];
    accepting = true;
    cache_size = max 1 cache_size;
    submissions = [];
    futures = [];
    next_future = 0;
    rows = rows;
  }

  abbrev pub is_done : Option (Future M) → Bool
  is_done none = false
  is_done (some pending) = false
  is_done (some cancelled) = true
  is_done (some (done o)) = true

  -- The loop of `_prune_submissions` over the records that were there when it began.
  unfoldable pub prune_records :
      (futures : Dict ℕ (Future M))
      → (cache_size : ℕ) → List (String × SubmissionRecord)
      → Dict String SubmissionRecord
      → Dict String SubmissionRecord
  prune_records futures cache_size [] records = records
  prune_records futures cache_size ((id, entry) ∷ rest) records =
      let pruned = prune_records futures cache_size rest (Dict.remove records id) in
      let kept = prune_records futures cache_size rest records in
      if leb (length records) cache_size
      then records
      else if is_done (Dict.get futures entry.future)
      then pruned
      else kept

  unfoldable pub prune_submissions : Coordinator M → Coordinator M
  prune_submissions c = record c {
    submissions = prune_records c.futures c.cache_size c.submissions c.submissions;
  }

  -- `loop.create_future()`
  abbrev pub with_future : Coordinator M → Future M → Coordinator M
  with_future c future = record c {
    futures = Dict.put c.futures c.next_future future;
    next_future = suc c.next_future;
  }

  abbrev pub rejected_outcome : SubmissionRequest → (reason : String) → SubmissionOutcome M
  rejected_outcome r reason = record {
    request_id = r.request_id;
    session_key = r.session_key;
    status = SubmissionStatus.rejected;
    kind = SubmissionKind.conversation;
    response = "";
    error = reason;
    message = none;
  }

  unfoldable pub rejected_handle :
      Coordinator M → SubmissionRequest → (reason : String) → Coordinator M × SubmissionHandle
  rejected_handle c r reason = (
    with_future c (done (rejected_outcome r reason)),
    record {
      accepted = false;
      status = SubmissionStatus.rejected;
      queue_position = 0;
      future = c.next_future;
    },
  )
