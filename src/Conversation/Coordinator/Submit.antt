-- ===== src/Conversation/Coordinator/Submit.antt =====
-- ConversationCoordinator.submit of src/luna_agent/conversation/coordinator.py.
use luna_agent.Prelude.{
  ℕ, suc, ◌+◌, String, Bool, true, false, not, Option, none, some, [], ◌∷◌, ◌++◌, String_eq, ℕ_eq,
  if◌then◌else◌, length,
}
use luna_agent.Prelude.Dict
use luna_agent.Conversation.Submission.{SubmissionStatus, SubmissionRequest}
use luna_agent.Conversation.Message.{Json}
use luna_agent.Conversation.Ledger.{
  SubmissionClaimKind, SubmissionClaim, SubmissionLedgerRecord, Payload, claim, outcome,
}
use luna_agent.Conversation.Coordinator.{
  CommandExecutionPolicy, barrier, Future, pending, done, QueuedSubmission, Identity,
  SubmissionRecord, Worker, waiting, command, resume, Coordinator, SubmissionHandle, identity_eq,
  identity_of, queue_of, prune_submissions, with_future, rejected_handle,
}

abbrev pub accepted_handle : SubmissionStatus → (position future : ℕ) → SubmissionHandle
accepted_handle status position future = record {
  accepted = true;
  status = status;
  queue_position = position;
  future = future;
}

abbrev pub is_barrier : CommandExecutionPolicy → Bool
is_barrier barrier = true
is_barrier _ = false

-- A lane that does not wait in the queue.
abbrev pub immediate_policy : Option CommandExecutionPolicy → Option CommandExecutionPolicy
immediate_policy none = none
immediate_policy (some policy) = if is_barrier policy then none else some policy

abbrev pub started : Option Worker → Worker
started none = waiting
started (some worker) = worker

abbrev pub busy : Option SubmissionRequest → ℕ
busy none = 0
busy (some r) = 1

module _ {M : Type 0} where
  -- The status that a duplicate is told.
  abbrev pub status_of : Option (Future M) → SubmissionStatus
  status_of (some (done o)) = o.status
  status_of _ = SubmissionStatus.accepted

  -- A request whose id is known.
  unfoldable pub submit_again :
      Coordinator M
      → SubmissionRequest
      → Identity
      → SubmissionRecord
      → Coordinator M × SubmissionHandle
  submit_again c r identity previous =
      let moved = record c {
        submissions = Dict.put (Dict.remove c.submissions r.request_id) r.request_id previous;
      } in
      if not (identity_eq previous.identity identity)
      then rejected_handle moved r "request_id is already used by another submission"
      else (
        moved,
        accepted_handle (status_of (Dict.get c.futures previous.future)) 0 previous.future,
      )

  -- The record of a request, under a new future.
  abbrev pub remember : Coordinator M → SubmissionRequest → Identity → Future M → Coordinator M
  remember c r identity future = record (with_future c future) {
    submissions =
        Dict.put c.submissions r.request_id
          (record { identity = identity; future = c.next_future });
  }

  -- Behind the earlier requests of the session; a worker is started where there is none.
  unfoldable pub enqueue : Coordinator M → QueuedSubmission → Coordinator M
  enqueue c item =
      let session = item.request.session_key in
      record c {
        queues = Dict.put c.queues session (queue_of c.queues session ++ item ∷ []);
        workers = Dict.put c.workers session (started (Dict.get c.workers session));
      }

  -- A new request that is remembered goes to its lane, or to the queue of its session.
  unfoldable pub submit_lane :
      (known : Coordinator M)
      → QueuedSubmission
      → (position : ℕ) → Option CommandExecutionPolicy
      → Coordinator M × SubmissionHandle
  submit_lane known item position (some lane) = (
    record known { immediate_tasks = known.immediate_tasks ++ command item lane ∷ [] },
    accepted_handle SubmissionStatus.accepted 0 item.future,
  )
  submit_lane known item position none =
      (enqueue known item, accepted_handle SubmissionStatus.accepted position item.future)

  -- The rest of `submit`, for a request that is to be worked on.
  unfoldable pub submit_fresh :
      Coordinator M
      → SubmissionRequest
      → Option CommandExecutionPolicy
      → Identity
      → Coordinator M × SubmissionHandle
  submit_fresh c r policy identity =
      submit_lane (prune_submissions (remember c r identity pending))
        (record { request = r; future = c.next_future })
        (suc (length (queue_of c.queues r.session_key) + busy (Dict.get c.active r.session_key)))
        (immediate_policy policy)

  -- What a claim of the ledger leads to.
  unfoldable pub submit_claimed :
      (json : Json M) (digest : Payload → String)
      → Coordinator M
      → SubmissionRequest
      → Option CommandExecutionPolicy
      → Identity
      → SubmissionLedgerRecord M
      → SubmissionClaimKind
      → Coordinator M × SubmissionHandle
  submit_claimed json digest c r policy identity found SubmissionClaimKind.conflict_claim =
      rejected_handle c r "request_id is already used by another durable submission payload"
  submit_claimed json digest c r policy identity found SubmissionClaimKind.cached_claim =
      let answer = outcome json digest found in
      (
        prune_submissions (remember c r identity (done answer)),
        accepted_handle answer.status 0 c.next_future,
      )
  submit_claimed json digest c r policy identity found SubmissionClaimKind.active_claim = (
    with_future c (done (outcome json digest found)),
    accepted_handle SubmissionStatus.accepted 0 c.next_future,
  )
  submit_claimed json digest c r policy identity found SubmissionClaimKind.resume_claim =
      let known = remember c r identity pending in
      (
        record known {
          immediate_tasks =
              known.immediate_tasks
              ++ resume (record { request = r; future = c.next_future }) found ∷ [];
        },
        accepted_handle SubmissionStatus.accepted 0 c.next_future,
      )
  submit_claimed json digest c r policy identity found SubmissionClaimKind.new_claim =
      submit_fresh c r policy identity

  abbrev pub answered : Coordinator M × SubmissionHandle → Coordinator M × Option SubmissionHandle
  answered result = (result.0, some result.1)

  -- A claim that raised gives no handle.
  unfoldable pub submit_claim :
      (json : Json M) (digest : Payload → String)
      → Coordinator M
      → SubmissionRequest
      → Option CommandExecutionPolicy
      → Identity
      → Option (SubmissionClaim M)
      → Coordinator M × Option SubmissionHandle
  submit_claim json digest c r policy identity none = (c, none)
  submit_claim json digest c r policy identity (some found) =
      answered (submit_claimed json digest c r policy identity found.ledger_record found.kind)

  -- `submit` while the coordinator accepts, by the record of the request's id.
  unfoldable pub submit_accepted :
      (json : Json M) (digest : Payload → String) (has_ledger : Bool)
      → Coordinator M
      → SubmissionRequest
      → Option CommandExecutionPolicy
      → Identity
      → Option SubmissionRecord
      → Coordinator M × Option SubmissionHandle
  submit_accepted json digest has_ledger c r policy identity (some previous) =
      answered (submit_again c r identity previous)
  submit_accepted json digest has_ledger c r policy identity none =
      let claimed = claim json digest c.rows r in
      if not r.durable
      then answered (submit_fresh c r policy identity)
      else if not has_ledger
      then answered (rejected_handle c r "durable submission ledger is unavailable")
      else submit_claim json digest (record c { rows = claimed.0 }) r policy identity claimed.1

  unfoldable pub submit :
      (json : Json M) (digest : Payload → String) (content_hash : SubmissionRequest → String)
      → (has_ledger : Bool) → Coordinator M
      → SubmissionRequest
      → Option CommandExecutionPolicy
      → Coordinator M × Option SubmissionHandle
  submit json digest content_hash has_ledger c r policy =
      if not c.accepting
      then answered (rejected_handle c r "conversation coordinator is shutting down")
      else submit_accepted json digest has_ledger c r policy (identity_of content_hash r)
          (Dict.get c.submissions r.request_id)
