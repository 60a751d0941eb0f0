-- ===== src/Conversation/Coordinator/Queue.antt =====
-- Each session has a queue: what its worker takes is what was queued, in order.
use luna_agent.Prelude.{
  ℕ, suc, String, ◌≡◌, refl, ap, ◌∙◌, Bool, not, Option, none, some, List, [], ◌∷◌, ◌++◌, arith,
  ◌==◌, ==_iff, String_eq, ℕ_eq, if◌then◌else◌, if_elim,
}
use luna_agent.Prelude.Dict
use luna_agent.Prelude.Dict.{Dict, get-put, get-remove}
use luna_agent.Conversation.Submission.{SubmissionRequest, SubmissionStatus}
use luna_agent.Conversation.Message.{Json}
use luna_agent.Conversation.Ledger.{
  Payload, SubmissionClaim, SubmissionClaimKind, SubmissionLedgerRecord, claim,
}
use luna_agent.Conversation.Coordinator.{
  CommandExecutionPolicy, Identity, SubmissionRecord, QueuedSubmission, Coordinator,
  SubmissionHandle, identity_eq, queue_of, prune_submissions, rejected_handle,
}
use luna_agent.Conversation.Coordinator.Submit.{
  submit, submit_again, submit_lane, submit_fresh, submit_claimed, submit_claim, submit_accepted,
  answered, enqueue, immediate_policy, accepted_handle,
}
use luna_agent.Conversation.Coordinator.History.{queued_item}

-- The items of a session, in order.
abbrev pub of_session : String → List (String × QueuedSubmission) → List QueuedSubmission
of_session session [] = []
of_session session ((k, item) ∷ items) =
    if k == session then item ∷ of_session session items else of_session session items

pub append-nil : (xs : List QueuedSubmission) → xs ++ [] ≡ xs
append-nil [] = refl
append-nil (x ∷ xs) = ap (λ ys. x ∷ ys) (append-nil xs)

pub append_assoc : (xs ys zs : List QueuedSubmission) → (xs ++ ys) ++ zs ≡ xs ++ (ys ++ zs)
append_assoc [] ys zs = refl
append_assoc (x ∷ xs) ys zs = ap (λ l. x ∷ l) (append_assoc xs ys zs)

pub of_session-append :
    (session : String) (xs ys : List (String × QueuedSubmission))
    → of_session session (xs ++ ys) ≡ of_session session xs ++ of_session session ys
of_session-append session [] ys = refl
of_session-append session ((k, item) ∷ xs) ys = ground (arith, of_session-append session xs ys)

pub queue_of-put :
    (queues : Dict String (List QueuedSubmission)) (k : String) (items : List QueuedSubmission)
    (j : String)
    → queue_of (Dict.put queues k items) j ≡ (if k == j then items else queue_of queues j)
queue_of-put queues k items j = ground (arith, get-put queues k items j)

pub queue_of-remove :
    (queues : Dict String (List QueuedSubmission)) (k j : String)
    → queue_of (Dict.remove queues k) j ≡ (if k == j then [] else queue_of queues j)
queue_of-remove queues k j = ground (arith, get-remove queues k j)

-- A submission queues what its handle tells.
unfoldable pub Queues :
    {M : Type 0}
    → Dict String (List QueuedSubmission)
    → SubmissionRequest
    → Coordinator M × Option SubmissionHandle
    → Type 0
Queues before r result =
    (session : String)
    → queue_of result.0.queues session
      ≡ queue_of before session ++ of_session session (queued_item r result.1)

module _ {M : Type 0} (c : Coordinator M) (r : SubmissionRequest) where
  Queues-none :
      (c' : Coordinator M) (h : Option SubmissionHandle)
      → c'.queues ≡ c.queues
      → queued_item r h ≡ []
      → Queues c.queues r (c', h)
  unfolding Queues
  Queues-none c' h same nothing session =
      ground (arith, same, nothing, append-nil (queue_of c.queues session))

  Queues-enqueue :
      (known : Coordinator M) (future place : ℕ) (status : SubmissionStatus)
      → known.queues ≡ c.queues
      → Queues c.queues r (
        enqueue known (record { request = r; future = future }),
        some (accepted_handle status (suc place) future),
      )
  unfolding Queues enqueue
  Queues-enqueue known future place status same session =
      let item : QueuedSubmission = record { request = r; future = future } in
      queue_of-put known.queues r.session_key (queue_of known.queues r.session_key ++ item ∷ [])
        session
      ∙ (ground (arith, same, ==_iff r.session_key session, append-nil (queue_of c.queues session)))

  Queues-lane :
      (known : Coordinator M) (future place : ℕ) (lane : Option CommandExecutionPolicy)
      → known.queues ≡ c.queues
      → let item : QueuedSubmission = record { request = r; future = future } in
        Queues c.queues r (answered (submit_lane known item (suc place) lane))
  unfolding submit_lane
  Queues-lane known future place (some lane) same = Queues-none _ _ same refl
  Queues-lane known future place none same = Queues-enqueue known future place _ same

  Queues-fresh :
      (policy : Option CommandExecutionPolicy) (identity : Identity)
      → Queues c.queues r (answered (submit_fresh c r policy identity))
  unfolding submit_fresh prune_submissions
  Queues-fresh policy identity = Queues-lane _ _ _ (immediate_policy policy) refl

  Queues-claimed :
      (json : Json M) (digest : Payload → String) (policy : Option CommandExecutionPolicy)
      (identity : Identity) (found : SubmissionLedgerRecord M) (kind : SubmissionClaimKind)
      → Queues c.queues r (answered (submit_claimed json digest c r policy identity found kind))
  unfolding submit_claimed rejected_handle prune_submissions
  Queues-claimed json digest policy identity found SubmissionClaimKind.conflict_claim =
      Queues-none _ _ refl refl
  Queues-claimed json digest policy identity found SubmissionClaimKind.cached_claim =
      Queues-none _ _ refl refl
  Queues-claimed json digest policy identity found SubmissionClaimKind.active_claim =
      Queues-none _ _ refl refl
  Queues-claimed json digest policy identity found SubmissionClaimKind.resume_claim =
      Queues-none _ _ refl refl
  Queues-claimed json digest policy identity found SubmissionClaimKind.new_claim =
      Queues-fresh policy identity

  Queues-again :
      (identity : Identity) (previous : SubmissionRecord)
      → Queues c.queues r (answered (submit_again c r identity previous))
  unfolding submit_again rejected_handle
  Queues-again identity previous =
      if_elim (λ result. Queues {M = M} c.queues r (answered result))
        (not (identity_eq previous.identity identity)) _ _ (λ other. Queues-none _ _ refl refl)
        (λ same. Queues-none _ _ refl refl)

module _ {M : Type 0} (json : Json M) (digest : Payload → String)
    (content_hash : SubmissionRequest → String) (has_ledger : Bool) where
  Queues-claim :
      (c : Coordinator M) (r : SubmissionRequest) (policy : Option CommandExecutionPolicy)
      (identity : Identity) (found : Option (SubmissionClaim M))
      → Queues c.queues r (submit_claim json digest c r policy identity found)
  unfolding submit_claim
  Queues-claim c r policy identity none = Queues-none c r _ _ refl refl
  Queues-claim c r policy identity (some found) =
      Queues-claimed c r json digest policy identity found.ledger_record found.kind

  Queues-accepted :
      (c : Coordinator M) (r : SubmissionRequest) (policy : Option CommandExecutionPolicy)
      (identity : Identity) (previous : Option SubmissionRecord)
      → Queues c.queues r (submit_accepted json digest has_ledger c r policy identity previous)
  unfolding submit_accepted rejected_handle
  Queues-accepted c r policy identity (some previous) = Queues-again c r identity previous
  Queues-accepted c r policy identity none =
      if_elim (Queues c.queues r) (not r.durable) _ _ (λ volatile. Queues-fresh c r policy identity)
        (λ durable.
          if_elim (Queues c.queues r) (not has_ledger) _ _
            (λ missing. Queues-none c r _ _ refl refl)
            (λ there.
              Queues-claim (record c { rows = (claim json digest c.rows r).0 }) r policy identity
                (claim json digest c.rows r).1))

  pub Queues-submit :
      (c : Coordinator M) (r : SubmissionRequest) (policy : Option CommandExecutionPolicy)
      → Queues c.queues r (submit json digest content_hash has_ledger c r policy)
  unfolding submit rejected_handle
  Queues-submit c r policy =
      if_elim (Queues c.queues r) (not c.accepting) _ _ (λ closed. Queues-none c r _ _ refl refl)
        (λ open_now. Queues-accepted c r policy _ (Dict.get c.submissions r.request_id))
