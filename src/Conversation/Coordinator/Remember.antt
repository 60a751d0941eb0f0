-- ===== src/Conversation/Coordinator/Remember.antt =====
-- A request that is sent twice is worked on once.
use luna_agent.Prelude.{
  ℕ, String, ◌≡◌, refl, sym, ap, ◌∙◌, subst, inl, inr, Bool, true, false, Option, none, some, List,
  [], ◌∷◌, arith, ◌==◌, ==_self, String_eq, ℕ_eq, leb, length, Bool-cases, if_elim, All,
}
use luna_agent.Prelude.Dict
use luna_agent.Prelude.Dict.{Dict, get-put, get-remove}
use luna_agent.Conversation.Submission.{SubmissionRequest}
use luna_agent.Conversation.Message.{Json}
use luna_agent.Conversation.Ledger.{Payload}
use luna_agent.Conversation.Coordinator.{
  CommandExecutionPolicy, Future, pending, QueuedSubmission, Identity, SubmissionRecord,
  Coordinator, SubmissionHandle, identity_eq, identity_of, is_done, prune_records,
  prune_submissions,
}
use luna_agent.Conversation.Coordinator.Submit.{
  accepted_handle, status_of, submit, submit_again, submit_accepted, submit_lane, submit_fresh,
  enqueue, remember, answered, immediate_policy,
}

-- Every entry of the id has the record.
Only : String → SubmissionRecord → List (String × SubmissionRecord) → Type 0
Only id entry entries = All (λ e. (e.0 == id) ≡ true → e.1 ≡ entry) entries

Only-put :
    (d : Dict String SubmissionRecord) (id : String) (entry : SubmissionRecord)
    → Dict.get d id ≡ none
    → Only id entry (Dict.put d id entry)
unfolding Only Dict.get Dict.put
Only-put [] id entry missing = (λ same. refl, tt)
Only-put ((j, w) ∷ d) id entry missing = elim (Bool-cases (j == id)) [
  | inl same ↦ absurd (ground (arith, missing, same))
  | inr other ↦
      let there : Dict.get d id ≡ none = ground (arith, missing, other) in
      rw other ((λ same. absurd (ground (arith, same, other))), Only-put d id entry there)
]

prune_records_keeps :
    {M : Type 0} (futures : Dict ℕ (Future M)) (cache_size : ℕ)
    (entries : List (String × SubmissionRecord)) (records : Dict String SubmissionRecord)
    (id : String) (entry : SubmissionRecord)
    → Only id entry entries
    → is_done (Dict.get futures entry.future) ≡ false
    → Dict.get records id ≡ some entry
    → Dict.get (prune_records futures cache_size entries records) id ≡ some entry
unfolding Only prune_records
prune_records_keeps futures cache_size [] records id entry only open_entry found = found
prune_records_keeps futures cache_size ((j, w) ∷ entries) records id entry only open_entry found =
    if_elim (λ r. Dict.get r id ≡ some entry) (leb (length records) cache_size) _ _ (λ fits. found)
      (λ over.
        if_elim (λ r. Dict.get r id ≡ some entry) (is_done (Dict.get futures w.future)) _ _
          (λ settled.
            prune_records_keeps futures cache_size entries (Dict.remove records j) id entry only.1
              open_entry
              (elim (Bool-cases (j == id)) [
                | inl same ↦ absurd (
                    ground (
                      arith,
                      settled,
                      open_entry,
                      ap (λ x. is_done (Dict.get futures x.future)) (only.0 same),
                    ))
                | inr other ↦ get-remove records j id ∙ (ground (arith, other, found))
              ]))
          (λ unsettled.
            prune_records_keeps futures cache_size entries records id entry only.1 open_entry
              found))

identity_eq_self : (a : Identity) → identity_eq a a ≡ true
identity_eq_self a =
    ground
      (arith, ==_self a.session_key, ==_self a.origin, ==_self a.owner_id, ==_self a.content_hash)

-- The lane of a request changes neither the records nor whether the coordinator accepts.
lane_keeps :
    {M : Type 0} (known : Coordinator M) (item : QueuedSubmission) (position : ℕ)
    (lane : Option CommandExecutionPolicy)
    → ((submit_lane known item position lane).0.submissions ≡ known.submissions)
      × ((submit_lane known item position lane).0.accepting ≡ known.accepting)
      × ((submit_lane known item position lane).1.future ≡ item.future)
      × ((submit_lane known item position lane).1.accepted ≡ true)
unfolding submit_lane enqueue
lane_keeps known item position (some lane) = (refl, refl, refl, refl)
lane_keeps known item position none = (refl, refl, refl, refl)

-- What is told of a request whose id is new.
fresh_known :
    {M : Type 0} (c : Coordinator M) (r : SubmissionRequest)
    (policy : Option CommandExecutionPolicy) (identity : Identity)
    → Dict.get c.submissions r.request_id ≡ none
    → (Dict.get (submit_fresh c r policy identity).0.submissions r.request_id
        ≡ some (record { identity = identity; future = c.next_future }))
      × ((submit_fresh c r policy identity).0.accepting ≡ c.accepting)
      × ((submit_fresh c r policy identity).1.future ≡ c.next_future)
      × ((submit_fresh c r policy identity).1.accepted ≡ true)
unfolding submit_fresh prune_submissions
fresh_known c r policy identity missing =
    let entry : SubmissionRecord = record { identity = identity; future = c.next_future } in
    let known = prune_submissions (remember c r identity pending) in
    let kept =
      lane_keeps known (record { request = r; future = c.next_future }) _
        (immediate_policy policy) in
    let futures = Dict.put c.futures c.next_future pending in
    let records = Dict.put c.submissions r.request_id entry in
    (
      ap (λ d. Dict.get d r.request_id) kept.0
          ∙ prune_records_keeps futures c.cache_size records records r.request_id entry
              (Only-put c.submissions r.request_id entry missing)
              (ground (
                arith,
                get-put c.futures c.next_future pending c.next_future,
                ==_self c.next_future,
              ))
              (get-put c.submissions r.request_id entry r.request_id
                ∙ (ground (arith, ==_self r.request_id))),
      kept.1,
      kept.2,
      kept.3,
    )

module _ {M : Type 0} (json : Json M) (digest : Payload → String)
    (content_hash : SubmissionRequest → String) (has_ledger : Bool) where
  submit_new :
      (c : Coordinator M) (r : SubmissionRequest) (policy : Option CommandExecutionPolicy)
      → c.accepting ≡ true
      → r.durable ≡ false
      → Dict.get c.submissions r.request_id ≡ none
      → submit json digest content_hash has_ledger c r policy
        ≡ answered (submit_fresh c r policy (identity_of content_hash r))
  unfolding submit submit_accepted
  submit_new c r policy accepts volatile missing = ground (arith, accepts, volatile, missing)

  -- The handle of a known request that is sent again as it was.
  submit_known :
      (c : Coordinator M) (r : SubmissionRequest) (policy : Option CommandExecutionPolicy)
      (previous : SubmissionRecord)
      → c.accepting ≡ true
      → previous.identity ≡ identity_of content_hash r
      → Dict.get c.submissions r.request_id ≡ some previous
      → submit json digest content_hash has_ledger c r policy ≡ (
        record c {
          submissions = Dict.put (Dict.remove c.submissions r.request_id) r.request_id previous;
        },
        some (accepted_handle (status_of (Dict.get c.futures previous.future)) 0 previous.future),
      )
  unfolding submit submit_accepted submit_again
  submit_known c r policy previous accepts same found =
      let known : identity_eq previous.identity (identity_of content_hash r) ≡ true =
        subst (λ a. identity_eq a (identity_of content_hash r) ≡ true) (sym same)
          (identity_eq_self (identity_of content_hash r)) in
      ground (arith, accepts, found, known)

  -- While the coordinator accepts, let a request that is not durable and whose id is not known be
  -- submitted twice in a row. Both are accepted with the same future, and the second changes
  -- neither the queues nor the immediate tasks.
  pub submit_twice :
      (c : Coordinator M) (r : SubmissionRequest) (policy again : Option CommandExecutionPolicy)
      → c.accepting ≡ true
      → r.durable ≡ false
      → Dict.get c.submissions r.request_id ≡ none
      → let first = submit json digest content_hash has_ledger c r policy in
        let second = submit json digest content_hash has_ledger first.0 r again in
        (h k : SubmissionHandle) × (first.1 ≡ some h)
        × (second.1 ≡ some k)
        × (h.accepted ≡ true)
        × (k.accepted ≡ true)
        × (k.future ≡ h.future)
        × (second.0.queues ≡ first.0.queues)
        × (second.0.immediate_tasks ≡ first.0.immediate_tasks)
  submit_twice c r policy again accepts volatile missing =
      let fresh = submit_fresh c r policy (identity_of content_hash r) in
      let told = fresh_known c r policy (identity_of content_hash r) missing in
      let entry : SubmissionRecord = record {
        identity = identity_of content_hash r;
        future = c.next_future;
      } in
      let first_is = submit_new c r policy accepts volatile missing in
      let known = submit_known fresh.0 r again entry (told.1 ∙ accepts) refl told.0 in
      let second_is =
        ap (λ x. submit json digest content_hash has_ledger x.0 r again) first_is ∙ known in
      (
        fresh.1,
        accepted_handle (status_of (Dict.get fresh.0.futures c.next_future)) 0 c.next_future,
        ap (λ x. x.1) first_is,
        ap (λ x. x.1) second_is,
        told.3,
        refl,
        sym told.2,
        ap (λ x. x.0.queues) second_is ∙ ap (λ x. x.0.queues) (sym first_is),
        ap (λ x. x.0.immediate_tasks) second_is ∙ ap (λ x. x.0.immediate_tasks) (sym first_is),
      )
