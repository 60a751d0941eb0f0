-- ===== src/Conversation/Ledger/Once.antt =====
-- Who owns a submission.
use luna_agent.Prelude.{
  suc, String, ◌≡◌, refl, sym, ap, ◌∙◌, subst, ◌⊎◌, inl, inr, Bool, true, false, some, List, arith,
  ==_iff, ==_self, String_eq, Option-cases,
}
use luna_agent.Prelude.Dict
use luna_agent.Prelude.Dict.{get-put, get-map_values, get-discard}
use luna_agent.Conversation.Submission.{SubmissionRequest}
use luna_agent.Conversation.Message.{Json}
use luna_agent.Conversation.Table.{
  RowStatus, SubmissionRow, RowKey, RowKey_eq, Rows, claim_submission, is_retryable, interrupted,
  initialize,
}
use luna_agent.Conversation.Ledger.{
  SubmissionClaim, SubmissionClaimKind, Payload, payload_of, key_of, record_of, new_row, claim_kind,
  claim,
}
use luna_agent.Conversation.Ledger.History.{Step, run, is_working, all_keep, run_working}

owned_working :
    (rows : Rows) (k : RowKey) (values : SubmissionRow)
    → (claim_submission rows k values).2 ≡ true
    → is_working (some values) ≡ true
    → is_working (Dict.get (claim_submission rows k values).0 k) ≡ true
unfolding claim_submission
owned_working rows k values h w = elim (Option-cases (Dict.get rows k)) [
  | inl missing ↦ ground (arith, missing, get-put rows k values k, ==_self k)
  | inr (row, found) ↦ ground (
    arith,
    found,
    ==_self k,
    get-put rows k (record row { status = RowStatus.accepted_row; attempts = suc row.attempts }) k,
  )
]

-- A claim of a row that no restart left.
pub claim_kept :
    (rows : Rows) (k : RowKey) (values row : SubmissionRow)
    → Dict.get rows k ≡ some row
    → is_retryable row.status ≡ false
    → claim_submission rows k values ≡ (rows, row, false)
unfolding claim_submission
claim_kept rows k values row found h = ground (arith, found)

pub get-initialize :
    (rows : Rows) (k : RowKey) (row : SubmissionRow)
    → Dict.get rows k ≡ some row
    → Dict.get (initialize rows) k ≡ some (record row { status = interrupted row.status })
unfolding initialize
get-initialize rows k row found =
    get-map_values (λ row. record row { status = interrupted row.status }) rows k ∙ rw found refl

module _ {M : Type 0} (json : Json M) (digest : Payload → String) where
  claim_reads :
      (rows : Rows) (r : SubmissionRequest) (c : SubmissionClaim M)
      → (claim json digest rows r).1 ≡ some c
      → let result = claim_submission rows (key_of r) (new_row json digest r) in
        c.kind ≡ claim_kind json digest r result.1 result.2
  unfolding claim
  claim_reads rows r c e =
      let result = claim_submission rows (key_of r) (new_row json digest r) in ground arith

  -- Only the owner of a claim is told that it is new.
  new_owned :
      (r : SubmissionRequest) (row : SubmissionRow) (owned : Bool)
      → claim_kind json digest r row owned ≡ SubmissionClaimKind.new_claim
      → owned ≡ true
  unfolding claim_kind
  new_owned r row owned h = ground arith

  kept_kind :
      (r : SubmissionRequest) (row : SubmissionRow)
      → is_working (some row) ≡ true
      → (claim_kind json digest r row false ≡ SubmissionClaimKind.resume_claim)
        ⊎ (claim_kind json digest r row false ≡ SubmissionClaimKind.active_claim)
        ⊎ (claim_kind json digest r row false ≡ SubmissionClaimKind.conflict_claim)
  unfolding claim_kind
  kept_kind r row w = ground arith

  -- A new claim makes its row one that is worked on.
  new_working :
      (rows : Rows) (r : SubmissionRequest) (c : SubmissionClaim M)
      → (claim json digest rows r).1 ≡ some c
      → c.kind ≡ SubmissionClaimKind.new_claim
      → is_working (Dict.get (claim json digest rows r).0 (key_of r)) ≡ true
  unfolding claim new_row
  new_working rows r c e h =
      owned_working rows (key_of r) (new_row json digest r)
        (new_owned r _ _ (sym (claim_reads rows r c e) ∙ h)) refl

  -- The claim of a row that is worked on.
  working_claim :
      (rows : Rows) (r : SubmissionRequest) (d : SubmissionClaim M)
      → is_working (Dict.get rows (key_of r)) ≡ true
      → (claim json digest rows r).1 ≡ some d
      → ((claim json digest rows r).0 ≡ rows)
        × ((d.kind ≡ SubmissionClaimKind.resume_claim)
            ⊎ (d.kind ≡ SubmissionClaimKind.active_claim)
            ⊎ (d.kind ≡ SubmissionClaimKind.conflict_claim))
  unfolding claim
  working_claim rows r d w e = elim (Option-cases (Dict.get rows (key_of r))) [
    | inl missing ↦ ground (arith, missing)
    | inr (row, found) ↦
        let kept =
          claim_kept rows (key_of r) (new_row json digest r) row found (ground (arith, found)) in
        (
          ap (λ x. x.0) kept,
          subst
              (λ k.
                (k ≡ SubmissionClaimKind.resume_claim)
                ⊎ (k ≡ SubmissionClaimKind.active_claim)
                ⊎ (k ≡ SubmissionClaimKind.conflict_claim))
              (sym (claim_reads rows r d e ∙ ap (λ x. claim_kind json digest r x.1 x.2) kept))
              (kept_kind r row (ground (arith, found))),
        )
  ]

  -- Let a claim of a request be new, and let any steps follow that are no restart and store no
  -- final outcome under its key. Then a claim of a request with this key that can be read leaves
  -- the table as it is and is a resume, active or a conflict.
  pub owned_once :
      (rows : Rows) (r again : SubmissionRequest) (ss : List (Step M)) (c d : SubmissionClaim M)
      → (claim json digest rows r).1 ≡ some c
      → c.kind ≡ SubmissionClaimKind.new_claim
      → all_keep (key_of r) ss ≡ true
      → key_of again ≡ key_of r
      → (claim json digest (run json digest (claim json digest rows r).0 ss) again).1 ≡ some d
      → ((claim json digest (run json digest (claim json digest rows r).0 ss) again).0
          ≡ run json digest (claim json digest rows r).0 ss)
        × ((d.kind ≡ SubmissionClaimKind.resume_claim)
            ⊎ (d.kind ≡ SubmissionClaimKind.active_claim)
            ⊎ (d.kind ≡ SubmissionClaimKind.conflict_claim))
  owned_once rows r again ss c d e h keep same f =
      working_claim (run json digest (claim json digest rows r).0 ss) again d
        (subst
          (λ k. is_working (Dict.get (run json digest (claim json digest rows r).0 ss) k) ≡ true)
          (sym same)
          (run_working json digest (claim json digest rows r).0 ss (key_of r) keep
            (new_working rows r c e h)))
        f

  -- Let a row be accepted or running, with the hash of a request. After a restart, a claim of the
  -- request that can be read is new and counts one attempt more, and a second one right after is
  -- active.
  pub interrupted_once :
      (rows : Rows) (r : SubmissionRequest) (row : SubmissionRow) (c d : SubmissionClaim M)
      → Dict.get rows (key_of r) ≡ some row
      → (row.status ≡ RowStatus.accepted_row) ⊎ (row.status ≡ RowStatus.running_row)
      → row.payload_hash ≡ digest (payload_of r)
      → (claim json digest (initialize rows) r).1 ≡ some c
      → (claim json digest (claim json digest (initialize rows) r).0 r).1 ≡ some d
      → (c.kind ≡ SubmissionClaimKind.new_claim)
        × (c.ledger_record.attempts ≡ suc row.attempts)
        × (d.kind ≡ SubmissionClaimKind.active_claim)
  unfolding claim claim_kind claim_submission record_of new_row
  interrupted_once rows r row c d found working same e f =
      let start = get-initialize rows (key_of r) row found in
      let again : SubmissionRow = record row {
        status = RowStatus.accepted_row;
        attempts = suc row.attempts;
      } in
      ground (
        arith,
        start,
        ==_self (key_of r),
        ==_iff row.payload_hash (digest (payload_of r)),
        get-put (initialize rows) (key_of r) again (key_of r),
      )
