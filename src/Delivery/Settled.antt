-- ===== src/Delivery/Settled.antt =====
-- Deliveries that are settled, and claims.
use luna_agent.Prelude.{
  ℕ, String, ◌≡◌, sym, subst, ap, ◌∙◌, inl, inr, true, false, some, List, [], ◌∷◌, arith, ◌==◌,
  ==_iff, ==_self, String_eq, Bool-cases, Option-cases,
}
use luna_agent.Prelude.Dict
use luna_agent.Prelude.Dict.{Dict, get-put}
use luna_agent.Delivery
use luna_agent.Delivery.{
  Outbox, OutboxRecord, RowStatus, retry, DeliveryResult, deferred, new, enqueue, claim, is_open,
  is_sending, record_result, will_retry, row_status, update_delivery, recovered, recover_rows,
  recover,
}
use luna_agent.Delivery.History.{
  Step, enqueues, claims, finishes, restarts, step, run, is_live, record_result_rows,
  after_recovery, get-recover_rows,
}

-- Writing another row, or one that may be sent again, leaves a settled row alone.
settled-put :
    (rows : Dict String OutboxRecord) (k id : String) (x row : OutboxRecord)
    → Dict.get rows id ≡ some row
    → ((Dict.get rows k ≡ some row) → ⊥)
    → Dict.get (Dict.put rows k x) id ≡ some row
settled-put rows k id x row e other = elim (Bool-cases (k == id)) [
  | inl same ↦
      absurd (other (subst (λ j. Dict.get rows j ≡ some row) (sym ((==_iff k id).0 same)) e))
  | inr different ↦ ground (arith, get-put rows k x id)
]
  where
    absurd : ⊥ → Dict.get (Dict.put rows k x) id ≡ some row
    absurd f = elim f [ ]

enqueue_settled :
    (o : Outbox) (delivery_id : String) (now : ℕ) (id : String) (row : OutboxRecord)
    → Dict.get o.rows id ≡ some row
    → Dict.get (enqueue o delivery_id now).rows id ≡ some row
unfolding enqueue
enqueue_settled o delivery_id now id row e = elim (Option-cases (Dict.get o.rows delivery_id)) [
  | inl absent ↦
      rw (absent, enqueue) (settled-put o.rows delivery_id id _ row e (λ p. ground arith))
  | inr (x, present) ↦ rw (present, enqueue) e
]

claim_settled :
    (o : Outbox) (delivery_id id : String) (row : OutboxRecord)
    → Dict.get o.rows id ≡ some row
    → is_live row.status ≡ false
    → Dict.get (claim o delivery_id).0.rows id ≡ some row
unfolding claim
claim_settled o delivery_id id row e settled = elim (Option-cases (Dict.get o.rows delivery_id)) [
  | inl absent ↦ rw (absent, claim) e
  | inr (x, present) ↦ elim (Bool-cases (is_open x.status)) [
    | inl free ↦
        rw (present, free, claim) (settled-put o.rows delivery_id id _ row e (λ p. ground arith))
    | inr taken ↦ rw (present, taken, claim) e
  ]
]

finish_settled :
    (o : Outbox) (result : DeliveryResult) (now : ℕ) (id : String) (row : OutboxRecord)
    → Dict.get o.rows id ≡ some row
    → is_live row.status ≡ false
    → Dict.get (step o (finishes result now)).rows id ≡ some row
unfolding step
finish_settled o result now id row e settled =
    elim (Option-cases (Dict.get o.rows result.delivery_id)) [
      | inl absent ↦ rw (absent, step) e
      | inr (x, present) ↦ elim (Bool-cases (is_sending x.status)) [
        | inl sent ↦
            rw (present, sent, record_result_rows o result now x present, step)
              (settled-put o.rows result.delivery_id id _ row e (λ p. ground arith))
        | inr other ↦ rw (present, other, step) e
      ]
    ]

recover_settled :
    (o : Outbox) (id : String) (row : OutboxRecord)
    → Dict.get o.rows id ≡ some row
    → is_live row.status ≡ false
    → Dict.get (recover o).rows id ≡ some row
unfolding recover
recover_settled o id row e settled = get-recover_rows o.rows id ∙ ap after_recovery e ∙ ap some same
  where
    same : recovered row ≡ row
    same = ground arith

pub step_settled_row :
    (o : Outbox) (s : Step) (id : String) (row : OutboxRecord)
    → Dict.get o.rows id ≡ some row
    → is_live row.status ≡ false
    → Dict.get (step o s).rows id ≡ some row
unfolding step
step_settled_row o (enqueues delivery_id now) id row e settled =
    enqueue_settled o delivery_id now id row e
step_settled_row o (claims delivery_id) id row e settled =
    claim_settled o delivery_id id row e settled
step_settled_row o (finishes result now) id row e settled =
    finish_settled o result now id row e settled
step_settled_row o restarts id row e settled = recover_settled o id row e settled

-- A row that is neither open nor being sent is the same after any steps.
pub run_settled_row :
    (o : Outbox) (ss : List Step) (id : String) (row : OutboxRecord)
    → Dict.get o.rows id ≡ some row
    → is_live row.status ≡ false
    → Dict.get (run o ss).rows id ≡ some row
unfolding run
run_settled_row o [] id row e settled = e
run_settled_row o (s ∷ ss) id row e settled =
    run_settled_row (step o s) ss id row (step_settled_row o s id row e settled) settled

-- After a claim succeeded, a second claim of the same delivery fails and changes nothing.
pub claim_once :
    (o o' : Outbox) (delivery_id : String)
    → claim o delivery_id ≡ (o', true)
    → claim o' delivery_id ≡ (o', false)
unfolding claim
claim_once o o' delivery_id e = elim (Option-cases (Dict.get o.rows delivery_id)) [
  | inl absent ↦ ground arith
  | inr (row, present) ↦ elim (Bool-cases (is_open row.status)) [
    | inl free ↦ ground (
      arith,
      get-put o.rows delivery_id (record row { status = Delivery.sending }) delivery_id,
      ==_self delivery_id,
    )
    | inr taken ↦ ground arith
  ]
]
