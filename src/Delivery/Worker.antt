-- ===== src/Delivery/Worker.antt =====
-- DeliveryWorker.process_due of src/luna_agent/delivery/outbox.py. What `service.deliver_once` ends
-- with for a delivery, and the time at which its result is recorded, are arguments.
use luna_agent.Prelude.{
  ℕ, String, ◌≡◌, refl, ap, ◌∙◌, ◌⊎◌, inl, inr, true, false, List, [], ◌∷◌, arith, ==_self,
  String_eq, Bool-cases, Option-cases,
}
use luna_agent.Prelude.Dict
use luna_agent.Prelude.Dict.{get-put}
use luna_agent.Delivery.{Outbox, OutboxRecord, RowStatus, DeliveryResult, due, claim, record_result}
use luna_agent.Delivery.History.{Step, claims, finishes, claimed, step, run}
use luna_agent.Delivery.Send.{Called, returns, raises}

abbrev prepend : DeliveryResult → Called (List DeliveryResult) → Called (List DeliveryResult)
prepend result (returns results) = returns (result ∷ results)
prepend result (raises exception message) = raises exception message

module _ (once : OutboxRecord → Called (DeliveryResult × ℕ)) where
  -- A delivery that another caller has claimed is passed over; an exception ends the loop.
  unfoldable process_records : Outbox → List OutboxRecord → Outbox × Called (List DeliveryResult)
  process_records o [] = (o, returns [])
  process_records o (row ∷ rows) =
      let taken = claim o row.delivery_id in
      elim taken.1 [
        | false ↦ process_records taken.0 rows
        | true ↦ elim (once row) [
          | raises exception message ↦ (taken.0, raises exception message)
          | returns answer ↦
              let recorded = record_result taken.0 answer.0 answer.1 in
              let rest = process_records recorded.0 rows in (rest.0, prepend recorded.1 rest.1)
        ]
      ]

  unfoldable process_due : Outbox → (now limit : ℕ) → Outbox × Called (List DeliveryResult)
  process_due o now limit = process_records o (due o now limit)

Called-cases :
    (c : Called (DeliveryResult × ℕ))
    → ((exception : String) × (message : String) × (c ≡ raises exception message))
      ⊎ ((answer : DeliveryResult × ℕ) × (c ≡ returns answer))
Called-cases (raises exception message) = inl (exception, message, refl)
Called-cases (returns answer) = inr (answer, refl)

pub claim_sends :
    (o : Outbox) (id : String)
    → (claim o id).1 ≡ true
    → claimed (Dict.get (claim o id).0.rows id) ≡ true
unfolding claim
claim_sends o id h = elim (Option-cases (Dict.get o.rows id)) [
  | inl absent ↦ absurd (ground (arith, absent, h))
  | inr (row, present) ↦ ground (
    arith,
    h,
    present,
    get-put o.rows id (record row { status = RowStatus.sending }) id,
    ==_self id,
  )
]

module _ (once : OutboxRecord → Called (DeliveryResult × ℕ))
    (own : (row : OutboxRecord) (answer : DeliveryResult × ℕ)
      → once row ≡ returns answer
      → answer.0.delivery_id ≡ row.delivery_id) where
  finishes_claimed :
      (o : Outbox) (row : OutboxRecord) (answer : DeliveryResult × ℕ)
      → once row ≡ returns answer
      → (claim o row.delivery_id).1 ≡ true
      → step (claim o row.delivery_id).0 (finishes answer.0 answer.1)
        ≡ (record_result (claim o row.delivery_id).0 answer.0 answer.1).0
  unfolding step
  finishes_claimed o row answer e taken =
      rw (own row answer e, claim_sends o row.delivery_id taken) refl

  -- The worker's loop is a list of claims and of results of claimed deliveries.
  process_records-run :
      (o : Outbox) (rows : List OutboxRecord)
      → (steps : List Step) × (run o steps ≡ (process_records once o rows).0)
  unfolding process_records run step
  process_records-run o [] = ([], refl)
  process_records-run o (row ∷ rows) =
      let taken = claim o row.delivery_id in
      elim (Bool-cases taken.1) [
        | inr passed ↦
            let rest = process_records-run taken.0 rows in
            (claims row.delivery_id ∷ rest.0, rw (passed, process_records) rest.1)
        | inl mine ↦ elim (Called-cases (once row)) [
          | inl (exception, message, e) ↦
              (claims row.delivery_id ∷ [], rw (mine, e, process_records) refl)
          | inr (answer, e) ↦
              let recorded = record_result taken.0 answer.0 answer.1 in
              let rest = process_records-run recorded.0 rows in
              (
                claims row.delivery_id ∷ finishes answer.0 answer.1 ∷ rest.0,
                rw (mine, e, process_records)
                    (ap (λ x. run x rest.0) (finishes_claimed o row answer e mine) ∙ rest.1),
              )
        ]
      ]

  process_due-run :
      (o : Outbox) (now limit : ℕ)
      → (steps : List Step) × (run o steps ≡ (process_due once o now limit).0)
  unfolding process_due
  process_due-run o now limit = process_records-run o (due o now limit)
