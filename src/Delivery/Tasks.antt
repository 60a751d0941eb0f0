-- ===== src/Delivery/Tasks.antt =====
-- The callers of the outbox, DeliveryService.deliver and DeliveryWorker.process_due: each claims a
-- delivery, sends it and records its result. Any number of them run at once, and a restart ends them
-- all. `in_flight` has the deliveries that a caller has claimed and has no result of yet.
use luna_agent.Prelude.{
  String, ◌≡◌, refl, ap, ◌∙◌, ◌⊎◌, inl, inr, true, false, not, some, List, [], ◌∷◌, arith, ◌==◌,
  ==_iff, String_eq, elem, keep, Bool-cases, Option-cases, if◌then◌else◌, ℕ,
}
use luna_agent.Prelude.Dict
use luna_agent.Prelude.Dict.{get-put}
use luna_agent.Delivery.{
  Outbox, OutboxRecord, RowStatus, DeliveryResult, new, enqueue, claim, is_open, record_result,
  recover, update_delivery,
}
use luna_agent.Delivery.History.{
  Step, enqueues, claims, finishes, restarts, claimed, step, is_live, finished, record_result_rows,
}
use luna_agent.Delivery.Settled.{step_settled_row}
use luna_agent.Delivery.Attempts.{Inv, new-Inv, step-Inv}
use luna_agent.Delivery.Worker.{claim_sends}

pub record Deliveries : Type 0 where
  pub outbox : Outbox
  pub in_flight : List String

abbrev pub without : String → List String → List String
without id ids = keep (λ j. not (j == id)) ids

-- Only a caller that has claimed a delivery has a result of it.
unfoldable pub act : Deliveries → Step → Deliveries
act d (enqueues delivery_id now) = record d { outbox = enqueue d.outbox delivery_id now }
act d (claims delivery_id) =
    let taken = claim d.outbox delivery_id in
    record {
      outbox = taken.0;
      in_flight = if taken.1 then delivery_id ∷ d.in_flight else d.in_flight;
    }
act d (finishes result now) =
    if elem result.delivery_id d.in_flight
    then record {
      outbox = (record_result d.outbox result now).0;
      in_flight = without result.delivery_id d.in_flight;
    }
    else d
act d restarts = record { outbox = recover d.outbox; in_flight = [] }

unfoldable pub perform : Deliveries → List Step → Deliveries
perform d [] = d
perform d (s ∷ ss) = perform (act d s) ss

abbrev pub started : ℕ → Deliveries
started max_attempts = record { outbox = new max_attempts; in_flight = [] }

-- The row of a delivery in flight is being sent.
InFlight : Deliveries → Type 0
InFlight d = (id : String) → elem id d.in_flight ≡ true → claimed (Dict.get d.outbox.rows id) ≡ true

elem-without :
    (id j : String) (ids : List String)
    → elem j (without id ids) ≡ true
    → (elem j ids ≡ true) × ((id == j) ≡ false)
elem-without id j [] h = cc
elem-without id j (x ∷ ids) h =
    ground (arith, elem-without id j ids, ==_iff x id, ==_iff x j, ==_iff id j)

enqueue-claimed :
    (o : Outbox) (delivery_id : String) (now : ℕ) (j : String)
    → claimed (Dict.get o.rows j) ≡ true
    → claimed (Dict.get (enqueue o delivery_id now).rows j) ≡ true
unfolding enqueue
enqueue-claimed o delivery_id now j h = elim (Option-cases (Dict.get o.rows delivery_id)) [
  | inl absent ↦
      rw (absent, enqueue)
        (ground (
          arith,
          h,
          absent,
          ==_iff delivery_id j,
          get-put o.rows delivery_id
              (record {
                delivery_id = delivery_id;
                status = RowStatus.pending;
                attempts = 0;
                next_attempt_at = now;
                created_at = now;
                last_error = "";
              })
              j,
        ))
  | inr (row, present) ↦ rw (present, enqueue) h
]

claim-claimed :
    (o : Outbox) (delivery_id j : String)
    → claimed (Dict.get o.rows j) ≡ true
    → claimed (Dict.get (claim o delivery_id).0.rows j) ≡ true
unfolding claim
claim-claimed o delivery_id j h = elim (Option-cases (Dict.get o.rows delivery_id)) [
  | inl absent ↦ rw (absent, claim) h
  | inr (row, present) ↦ elim (Bool-cases (is_open row.status)) [
    | inl free ↦
        rw (present, free, claim)
          (ground (
            arith,
            h,
            ==_iff delivery_id j,
            get-put o.rows delivery_id (record row { status = RowStatus.sending }) j,
          ))
    | inr taken ↦ rw (present, taken, claim) h
  ]
]

record_result-claimed :
    (o : Outbox) (result : DeliveryResult) (now : ℕ) (j : String)
    → (result.delivery_id == j) ≡ false
    → claimed (Dict.get o.rows j) ≡ true
    → claimed (Dict.get (record_result o result now).0.rows j) ≡ true
unfolding record_result update_delivery
record_result-claimed o result now j other h =
    elim (Option-cases (Dict.get o.rows result.delivery_id)) [
      | inl absent ↦ rw (absent, record_result, update_delivery) h
      | inr (row, present) ↦
          ap (λ x. claimed (Dict.get x.rows j)) (record_result_rows o result now row present)
          ∙ ground (
            arith,
            h,
            other,
            get-put o.rows result.delivery_id (finished o.max_attempts result now row) j,
          )
    ]

finish-InFlight :
    (d : Deliveries) (result : DeliveryResult) (now : ℕ)
    → InFlight d
    → InFlight (act d (finishes result now))
unfolding act InFlight
finish-InFlight d result now inv = elim (Bool-cases (elem result.delivery_id d.in_flight)) [
  | inl mine ↦
      rw (mine, act)
        (λ j h.
          let (here, other) = elem-without result.delivery_id j d.in_flight h in
          record_result-claimed d.outbox result now j other (inv j here))
  | inr passed ↦ rw (passed, act) inv
]

act-InFlight : (d : Deliveries) (s : Step) → InFlight d → InFlight (act d s)
unfolding act InFlight
act-InFlight d (enqueues delivery_id now) inv j h =
    enqueue-claimed d.outbox delivery_id now j (inv j h)
act-InFlight d (claims delivery_id) inv j h = elim (Bool-cases ((claim d.outbox delivery_id).1)) [
  | inl mine ↦ elim (Bool-cases (delivery_id == j)) [
    | inl same ↦
        ap (λ x. claimed (Dict.get (claim d.outbox delivery_id).0.rows x))
          ((λ (e : j ≡ delivery_id). e) (ground (arith, same, ==_iff delivery_id j)))
        ∙ claim_sends d.outbox delivery_id mine
    | inr other ↦ claim-claimed d.outbox delivery_id j (inv j (ground (arith, h, mine, other)))
  ]
  | inr passed ↦ claim-claimed d.outbox delivery_id j (inv j (ground (arith, h, passed)))
]
act-InFlight d (finishes result now) inv j h = finish-InFlight d result now inv j h
act-InFlight d restarts inv j h = cc

-- What a caller does to the table is a step of it, or nothing.
act_outbox :
    (d : Deliveries) (s : Step)
    → InFlight d
    → ((act d s).outbox ≡ step d.outbox s) ⊎ ((act d s).outbox ≡ d.outbox)
unfolding act step InFlight
act_outbox d (enqueues delivery_id now) inv = inl refl
act_outbox d (claims delivery_id) inv = inl refl
act_outbox d (finishes result now) inv = elim (Bool-cases (elem result.delivery_id d.in_flight)) [
  | inl mine ↦ rw (mine, inv result.delivery_id mine, act, step) (inl refl)
  | inr passed ↦ rw (passed, act) (inr refl)
]
act_outbox d restarts inv = inl refl

perform-InFlight : (d : Deliveries) (ss : List Step) → InFlight d → InFlight (perform d ss)
unfolding perform
perform-InFlight d [] inv = inv
perform-InFlight d (s ∷ ss) inv = perform-InFlight (act d s) ss (act-InFlight d s inv)

started-InFlight : (max_attempts : ℕ) → InFlight (started max_attempts)
unfolding InFlight
started-InFlight max_attempts j h = cc

perform_settled_row :
    (d : Deliveries) (ss : List Step) (id : String) (row : OutboxRecord)
    → InFlight d
    → Dict.get d.outbox.rows id ≡ some row
    → is_live row.status ≡ false
    → Dict.get (perform d ss).outbox.rows id ≡ some row
unfolding perform
perform_settled_row d [] id row inv e settled = e
perform_settled_row d (s ∷ ss) id row inv e settled =
    perform_settled_row (act d s) ss id row (act-InFlight d s inv)
      (elim (act_outbox d s inv) [
        | inl stepped ↦
            ap (λ o. Dict.get o.rows id) stepped ∙ step_settled_row d.outbox s id row e settled
        | inr same ↦ ap (λ o. Dict.get o.rows id) same ∙ e
      ])
      settled

perform-Inv :
    (d : Deliveries) (ss : List Step) → InFlight d → Inv d.outbox → Inv (perform d ss).outbox
unfolding perform
perform-Inv d [] flying inv = inv
perform-Inv d (s ∷ ss) flying inv =
    perform-Inv (act d s) ss (act-InFlight d s flying) (elim (act_outbox d s flying) [
      | inl stepped ↦ rw stepped (step-Inv d.outbox s inv)
      | inr same ↦ rw same inv
    ])

settled_not_claimed :
    (o : Outbox) (id : String) (row : OutboxRecord)
    → Dict.get o.rows id ≡ some row
    → is_live row.status ≡ false
    → (claim o id ≡ (o, false)) × (claimed (Dict.get o.rows id) ≡ false)
unfolding claim
settled_not_claimed o id row e settled = ground (arith, e, settled)

-- Let a row be neither open nor being sent after any steps of callers and restarts from a new
-- outbox. After any further steps it is the same, a claim of it fails and changes nothing, and no
-- caller has it in flight.
pub settled_delivery_stays :
    (max_attempts : ℕ) (ss ss' : List Step) (id : String) (row : OutboxRecord)
    → Dict.get (perform (started max_attempts) ss).outbox.rows id ≡ some row
    → is_live row.status ≡ false
    → let d = perform (perform (started max_attempts) ss) ss' in
      (Dict.get d.outbox.rows id ≡ some row)
      × (claim d.outbox id ≡ (d.outbox, false))
      × (elem id d.in_flight ≡ false)
unfolding InFlight
settled_delivery_stays max_attempts ss ss' id row e settled =
    let before = perform-InFlight (started max_attempts) ss (started-InFlight max_attempts) in
    let now = perform_settled_row (perform (started max_attempts) ss) ss' id row before e settled in
    let d = perform (perform (started max_attempts) ss) ss' in
    let (refused, idle) = settled_not_claimed d.outbox id row now settled in
    let flying = perform-InFlight (perform (started max_attempts) ss) ss' before in
    (
      now,
      refused,
      elim (Bool-cases (elem id d.in_flight)) [
        | inl mine ↦ absurd (ground (arith, flying id mine, idle))
        | inr none_left ↦ none_left
      ],
    )

-- After any steps of callers and restarts from a new outbox no row has counted more attempts than
-- allowed, and a row that is open or being sent has counted fewer.
pub attempts_counted :
    (max_attempts : ℕ) (ss : List Step) → Inv (perform (started max_attempts) ss).outbox
attempts_counted max_attempts ss =
    perform-Inv (started max_attempts) ss (started-InFlight max_attempts) (new-Inv max_attempts)
