-- ===== src/Delivery/Attempts.antt =====
-- How often a delivery is tried.
use luna_agent.Prelude.{
  ℕ, ◌+◌, ◌≤◌, ◌<◌, String, ◌≡◌, refl, sym, ap, ◌∙◌, inl, inr, true, not, ◌||◌, Option, none, some,
  List, [], ◌∷◌, arith, ==_self, String_eq, Bool-cases, Option-cases, ltb,
}
use luna_agent.Prelude.Dict
use luna_agent.Prelude.Dict.{Dict, get-put}
use luna_agent.Delivery
use luna_agent.Delivery.{
  Outbox, OutboxRecord, RowStatus, retry, DeliveryResult, deferred, new, enqueue, claim, is_open,
  is_sending, record_result, will_retry, row_status, update_delivery, recovered, recover_rows,
  recover,
}
use luna_agent.Delivery.History.{
  Step, enqueues, claims, finishes, restarts, step, run, is_live, finished, record_result_rows,
  after_recovery, get-recover_rows,
}

-- No row has more attempts than allowed, and one that may be sent again has fewer.
pub record Inv (o : Outbox) : Type 0 where
  pub room : 1 ≤ o.max_attempts
  pub bounded :
      (id : String) (row : OutboxRecord)
      → Dict.get o.rows id ≡ some row
      → (row.attempts ≤ o.max_attempts)
        × ((not (is_live row.status) || ltb row.attempts o.max_attempts) ≡ true)

pub new-Inv : (max_attempts : ℕ) → Inv (new max_attempts)
unfolding new Dict.get
new-Inv max_attempts = record { room = omega arith; bounded = λ id row e. cc }

enqueue-Inv :
    (o : Outbox) (delivery_id : String) (now : ℕ) → Inv o → Inv (enqueue o delivery_id now)
unfolding enqueue
enqueue-Inv o delivery_id now inv = elim (Option-cases (Dict.get o.rows delivery_id)) [
  | inl absent ↦
      rw (absent, enqueue)
        (record {
          room = inv.room;
          bounded = λ id row e. ground (
            arith,
            inv.room,
            inv.bounded id row,
            get-put o.rows delivery_id
                (record {
                  delivery_id = delivery_id;
                  status = Delivery.pending;
                  attempts = 0;
                  next_attempt_at = now;
                  created_at = now;
                  last_error = "";
                })
                id,
          );
        })
  | inr (row, present) ↦ rw (present, enqueue) inv
]

claim-Inv : (o : Outbox) (delivery_id : String) → Inv o → Inv (claim o delivery_id).0
unfolding claim
claim-Inv o delivery_id inv = elim (Option-cases (Dict.get o.rows delivery_id)) [
  | inl absent ↦ rw (absent, claim) inv
  | inr (row, present) ↦ elim (Bool-cases (is_open row.status)) [
    | inl free ↦
        rw (present, free, claim)
          (record {
            room = inv.room;
            bounded = λ id x e. ground (
              arith,
              inv.bounded id x,
              inv.bounded delivery_id row present,
              get-put o.rows delivery_id (record row { status = Delivery.sending }) id,
            );
          })
    | inr taken ↦ rw (present, taken, claim) inv
  ]
]

-- A result leaves a row that may be sent again only where it is retried.
row_status_live :
    (max_attempts : ℕ) (result : DeliveryResult) (attempts : ℕ)
    → is_live (row_status max_attempts result attempts) ≡ will_retry max_attempts result attempts
unfolding row_status will_retry
row_status_live max_attempts result attempts = ground arith

will_retry_below :
    (max_attempts : ℕ) (result : DeliveryResult) (attempts : ℕ)
    → will_retry max_attempts result attempts ≡ true
    → attempts < max_attempts
unfolding will_retry
will_retry_below max_attempts result attempts e = ground arith

finish-Inv :
    (o : Outbox) (result : DeliveryResult) (now : ℕ) → Inv o → Inv (step o (finishes result now))
unfolding step
finish-Inv o result now inv = elim (Option-cases (Dict.get o.rows result.delivery_id)) [
  | inl absent ↦ rw (absent, step) inv
  | inr (row, present) ↦ elim (Bool-cases (is_sending row.status)) [
    | inl sent ↦
        rw (present, sent, record_result_rows o result now row present, step)
          (record {
            room = inv.room;
            bounded = λ id x e. ground (
              arith,
              inv.bounded id x,
              inv.bounded result.delivery_id row present,
              get-put o.rows result.delivery_id (finished o.max_attempts result now row) id,
              row_status_live o.max_attempts result (row.attempts + 1),
              will_retry_below o.max_attempts result (row.attempts + 1),
            );
          })
    | inr other ↦ rw (present, other, step) inv
  ]
]

recover-Inv : (o : Outbox) → Inv o → Inv (recover o)
unfolding recover
recover-Inv o inv = record {
  room = inv.room;
  bounded = λ id row e.
      of_row id row (Dict.get o.rows id) (λ x h. inv.bounded id x h)
        (sym (get-recover_rows o.rows id) ∙ e);
}
  where
    of_row :
        (id : String) (row : OutboxRecord) (found : Option OutboxRecord)
        → ((x : OutboxRecord)
            → found ≡ some x
            → (x.attempts ≤ o.max_attempts)
              × ((not (is_live x.status) || ltb x.attempts o.max_attempts) ≡ true))
        → after_recovery found ≡ some row
        → (row.attempts ≤ o.max_attempts)
          × ((not (is_live row.status) || ltb row.attempts o.max_attempts) ≡ true)
    of_row id row none h e = cc
    of_row id row (some x) h e = ground (arith, h x refl)

pub step-Inv : (o : Outbox) (s : Step) → Inv o → Inv (step o s)
unfolding step
step-Inv o (enqueues delivery_id now) inv = enqueue-Inv o delivery_id now inv
step-Inv o (claims delivery_id) inv = claim-Inv o delivery_id inv
step-Inv o (finishes result now) inv = finish-Inv o result now inv
step-Inv o restarts inv = recover-Inv o inv

run-Inv : (o : Outbox) (ss : List Step) → Inv o → Inv (run o ss)
unfolding run
run-Inv o [] inv = inv
run-Inv o (s ∷ ss) inv = run-Inv (step o s) ss (step-Inv o s inv)

-- After any steps of a new outbox no row has more attempts than allowed, and a row that is open or
-- being sent has fewer.
pub attempts_bounded : (max_attempts : ℕ) (ss : List Step) → Inv (run (new max_attempts) ss)
attempts_bounded max_attempts ss = run-Inv (new max_attempts) ss (new-Inv max_attempts)

-- If a row is open or being sent after a result was recorded for it, it has one attempt more, fewer
-- than allowed, its next attempt is due at most 60 seconds from now, and the returned status is
-- deferred.
pub record_result_retries :
    (o : Outbox) (result : DeliveryResult) (now : ℕ) (row row' : OutboxRecord)
    → Dict.get o.rows result.delivery_id ≡ some row
    → Dict.get (record_result o result now).0.rows result.delivery_id ≡ some row'
    → is_live row'.status ≡ true
    → (row'.attempts ≡ row.attempts + 1)
      × (row'.attempts < o.max_attempts)
      × (now ≤ row'.next_attempt_at)
      × (row'.next_attempt_at ≤ now + 60)
      × ((record_result o result now).1.status ≡ deferred)
unfolding record_result
record_result_retries o result now row row' present after live =
    let stored : Dict.get (Dict.put o.rows result.delivery_id next) result.delivery_id ≡ some row' =
      sym
        (ap (λ x. Dict.get x.rows result.delivery_id) (record_result_rows o result now row present))
      ∙ after in
    let got : row' ≡ next = ground (
      arith,
      stored,
      get-put o.rows result.delivery_id next result.delivery_id,
      ==_self result.delivery_id,
    ) in
    let again : will_retry o.max_attempts result (row.attempts + 1) ≡ true =
      ground (arith, got, row_status_live o.max_attempts result (row.attempts + 1)) in
    ground
      (arith, got, again, present, will_retry_below o.max_attempts result (row.attempts + 1) again)
  where
    next : OutboxRecord
    next = finished o.max_attempts result now row
