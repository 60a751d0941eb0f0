-- ===== src/Delivery/Examples.antt =====
-- Small runs of the table of deliveries, and its theorems at them.
use luna_agent.Prelude.{◌+◌, ◌≤◌, ◌<◌, ◌≡◌, refl, true, false, some, List, elem, [], ◌∷◌, String_eq}
use luna_agent.Prelude.Dict
use luna_agent.Delivery.{
  Outbox, OutboxRecord, DeliveryResult, retry, sending, delivered, deferred, delivered_row,
  failed_row, new, enqueue, claim, due, lower_starts, mentions_timeout, will_retry, row_status,
  update_delivery, record_result, recover_rows, recover,
}
use luna_agent.Delivery.History.{Step, enqueues, claims, finishes, restarts, step, run}
use luna_agent.Delivery.Attempts.{Inv, record_result_retries}
use luna_agent.Delivery.Tasks.{act, perform, started, attempts_counted, settled_delivery_stays}
use luna_agent.Delivery.Settled.{claim_once}

-- All that a run of the table calls.
program : Unit {0}
unfolding new enqueue claim due lower_starts mentions_timeout will_retry row_status update_delivery
    record_result recover_rows recover step run act perform Dict.get Dict.put
program = tt

abbrev no_binding : DeliveryResult
no_binding = record {
  delivery_id = "d";
  status = deferred;
  error = "no binding";
  attempts = 0;
  ambiguous = false;
}

abbrev sent : DeliveryResult
sent = record no_binding { status = delivered; error = "" }

abbrev claimed_once : Outbox
claimed_once = run (new 3) (enqueues "d" 10 ∷ claims "d" ∷ [])

abbrev waiting_row : OutboxRecord
waiting_row = record {
  delivery_id = "d";
  status = sending;
  attempts = 0;
  next_attempt_at = 10;
  created_at = 10;
  last_error = "";
}

abbrev retried_row : OutboxRecord
retried_row = record waiting_row {
  status = retry;
  attempts = 1;
  next_attempt_at = 21;
  last_error = "no binding";
}

abbrev sent_row : OutboxRecord
sent_row = record waiting_row { status = delivered_row; attempts = 1; next_attempt_at = 0 }

timeout_found : mentions_timeout "Read TimeOut" ≡ true
unfolding program
timeout_found = refl

-- The last attempt answers that the delivery is deferred, though its row has failed.
last_attempt_deferred :
    let last = run (new 1) (enqueues "d" 10 ∷ claims "d" ∷ []) in
    (record_result last no_binding 20).1.status ≡ deferred
unfolding program
last_attempt_deferred = refl

last_attempt_failed :
    let last = run (new 1) (enqueues "d" 10 ∷ claims "d" ∷ finishes no_binding 20 ∷ []) in
    Dict.get last.rows "d"
    ≡ some (record waiting_row {
      status = failed_row;
      attempts = 1;
      next_attempt_at = 0;
      last_error = "no binding";
    })
unfolding program
last_attempt_failed = refl

attempts_counted_example :
    Inv (perform (started 3) (enqueues "d" 10 ∷ claims "d" ∷ restarts ∷ [])).outbox
attempts_counted_example = attempts_counted 3 (enqueues "d" 10 ∷ claims "d" ∷ restarts ∷ [])

record_result_retries_example :
    (retried_row.attempts ≡ waiting_row.attempts + 1)
    × (retried_row.attempts < 3)
    × (20 ≤ retried_row.next_attempt_at)
    × (retried_row.next_attempt_at ≤ 20 + 60)
    × ((record_result claimed_once no_binding 20).1.status ≡ deferred)
unfolding program
record_result_retries_example =
    record_result_retries claimed_once no_binding 20 waiting_row retried_row refl refl refl

abbrev delivers : List Step
delivers = enqueues "d" 10 ∷ claims "d" ∷ finishes sent 20 ∷ []

abbrev goes_on : List Step
goes_on = claims "d" ∷ enqueues "d" 30 ∷ restarts ∷ finishes no_binding 40 ∷ []

settled_delivery_stays_example :
    let d = perform (perform (started 3) delivers) goes_on in
    (Dict.get d.outbox.rows "d" ≡ some sent_row)
    × (claim d.outbox "d" ≡ (d.outbox, false))
    × (elem "d" d.in_flight ≡ false)
unfolding program
settled_delivery_stays_example = settled_delivery_stays 3 delivers goes_on "d" sent_row refl refl

claim_once_example : claim claimed_once "d" ≡ (claimed_once, false)
unfolding program
claim_once_example = claim_once (run (new 3) (enqueues "d" 10 ∷ [])) claimed_once "d" refl
