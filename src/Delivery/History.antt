-- ===== src/Delivery/History.antt =====
-- What happens to the table of deliveries, as steps. `finishes` is told of rows that are being sent:
-- which results callers have is up to Delivery/Tasks. `restarts` is a process that stopped anywhere
-- and a new one that initialises the database.
use luna_agent.Prelude.{
  ℕ, ◌+◌, ◌-◌, ◌^◌, min, String, ◌≡◌, refl, inl, inr, Bool, false, ◌||◌, Option, none, some, List,
  [], ◌∷◌, arith, ◌==◌, String_eq, if◌then◌else◌, Bool-cases,
}
use luna_agent.Prelude.Dict
use luna_agent.Prelude.Dict.{Dict, get-put}
use luna_agent.Delivery.{
  Outbox, OutboxRecord, RowStatus, DeliveryResult, enqueue, claim, is_open, is_sending,
  record_result, will_retry, row_status, update_delivery, recovered, recover_rows, recover,
}

pub data Step : Type 0 where
  enqueues : (delivery_id : String) (now : ℕ) → Step
  claims : (delivery_id : String) → Step
  finishes : (result : DeliveryResult) (now : ℕ) → Step
  restarts : Step

abbrev pub claimed : Option OutboxRecord → Bool
claimed none = false
claimed (some row) = is_sending row.status

unfoldable pub step : Outbox → Step → Outbox
step o (enqueues delivery_id now) = enqueue o delivery_id now
step o (claims delivery_id) = (claim o delivery_id).0
step o (finishes result now) =
    if claimed (Dict.get o.rows result.delivery_id) then (record_result o result now).0 else o
step o restarts = recover o

unfoldable pub run : Outbox → List Step → Outbox
run o [] = o
run o (s ∷ ss) = run (step o s) ss

abbrev pub is_live : RowStatus → Bool
is_live status = is_open status || is_sending status

-- The row of a delivery after its result.
abbrev pub finished : ℕ → DeliveryResult → ℕ → OutboxRecord → OutboxRecord
finished max_attempts result now row = record row {
  status = row_status max_attempts result (row.attempts + 1);
  attempts = row.attempts + 1;
  next_attempt_at =
      if will_retry max_attempts result (row.attempts + 1)
      then now + min 60 (2 ^ (row.attempts + 1 - 1))
      else 0;
  last_error = result.error;
}

pub record_result_rows :
    (o : Outbox) (result : DeliveryResult) (now : ℕ) (row : OutboxRecord)
    → Dict.get o.rows result.delivery_id ≡ some row
    → (record_result o result now).0 ≡ record o {
      rows = Dict.put o.rows result.delivery_id (finished o.max_attempts result now row);
    }
unfolding record_result update_delivery
record_result_rows o result now row present = ground (arith, present)

abbrev pub after_recovery : Option OutboxRecord → Option OutboxRecord
after_recovery none = none
after_recovery (some row) = some (recovered row)

pub get-recover_rows :
    (rows : Dict String OutboxRecord) (id : String)
    → Dict.get (recover_rows rows) id ≡ after_recovery (Dict.get rows id)
unfolding Dict.get recover_rows
get-recover_rows [] id = refl
get-recover_rows ((k, row) ∷ rows) id = elim (Bool-cases (k == id)) [
  | inl same ↦ rw same refl
  | inr other ↦ rw other (get-recover_rows rows id)
]
