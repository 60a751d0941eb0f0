-- ===== src/Delivery.antt =====
-- src/luna_agent/delivery/outbox.py and the queries of src/luna_agent/db/database.py that it calls:
-- the table of deliveries. A write lock is held over each query, so each is one step. A row keeps
-- the columns that decide what is sent next. Times are whole seconds, given as arguments.
pub mod History
pub mod Worker
pub mod Tasks
pub mod Attempts
pub mod Settled
pub mod Planner
pub mod Parts
pub mod Send
pub mod Service
mod Examples
use luna_agent.Prelude.{
  ℕ, zero, suc, ◌+◌, ◌-◌, ◌^◌, max, min, String, Bool, true, false, not, ◌&&◌, ◌||◌, Option, none,
  some, List, [], ◌∷◌, String_eq, if◌then◌else◌, keep, take, map, leb, ltb, nat_eq,
}
use Prim.Native.Char.{code}
use luna_agent.Prelude.Dict
use luna_agent.Prelude.Dict.{Dict}
use luna_agent.Prelude.Sort.{sorted}

pub data RowStatus : Type 0 where
  pending sending retry delivered_row suppressed_row ambiguous_row failed_row : RowStatus

pub data DeliveryStatus : Type 0 where
  delivered suppressed failed deferred : DeliveryStatus

pub record OutboxRecord : Type 0 where
  pub delivery_id : String
  pub status : RowStatus
  pub attempts : ℕ
  pub next_attempt_at : ℕ
  pub created_at : ℕ
  pub last_error : String

pub record DeliveryResult : Type 0 where
  pub delivery_id : String
  pub status : DeliveryStatus
  pub error : String
  pub attempts : ℕ
  pub ambiguous : Bool

pub record Outbox : Type 0 where
  pub max_attempts : ℕ
  pub rows : Dict String OutboxRecord

unfoldable pub new : ℕ → Outbox
new max_attempts = record { max_attempts = max 1 max_attempts; rows = [] }

-- INSERT OR IGNORE
unfoldable pub enqueue : Outbox → String → ℕ → Outbox
enqueue o delivery_id now = elim (Dict.get o.rows delivery_id) [
  | some row ↦ o
  | none ↦ record o {
    rows = Dict.put o.rows delivery_id (record {
      delivery_id = delivery_id;
      status = pending;
      attempts = 0;
      next_attempt_at = now;
      created_at = now;
      last_error = "";
    });
  }
]

abbrev pub is_open : RowStatus → Bool
is_open pending = true
is_open retry = true
is_open _ = false

abbrev pub is_sending : RowStatus → Bool
is_sending sending = true
is_sending _ = false

abbrev pub is_due : ℕ → OutboxRecord → Bool
is_due now row = is_open row.status && leb row.next_attempt_at now

abbrev pub le_created : OutboxRecord → OutboxRecord → Bool
le_created a b = leb a.created_at b.created_at

abbrev pub records : Dict String OutboxRecord → List OutboxRecord
records rows = map (λ (id, row). row) rows

unfoldable pub due : Outbox → (now limit : ℕ) → List OutboxRecord
due o now limit = take (max 1 limit) (sorted le_created (keep (is_due now) (records o.rows)))

-- The new table, and whether this caller has the claim.
unfoldable pub claim : Outbox → String → Outbox × Bool
claim o delivery_id = elim (Dict.get o.rows delivery_id) [
  | none ↦ (o, false)
  | some row ↦
      if is_open row.status
      then (record o { rows = Dict.put o.rows delivery_id (record row { status = sending }) }, true)
      else (o, false)
]

-- A letter of `text.lower()` against a small one.
abbrev is_letter : ℕ → ℕ → Bool
is_letter c small = nat_eq c small || (leb 65 c && leb c 90 && nat_eq (c + 32) small)

unfoldable pub lower_starts : String → String → Bool
lower_starts String.[] text = true
lower_starts (String.◌∷◌ c word) String.[] = false
lower_starts (String.◌∷◌ c word) (String.◌∷◌ d text) =
    is_letter (code d) (code c) && lower_starts word text

-- `"timeout" in text.lower()`
unfoldable pub mentions_timeout : String → Bool
mentions_timeout String.[] = false
mentions_timeout (String.◌∷◌ c text) =
    let later = mentions_timeout text in lower_starts "timeout" (String.◌∷◌ c text) || later

abbrev pub is_delivered : DeliveryStatus → Bool
is_delivered delivered = true
is_delivered _ = false

abbrev pub is_suppressed : DeliveryStatus → Bool
is_suppressed suppressed = true
is_suppressed _ = false

abbrev pub attempts_of : Option OutboxRecord → ℕ
attempts_of none = 0
attempts_of (some row) = row.attempts

abbrev pub is_ambiguous : DeliveryResult → Bool
is_ambiguous result = result.ambiguous || mentions_timeout result.error

unfoldable pub will_retry : ℕ → DeliveryResult → ℕ → Bool
will_retry max_attempts result attempts =
    not (is_delivered result.status || is_suppressed result.status)
    && not (is_ambiguous result)
    && ltb attempts max_attempts

unfoldable pub row_status : ℕ → DeliveryResult → ℕ → RowStatus
row_status max_attempts result attempts =
    if is_delivered result.status
    then delivered_row
    else if is_suppressed result.status
    then suppressed_row
    else if is_ambiguous result
    then ambiguous_row
    else if will_retry max_attempts result attempts
    then retry
    else failed_row

-- `update_delivery` changes a row that is there.
unfoldable pub update_delivery :
    Dict String OutboxRecord → String → (OutboxRecord → OutboxRecord) → Dict String OutboxRecord
update_delivery rows delivery_id change = elim (Dict.get rows delivery_id) [
  | none ↦ rows
  | some row ↦ Dict.put rows delivery_id (change row)
]

unfoldable pub record_result : Outbox → DeliveryResult → ℕ → Outbox × DeliveryResult
record_result o result now =
    let attempts = attempts_of (Dict.get o.rows result.delivery_id) + 1 in
    let again = will_retry o.max_attempts result attempts in
    let change : OutboxRecord → OutboxRecord = λ row. record row {
      status = row_status o.max_attempts result attempts;
      attempts = attempts;
      next_attempt_at = if again then now + min 60 (2 ^ (attempts - 1)) else 0;
      last_error = result.error;
    } in
    (
      record o { rows = update_delivery o.rows result.delivery_id change },
      record result {
        status = if again then deferred else result.status;
        attempts = attempts;
        ambiguous = is_ambiguous result;
      },
    )

abbrev pub recovered : OutboxRecord → OutboxRecord
recovered row =
    if is_sending row.status then record row { status = retry; next_attempt_at = 0 } else row

-- What `Database.initialize` does to the rows that a stopped process left.
unfoldable pub recover_rows : Dict String OutboxRecord → Dict String OutboxRecord
recover_rows [] = []
recover_rows ((id, row) ∷ rows) = (id, recovered row) ∷ recover_rows rows

unfoldable pub recover : Outbox → Outbox
recover o = record o { rows = recover_rows o.rows }
