-- ===== src/Delivery/Parts.antt =====
-- The rows of the parts of one delivery: the methods of src/luna_agent/delivery/outbox.py and the
-- queries of src/luna_agent/db/database.py on them. A row stands under the index of its operation.
use luna_agent.Prelude.{
  ℕ, ◌+◌, String, Bool, false, inl, inr, Option, none, some, List, [], ◌∷◌, ◌≡◌, arith, ◌==◌,
  ==_iff, ℕ_eq, if◌then◌else◌, ltb, Option-cases,
}
use luna_agent.Prelude.Dict
use luna_agent.Prelude.Dict.{Dict, get-put, get-map_values}
use luna_agent.Delivery.Planner.{DeliveryOperation}

pub data PartStatus : Type 0 where
  pending sending retry delivered ambiguous failed : PartStatus

pub record OutboxPartRecord : Type 0 where
  pub operation : DeliveryOperation
  pub status : PartStatus
  pub attempts : ℕ
  pub message_id : String
  pub error : String
  pub ambiguous : Bool

pub record DeliveryPartResult : Type 0 where
  pub index : ℕ
  pub operation : DeliveryOperation
  pub success : Bool
  pub message_id : String
  pub error : String
  pub attempts : ℕ
  pub ambiguous : Bool
  pub skipped : Bool

abbrev pub Rows : Type 0
Rows = Dict ℕ OutboxPartRecord

abbrev pub new_part : DeliveryOperation → OutboxPartRecord
new_part op = record {
  operation = op;
  status = pending;
  attempts = 0;
  message_id = "";
  error = "";
  ambiguous = false;
}

-- INSERT OR IGNORE of each operation.
unfoldable pub ensure_parts : Rows → List DeliveryOperation → Rows
ensure_parts rows [] = rows
ensure_parts rows (op ∷ ops) =
    let others = ensure_parts (Dict.put rows op.index (new_part op)) ops in
    let kept = ensure_parts rows ops in
    elim (Dict.get rows op.index) [ some row ↦ kept | none ↦ others ]

-- UPDATE of a row that is there.
unfoldable pub update_part : Rows → ℕ → (OutboxPartRecord → OutboxPartRecord) → Rows
update_part rows index change = elim (Dict.get rows index) [
  | none ↦ rows
  | some row ↦ Dict.put rows index (change row)
]

unfoldable pub start_part : Rows → ℕ → Rows
start_part rows index = update_part rows index (λ row. record row { status = sending })

abbrev pub attempts_of : Option OutboxPartRecord → ℕ
attempts_of none = 0
attempts_of (some row) = row.attempts

unfoldable pub part_status : (max_attempts : ℕ) → DeliveryPartResult → (attempts : ℕ) → PartStatus
part_status max_attempts result attempts =
    if result.success
    then delivered
    else if result.ambiguous
    then PartStatus.ambiguous
    else if ltb attempts max_attempts
    then retry
    else failed

unfoldable pub record_part_result : (max_attempts : ℕ) → Rows → DeliveryPartResult → Rows
record_part_result max_attempts rows result =
    let attempts = attempts_of (Dict.get rows result.index) + (if result.skipped then 0 else 1) in
    update_part rows result.index (λ row. record row {
      status = part_status max_attempts result attempts;
      attempts = attempts;
      message_id = result.message_id;
      error = result.error;
      ambiguous = result.ambiguous;
    })

-- What `Database.initialize` does to the rows that a stopped process left.
abbrev pub recovered : PartStatus → PartStatus
recovered sending = retry
recovered status = status

unfoldable pub recover : Rows → Rows
recover rows = Dict.map_values (λ row. record row { status = recovered row.status }) rows

abbrev pub changed_at :
    Bool → (OutboxPartRecord → OutboxPartRecord) → Option OutboxPartRecord → Option OutboxPartRecord
changed_at here f none = none
changed_at here f (some row) = if here then some (f row) else some row

pub get-update_part :
    (rows : Rows) (index : ℕ) (f : OutboxPartRecord → OutboxPartRecord) (i : ℕ)
    → Dict.get (update_part rows index f) i ≡ changed_at (index == i) f (Dict.get rows i)
unfolding update_part
get-update_part rows index f i = elim (Option-cases (Dict.get rows index)) [
  | inl missing ↦ ground (arith, missing, ==_iff index i)
  | inr (row, found) ↦ ground (arith, found, ==_iff index i, get-put rows index (f row) i)
]

-- The rows that are there stay as they are.
pub ensure_parts-keeps :
    (rows : Rows) (ops : List DeliveryOperation) (i : ℕ) (row : OutboxPartRecord)
    → Dict.get rows i ≡ some row
    → Dict.get (ensure_parts rows ops) i ≡ some row
unfolding ensure_parts
ensure_parts-keeps rows [] i row found = found
ensure_parts-keeps rows (op ∷ ops) i row found = elim (Option-cases (Dict.get rows op.index)) [
  | inl missing ↦
      let still : Dict.get (Dict.put rows op.index (new_part op)) i ≡ some row =
        ground (arith, missing, ==_iff op.index i, get-put rows op.index (new_part op) i) in
      ground
        (arith, missing, ensure_parts-keeps (Dict.put rows op.index (new_part op)) ops i row still)
  | inr (there, e) ↦ ground (arith, e, ensure_parts-keeps rows ops i row found)
]
