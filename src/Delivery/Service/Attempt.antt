-- ===== src/Delivery/Service/Attempt.antt =====
-- What one attempt at a part does to the rows.
use luna_agent.Prelude.{
  ℕ, ◌+◌, ◌≤◌, ◌<◌, String, ◌≡◌, sym, ap, ◌∙◌, subst, ◌⊎◌, inl, inr, Bool, true, false, ◌||◌,
  Option, none, some, List, [], ◌∷◌, arith, ◌==◌, ==_iff, ==_self, String_eq, ℕ_eq, if◌then◌else◌,
  Bool-cases, Option-cases, All,
}
use luna_agent.Prelude.Dict
use luna_agent.Prelude.Dict.{get-put, get-map_values}
use luna_agent.Delivery.Planner.{DeliveryOperation}
use luna_agent.Delivery.Parts.{
  PartStatus, OutboxPartRecord, DeliveryPartResult, Rows, new_part, ensure_parts, start_part,
  attempts_of, part_status, record_part_result, recovered, recover, changed_at, get-update_part,
  ensure_parts-keeps,
}
use luna_agent.Delivery.Send.{Platform, execute_operation}
use luna_agent.Delivery.Service.{is_delivered, is_given_up, send_part}

abbrev pub is_settled : PartStatus → Bool
is_settled status = is_delivered status || is_given_up status

-- A row: the key is the index of its operation, and one that may be sent again was tried less often
-- than allowed.
abbrev pub RowOk : ℕ → ℕ → OutboxPartRecord → Type 0
RowOk max_attempts i row =
    (row.operation.index ≡ i)
    × (row.attempts ≤ max_attempts)
    × ((is_settled row.status ≡ true) ⊎ (row.attempts < max_attempts))

abbrev pub RowsOk : ℕ → Rows → Type 0
RowsOk max_attempts rows =
    (i : ℕ) (row : OutboxPartRecord) → Dict.get rows i ≡ some row → RowOk max_attempts i row

pub RowOk-of :
    (max_attempts i : ℕ) (a b : OutboxPartRecord)
    → some a ≡ some b
    → RowOk max_attempts i a
    → RowOk max_attempts i b
RowOk-of max_attempts i a b e ok = ground (arith, ok)

-- The row after an attempt.
abbrev pub tried : ℕ → DeliveryPartResult → OutboxPartRecord → OutboxPartRecord
tried max_attempts part row = record row {
  status = part_status max_attempts part (row.attempts + 1);
  attempts = row.attempts + 1;
  message_id = part.message_id;
  error = part.error;
  ambiguous = part.ambiguous;
}

pub execute_operation-index :
    (p : Platform) (session_key : String) (op : DeliveryOperation) (attempts : ℕ)
    → ((execute_operation p session_key op attempts).index ≡ op.index)
      × ((execute_operation p session_key op attempts).skipped ≡ false)
unfolding execute_operation
execute_operation-index p session_key op attempts = ground arith

get-record_part_result :
    (max_attempts : ℕ) (rows : Rows) (part : DeliveryPartResult) (i : ℕ)
    → part.skipped ≡ false
    → Dict.get (record_part_result max_attempts (start_part rows part.index) part) i
      ≡ changed_at (part.index == i) (tried max_attempts part) (Dict.get rows i)
unfolding record_part_result start_part
get-record_part_result max_attempts rows part i sent =
    let started = start_part rows part.index in
    let here =
      get-update_part rows part.index (λ row. record row { status = PartStatus.sending }) in
    let attempts = attempts_of (Dict.get started part.index) + 1 in
    let last =
      get-update_part started part.index
        (λ row. record row {
          status = part_status max_attempts part attempts;
          attempts = attempts;
          message_id = part.message_id;
          error = part.error;
          ambiguous = part.ambiguous;
        })
        i in
    ground (
      arith,
      sent,
      here part.index,
      here i,
      last,
      ==_iff part.index i,
      ==_self part.index,
      Option-cases (Dict.get rows part.index),
    )

pub get-send_part :
    (p : Platform) (session_key : String) (max_attempts : ℕ) (rows : Rows) (op : DeliveryOperation)
    (attempts i : ℕ)
    → Dict.get (send_part p session_key max_attempts rows op attempts).0 i
      ≡ changed_at
          (op.index == i)
          (tried max_attempts (execute_operation p session_key op attempts))
          (Dict.get rows i)
unfolding send_part
get-send_part p session_key max_attempts rows op attempts i =
    let part = execute_operation p session_key op attempts in
    let same = execute_operation-index p session_key op attempts in
    subst
      (λ k.
        Dict.get (record_part_result max_attempts (start_part rows k) part) i
        ≡ changed_at (k == i) (tried max_attempts part) (Dict.get rows i))
      same.0 (get-record_part_result max_attempts rows part i same.1)

-- An attempt at a row that may be sent.
pub tried_ok :
    (max_attempts i : ℕ) (part : DeliveryPartResult) (row : OutboxPartRecord)
    → RowOk max_attempts i row
    → is_settled row.status ≡ false
    → RowOk max_attempts i (tried max_attempts part row)
unfolding part_status
tried_ok max_attempts i part row ok unsettled = ground (arith, ok)

pub send_part_ok :
    (p : Platform) (session_key : String) (max_attempts : ℕ) (rows : Rows) (op : DeliveryOperation)
    (attempts : ℕ) (found : OutboxPartRecord)
    → Dict.get rows op.index ≡ some found
    → is_settled found.status ≡ false
    → RowsOk max_attempts rows
    → RowsOk max_attempts (send_part p session_key max_attempts rows op attempts).0
send_part_ok p session_key max_attempts rows op attempts found there unsettled ok i row e =
    let part = execute_operation p session_key op attempts in
    let now : changed_at (op.index == i) (tried max_attempts part) (Dict.get rows i) ≡ some row =
      sym (get-send_part p session_key max_attempts rows op attempts i) ∙ e in
    elim (Bool-cases (op.index == i)) [
      | inl same ↦
          let here : Dict.get rows i ≡ some found =
            subst (λ k. Dict.get rows k ≡ some found) ((==_iff op.index i).0 same) there in
          RowOk-of max_attempts i (tried max_attempts part found) row
            (ground (arith, now, same, here))
            (tried_ok max_attempts i part found (ok i found here) unsettled)
      | inr other ↦ ok i row (ground (arith, now, other, Option-cases (Dict.get rows i)))
    ]

new_part_ok :
    (max_attempts : ℕ) (rows : Rows) (op : DeliveryOperation)
    → 0 < max_attempts
    → RowsOk max_attempts rows
    → RowsOk max_attempts (Dict.put rows op.index (new_part op))
new_part_ok max_attempts rows op some_attempt ok i row e =
    let now : (if op.index == i then some (new_part op) else Dict.get rows i) ≡ some row =
      sym (get-put rows op.index (new_part op) i) ∙ e in
    elim (Bool-cases (op.index == i)) [
      | inl same ↦
          RowOk-of max_attempts i (new_part op) row (ground (arith, now, same))
            ((==_iff op.index i).0 same, omega arith, inr some_attempt)
      | inr other ↦ ok i row (ground (arith, now, other))
    ]

ensure_missing :
    (rows : Rows) (op : DeliveryOperation) (ops : List DeliveryOperation)
    → Dict.get rows op.index ≡ none
    → ensure_parts rows (op ∷ ops) ≡ ensure_parts (Dict.put rows op.index (new_part op)) ops
unfolding ensure_parts
ensure_missing rows op ops missing = ground (arith, missing)

ensure_found :
    (rows : Rows) (op : DeliveryOperation) (ops : List DeliveryOperation) (row : OutboxPartRecord)
    → Dict.get rows op.index ≡ some row
    → ensure_parts rows (op ∷ ops) ≡ ensure_parts rows ops
unfolding ensure_parts
ensure_found rows op ops row found = ground (arith, found)

pub ensure_parts_ok :
    (max_attempts : ℕ) (rows : Rows) (ops : List DeliveryOperation)
    → 0 < max_attempts
    → RowsOk max_attempts rows
    → RowsOk max_attempts (ensure_parts rows ops)
unfolding ensure_parts
ensure_parts_ok max_attempts rows [] some_attempt ok = ok
ensure_parts_ok max_attempts rows (op ∷ ops) some_attempt ok =
    elim (Option-cases (Dict.get rows op.index)) [
      | inl missing ↦
          subst (λ r. RowsOk max_attempts r) (sym (ensure_missing rows op ops missing))
            (ensure_parts_ok max_attempts (Dict.put rows op.index (new_part op)) ops some_attempt
              (new_part_ok max_attempts rows op some_attempt ok))
      | inr (row, found) ↦
          subst (λ r. RowsOk max_attempts r) (sym (ensure_found rows op ops row found))
            (ensure_parts_ok max_attempts rows ops some_attempt ok)
    ]

recovered_ok :
    (max_attempts i : ℕ) (row : OutboxPartRecord)
    → RowOk max_attempts i row
    → RowOk max_attempts i (record row { status = recovered row.status })
recovered_ok max_attempts i row ok = ground (arith, ok)

pub recover_ok :
    (max_attempts : ℕ) (rows : Rows) → RowsOk max_attempts rows → RowsOk max_attempts (recover rows)
unfolding recover
recover_ok max_attempts rows ok i row e =
    let now =
      sym (get-map_values (λ row. record row { status = recovered row.status }) rows i) ∙ e in
    elim (Option-cases (Dict.get rows i)) [
      | inl missing ↦ ground (arith, now, missing)
      | inr (before, found) ↦
          RowOk-of max_attempts i (record before { status = recovered before.status }) row
            (ground (arith, now, found)) (recovered_ok max_attempts i before (ok i before found))
    ]

abbrev pub is_there : Option OutboxPartRecord → Bool
is_there none = false
is_there (some row) = true

pub ensure_parts_there :
    (rows : Rows) (ops : List DeliveryOperation)
    → All (λ op. is_there (Dict.get (ensure_parts rows ops) op.index) ≡ true) ops
unfolding ensure_parts
ensure_parts_there rows [] = tt
ensure_parts_there rows (op ∷ ops) = elim (Option-cases (Dict.get rows op.index)) [
  | inl missing ↦
      let more = Dict.put rows op.index (new_part op) in
      subst (λ r. All (λ op. is_there (Dict.get r op.index) ≡ true) (op ∷ ops))
        (sym (ensure_missing rows op ops missing))
        (
          ap is_there (
              ensure_parts-keeps more ops op.index (new_part op) (
                get-put rows op.index (new_part op) op.index ∙ (ground (arith, ==_self op.index)))),
          ensure_parts_there more ops,
        )
  | inr (row, found) ↦
      subst (λ r. All (λ op. is_there (Dict.get r op.index) ≡ true) (op ∷ ops))
        (sym (ensure_found rows op ops row found))
        (ap is_there (ensure_parts-keeps rows ops op.index row found), ensure_parts_there rows ops)
]
