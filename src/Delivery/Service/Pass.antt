-- ===== src/Delivery/Service/Pass.antt =====
-- One pass over the operations of a plan.
use luna_agent.Prelude.{
  ℕ, suc, ◌+◌, ◌≤◌, ◌<◌, String, ◌≡◌, refl, sym, ◌∙◌, subst, inl, inr, Bool, true, false, not, ◌&&◌,
  ◌||◌, some, List, [], ◌∷◌, arith, ◌==◌, String_eq, ℕ_eq, if◌then◌else◌, Bool-cases, Option-cases,
  if_elim, All,
}
use luna_agent.Prelude.Dict
use luna_agent.Delivery.Planner.{DeliveryOperation}
use luna_agent.Delivery.Planner.Numbered.{Numbered}
use luna_agent.Delivery.Parts.{OutboxPartRecord, DeliveryPartResult, Rows}
use luna_agent.Delivery.Send.{Platform}
use luna_agent.Delivery.Service.{is_delivered, is_given_up, skipped_part, send_part, deliver_parts}
use luna_agent.Delivery.Service.Attempt.{
  is_settled, RowOk, RowsOk, execute_operation-index, get-send_part, send_part_ok, is_there,
}

-- Some result tells of an attempt at the part.
abbrev pub sends : ℕ → List DeliveryPartResult → Bool
sends i [] = false
sends i (part ∷ parts) = (not part.skipped && (part.index == i)) || sends i parts

-- The rows from an index on are as they were read.
abbrev pub Unchanged : ℕ → Rows → Rows → Type 0
Unchanged n records rows = (i : ℕ) → n ≤ i → Dict.get rows i ≡ Dict.get records i

-- What a pass keeps of the rows.
pub record Passed (max_attempts n : ℕ) (records rows : Rows)
    (result : Rows × List DeliveryPartResult) : Type 0 where
  pub ok : RowsOk max_attempts result.0
  pub before :
      (i : ℕ) → i < n → (Dict.get result.0 i ≡ Dict.get rows i) × (sends i result.1 ≡ false)
  pub settled :
      (i : ℕ) (row : OutboxPartRecord)
      → n ≤ i
      → Dict.get records i ≡ some row
      → is_settled row.status ≡ true
      → (Dict.get result.0 i ≡ some row) × (sends i result.1 ≡ false)

module _ (p : Platform) (session_key : String) (max_attempts : ℕ) where
  abbrev pub sent_of : Rows → OutboxPartRecord → Rows × DeliveryPartResult
  sent_of rows found =
      send_part p session_key max_attempts rows found.operation (found.attempts + 1)

  sent_of-index :
      (n : ℕ) (rows : Rows) (found : OutboxPartRecord)
      → RowOk max_attempts n found
      → ((sent_of rows found).1.index ≡ n) × ((sent_of rows found).1.skipped ≡ false)
  unfolding send_part
  sent_of-index n rows found ok =
      let here = execute_operation-index p session_key found.operation (found.attempts + 1) in
      (here.0 ∙ ok.0, here.1)

  sent_of_elsewhere :
      (n : ℕ) (rows : Rows) (found : OutboxPartRecord) (i : ℕ)
      → RowOk max_attempts n found
      → (n == i) ≡ false
      → Dict.get (sent_of rows found).0 i ≡ Dict.get rows i
  sent_of_elsewhere n rows found i ok other = ground (
    arith,
    get-send_part p session_key max_attempts rows found.operation (found.attempts + 1) i,
    ok.0,
    Option-cases (Dict.get rows i),
  )

  -- The rows behind an attempt are as they were read.
  pub sent_of-Unchanged :
      (n : ℕ) (records rows : Rows) (found : OutboxPartRecord)
      → RowOk max_attempts n found
      → Unchanged n records rows
      → Unchanged (suc n) records (sent_of rows found).0
  sent_of-Unchanged n records rows found ok same i l =
      sent_of_elsewhere n rows found i ok (ground arith) ∙ same i (omega arith)

  Passed-sent :
      (n : ℕ) (records rows : Rows) (found : OutboxPartRecord)
      (rest : Rows × List DeliveryPartResult)
      → RowOk max_attempts n found
      → Dict.get records n ≡ some found
      → is_settled found.status ≡ false
      → Passed max_attempts (suc n) records (sent_of rows found).0 rest
      → Passed max_attempts n records rows (rest.0, (sent_of rows found).1 ∷ rest.1)
  Passed-sent n records rows found rest ok e unsettled passed =
      let here = sent_of-index n rows found ok in
      record {
        ok = passed.ok;
        before = λ i l. (
          (passed.before i (omega arith)).0 ∙ sent_of_elsewhere n rows found i ok (ground arith),
          ground (arith, here, passed.before i (omega arith)),
        );
        settled = λ i row l there done.
            let later : suc n ≤ i = ground (arith, e, there) in
            let rest_of = passed.settled i row later there done in
            (rest_of.0, ground (arith, here, rest_of));
      }

  Passed-failed :
      (n : ℕ) (records rows : Rows) (found : OutboxPartRecord)
      → RowOk max_attempts n found
      → Dict.get records n ≡ some found
      → is_settled found.status ≡ false
      → RowsOk max_attempts rows
      → Unchanged n records rows
      → Passed max_attempts n records rows ((sent_of rows found).0, (sent_of rows found).1 ∷ [])
  Passed-failed n records rows found ok e unsettled ok_rows same =
      Passed-sent n records rows found ((sent_of rows found).0, []) ok e unsettled
        (record {
          ok =
              send_part_ok p session_key max_attempts rows found.operation (found.attempts + 1)
                found
                (subst (λ k. Dict.get rows k ≡ some found) (sym ok.0) (same n (omega arith) ∙ e))
                unsettled ok_rows;
          before = λ i l. (refl, refl);
          settled = λ i row l there done.
              (sent_of-Unchanged n records rows found ok same i l ∙ there, refl);
        })

  Passed-skip :
      (n : ℕ) (op : DeliveryOperation) (records rows : Rows) (found : OutboxPartRecord)
      (success : Bool) (rest : Rows × List DeliveryPartResult)
      → Unchanged n records rows
      → Passed max_attempts (suc n) records rows rest
      → Passed max_attempts n records rows (rest.0, skipped_part op found success ∷ rest.1)
  Passed-skip n op records rows found success rest same passed = record {
    ok = passed.ok;
    before = λ i l. passed.before i (omega arith);
    settled = λ i row l there done. elim (Bool-cases (n == i)) [
      | inl now ↦
          let first = passed.before i (ground arith) in (first.0 ∙ same i l ∙ there, first.1)
      | inr later ↦ passed.settled i row (ground arith) there done
    ];
  }

  Passed-none :
      (n : ℕ) (records rows : Rows)
      → RowsOk max_attempts rows
      → Unchanged n records rows
      → Passed max_attempts n records rows (rows, [])
  Passed-none n records rows ok same = record {
    ok = ok;
    before = λ i l. (refl, refl);
    settled = λ i row l found done. (same i l ∙ found, refl);
  }

  pub Unchanged-suc :
      (n : ℕ) (records rows : Rows) → Unchanged n records rows → Unchanged (suc n) records rows
  Unchanged-suc n records rows same i l = same i (omega arith)

  -- The turn of the loop at a part that has a row.
  abbrev pub turn :
      DeliveryOperation
      → OutboxPartRecord
      → (rows : Rows) → (passed rest : Rows × List DeliveryPartResult)
      → Rows × List DeliveryPartResult
  turn op found rows passed rest =
      if is_delivered found.status
      then (passed.0, skipped_part op found true ∷ passed.1)
      else if is_given_up found.status
      then (rows, skipped_part op found false ∷ [])
      else if (sent_of rows found).1.success
      then (rest.0, (sent_of rows found).1 ∷ rest.1)
      else ((sent_of rows found).0, (sent_of rows found).1 ∷ [])

  pub deliver_parts-turn :
      (records rows : Rows) (op : DeliveryOperation) (ops : List DeliveryOperation)
      (found : OutboxPartRecord)
      → Dict.get records op.index ≡ some found
      → deliver_parts p session_key max_attempts records rows (op ∷ ops)
        ≡ turn op found rows
            (deliver_parts p session_key max_attempts records rows ops)
            (deliver_parts p session_key max_attempts records (sent_of rows found).0 ops)
  unfolding deliver_parts
  deliver_parts-turn records rows op ops found e = ground (arith, e)

  pub pass :
      (n : ℕ) (records rows : Rows) (ops : List DeliveryOperation)
      → Numbered n ops
      → All (λ op. is_there (Dict.get records op.index) ≡ true) ops
      → RowsOk max_attempts records
      → RowsOk max_attempts rows
      → Unchanged n records rows
      → Passed max_attempts n records rows
          (deliver_parts p session_key max_attempts records rows ops)
  unfolding deliver_parts
  pass n records rows [] h there ok_records ok same = Passed-none n records rows ok same
  pass n records rows (op ∷ ops) h there ok_records ok same =
      elim (Option-cases (Dict.get records op.index)) [
        | inl missing ↦ absurd (ground (arith, missing, there.0))
        | inr (found, e) ↦
            let found_ok =
              subst (λ k. RowOk max_attempts k found) h.0 (ok_records op.index found e) in
            let e' = subst (λ k. Dict.get records k ≡ some found) h.0 e in
            let rest_same = sent_of-Unchanged n records rows found found_ok same in
            subst (Passed max_attempts n records rows)
              (sym (deliver_parts-turn records rows op ops found e))
              (if_elim (Passed max_attempts n records rows) (is_delivered found.status) _ _
                (λ done. Passed-skip n op records rows found true _ same (
                  pass (suc n) records rows ops h.1 there.1 ok_records ok
                    (Unchanged-suc n records rows same)))
                (λ not_done.
                  if_elim (Passed max_attempts n records rows) (is_given_up found.status) _ _
                    (λ given_up.
                      Passed-skip n op records rows found false (rows, []) same
                        (Passed-none (suc n) records rows ok (Unchanged-suc n records rows same)))
                    (λ unsettled.
                      if_elim (Passed max_attempts n records rows) (sent_of rows found).1.success _
                        _
                        (λ success. Passed-sent n records rows found _ found_ok e' (ground arith) (
                          pass (suc n) records (sent_of rows found).0 ops h.1 there.1 ok_records
                            (send_part_ok p session_key max_attempts rows found.operation
                              (found.attempts + 1) found
                              (subst (λ k. Dict.get rows k ≡ some found) (sym found_ok.0)
                                (same n (omega arith) ∙ e'))
                              (ground arith) ok)
                            rest_same))
                        (λ failure.
                          Passed-failed n records rows found found_ok e' (ground arith) ok same))))
      ]
