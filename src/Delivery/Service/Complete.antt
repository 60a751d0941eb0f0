-- ===== src/Delivery/Service/Complete.antt =====
-- A pass that succeeds has delivered every part.
use luna_agent.Prelude.{
  ℕ, suc, ◌+◌, ◌≡◌, sym, ap, ◌∙◌, subst, inl, inr, Bool, true, false, Option, none, some, List, [],
  ◌∷◌, arith, ==_self, String, String_eq, ℕ_eq, length, Option-cases, if_elim, All,
}
use luna_agent.Prelude.Dict
use luna_agent.Delivery.Planner.{DeliveryOperation}
use luna_agent.Delivery.Planner.Numbered.{Numbered}
use luna_agent.Delivery.Parts.{OutboxPartRecord, DeliveryPartResult, Rows, part_status}
use luna_agent.Delivery.Send.{Platform}
use luna_agent.Delivery.Service.{is_delivered, is_given_up, all_succeed, send_part, deliver_parts}
use luna_agent.Delivery.Service.Attempt.{is_there, RowOk, RowsOk, get-send_part, send_part_ok}
use luna_agent.Delivery.Service.Pass.{
  Unchanged, Unchanged-suc, pass, sent_of, sent_of-Unchanged, deliver_parts-turn,
}

abbrev pub delivered_of : Option OutboxPartRecord → Bool
delivered_of none = false
delivered_of (some row) = is_delivered row.status

abbrev pub delivered_at : Rows → ℕ → Bool
delivered_at rows i = delivered_of (Dict.get rows i)

-- Every operation has a result, and all succeeded.
abbrev Succeeds : List DeliveryOperation → List DeliveryPartResult → Type 0
Succeeds ops parts = (length parts ≡ length ops) × (all_succeed parts ≡ true)

abbrev AllDelivered : Rows → List DeliveryOperation → Type 0
AllDelivered rows ops = All (λ op. delivered_at rows op.index ≡ true) ops

abbrev Completes : List DeliveryOperation → Rows × List DeliveryPartResult → Type 0
Completes ops r = Succeeds ops r.1 → AllDelivered r.0 ops

-- Rows where the part of an index was delivered, and the later ones.
complete_cons :
    (n : ℕ) (op : DeliveryOperation) (ops : List DeliveryOperation) (rows : Rows)
    → op.index ≡ n
    → delivered_at rows n ≡ true
    → AllDelivered rows ops
    → AllDelivered rows (op ∷ ops)
complete_cons n op ops rows e here rest =
    (subst (λ k. delivered_at rows k ≡ true) (sym e) here, rest)

module _ (p : Platform) (session_key : String) (max_attempts : ℕ) where
  sent_delivered :
      (rows : Rows) (found : OutboxPartRecord) (n : ℕ)
      → RowOk max_attempts n found
      → Dict.get rows n ≡ some found
      → (sent_of p session_key max_attempts rows found).1.success ≡ true
      → delivered_at (sent_of p session_key max_attempts rows found).0 n ≡ true
  unfolding send_part part_status
  sent_delivered rows found n ok e success = ground (
    arith,
    get-send_part p session_key max_attempts rows found.operation (found.attempts + 1) n,
    ok.0,
    e,
    ==_self n,
  )

  pub complete :
      (n : ℕ) (records rows : Rows) (ops : List DeliveryOperation)
      → Numbered n ops
      → All (λ op. is_there (Dict.get records op.index) ≡ true) ops
      → RowsOk max_attempts records
      → RowsOk max_attempts rows
      → Unchanged n records rows
      → let result = deliver_parts p session_key max_attempts records rows ops in
        Succeeds ops result.1 → AllDelivered result.0 ops
  unfolding deliver_parts
  complete n records rows [] h there ok_records ok same success = tt
  complete n records rows (op ∷ ops) h there ok_records ok same success =
      elim (Option-cases (Dict.get records op.index)) [
        | inl missing ↦ absurd (ground (arith, missing, there.0))
        | inr (found, e) ↦
            let found_ok =
              subst (λ k. RowOk max_attempts k found) h.0 (ok_records op.index found e) in
            let in_rows : Dict.get rows n ≡ some found =
              same n (omega arith) ∙ subst (λ k. Dict.get records k ≡ some found) h.0 e in
            let sent = sent_of p session_key max_attempts rows found in
            let opened =
              deliver_parts-turn p session_key max_attempts records rows op ops found e in
            let later = Unchanged-suc p session_key max_attempts n records rows same in
            let sent_later =
              sent_of-Unchanged p session_key max_attempts n records rows found found_ok same in
            let rest = pass p session_key max_attempts (suc n) records in
            subst (Completes (op ∷ ops)) (sym opened)
              (if_elim (Completes (op ∷ ops)) (is_delivered found.status) _ _
                (λ done success.
                  complete_cons n op ops _ h.0
                    (ap delivered_of
                        ((rest rows ops h.1 there.1 ok_records ok later).before n (omega arith)).0
                      ∙ (ground (arith, in_rows)))
                    (complete (suc n) records rows ops h.1 there.1 ok_records ok later
                      (omega (arith, success.0), success.1)))
                (λ not_done.
                  if_elim (Completes (op ∷ ops)) (is_given_up found.status) _ _
                    (λ given_up success. ground (arith, success.1))
                    (λ unsettled.
                      let sent_ok =
                        send_part_ok p session_key max_attempts rows found.operation
                          (found.attempts + 1) found
                          (subst (λ k. Dict.get rows k ≡ some found) (sym found_ok.0) in_rows)
                          (ground arith) ok in
                      if_elim (Completes (op ∷ ops)) sent.1.success _ _
                        (λ went success.
                          complete_cons n op ops _ h.0
                            (ap delivered_of
                                ((rest sent.0 ops h.1 there.1 ok_records sent_ok sent_later).before
                                  n (omega arith)).0
                              ∙ sent_delivered rows found n found_ok in_rows went)
                            (complete (suc n) records sent.0 ops h.1 there.1 ok_records sent_ok
                              sent_later (omega (arith, success.0), ground (arith, success.1))))
                        (λ failure success. ground (arith, success.1)))))
              success
      ]
