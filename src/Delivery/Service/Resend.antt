-- ===== src/Delivery/Service/Resend.antt =====
-- What every history of the parts of a delivery keeps.
use luna_agent.Prelude.{
  ℕ, zero, suc, ◌≤◌, ◌<◌, ◌≡◌, refl, sym, ◌∙◌, subst, ◌⊎◌, inl, inr, true, false, ◌||◌, Option,
  none, some, List, [], ◌∷◌, ◌++◌, arith, ◌==◌, ==_iff, String, String_eq, ℕ_eq, take, Bool-cases,
  Option-cases, if_elim, All,
}
use luna_agent.Prelude.Dict
use luna_agent.Prelude.Dict.{get-map_values}
use luna_agent.Conversation.Message.{OutboundMessage}
use luna_agent.Delivery.{DeliveryStatus}
use luna_agent.Delivery.Planner.{DeliveryOperation, PlatformCapabilities, plan}
use luna_agent.Delivery.Planner.Numbered.{Numbered, plan_sound}
use luna_agent.Delivery.Parts.{
  PartStatus, OutboxPartRecord, DeliveryPartResult, Rows, ensure_parts, start_part, recovered,
  recover, changed_at, get-update_part, ensure_parts-keeps,
}
use luna_agent.Delivery.Send.{Platform}
use luna_agent.Delivery.Service.{
  Route, unbound, unavailable, connected, PreDeliveryOutcome, DeliveryRequest, deliver_parts,
  result_of, deliver_planned, deliver_message, deliver_once,
}
use luna_agent.Delivery.Service.Attempt.{
  is_settled, is_there, RowsOk, ensure_parts_ok, ensure_parts_there, recover_ok, RowOk-of,
}
use luna_agent.Delivery.Service.History.{Step, delivers, stops, starts, restarts, begun, step, run}
use luna_agent.Delivery.Service.Pass.{sends, pass}
use luna_agent.Delivery.Service.Complete.{delivered_at, complete}

-- What every step keeps.
record Kept (max_attempts : ℕ) (rows : Rows) (result : Rows × List DeliveryPartResult)
    : Type 0 where
  ok : RowsOk max_attempts result.0
  settled :
      (i : ℕ) (row : OutboxPartRecord)
      → Dict.get rows i ≡ some row
      → is_settled row.status ≡ true
      → (Dict.get result.0 i ≡ some row) × (sends i result.1 ≡ false)

Numbered-take : (n k : ℕ) (ops : List DeliveryOperation) → Numbered n ops → Numbered n (take k ops)
Numbered-take n zero ops h = tt
Numbered-take n (suc k) [] h = tt
Numbered-take n (suc k) (op ∷ ops) h = (h.0, Numbered-take (suc n) k ops h.1)

All-take :
    (P : DeliveryOperation → Type 0) (k : ℕ) (ops : List DeliveryOperation)
    → All P ops
    → All P (take k ops)
All-take P zero ops h = tt
All-take P (suc k) [] h = tt
All-take P (suc k) (op ∷ ops) h = (h.0, All-take P k ops h.1)

sends-append :
    (i : ℕ) (xs ys : List DeliveryPartResult) → sends i (xs ++ ys) ≡ (sends i xs || sends i ys)
sends-append i [] ys = refl
sends-append i (x ∷ xs) ys = ground (arith, sends-append i xs ys)

module _ (max_attempts : ℕ) (allowed : 0 < max_attempts) (rows : Rows)
    (ok : RowsOk max_attempts rows) where
  Kept-none : Kept max_attempts rows (rows, [])
  Kept-none = record { ok = ok; settled = λ i row found done. (found, refl) }

  Kept-pass :
      (p : Platform) (session_key : String) (ops tried : List DeliveryOperation)
      → Numbered 0 tried
      → All (λ op. is_there (Dict.get (ensure_parts rows ops) op.index) ≡ true) tried
      → Kept max_attempts rows (
          deliver_parts p session_key max_attempts
            (ensure_parts rows ops)
            (ensure_parts rows ops)
            tried)
  Kept-pass p session_key ops tried h there =
      let records = ensure_parts rows ops in
      let records_ok = ensure_parts_ok max_attempts rows ops allowed ok in
      let passed =
        pass p session_key max_attempts 0 records records tried h there records_ok records_ok
          (λ i l. refl) in
      record {
        ok = passed.ok;
        settled = λ i row found done.
            passed.settled i row (omega arith) (ensure_parts-keeps rows ops i row found) done;
      }

  Kept-recover : Kept max_attempts rows (recover rows, [])
  unfolding recover
  Kept-recover = record {
    ok = recover_ok max_attempts rows ok;
    settled = λ i row found done. (
      get-map_values (λ row. record row { status = recovered row.status }) rows i
          ∙ (ground (arith, found)),
      refl,
    );
  }

  Kept-start :
      (i : ℕ) (row : OutboxPartRecord)
      → Dict.get rows i ≡ some row
      → is_settled row.status ≡ false
      → Kept max_attempts rows (start_part rows i, [])
  unfolding start_part
  Kept-start i row found unsettled =
      let at = get-update_part rows i (λ row. record row { status = PartStatus.sending }) in
      record {
        ok = λ j other e.
            let now : changed_at (i == j) (λ row. record row { status = PartStatus.sending })
                  (Dict.get rows j)
                ≡ some other =
              sym (at j) ∙ e in
            elim (Bool-cases (i == j)) [
              | inl same ↦
                  let here : Dict.get rows j ≡ some row =
                    subst (λ k. Dict.get rows k ≡ some row) ((==_iff i j).0 same) found in
                  RowOk-of max_attempts j (record row { status = PartStatus.sending }) other
                    (ground (arith, now, same, here)) (ground (arith, ok j row here))
              | inr elsewhere ↦
                  ok j other (ground (arith, now, elsewhere, Option-cases (Dict.get rows j)))
            ];
        settled = λ j other found' done. (at j ∙ (ground (arith, found, found', ==_iff i j)), refl);
      }

  Kept-begun :
      (i : ℕ) (found : Option OutboxPartRecord)
      → Dict.get rows i ≡ found
      → Kept max_attempts rows (begun rows i found, [])
  Kept-begun i none e = Kept-none
  Kept-begun i (some row) e =
      if_elim (λ r. Kept max_attempts rows (r, [])) (is_settled row.status) _ _ (λ done. Kept-none)
        (λ unsettled. Kept-start i row e unsettled)

module _ {M : Type 0} (no_metadata : M) (lower : String → String) (max_attempts : ℕ)
    (allowed : 0 < max_attempts) where
  Kept-message :
      (rows : Rows) (p : Platform) (caps : PlatformCapabilities) (request : DeliveryRequest M)
      (message : Option (OutboundMessage M))
      → RowsOk max_attempts rows
      → let once = deliver_message no_metadata lower max_attempts rows p caps request message in
        Kept max_attempts rows (once.0, once.1.parts)
  unfolding deliver_message deliver_planned result_of
  Kept-message rows p caps request none ok = Kept-none max_attempts allowed rows ok
  Kept-message rows p caps request (some message) ok =
      let ops = (plan lower message caps).operations in
      Kept-pass max_attempts allowed rows ok p request.session_key ops ops
        (plan_sound lower message caps).1 (ensure_parts_there rows ops)

  Kept-once :
      (rows : Rows) (route : Route) (hook : Option PreDeliveryOutcome) (request : DeliveryRequest M)
      → RowsOk max_attempts rows
      → Kept max_attempts rows
          (step no_metadata lower max_attempts rows (delivers route hook request))
  unfolding step deliver_once
  Kept-once rows unbound hook request ok = Kept-none max_attempts allowed rows ok
  Kept-once rows (unavailable platform) hook request ok = Kept-none max_attempts allowed rows ok
  Kept-once rows (connected p caps) hook request ok = Kept-message rows p caps request _ ok

  Kept-step :
      (rows : Rows) (s : Step M)
      → RowsOk max_attempts rows
      → Kept max_attempts rows (step no_metadata lower max_attempts rows s)
  unfolding step
  Kept-step rows (delivers route hook request) ok = Kept-once rows route hook request ok
  Kept-step rows (stops p request message caps n) ok =
      let ops = (plan lower message caps).operations in
      Kept-pass max_attempts allowed rows ok p request.session_key ops (take n ops)
        (Numbered-take 0 n ops (plan_sound lower message caps).1)
        (All-take _ n ops (ensure_parts_there rows ops))
  Kept-step rows (starts i) ok = Kept-begun max_attempts allowed rows ok i (Dict.get rows i) refl
  Kept-step rows restarts ok = Kept-recover max_attempts allowed rows ok

  Kept-run :
      (rows : Rows) (ss : List (Step M))
      → RowsOk max_attempts rows
      → Kept max_attempts rows (run no_metadata lower max_attempts rows ss)
  unfolding run
  Kept-run rows [] ok = Kept-none max_attempts allowed rows ok
  Kept-run rows (s ∷ ss) ok =
      let first = Kept-step rows s ok in
      let here = step no_metadata lower max_attempts rows s in
      let rest = Kept-run here.0 ss first.ok in
      record {
        ok = rest.ok;
        settled = λ i row found done.
            let still = first.settled i row found done in
            let later = rest.settled i row still.0 done in
            (later.0, sends-append i here.1 _ ∙ (ground (arith, still.1, later.1)));
      }

  empty_ok : RowsOk max_attempts []
  unfolding Dict.get
  empty_ok i row e = cc

  -- Where at least one attempt is allowed: if the row of a part is delivered, failed or ambiguous
  -- after any steps from no rows, then after any further steps it is the same, and none of these
  -- steps tried to send the part.
  pub settled_never_resent :
      (before after : List (Step M)) (i : ℕ) (row : OutboxPartRecord)
      → let rows = (run no_metadata lower max_attempts [] before).0 in
        Dict.get rows i ≡ some row
        → is_settled row.status ≡ true
        → (Dict.get (run no_metadata lower max_attempts rows after).0 i ≡ some row)
          × (sends i (run no_metadata lower max_attempts rows after).1 ≡ false)
  settled_never_resent before after i row found done =
      let rows = (run no_metadata lower max_attempts [] before).0 in
      (Kept-run rows after (Kept-run [] before empty_ok).ok).settled i row found done

  -- Where at least one attempt is allowed, after any steps from no rows each row stands under the
  -- index of its operation and has at most the allowed attempts, and fewer if it is not delivered,
  -- failed or ambiguous.
  pub part_attempts_bounded :
      (ss : List (Step M)) (i : ℕ) (row : OutboxPartRecord)
      → Dict.get (run no_metadata lower max_attempts [] ss).0 i ≡ some row
      → (row.operation.index ≡ i)
        × (row.attempts ≤ max_attempts)
        × ((is_settled row.status ≡ true) ⊎ (row.attempts < max_attempts))
  part_attempts_bounded ss = (Kept-run [] ss empty_ok).ok

  -- Where at least one attempt is allowed: if a pass over the plan of a message reports delivered
  -- after any steps from no rows, then each operation of the plan has a row that is delivered.
  pub delivered_is_complete :
      (before : List (Step M)) (p : Platform) (request : DeliveryRequest M)
      (message : OutboundMessage M) (caps : PlatformCapabilities)
      → let rows = (run no_metadata lower max_attempts [] before).0 in
        let planned = plan lower message caps in
        let once = deliver_planned no_metadata lower max_attempts rows p request planned in
        once.1.result.status ≡ DeliveryStatus.delivered
        → All (λ op. delivered_at once.0 op.index ≡ true) planned.operations
  unfolding deliver_planned result_of
  delivered_is_complete before p request message caps done =
      let rows = (run no_metadata lower max_attempts [] before).0 in
      let ops = (plan lower message caps).operations in
      let records = ensure_parts rows ops in
      let records_ok =
        ensure_parts_ok max_attempts rows ops allowed (Kept-run [] before empty_ok).ok in
      complete p request.session_key max_attempts 0 records records ops
        (plan_sound lower message caps).1 (ensure_parts_there rows ops) records_ok records_ok
        (λ i l. refl) (ground arith, ground arith)
