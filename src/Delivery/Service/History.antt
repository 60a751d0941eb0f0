-- ===== src/Delivery/Service/History.antt =====
-- Any history of the parts of a delivery: passes, passes that stopped on the way, and restarts.
use luna_agent.Prelude.{
  ℕ, Option, none, some, List, [], ◌∷◌, ◌++◌, String, String_eq, ℕ_eq, if◌then◌else◌, take,
}
use luna_agent.Prelude.Dict
use luna_agent.Prelude.Dict.{get-map_values}
use luna_agent.Conversation.Message.{OutboundMessage}
use luna_agent.Delivery.Planner.{PlatformCapabilities, plan}
use luna_agent.Delivery.Parts.{
  OutboxPartRecord, DeliveryPartResult, Rows, ensure_parts, start_part, recover,
}
use luna_agent.Delivery.Send.{Platform}
use luna_agent.Delivery.Service.{
  Route, PreDeliveryOutcome, DeliveryRequest, deliver_parts, deliver_once,
}
use luna_agent.Delivery.Service.Attempt.{is_settled}

pub data Step (M : Type 0) : Type 0 where
  delivers : Route → Option PreDeliveryOutcome → DeliveryRequest M → Step M
  -- The first operations of a pass.
  stops : Platform → DeliveryRequest M → OutboundMessage M → PlatformCapabilities → ℕ → Step M
  -- A part that was about to be sent, and nothing recorded of it.
  starts : ℕ → Step M
  restarts : Step M

-- A part that is not settled is begun.
abbrev pub begun : Rows → ℕ → Option OutboxPartRecord → Rows
begun rows i none = rows
begun rows i (some row) = if is_settled row.status then rows else start_part rows i

module _ {M : Type 0} (no_metadata : M) (lower : String → String) (max_attempts : ℕ) where
  -- The rows, and the results of the parts that were tried.
  unfoldable pub step : Rows → Step M → Rows × List DeliveryPartResult
  step rows (delivers route hook request) =
      let once = deliver_once no_metadata lower max_attempts rows route hook request in
      (once.0, once.1.parts)
  step rows (stops p request message caps n) =
      let operations = (plan lower message caps).operations in
      let records = ensure_parts rows operations in
      deliver_parts p request.session_key max_attempts records records (take n operations)
  step rows (starts i) = (begun rows i (Dict.get rows i), [])
  step rows restarts = (recover rows, [])

  unfoldable pub run : Rows → List (Step M) → Rows × List DeliveryPartResult
  run rows [] = (rows, [])
  run rows (s ∷ ss) =
      let first = step rows s in let rest = run first.0 ss in (rest.0, first.1 ++ rest.1)
