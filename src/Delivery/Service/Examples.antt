-- ===== src/Delivery/Service/Examples.antt =====
-- A delivery of a text and an image, whose image is refused at first, and the theorems at it.
use luna_agent.Prelude.{
  ℕ, ◌≤◌, ◌<◌, ◌≡◌, refl, ◌⊎◌, true, false, none, some, List, [], ◌∷◌, arith, String, String_eq,
  ℕ_eq, All, map, nat_eq, if◌then◌else◌,
}
use luna_agent.Prelude.{is_space, lstrip, rstrip, strip}
use luna_agent.Prelude.Dict
use luna_agent.Conversation.Message.{MessagePart, OutboundMessage}
use luna_agent.Delivery.Planner.{
  PlatformCapabilities, normalize_artifact_kind, delivery_kind, unsupported_operation, plan_media,
  plan_part, plan_parts, text_content, plan,
}
use luna_agent.Delivery.Parts.{
  PartStatus, OutboxPartRecord, Rows, ensure_parts, update_part, start_part, part_status,
  record_part_result, recover,
}
use luna_agent.Delivery.Send.{
  Platform, Called, Sent, ArtifactRef, occurs, is_ambiguous_error, send_stored, send_artifact_of,
  send_operation, execute_operation,
}
use luna_agent.Delivery.Service.{
  Route, DeliveryKind, DeliveryRequest, send_part, deliver_parts, result_of, pre_delivery,
  deliver_planned, deliver_message, deliver_once,
}
use luna_agent.Delivery.Service.Attempt.{is_settled}
use luna_agent.Delivery.Service.Pass.{sends}
use luna_agent.Delivery.Service.Complete.{delivered_at}
use luna_agent.Delivery.Service.History.{Step, step, run}
use luna_agent.Delivery.Service.Resend.{
  settled_never_resent, part_attempts_bounded, delivered_is_complete,
}

-- All that a pass calls.
program : Unit {0}
unfolding is_space lstrip rstrip strip normalize_artifact_kind delivery_kind unsupported_operation
    plan_media plan_part plan_parts text_content plan ensure_parts update_part start_part
    part_status record_part_result recover occurs is_ambiguous_error send_stored send_artifact_of
    send_operation execute_operation send_part deliver_parts result_of pre_delivery deliver_planned
    deliver_message deliver_once step run Dict.get Dict.put Dict.map_values
program = tt

abbrev lower : String → String
lower text = text

abbrev image_ref : ArtifactRef
image_ref = record {
  artifact_id = "a";
  session_key = "s";
  delivery_eligible = true;
  size_bytes = 10;
  filename = "a.png";
  mime_type = "image/png";
}

abbrev refused : Called Sent
refused = Called.returns (record { success = false; message_id = ""; error = "busy" })

abbrev accepted : Called Sent
accepted = Called.returns (record { success = true; message_id = "m"; error = "" })

-- Its first attempt at an image fails.
abbrev artifact_answer : ℕ → Called Sent
artifact_answer n = if nat_eq n 1 then refused else accepted

abbrev platform : Platform
platform = record {
  send_message = λ n text. accepted;
  send_artifact = λ n kind path filename mime_type. artifact_answer n;
  max_file_bytes = 100;
  has_store = true;
  get_artifact = λ n id. Called.returns (some image_ref);
  resolve_path = λ n ref. Called.returns "/a.png";
  lower = lower;
  decimal = λ n. "100";
}

abbrev caps : PlatformCapabilities
caps = record {
  image_send = true;
  file_send = true;
  audio_send = false;
  video_send = false;
  max_attachments = 0;
}

abbrev image_part : MessagePart Unit
image_part = record {
  type = "image";
  text = "";
  url = "";
  path = "";
  file_id = "";
  artifact_id = "a";
  name = "a.png";
  mime_type = "image/png";
  metadata = tt;
}

abbrev message : OutboundMessage Unit
message = record {
  parts = record image_part { type = "text"; text = "look"; artifact_id = "" } ∷ image_part ∷ [];
}

abbrev request : DeliveryRequest Unit
request = record {
  session_key = "s";
  message = message;
  kind = DeliveryKind.conversation;
  delivery_id = "d";
}

abbrev first_pass : List (Step Unit)
first_pass = Step.delivers (Route.connected platform caps) none request ∷ []

abbrev after_first : Rows
after_first = (run tt lower 3 [] first_pass).0

statuses : map (λ (i, row). row.status) after_first ≡ PartStatus.delivered ∷ PartStatus.retry ∷ []
unfolding program
statuses = refl

abbrev text_row : OutboxPartRecord
text_row = record {
  operation = record {
    index = 0;
    kind = "text";
    text = "look";
    artifact_id = "";
    filename = "";
    mime_type = "";
    degraded_from = "";
  };
  status = PartStatus.delivered;
  attempts = 1;
  message_id = "m";
  error = "";
  ambiguous = false;
}

abbrev later_steps : List (Step Unit)
later_steps =
    Step.starts 1 ∷ Step.restarts ∷ Step.delivers (Route.connected platform caps) none request ∷ []

settled_never_resent_example :
    (Dict.get (run tt lower 3 after_first later_steps).0 0 ≡ some text_row)
    × (sends 0 (run tt lower 3 after_first later_steps).1 ≡ false)
unfolding program
settled_never_resent_example =
    settled_never_resent tt lower 3 (omega arith) first_pass later_steps 0 text_row refl refl

-- The image goes out in the second pass.
image_is_sent : sends 1 (run tt lower 3 after_first later_steps).1 ≡ true
unfolding program
image_is_sent = refl

part_attempts_bounded_example :
    (text_row.operation.index ≡ 0)
    × (text_row.attempts ≤ 3)
    × ((is_settled text_row.status ≡ true) ⊎ (text_row.attempts < 3))
unfolding program
part_attempts_bounded_example =
    part_attempts_bounded tt lower 3 (omega arith) first_pass 0 text_row refl

delivered_is_complete_example :
    All
      (λ op.
        delivered_at
          (deliver_planned tt lower 3 after_first platform request (plan lower message caps)).0
          op.index
        ≡ true)
      (plan lower message caps).operations
unfolding program
delivered_is_complete_example =
    delivered_is_complete tt lower 3 (omega arith) first_pass platform request message caps refl
