-- ===== src/Delivery/Planner/Examples.antt =====
-- A message of a text and two images, on a platform that takes one image.
use luna_agent.Prelude.{
  ◌≤◌, ◌<◌, String, ◌≡◌, refl, ◌⊎◌, true, false, [], ◌∷◌, String_eq, length, All, map,
}
use luna_agent.Prelude.{lstrip, rstrip, strip, is_space}
use luna_agent.Conversation.Message.{MessagePart, OutboundMessage}
use luna_agent.Delivery.Planner.{
  PlatformCapabilities, normalize_artifact_kind, delivery_kind, unsupported_operation, plan_media,
  plan_part, plan_parts, text_content, plan,
}
use luna_agent.Delivery.Planner.Numbered.{Numbered, CanSend, attachments, plan_sound}

-- All that a plan calls.
program : Unit {0}
unfolding is_space lstrip rstrip strip normalize_artifact_kind delivery_kind unsupported_operation
    plan_media plan_part plan_parts text_content plan
program = tt

abbrev image_part : MessagePart Unit
image_part = record {
  type = "image";
  text = "";
  url = "";
  path = "";
  file_id = "";
  artifact_id = "a";
  name = "a.png";
  mime_type = "image/png";
  metadata = tt;
}

abbrev text_part : MessagePart Unit
text_part = record image_part { type = "text"; text = "look"; artifact_id = "" }

abbrev message : OutboundMessage Unit
message = record { parts = text_part ∷ image_part ∷ image_part ∷ [] }

abbrev one_image : PlatformCapabilities
one_image = record {
  image_send = true;
  file_send = false;
  audio_send = false;
  video_send = false;
  max_attachments = 1;
}

abbrev lower : String → String
lower text = text

kinds_of_plan :
    map (λ op. op.kind) (plan lower message one_image).operations ≡ "text" ∷ "image" ∷ "text" ∷ []
unfolding program
kinds_of_plan = refl

plan_sound_example :
    (0 < length (plan lower message one_image).operations)
    × Numbered 0 (plan lower message one_image).operations
    × All (CanSend one_image) (plan lower message one_image).operations
    × ((attachments (plan lower message one_image).operations ≤ one_image.max_attachments)
        ⊎ (one_image.max_attachments ≡ 0))
plan_sound_example = plan_sound lower message one_image
