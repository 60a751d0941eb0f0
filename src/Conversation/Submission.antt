-- ===== src/Conversation/Submission.antt =====
-- src/luna_agent/conversation/submission.py: a request, without its sinks and display data, and its
-- outcome.
use luna_agent.Prelude.{String, Bool, Option, List, String_eq}
use luna_agent.Conversation.Message.{OutboundMessage}

pub data SubmissionOrigin : Type 0 where
  gateway tui cli cron plugin active_plugin system : SubmissionOrigin

pub data ResponseMode : Type 0 where
  return_only deliver silent : ResponseMode

pub data SubmissionKind : Type 0 where
  conversation command control : SubmissionKind

pub data SubmissionStatus : Type 0 where
  accepted running completed failed cancelled rejected : SubmissionStatus

abbrev pub origin_value : SubmissionOrigin → String
origin_value gateway = "gateway"
origin_value tui = "tui"
origin_value cli = "cli"
origin_value cron = "cron"
origin_value plugin = "plugin"
origin_value active_plugin = "active_plugin"
origin_value system = "system"

pub record AttachmentRef : Type 0 where
  pub id : String
  pub kind : String
  pub name : String

pub record SubmissionRequest : Type 0 where
  pub session_key : String
  pub text : String
  pub attachments : List AttachmentRef
  pub origin : SubmissionOrigin
  pub response_mode : ResponseMode
  pub request_id : String
  pub owner_id : String
  pub durable : Bool

pub record SubmissionOutcome (M : Type 0) : Type 0 where
  pub request_id : String
  pub session_key : String
  pub status : SubmissionStatus
  pub kind : SubmissionKind
  pub response : String
  pub error : String
  pub message : Option (OutboundMessage M)
