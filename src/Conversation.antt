-- ===== src/Conversation.antt =====
-- src/luna_agent/conversation/: the submissions of work to the conversation runtime.
pub mod Message
pub mod Submission
pub mod Table
pub mod Ledger
pub mod Coordinator
