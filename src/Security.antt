-- ===== src/Security.antt =====
-- src/luna_agent/security: what a tool call may do, by the permission profile of the session's mode,
-- its approval policy and the grants that a user gave for a time.
pub mod Profile
pub mod Grants
pub mod Evaluator
pub mod Sessions
