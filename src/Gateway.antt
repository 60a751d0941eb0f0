-- ===== src/Gateway.antt =====
-- src/luna_agent/gateway: the lineage of compressed sessions, and the confirmations of tool calls
-- that a platform's user gives.
pub mod Chain
