-- ===== src/Capability.antt =====
-- src/luna_agent/plugins/runtime: which capabilities the plugin generations offer, the published
-- snapshots of them, and the router that swaps snapshots while turns hold the old ones.
pub mod Failure
pub mod Binding
pub mod Catalog
pub mod Snapshot
pub mod Store
pub mod Router
