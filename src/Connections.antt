-- ===== src/Connections.antt =====
-- hub/src/lehen_hub/user/connections_service.py: a user's connections to integration instances.
pub mod Rows
pub mod Gates
pub mod Grant
pub mod History
pub mod Invariant
pub mod Loops
pub mod Orphans
pub mod Revocation
pub mod Cascade
pub mod Tokens
pub mod Flow
pub mod FlowFrame
pub mod Completing
pub mod Refreshing
pub mod Checks
pub mod Completed
pub mod Usable
pub mod Initiated
pub mod Staleness
