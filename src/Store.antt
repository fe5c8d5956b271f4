-- ===== src/Store.antt =====
-- mcp_server/src/sap_agent_mcp/store.py: proposals, journal, limits and settings.
pub mod Rows
pub mod Journal
pub mod Proposals
pub mod Limits
pub mod Settings
pub mod Queries
