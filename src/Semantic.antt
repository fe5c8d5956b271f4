-- ===== src/Semantic.antt =====
-- mcp_server/src/sap_agent_mcp/semantic: the dictionary of tables, relations and masked columns.
pub mod Models
pub mod Loader
