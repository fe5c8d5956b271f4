-- ===== src/Tools.antt =====
-- mcp_server/src/sap_agent_mcp/tools.py: the four tools.
pub mod Describe
pub mod Replies
pub mod Policy
pub mod Propose
pub mod Execute
pub mod Sanity
