-- ===== src/Guards.antt =====
-- mcp_server/src/sap_agent_mcp/guards.py: the six checks before any SQL reaches the database. A check
-- is its id and its status; the texts for people are left out. The parser is a parameter. The names
-- of tables are built once for a dictionary, in `guards_of`; the source builds them at each call.
pub mod Verdict
pub mod Parser
pub mod Checks
pub mod Run
pub mod Build
