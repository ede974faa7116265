-- ===== src/Mcp.antt =====
-- services/mcp_server.py and services/mcp_schemas.py: the tools for agents, which only read. A tool
-- that raises ToolError is `raise tool_error`.
pub mod Paging
pub mod Listing
pub mod Fix
pub mod Detail
pub mod Posture
pub mod Walk
pub mod Totals
pub mod Counted
pub mod Hosts
pub mod Vulnerabilities
pub mod Rules
