-- ===== src/Access.antt =====
-- middleware and api/auth.py: who gets through to the pages, the API and the MCP endpoint.
pub mod Session
pub mod Bearer
pub mod Mcp
pub mod Login
pub mod Guarded
pub mod Headers
