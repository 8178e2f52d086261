-- ===== src/Mcp.antt =====
-- The MCP server's cache of sandboxes: shipyard-neo-mcp/src/shipyard_neo_mcp/sandbox_cache.py.
pub mod SandboxCache
pub mod Recency
pub mod Tests
