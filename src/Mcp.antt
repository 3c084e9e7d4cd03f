-- ===== src/Mcp.antt =====
-- internal/mcp: the state that the MCP server keeps between tool calls.
pub mod InvokeLimiter
pub mod Session
pub mod Execution
pub mod ContractHolder
