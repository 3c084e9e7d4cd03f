-- ===== src/Core.antt =====
-- internal/core: the parts that do not depend on the MCP server.
pub mod Target
pub mod InvocationProps
pub mod Errcode
pub mod Invoke
pub mod Contract
