-- ===== src/Bridge.antt =====
-- The bridge service of bridge/server.py: one persistent MCP session and the operations on it.
pub mod Effects
pub mod Session
pub mod Responses
pub mod Service
