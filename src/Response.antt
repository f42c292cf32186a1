-- ===== src/Response.antt =====
-- Responses of the bridge (bridge/server.py): envelopes, and encoding under a byte limit.
pub mod Payload
pub mod Bounded
pub mod Encode
