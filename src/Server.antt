-- ===== src/Server.antt =====
-- The command handlers of the server (server/src/handler.cpp, server/include/handler.h).
pub mod Ops
pub mod Handlers
pub mod Safe
pub mod Bounds
pub mod Spelling
pub mod Names
pub mod Session
pub mod Framing
mod Tests
