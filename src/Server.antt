-- ===== src/Server.antt =====
-- src/server: the health of the process and the HTTP handlers.
pub mod Health
pub mod Json
pub mod Setup
pub mod Lifecycle
