-- ===== src/Service.antt =====
-- src/service/ratelimit.go
pub mod Limits
pub mod Worker
pub mod Update
pub mod Start
pub mod Codes
pub mod Answers
pub mod Errors
pub mod Overrides
