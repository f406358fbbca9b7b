-- ===== src/Session/Tests.antt =====
-- Runs of app/Http/Session and of the session middleware at concrete inputs.
pub mod Fixtures
pub mod State
pub mod Storage
pub mod Requests
pub mod Blocking
