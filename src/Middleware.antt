-- ===== src/Middleware.antt =====
-- app/Http/Kernel.go: how a route's middleware names become the list of middleware that runs.
pub mod Tests
pub mod Spec
pub mod Expand
pub mod Priority
pub mod Resolve
