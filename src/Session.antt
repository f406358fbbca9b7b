-- ===== src/Session.antt =====
-- app/Http/Session: the session object, its drivers, the manager and the locks.
pub mod Tests
pub mod Store
pub mod Ops
pub mod Flash
pub mod Token
pub mod Counter
pub mod Payload
pub mod Driver
pub mod Manager
pub mod Lock
pub mod Visit
pub mod Block
pub mod Csrf
