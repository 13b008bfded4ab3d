-- ===== src/Session.antt =====
-- src/session: the live CM session.
pub mod State
pub mod Connection
pub mod Driver
pub mod Establish
pub mod Handle
pub mod Remote
mod Runs
