-- ===== src/Tests.antt =====
-- A concrete environment and runs of the theorems on it.
pub mod Accepted
pub mod Arrays
pub mod Fixture
pub mod Buffers
pub mod Channels
pub mod Messages
pub mod Sessions
pub mod Contexts
pub mod Rtc
pub mod Sockets
pub mod Wrapper
