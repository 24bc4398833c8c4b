-- ===== src/Session.antt =====
-- src/session: the session, its WebSocket part, its peer connection part and its plugin part.
pub mod Open
pub mod Cleanup
pub mod Close
pub mod Send
pub mod Handshake
pub mod Auth
pub mod System
pub mod Receive
pub mod References
