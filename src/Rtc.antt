-- ===== src/Rtc.antt =====
-- The wrapper around libdatachannel (src/rtc-api), which the plugin calls through its C interface.
pub mod Buffer
pub mod Context
pub mod Client
pub mod Server
pub mod DataChannel
pub mod Frames
pub mod Address
pub mod Configuration
pub mod PeerConnection
