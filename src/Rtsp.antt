-- ===== src/Rtsp.antt =====
-- The RTSP side of the server: texts, URLs, connections, the handlers of requests, their state
-- machine, and the callback of the sockets.
pub mod Text
pub mod Url
pub mod Status
pub mod Host
pub mod Connection
pub mod Request
pub mod Options
pub mod Describe
pub mod Pause
pub mod Teardown
pub mod Setup
pub mod Play
pub mod Machine
pub mod Frames
pub mod Paths
pub mod Handler
pub mod Server
