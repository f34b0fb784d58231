-- ===== src/Tcp.antt =====
-- What happens to the bytes of a connection before a request is parsed: tcpCacher.cpp,
-- tcpCacherManager.cpp; and who is still connected: TCP_ConnectingManager.cpp.
pub mod Cacher
pub mod Json
pub mod Stream
pub mod Interleaved
pub mod Manager
pub mod Connecting
