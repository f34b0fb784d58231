-- ===== src/Tests.antt =====
-- The theorems at concrete inputs.
mod Cacher
mod Framing
mod Tables
mod Codec
mod Rtp
mod File
mod Flv
mod Rtsp
mod H264
