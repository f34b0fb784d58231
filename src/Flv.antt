-- ===== src/Flv.antt =====
-- Recordings in the FLV format: flvFormat.h, flvFormat.cpp, flvWriter.h, flvWriter.cpp,
-- flvParser.h, flvParser.cpp.
pub mod Format
pub mod Packet
pub mod Tag
pub mod Writer
pub mod Steps
pub mod Parser
pub mod TagRead
pub mod RoundTrip
pub mod Recording
pub mod Configuration
pub mod Metadata
pub mod Index
