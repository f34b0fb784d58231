-- ===== src/Rtp.antt =====
-- RTP: RTPReceptionStats.cpp.
pub mod ReceptionStats
