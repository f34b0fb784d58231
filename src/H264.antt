-- ===== src/H264.antt =====
-- H.264 data: the NAL units of a file and the fields of a sequence parameter set
-- (h264FileParser.h, h264FileParser.cpp, and the parser of the set in flvWriter.cpp).
pub mod Nal
pub mod Sps
