-- ===== src/Codec.antt =====
-- Bit and byte formats: BitReader.cpp and base64.cpp.
pub mod BitReader
pub mod Base64
