-- ===== src/File.antt =====
-- The files that the program reads and records: fileHander.h, fileHander.cpp.
pub mod Handler
