-- ===== src/FileReader.antt =====
-- services/tools/iterative_file_reader: reading a file window by window.
pub mod Stream
pub mod Read
