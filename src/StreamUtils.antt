-- ===== src/StreamUtils.antt =====
-- stream_utils.cpp.
pub mod CString
pub mod Utf8
pub mod Uri
pub mod Numeral
pub mod Tests
