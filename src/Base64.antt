-- ===== src/Base64.antt =====
-- base64.cpp.
pub mod Encoder
pub mod Decoder
pub mod LineBreaks
pub mod LineLaws
pub mod Tables
pub mod Groups
pub mod EncodeLaws
pub mod RoundTrip
pub mod Laws
pub mod Tests
