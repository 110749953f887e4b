-- ===== src/Commands.antt =====
-- mod_audio_stream.c: the API command `uuid_audio_stream` and the start of a capture.
pub mod Backend
pub mod Capture
pub mod Dispatch
pub mod Locks
pub mod Returns
pub mod Starts
pub mod Session
pub mod Lifetime
pub mod Tests
