-- ===== src/Streamer.antt =====
-- audio_streamer_glue.cpp: the class `AudioStreamer`, what it makes of the server's messages.
pub mod Message
pub mod Events
pub mod MessageLaws
pub mod EventLaws
pub mod Callbacks
pub mod CallbackLaws
pub mod RawStream
pub mod CallbackTests
pub mod Settings
pub mod SettingsLaws
pub mod Tests
