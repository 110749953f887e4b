-- ===== src/Stream.antt =====
-- audio_streamer_glue.cpp: the media callbacks.
pub mod Interfaces
pub mod Capture
pub mod CaptureLaws
pub mod Conserved
pub mod FrameLaws
pub mod Stalled
pub mod Misfit
pub mod Playback
pub mod PlaybackLaws
pub mod Responses
pub mod Simple
pub mod Tests
