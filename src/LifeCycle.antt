-- ===== src/LifeCycle.antt =====
-- audio_streamer_glue.cpp: how a session is taken down, by one thread and by several.
pub mod Store
pub mod Handlers
pub mod Callback
pub mod Threads
pub mod Invariant
pub mod Kept
pub mod Safety
pub mod Alone
pub mod Refinement
pub mod Released
pub mod Race
pub mod Init
pub mod InitCalls
pub mod InitLaws
pub mod Metadata
pub mod Tests
