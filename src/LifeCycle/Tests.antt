-- ===== src/LifeCycle/Tests.antt =====
-- The life of a session on concrete inputs.
use mod_audio_stream.Prelude.{
  ℕ, ◌≤◌, ◌<◌, ◌≡◌, ◌≢◌, refl, Bool, true, false, Option, none, some, List, [], ◌∷◌, codes, arith,
}
use mod_audio_stream.Prelude.Ints.{pos}
use mod_audio_stream.LifeCycle.Store.{Pvt, Store, success, failed, lock, call}
use mod_audio_stream.LifeCycle.Handlers.{session_cleanup, session_send_text, session_pauseresume}
use mod_audio_stream.LifeCycle.Threads.{
  cleanup, send, idle, called, found, inside, done, crashed, set_pc, shared, System, Reach, start,
  asked, acted, act, look_up, on_pvt, acquire, deletes, disconnects,
}
use mod_audio_stream.LifeCycle.Invariant.{holds, owns}
use mod_audio_stream.LifeCycle.Kept.{streamer_set}
use mod_audio_stream.LifeCycle.Safety.{Reach-Once}
use mod_audio_stream.LifeCycle.Released.{taken_down, session_cleanup-Released}
use mod_audio_stream.LifeCycle.Race.{Reach-crashed}
use mod_audio_stream.LifeCycle.Init.{
  Channel, Granted, heart_beat_of, rtp_packets_of, capture_size, metadata_array, max_metadata_len,
  stream_session_init,
}
use mod_audio_stream.LifeCycle.InitCalls.{Leaked}
use mod_audio_stream.LifeCycle.InitLaws.{stream_session_init-Leaked}
use mod_audio_stream.LifeCycle.Metadata.{
  send_initial_metadata, send_initial_metadata-metadata_array,
}

abbrev in_use : Pvt
in_use = record {
  cleanup_started = false;
  close_requested = false;
  audio_paused = false;
  streamer = some true;
  mutex = true;
  resampler = true;
  playback_resampler = false;
}

abbrev session : Store
session = record { attached = true; user_data = some in_use; log = [] }

-- Thread 0 has found the bug and locked the mutex, thread 1 is asked to send a text.
abbrev locked_system : System
locked_system = record {
  pcs = set_pc 1 (called (send (codes "a"))) (
      set_pc 0 (inside (cleanup none true))
        (set_pc 0 (found (cleanup none true)) (set_pc 0 (called (cleanup none true)) (λ _. idle))));
  shared' = shared (call lock session) (some 0);
}

locked_reach : Reach session locked_system
unfolding set_pc act look_up on_pvt acquire
locked_reach =
    asked 1 (send (codes "a"))
      (acted 0 (acted 0 (asked 0 (cleanup none true) start refl) refl) refl) refl

Reach-Once_example :
    (deletes (call lock session) ≤ 1)
    × (disconnects (call lock session) ≤ 1)
    × (streamer_set (call lock session).user_data ≡ true → deletes (call lock session) ≡ 0)
    × ((t u : ℕ) → holds (locked_system.pcs t) ≡ true → holds (locked_system.pcs u) ≡ true → t ≡ u)
    × ((t u : ℕ) → owns (locked_system.pcs t) ≡ true → owns (locked_system.pcs u) ≡ true → t ≡ u)
Reach-Once_example = Reach-Once in_use refl refl refl locked_reach

session_cleanup-Released_example :
    (session_cleanup none false session ≡ (success, taken_down in_use none false []))
    × ((again : Option (List ℕ)) (closes : Bool)
        → session_cleanup again closes (session_cleanup none false session).1
          ≡ (failed, (session_cleanup none false session).1))
    × ((words : List ℕ)
        → session_send_text words (session_cleanup none false session).1
          ≡ (failed, (session_cleanup none false session).1))
    × ((pause : Bool)
        → session_pauseresume pause (session_cleanup none false session).1
          ≡ (failed, (session_cleanup none false session).1))
session_cleanup-Released_example = session_cleanup-Released session in_use none false refl refl refl

zero-ne-one : ◌≢◌ {A = ℕ} 0 1
zero-ne-one e = omega (arith, e)

Reach-crashed_example :
    (s : System) × Reach session s × (s.pcs 0 ≡ done success) × (s.pcs 1 ≡ crashed)
Reach-crashed_example =
    Reach-crashed session in_use none true (cleanup none false) {t = 0} {u = 1} zero-ne-one refl
      refl refl refl

-- A channel with STREAM_BUFFER_SIZE and nothing else set.
abbrev channel : Channel
channel = record { variable = λ name. none; var_true = λ name. false }

abbrev no_resampler : Granted
no_resampler = record { memory = true; sbuffer = true; playback_buffer = true; resampler = false }

heart_beat_read : heart_beat_of (some (codes "30")) ≡ pos 30
unfolding heart_beat_of
heart_beat_read = refl

heart_beat_text : heart_beat_of (some (codes "30s")) ≡ pos 0
unfolding heart_beat_of
heart_beat_text = refl

packets_read : rtp_packets_of (some (codes "100")) ≡ 5
unfolding rtp_packets_of
packets_read = refl

packets_odd : rtp_packets_of (some (codes "110")) ≡ 1
unfolding rtp_packets_of
packets_odd = refl

capture_size_16k : capture_size (pos 16000) 2 5 ≡ 6400
unfolding capture_size
capture_size_16k = refl

stream_session_init-Leaked_example :
    Leaked (stream_session_init channel no_resampler 8000 (codes "ws://a") (pos 16000) 1 none).1
unfolding stream_session_init
stream_session_init-Leaked_example =
    stream_session_init-Leaked channel no_resampler 8000 (codes "ws://a") (pos 16000) 1 none refl
      refl

send_initial_metadata-metadata_array_example :
    (2 < max_metadata_len
      → send_initial_metadata (metadata_array (some (codes "{}"))) ≡ some (codes "{}" ∷ []))
    × (max_metadata_len ≤ 2 → send_initial_metadata (metadata_array (some (codes "{}"))) ≡ none)
send_initial_metadata-metadata_array_example =
    send_initial_metadata-metadata_array (codes "{}") (ground arith)
