-- ===== src/LifeCycle/Store.antt =====
-- audio_streamer_glue.cpp, mod_audio_stream.h: what taking a session down works on, and
-- `destroy_tech_pvt`.
use mod_audio_stream.Prelude.{ℕ, Bool, true, false, Option, none, some, List, ◌∷◌}

-- `private_t`, as far as these functions use it. A pointer that is only compared with null and
-- freed is a `Bool`. `streamer` is `pAudioStreamer`, a pointer to a `shared_ptr`: `some false` is
-- one to an empty `shared_ptr`.
pub record Pvt : Type 0 where
  pub cleanup_started : Bool
  pub close_requested : Bool
  pub audio_paused : Bool
  pub streamer : Option Bool
  pub mutex : Bool
  pub resampler : Bool
  pub playback_resampler : Bool

-- The calls that leave these functions.
pub data Call : Type 0 where
  lock unlock : Call
  bug_remove bug_flush bug_close : Call
  wrapper_delete : Call
  write_text : List ℕ → Call
  mark_cleaned_up disconnect : Call
  playback_resampler_destroy resampler_destroy mutex_destroy : Call
  streamer_create mutex_init resampler_init : Call
  buffer_create : ℕ → Call

pub data Status : Type 0 where
  success failed : Status

-- `attached`: the channel's private MY_BUG_NAME is the media bug. `user_data`: the bug's, a
-- `private_t` in the session's pool, so that it outlives the bug. `log`: the last call first.
pub record Store : Type 0 where
  pub attached : Bool
  pub user_data : Option Pvt
  pub log : List Call

unfoldable pub call : Call → Store → Store
call c st = record { attached = st.attached; user_data = st.user_data; log = c ∷ st.log }

unfoldable pub put_pvt : Pvt → Store → Store
put_pvt p st = record { attached = st.attached; user_data = some p; log = st.log }

-- `switch_channel_set_private (channel, MY_BUG_NAME, nullptr)`.
unfoldable pub detach : Store → Store
detach st = record { attached = false; user_data = st.user_data; log = st.log }

unfoldable pub set_started : Pvt → Pvt
set_started p = record {
  cleanup_started = true;
  close_requested = p.close_requested;
  audio_paused = p.audio_paused;
  streamer = p.streamer;
  mutex = p.mutex;
  resampler = p.resampler;
  playback_resampler = p.playback_resampler;
}

-- `tech_pvt->pAudioStreamer = nullptr`.
unfoldable pub without_streamer : Pvt → Pvt
without_streamer p = record {
  cleanup_started = p.cleanup_started;
  close_requested = p.close_requested;
  audio_paused = p.audio_paused;
  streamer = none;
  mutex = p.mutex;
  resampler = p.resampler;
  playback_resampler = p.playback_resampler;
}

unfoldable pub paused : Bool → Pvt → Pvt
paused pause p = record {
  cleanup_started = p.cleanup_started;
  close_requested = p.close_requested;
  audio_paused = pause;
  streamer = p.streamer;
  mutex = p.mutex;
  resampler = p.resampler;
  playback_resampler = p.playback_resampler;
}

unfoldable pub requested : Pvt → Pvt
requested p = record {
  cleanup_started = p.cleanup_started;
  close_requested = true;
  audio_paused = p.audio_paused;
  streamer = p.streamer;
  mutex = p.mutex;
  resampler = p.resampler;
  playback_resampler = p.playback_resampler;
}

-- What `destroy_tech_pvt` leaves of the `private_t`: the two resamplers and the mutex are null.
unfoldable pub destroyed : Pvt → Pvt
destroyed p = record {
  cleanup_started = p.cleanup_started;
  close_requested = p.close_requested;
  audio_paused = p.audio_paused;
  streamer = p.streamer;
  mutex = false;
  resampler = false;
  playback_resampler = false;
}

unfoldable pub call_if : Bool → Call → Store → Store
unfolding call
call_if true c st = call c st
call_if false c st = st

unfoldable pub destroy_tech_pvt : Pvt → Store → Store
unfolding call_if destroyed put_pvt
destroy_tech_pvt p st = put_pvt (destroyed p) (
    call_if p.mutex mutex_destroy (
      call_if p.resampler resampler_destroy
        (call_if p.playback_resampler playback_resampler_destroy st)))
