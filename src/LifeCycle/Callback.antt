-- ===== src/LifeCycle/Callback.antt =====
-- mod_audio_stream.c: `capture_callback`, the media bug's callback, with `stream_frame` and
-- `stream_frame_write` (modelled in Stream) as they act on the session.
use mod_audio_stream.Prelude.{Bool, true, false, not, none, if◌then◌else◌}
use mod_audio_stream.LifeCycle.Store.{Pvt, Store}
use mod_audio_stream.LifeCycle.Handlers.{session_cleanup}

-- `switch_abc_type_t`, as far as the callback tells its values apart.
pub data AbcType : Type 0 where
  abc_init abc_close abc_read abc_write abc_other : AbcType

-- `user_data` is the `private_t`; a close that nobody requested is the channel's.
unfoldable pub capture_callback :
    (Store → Bool × Store) → (Store → Bool × Store) → AbcType → Pvt → Store → Bool × Store
unfolding session_cleanup
capture_callback stream_frame stream_frame_write abc_init user_data st = (true, st)
capture_callback stream_frame stream_frame_write abc_close user_data st =
    (true, (session_cleanup none (not user_data.close_requested) st).1)
capture_callback stream_frame stream_frame_write abc_read user_data st =
    if user_data.close_requested then (false, st) else stream_frame st
capture_callback stream_frame stream_frame_write abc_write user_data st = stream_frame_write st
capture_callback stream_frame stream_frame_write abc_other user_data st = (true, st)
