-- ===== src/LifeCycle/Handlers.antt =====
-- audio_streamer_glue.cpp: the entry points that take a session down or write to it, each run from
-- its first statement to its last by a thread that nothing interrupts, while the mutex is free and
-- not destroyed (Threads has the interleavings). `switch_core_media_bug_remove` calls back with a
-- close, whose cleanup finds no bug any more.
use mod_audio_stream.Prelude.{ℕ, Bool, false, Option, none, some, List, if◌then◌else◌}
use mod_audio_stream.LifeCycle.Store.{
  Pvt, Store, Status, success, failed, call, put_pvt, detach, set_started, without_streamer, paused,
  requested, destroy_tech_pvt, lock, unlock, bug_remove, bug_flush, bug_close, wrapper_delete,
  write_text, mark_cleaned_up, disconnect,
}

-- `sp_wrap && *sp_wrap`.
unfoldable pub points : Option Bool → Bool
points none = false
points (some full) = full

-- The part of `stream_session_cleanup` behind its test of `cleanup_started`, up to the unlock.
unfoldable pub take_streamer : Pvt → Store → Store
unfolding call put_pvt detach set_started without_streamer
take_streamer p st = call unlock (put_pvt (without_streamer (set_started p)) (detach st))

-- `if (!channelIsClosing) switch_core_media_bug_remove (session, &bug);`
unfoldable pub remove_bug : Bool → Store → Store
unfolding call
remove_bug closing st = if closing then st else call bug_remove st

-- `if (sp_wrap) delete sp_wrap;`
unfoldable pub delete_wrapper : Option Bool → Store → Store
unfolding call
delete_wrapper none st = st
delete_wrapper (some full) st = call wrapper_delete st

unfoldable pub write_last : Option (List ℕ) → Store → Store
unfolding call
write_last none st = st
write_last (some text) st = call (write_text text) st

-- `if (streamer) { if (text) writeText; markCleanedUp; disconnect; }`
unfoldable pub quit_streamer : Bool → Option (List ℕ) → Store → Store
unfolding call write_last
quit_streamer full text st =
    if full then call disconnect (call mark_cleaned_up (write_last text st)) else st

-- `destroy_tech_pvt` reads the `private_t` as it is by then.
unfoldable pub destroy_user_data : Store → Store
unfolding destroy_tech_pvt
destroy_user_data st = elim st.user_data [ none ↦ st | some p ↦ destroy_tech_pvt p st ]

unfoldable pub finish_cleanup : Option Bool → Option (List ℕ) → Bool → Store → Store
unfolding remove_bug delete_wrapper points quit_streamer destroy_user_data
finish_cleanup wrap text closing st =
    destroy_user_data
      (quit_streamer (points wrap) text (delete_wrapper wrap (remove_bug closing st)))

unfoldable pub cleanup_bug : Option (List ℕ) → Bool → Pvt → Store → Status × Store
unfolding call take_streamer finish_cleanup
cleanup_bug text closing p st =
    let locked = call lock st in
    if p.cleanup_started
    then (success, call unlock locked)
    else (success, finish_cleanup p.streamer text closing (take_streamer p locked))

unfoldable pub session_cleanup : Option (List ℕ) → Bool → Store → Status × Store
unfolding cleanup_bug
session_cleanup text closing st =
    if st.attached
    then elim st.user_data [ none ↦ (failed, st) | some p ↦ cleanup_bug text closing p st ]
    else (failed, st)

-- `stream_session_send_text`: the text goes out behind the unlock.
unfoldable pub send_bug_text : List ℕ → Pvt → Store → Status × Store
unfolding call points
send_bug_text text p st =
    let copied = call unlock (call lock st) in
    if points p.streamer then (success, call (write_text text) copied) else (failed, copied)

unfoldable pub session_send_text : List ℕ → Store → Status × Store
unfolding send_bug_text
session_send_text text st =
    if st.attached
    then elim st.user_data [ none ↦ (failed, st) | some p ↦ send_bug_text text p st ]
    else (failed, st)

unfoldable pub session_pauseresume : Bool → Store → Status × Store
unfolding call put_pvt paused
session_pauseresume pause st =
    if st.attached
    then elim st.user_data [
      | none ↦ (failed, st)
      | some p ↦ (success, put_pvt (paused pause p) (call bug_flush st))
    ]
    else (failed, st)

-- `media_bug_close`. A bug without user data is a null dereference: `none`.
unfoldable pub media_bug_close : Store → Option Store
unfolding call put_pvt requested
media_bug_close st =
    if st.attached
    then elim st.user_data [
      | none ↦ none
      | some p ↦ some (call bug_close (put_pvt (requested p) st))
    ]
    else some st

-- `stream_session_destroy`, which gets the `private_t` and not the bug; `none` is a null pointer
-- in `*ppUserData`. `ppUserData` itself is the address of a local variable.
unfoldable pub session_destroy : Option Pvt → Store → Status × Store
unfolding delete_wrapper quit_streamer points without_streamer destroy_tech_pvt
session_destroy none st = (failed, st)
session_destroy (some p) st = (
  success,
  destroy_tech_pvt (without_streamer p)
      (delete_wrapper p.streamer (quit_streamer (points p.streamer) none st)),
)
