-- ===== src/LifeCycle/Released.antt =====
-- A session that is taken down by one thread, and what calls do to it afterwards.
use mod_audio_stream.Prelude.{
  ℕ, ◌≡◌, refl, sym, subst, Bool, true, false, Option, none, some, List, [], ◌∷◌, ◌++◌, arith, not,
}
use mod_audio_stream.LifeCycle.Store.{
  Pvt, Store, Call, success, failed, call, call_if, put_pvt, detach, set_started, without_streamer,
  destroyed, destroy_tech_pvt, lock, unlock, bug_remove, wrapper_delete, write_text,
  mark_cleaned_up, disconnect, playback_resampler_destroy, resampler_destroy, mutex_destroy,
}
use mod_audio_stream.LifeCycle.Handlers.{
  points, take_streamer, remove_bug, delete_wrapper, write_last, quit_streamer, destroy_user_data,
  finish_cleanup, cleanup_bug, session_cleanup, session_send_text, session_pauseresume,
}

abbrev pub only_if : Bool → Call → List Call
only_if true c = c ∷ []
only_if false c = []

abbrev pub last_text : Option (List ℕ) → List Call
last_text none = []
last_text (some text) = write_text text ∷ []

abbrev pub goodbye : Option Bool → Option (List ℕ) → List Call
goodbye none text = []
goodbye (some true) text = disconnect ∷ mark_cleaned_up ∷ (last_text text ++ wrapper_delete ∷ [])
goodbye (some false) text = wrapper_delete ∷ []

-- The calls that take a session down, the last one first: each thing that is there is freed, once.
abbrev pub cleanup_calls : Pvt → Option (List ℕ) → Bool → List Call → List Call
cleanup_calls p text closing log =
    only_if p.mutex mutex_destroy
    ++ (only_if p.resampler resampler_destroy
        ++ (only_if p.playback_resampler playback_resampler_destroy
            ++ (goodbye p.streamer text
                ++ (only_if (not closing) bug_remove ++ unlock ∷ lock ∷ log))))

abbrev pub taken_down : Pvt → Option (List ℕ) → Bool → List Call → Store
taken_down p text closing log = record {
  attached = false;
  user_data = some (destroyed (without_streamer (set_started p)));
  log = cleanup_calls p text closing log;
}

cleanup_bug-taken_down :
    (p : Pvt) (text : Option (List ℕ)) (closing : Bool) (log : List Call)
    → p.cleanup_started ≡ false
    → cleanup_bug text closing p (record { attached = true; user_data = some p; log = log })
      ≡ (success, taken_down p text closing log)
unfolding cleanup_bug take_streamer finish_cleanup remove_bug delete_wrapper write_last
    quit_streamer points destroy_user_data destroy_tech_pvt call_if call put_pvt detach
    without_streamer set_started destroyed
cleanup_bug-taken_down p text closing log fresh = ground arith

pub session_cleanup-taken_down :
    (st : Store) (p : Pvt) (text : Option (List ℕ)) (closing : Bool)
    → st.attached ≡ true
    → st.user_data ≡ some p
    → p.cleanup_started ≡ false
    → session_cleanup text closing st ≡ (success, taken_down p text closing st.log)
unfolding session_cleanup
session_cleanup-taken_down st p text closing there given fresh =
    subst
      (λ a.
        session_cleanup text closing
          (record { attached = a; user_data = st.user_data; log = st.log })
        ≡ (success, taken_down p text closing st.log))
      (sym there)
      (subst
        (λ u.
          session_cleanup text closing (record { attached = true; user_data = u; log = st.log })
          ≡ (success, taken_down p text closing st.log))
        (sym given) (cleanup_bug-taken_down p text closing st.log fresh))

-- stream_session_cleanup on an attached session of which no cleanup was started succeeds; it
-- detaches and, unless the channel closes, removes the bug, deletes the wrapper, sends the last
-- text, marks and disconnects the streamer and destroys the resamplers and the mutex, each once and
-- only if it is there, in this order. Every later cleanup, text, pause or resume fails and changes
-- nothing.
pub session_cleanup-Released :
    (st : Store) (p : Pvt) (text : Option (List ℕ)) (closing : Bool)
    → st.attached ≡ true
    → st.user_data ≡ some p
    → p.cleanup_started ≡ false
    → (session_cleanup text closing st ≡ (success, taken_down p text closing st.log))
      × ((again : Option (List ℕ)) (closes : Bool)
          → session_cleanup again closes (session_cleanup text closing st).1
            ≡ (failed, (session_cleanup text closing st).1))
      × ((words : List ℕ)
          → session_send_text words (session_cleanup text closing st).1
            ≡ (failed, (session_cleanup text closing st).1))
      × ((pause : Bool)
          → session_pauseresume pause (session_cleanup text closing st).1
            ≡ (failed, (session_cleanup text closing st).1))
unfolding session_cleanup session_send_text session_pauseresume
session_cleanup-Released st p text closing there given fresh =
    let down = session_cleanup-taken_down st p text closing there given fresh in
    (down, (λ again closes. rw down refl), (λ words. rw down refl), (λ pause. rw down refl))
