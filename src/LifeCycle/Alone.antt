-- ===== src/LifeCycle/Alone.antt =====
-- One thread alone: its statements, run one by one, against the entry points as functions.
use mod_audio_stream.Prelude.{
  ℕ, zero, suc, ◌≡◌, refl, sym, subst, Bool, true, false, Option, none, some, List,
}
use mod_audio_stream.LifeCycle.Store.{
  Pvt, Store, Call, Status, call, put_pvt, detach, set_started, without_streamer,
}
use mod_audio_stream.LifeCycle.Handlers.{
  points, take_streamer, delete_wrapper, quit_streamer, finish_cleanup, cleanup_bug,
  session_cleanup, send_bug_text, session_send_text,
}
use mod_audio_stream.LifeCycle.Threads.{
  Op, cleanup, send, Pc, called, done, Shared, shared, look_up, acquire, check, on_pvt, act,
}

-- Up to `n` statements of thread `t`, and no other thread's.
unfoldable pub run : ℕ → ℕ → Pc → Shared → Pc × Shared
run zero t pc sh = (pc, sh)
run (suc n) t pc sh = elim (act t pc sh) [ none ↦ (pc, sh) | some next ↦ run n t next.0 next.1 ]

-- The entry point that runs an operation.
unfoldable pub handle : Op → Store → Status × Store
unfolding session_cleanup session_send_text
handle (cleanup text closing) st = session_cleanup text closing st
handle (send text) st = session_send_text text st

abbrev Alone : ℕ → Op → Store → Type 0
Alone t op st =
    run 8 t (called op) (shared st none) ≡ (done (handle op st).0, shared (handle op st).1 none)

abbrev with_mutex : Bool → Pvt → Pvt
with_mutex m p = record {
  cleanup_started = p.cleanup_started;
  close_requested = p.close_requested;
  audio_paused = p.audio_paused;
  streamer = p.streamer;
  mutex = m;
  resampler = p.resampler;
  playback_resampler = p.playback_resampler;
}

-- The statements of each case, one by one, on a `private_t` whose mutex is there.
module _ (t : ℕ) (log : List Call) (close paus res play : Bool) where
  abbrev pvt_of : Bool → Option Bool → Pvt
  pvt_of flag s = record {
    cleanup_started = flag;
    close_requested = close;
    audio_paused = paus;
    streamer = s;
    mutex = true;
    resampler = res;
    playback_resampler = play;
  }

  abbrev store_at : Bool → Pvt → Store
  store_at a p = record { attached = a; user_data = some p; log = log }

  Alone-fields :
      (op : Op) (a flag : Bool) (s : Option Bool) → Alone t op (store_at a (pvt_of flag s))
  unfolding run handle act look_up acquire check on_pvt call take_streamer put_pvt detach
      set_started without_streamer finish_cleanup cleanup_bug session_cleanup send_bug_text
      session_send_text points delete_wrapper quit_streamer
  Alone-fields (send text) false flag s = refl
  Alone-fields (cleanup text closing) false flag s = refl
  Alone-fields (send text) true flag none = refl
  Alone-fields (send text) true flag (some true) = refl
  Alone-fields (send text) true flag (some false) = refl
  Alone-fields (cleanup text closing) true true s = refl
  Alone-fields (cleanup text closing) true false s = refl

-- On a session with user data whose mutex is free and not destroyed, at most eight statements of
-- one thread alone do what the entry point as a function does, for a cleanup and for a text: the
-- same status, the same store, and the mutex free again.
pub run-handle :
    (t : ℕ) (op : Op) (st : Store) (p : Pvt)
    → st.user_data ≡ some p
    → p.mutex ≡ true
    → run 8 t (called op) (shared st none) ≡ (done (handle op st).0, shared (handle op st).1 none)
run-handle t op st p e live =
    subst (λ u. Alone t op (record { attached = st.attached; user_data = u; log = st.log })) (sym e)
      (subst
        (λ m.
          Alone t op
            (record { attached = st.attached; user_data = some (with_mutex m p); log = st.log }))
        (sym live)
        (Alone-fields t st.log p.close_requested p.audio_paused p.resampler p.playback_resampler op
          st.attached p.cleanup_started p.streamer))
