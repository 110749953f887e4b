-- ===== src/Commands/Session.antt =====
-- The commands on the session of LifeCycle: `stream_session_…` as the glue has them, and the rest
-- of what they use as FreeSWITCH answers it.
use mod_audio_stream.Prelude.{ℕ, Bool, true, Option, some, List, ◌++◌, codes}
use mod_audio_stream.Prelude.Ints.{ℤ}
use mod_audio_stream.LifeCycle.Store.{Pvt, Store, Status, success, failed}
use mod_audio_stream.LifeCycle.Handlers.{
  session_cleanup, session_send_text, session_pauseresume, session_destroy,
}
use mod_audio_stream.LifeCycle.Init.{Channel, Granted, Data, stream_session_init}
use mod_audio_stream.Commands.Backend.{Flags, Backend}

-- What FreeSWITCH answers. `break'` is `stream_session_break`, which Stream.Playback has.
pub record Freeswitch : Type 0 where
  pub channel : Channel
  pub granted : Granted
  pub pre_answer : Status
  pub read_codec : Option ℕ
  pub bug_added : Status
  pub break' : Store → Status × Store

abbrev pub store_of : Bool → Option Pvt → Store → Store
store_of a p st = record { attached = a; user_data = p; log = st.log }

unfoldable pub init_store :
    Freeswitch → ℕ → List ℕ → ℤ → ℕ → Option (List ℕ) → Store → Option Data × Store
unfolding stream_session_init
init_store host rate uri sampling channels metadata st =
    let inited =
      stream_session_init host.channel host.granted rate uri sampling channels metadata in
    (
      inited.0,
      record { attached = st.attached; user_data = st.user_data; log = inited.1 ++ st.log },
    )

-- The bug's user data is what `switch_core_media_bug_add` was given.
unfoldable pub add_store : Freeswitch → Data → Flags → Store → Status × Store
add_store host d flags st = elim host.bug_added [
  | success ↦ (success, store_of st.attached (some d.pvt) st)
  | failed ↦ (failed, st)
]

abbrev pub store_backend : Freeswitch → Backend Store Data
store_backend host = record {
  cleanup = session_cleanup;
  pauseresume = session_pauseresume;
  break' = host.break';
  send_text = session_send_text;
  init = init_store host;
  destroy = λ d st. (session_destroy (some d.pvt) st).1;
  get_private = λ st. st.attached;
  set_private = λ st. store_of true st.user_data st;
  pre_answer = λ st. (host.pre_answer, st);
  read_codec = λ st. host.read_codec;
  var_true = λ st. host.channel.var_true (codes "STREAM_PLAYBACK");
  bug_add = add_store host;
}
