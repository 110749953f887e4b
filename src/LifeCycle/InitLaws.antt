-- ===== src/LifeCycle/InitLaws.antt =====
-- What setting a session up leaves, where it fails and where it works.
use mod_audio_stream.Prelude.{
  ℕ, ◌≡◌, refl, sym, subst, Bool, true, Option, none, some, List, arith, not,
}
use mod_audio_stream.Prelude.Ints.{ℤ}
use mod_audio_stream.Prelude.Cases.{if_both}
use mod_audio_stream.LifeCycle.Store.{Pvt, Store, Call}
use mod_audio_stream.LifeCycle.Handlers.{session_cleanup}
use mod_audio_stream.LifeCycle.Released.{session_cleanup-taken_down, cleanup_calls}
use mod_audio_stream.LifeCycle.Init.{
  Channel, Granted, Data, pvt_with, stream_session_init, settings_of,
}
use mod_audio_stream.LifeCycle.InitCalls.{
  Leaked, SetUp, Released, IfFailed, IfMade, made-IfMade, Ended-IfFailed, stream_data_init-Ended,
}

-- Where stream_session_init fails once it has memory, the streamer was created, and nobody
-- disconnects it or deletes its wrapper.
pub stream_session_init-Leaked :
    (ch : Channel) (granted : Granted) (rate : ℕ) (uri : List ℕ) (desired : ℤ) (channels : ℕ)
    (metadata : Option (List ℕ))
    → granted.memory ≡ true
    → (stream_session_init ch granted rate uri desired channels metadata).0 ≡ none
    → Leaked (stream_session_init ch granted rate uri desired channels metadata).1
unfolding stream_session_init
stream_session_init-Leaked ch granted rate uri desired channels metadata there =
    if_both IfFailed (not granted.memory) _ _ (λ q. ground arith)
      (λ q.
        Ended-IfFailed _
          (stream_data_init-Ended ch granted (settings_of ch) rate uri desired channels metadata))

calls-Released :
    (resampled closing : Bool) (text : Option (List ℕ)) (d : Data) (calls : List Call)
    → (set : SetUp d calls) → resampled ≡ set.resampled
    → Released (cleanup_calls (pvt_with resampled) text closing calls)
calls-Released resampled closing text d calls set e = record {
  created = ground (arith, set.made);
  disconnected = ground (arith, set.linked);
  deleted = ground (arith, set.kept);
  mutex_made = ground (arith, set.mutex_made);
  mutex_freed = ground (arith, set.mutex_kept);
  resampler_freed = ground (arith, e, set.resampler_made, set.resampler_kept);
}

abbrev attached_store : Pvt → List Call → Store
attached_store p calls = record { attached = true; user_data = some p; log = calls }

pub stream_session_init-Released :
    (ch : Channel) (granted : Granted) (rate : ℕ) (uri : List ℕ) (desired : ℤ) (channels : ℕ)
    (metadata : Option (List ℕ)) {d : Data} {calls : List Call} (text : Option (List ℕ))
    (closing : Bool)
    → stream_session_init ch granted rate uri desired channels metadata ≡ (some d, calls)
    → Released
        (session_cleanup text closing
          (record { attached = true; user_data = some d.pvt; log = calls })).1.log
stream_session_init-Released ch granted rate uri desired channels metadata {d} {calls} text closing
      e =
    let set : SetUp d calls =
      subst IfMade e (made-IfMade ch granted rate uri desired channels metadata) in
    subst (λ p. Released (session_cleanup text closing (attached_store p calls)).1.log)
      (sym set.given)
      (subst (λ r. Released r.1.log)
        (sym (
          session_cleanup-taken_down (attached_store (pvt_with set.resampled) calls)
            (pvt_with set.resampled) text closing refl refl refl))
        (calls-Released set.resampled closing text d calls set refl))
