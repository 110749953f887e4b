-- ===== src/Commands/Tests.antt =====
-- Commands on concrete inputs.
use mod_audio_stream.Prelude.{
  ℕ, suc, ◌≡◌, refl, true, false, Option, none, some, List, [], ◌∷◌, codes, arith,
}
use mod_audio_stream.Prelude.Ints.{pos}
use mod_audio_stream.StreamUtils.Uri.{validate_ws_uri, host_start, scan_host, port_is_fine}
use mod_audio_stream.StreamUtils.Numeral.{same_caseless}
use mod_audio_stream.LifeCycle.Store.{Store, success, failed}
use mod_audio_stream.LifeCycle.InitCalls.{Released}
use mod_audio_stream.Commands.Backend.{Backend}
use mod_audio_stream.Commands.Capture.{do_stop, start_capture}
use mod_audio_stream.Commands.Session.{Freeswitch, store_backend, init_store, add_store}
use mod_audio_stream.Commands.Dispatch.{
  Reply, ok_success, no_reply, Reaction, is_bad_rate, sampling_of, flags_of, stream_function,
}
use mod_audio_stream.Commands.Locks.{Unlocked, stream_function-Unlocked}
use mod_audio_stream.Commands.Starts.{Started, stream_function-Started}
use mod_audio_stream.Commands.Lifetime.{start_capture-do_stop}

-- A session that counts what is done to it.
abbrev counting : Backend ℕ ℕ
counting = record {
  cleanup = λ text closing n. (success, suc n);
  pauseresume = λ pause n. (success, suc n);
  break' = λ n. (success, suc n);
  send_text = λ text n. (success, suc n);
  init = λ rate uri sampling channels metadata n. (some 7, suc n);
  destroy = λ d n. n;
  get_private = λ n. false;
  set_private = λ n. suc n;
  pre_answer = λ n. (success, n);
  read_codec = λ n. some 8000;
  var_true = λ n. false;
  bug_add = λ d flags n. (success, suc n);
}

abbrev here : List ℕ → Option ℕ
here id = some 0

abbrev pause_words : List (List ℕ)
pause_words = codes "id" ∷ codes "Pause" ∷ []

abbrev start_words : List (List ℕ)
start_words = codes "id" ∷ codes "start" ∷ codes "ws://a" ∷ codes "mono" ∷ codes "16k" ∷ []

abbrev answered : Reply → ℕ → Reaction ℕ
answered reply n = record { reply = reply; left = some (record { session = n; locks = 0 }) }

command_pause : stream_function counting here pause_words ≡ some (answered ok_success 1)
unfolding stream_function
command_pause = refl

command_start : stream_function counting here start_words ≡ some (answered ok_success 3)
unfolding stream_function validate_ws_uri host_start scan_host port_is_fine
command_start = refl

-- A rate of 0 passes the test.
rate_zero : is_bad_rate (sampling_of (some (codes "0"))) ≡ false
unfolding is_bad_rate sampling_of
rate_zero = refl

-- Nothing is replied where the mix type is wrong.
command_mix :
    stream_function counting here (codes "id" ∷ codes "start" ∷ codes "ws://a" ∷ codes "left" ∷ [])
    ≡ some (answered no_reply 0)
unfolding stream_function validate_ws_uri host_start scan_host port_is_fine
command_mix = refl

stream_function-Unlocked_example : Unlocked (answered ok_success 3)
stream_function-Unlocked_example = stream_function-Unlocked counting here start_words command_start

start_named : same_caseless (codes "start") (codes "start") ≡ true
unfolding same_caseless
start_named = refl

stream_function-Started_example :
    (s : ℕ) × (here (codes "id") ≡ some s)
    × Started counting s
        (codes "ws://a")
        (codes "mono")
        (some (codes "16k"))
        none
        (some (record { session = 3; locks = 0 }))
stream_function-Started_example =
    stream_function-Started counting here (codes "id") (codes "start") (codes "ws://a")
      (codes "mono") (codes "16k" ∷ []) (ground arith) start_named command_start refl

abbrev host : Freeswitch
host = record {
  channel = record { variable = λ name. none; var_true = λ name. false };
  granted = record { memory = true; sbuffer = true; playback_buffer = true; resampler = true };
  pre_answer = success;
  read_codec = some 8000;
  bug_added = success;
  break' = λ st. (failed, st);
}

abbrev fresh : Store
fresh = record { attached = false; user_data = none; log = [] }

abbrev running : Store
running =
    (start_capture (store_backend host) (flags_of false false) (codes "ws://a") (pos 16000) none
      fresh).1

capture_started :
    start_capture
      (store_backend host)
      (flags_of false false)
      (codes "ws://a")
      (pos 16000)
      none
      fresh
    ≡ (success, running)
unfolding start_capture add_store init_store
capture_started = refl

start_capture-do_stop_example :
    ((do_stop (store_backend host) none running).0 ≡ success)
    × Released (do_stop (store_backend host) none running).1.log
    × ((do_stop (store_backend host) none (do_stop (store_backend host) none running).1).0 ≡ failed)
start_capture-do_stop_example =
    start_capture-do_stop host (flags_of false false) (codes "ws://a") (pos 16000) none none fresh
      refl capture_started
