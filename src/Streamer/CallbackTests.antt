-- ===== src/Streamer/CallbackTests.antt =====
-- Callbacks on concrete inputs.
use mod_audio_stream.Prelude.{
  ℕ, ◌≡◌, refl, Bool, true, false, Option, none, some, List, [], ◌∷◌, ◌++◌, codes, arith, ◌==◌,
  if◌then◌else◌, All,
}
use mod_audio_stream.Prelude.Ints.{ℤ, pos}
use mod_audio_stream.WsClient.Frame.{make_frame}
use mod_audio_stream.WsClient.Receive.{opened, Receiver, Event, done, process_frame}
use mod_audio_stream.StreamUtils.CString.{c_string}
use mod_audio_stream.Stream.Playback.{Player, frame_bytes, play}
use mod_audio_stream.Stream.PlaybackLaws.{Served}
use mod_audio_stream.Stream.Responses.{Idle}
use mod_audio_stream.Stream.Simple.{simple_buffers, simple_resampler, fresh}
use mod_audio_stream.WsClient.Url.{set_url}
use mod_audio_stream.Streamer.Settings.{
  Wanted, Settings, Child, new_client, parsed_headers, fresh_endpoint,
}
use mod_audio_stream.Streamer.SettingsLaws.{lookup, last_text, named, IsSorted, new_client-lookup}
use mod_audio_stream.Streamer.Message.{Json}
use mod_audio_stream.Streamer.Events.{
  event_json, event_connect, event_disconnect, initial_metadata, RawMode, Output,
}
use mod_audio_stream.Streamer.Callbacks.{
  ClientCall, on_open, on_message, on_binary, on_close, Statuses, Hub, bind_callbacks,
  mark_cleaned_up, calls, calls_of,
}
use mod_audio_stream.Streamer.CallbackLaws.{calls-mark_cleaned_up}
use mod_audio_stream.Streamer.RawStream.{IsAnnouncement, Ready, process_frame-play}

-- One message: item 0 is the whole, 1 its data, 2 the rate.
abbrev announcement : Json
announcement = record {
  Item = ℕ;
  parse = λ message. some 0;
  item = λ i name. if i == 0 then some 1 else some 2;
  cstr = λ i name. some (codes "rawAudio");
  detach = λ i name. (none, i);
  string_of = λ i. none;
  valueint = λ i. pos 50;
  print = λ i. none;
}

announcement-IsAnnouncement : IsAnnouncement announcement (codes "x") (pos 50)
announcement-IsAnnouncement = record {
  root = 0;
  data' = 1;
  rate_item = 2;
  parsed = refl;
  named = refl;
  given = refl;
  rated = refl;
  valued = refl;
}

-- A player with frames of two bytes: 50 samples a second.
abbrev player : Player simple_buffers
player = record {
  enabled = true;
  paused = false;
  cleanup_started = false;
  in_response = false;
  buffer = some (fresh 9);
  native_sampling = 50;
  seq = 0;
  remaining = pos 0;
}

player-Idle : Idle simple_buffers player (fresh 9)
unfolding frame_bytes
player-Idle = record {
  enabled = refl;
  not_paused = refl;
  not_ending = refl;
  buffer = refl;
  empty = refl;
  none_counted = refl;
  frame_pos = omega arith;
  frame_bound = omega arith;
}

abbrev output : Output simple_buffers simple_resampler
output = record { player = player; speex = none; speex_rate = pos 0 }

abbrev quiet : RawMode
quiet = record { active = false; rate = pos 8000 }

abbrev streamer : Hub simple_buffers simple_resampler
streamer = record {
  alive = true;
  cleaned_up = false;
  bound = record {
    open_set = true;
    message_set = true;
    binary_set = true;
    error_set = true;
    close_set = true;
  };
  mode = quiet;
  output = some output;
  sent = [];
}

abbrev no_opus : List ℕ → List ℕ
no_opus packet = []

abbrev no_speex : ℤ → ℕ → Option (List ℕ)
no_speex rate native = none

abbrev statuses : Statuses
statuses = record {
  connected = codes "connected";
  error = λ code text. text;
  disconnected = λ code reason. reason;
}

streamer-Ready :
    Ready simple_buffers simple_resampler announcement no_opus no_speex statuses streamer output
streamer-Ready = record { alive = refl; kept = refl; texts = refl; binaries = refl; there = refl }

abbrev run :
    List ClientCall → Hub simple_buffers simple_resampler → Hub simple_buffers simple_resampler
run = calls simple_buffers simple_resampler announcement no_opus no_speex statuses

-- A whole connection.
connection :
    (run (on_open ∷ on_message (codes "x") ∷ on_close (pos 1000) (codes "bye") ∷ []) streamer).sent
    ≡ initial_metadata
      ∷ event_connect (codes "connected")
      ∷ event_json []
      ∷ event_disconnect (codes "bye")
      ∷ []
unfolding calls
connection = refl

rebound : bind_callbacks simple_buffers simple_resampler streamer ≡ streamer
unfolding bind_callbacks
rebound = refl

calls-mark_cleaned_up_example :
    let gone = mark_cleaned_up simple_buffers simple_resampler streamer in
    run (on_binary (1 ∷ []) ∷ on_close (pos 1000) [] ∷ []) gone ≡ gone
calls-mark_cleaned_up_example =
    calls-mark_cleaned_up simple_buffers simple_resampler announcement no_opus no_speex statuses
      (on_binary (1 ∷ []) ∷ on_close (pos 1000) [] ∷ []) streamer

abbrev key : List ℕ
key = 1 ∷ 2 ∷ 3 ∷ 4 ∷ []

abbrev audio : List ℕ
audio = 5 ∷ 6 ∷ 7 ∷ 8 ∷ []

abbrev receiver : Receiver
receiver = record {
  state = opened;
  running = true;
  rxbuf = [];
  on_message = true;
  on_binary = true;
}

abbrev ticks : List (Bool × Option ℕ)
ticks = (true, some 320) ∷ (true, some 320) ∷ []

ticks-Served : All (Served (frame_bytes simple_buffers player)) ticks
unfolding frame_bytes
ticks-Served = ((refl, (320, refl, omega arith)), ((refl, (320, refl, omega arith)), tt))

frame_size : frame_bytes simple_buffers player ≡ 2
unfolding frame_bytes
frame_size = refl

process_frame-play_example :
    (es : List Event) × (process_frame
        (record receiver { rxbuf = make_frame 1 key (codes "x") ++ make_frame 2 key audio })
      ≡ done (record receiver { rxbuf = [] }) es)
    × (let h' = run (calls_of es) streamer in
        (o' : Output simple_buffers simple_resampler) × (h'.output ≡ some o')
        × ((play simple_buffers o'.player ticks).bytes ≡ audio)
        × (h'.sent ≡ event_json [] ∷ []))
unfolding c_string
process_frame-play_example =
    process_frame-play simple_buffers simple_resampler announcement no_opus no_speex statuses
      receiver streamer output (fresh 9) key key (codes "x") audio 1 ticks refl refl refl refl
      (omega arith) (omega arith) streamer-Ready announcement-IsAnnouncement player-Idle
      (omega (arith, frame_size)) (omega arith) refl ticks-Served

-- Two headers, the first of which comes twice, and a number.
abbrev children : List (List ℕ × Option (List ℕ))
children =
    (codes "b", some (codes "1"))
    ∷ (codes "a", some (codes "2"))
    ∷ (codes "c", none)
    ∷ (codes "b", some (codes "3"))
    ∷ []

abbrev parse_children : List ℕ → Option (List Child)
parse_children text = some (named children)

abbrev wanted : Wanted
wanted = record {
  url = codes "ws://a/";
  heart_beat = pos 0;
  extra_headers = some (codes "{}");
  tls_cafile = none;
  tls_keyfile = none;
  tls_certfile = none;
  tls_disable = false;
}

new_client-lookup_example :
    (s : Settings) × (new_client parse_children wanted ≡ some s)
    × IsSorted s.headers
    × ((n : List ℕ) → lookup n s.headers ≡ last_text n children none)
    × (s.address ≡ set_url (codes "ws://a/") fresh_endpoint)
new_client-lookup_example = new_client-lookup parse_children wanted children refl refl

two_headers :
    parsed_headers parse_children (some (codes "{}"))
    ≡ some ((codes "a", codes "2") ∷ (codes "b", codes "3") ∷ [])
unfolding parsed_headers
two_headers = refl

-- The members of an array have no names.
an_array :
    new_client (λ text. some (record { name = none; text = some (codes "a") } ∷ [])) wanted ≡ none
unfolding new_client
an_array = refl
