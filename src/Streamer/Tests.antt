-- ===== src/Streamer/Tests.antt =====
-- Messages on concrete inputs.
use mod_audio_stream.Prelude.{
  ℕ, ◌≡◌, refl, true, false, Option, none, some, List, [], ◌∷◌, codes, arith, ok, ◌==◌,
  if◌then◌else◌,
}
use mod_audio_stream.Prelude.Ints.{ℤ, pos}
use mod_audio_stream.Base64.Encoder.{
  base64_encode, encode_loop, encode_round, char_of, trailing_char,
}
use mod_audio_stream.Base64.Decoder.{base64_decode, decode_loop, decode_round, pos_of_char}
use mod_audio_stream.Stream.Playback.{Player, queue_audio}
use mod_audio_stream.Stream.Simple.{Store, simple_buffers, simple_resampler, fresh}
use mod_audio_stream.Streamer.Message.{Json}
use mod_audio_stream.Streamer.MessageLaws.{IsAudio}
use mod_audio_stream.Streamer.Events.{
  event_json, event_play, message_received, RawMode, Output, event_callback,
}
use mod_audio_stream.Streamer.EventLaws.{
  IsRate, event_callback-queue_audio, event_callback_undecoded,
}

-- One message: item 0 is the whole, 1 its data, 2 the audio, 3 the rate, 4 the data without audio.
abbrev message_of : List ℕ → Json
message_of type = record {
  Item = ℕ;
  parse = λ message. some 0;
  item = λ i name. if i == 0 then some 1 else some 3;
  cstr = λ i name. if i == 0 then some (codes "streamAudio") else some type;
  detach = λ i name. (some 2, 4);
  string_of = λ i. some (codes "Zm9v");
  valueint = λ i. pos 8000;
  print = λ i. some (codes "{}");
}

message_of-IsAudio :
    (type : List ℕ)
    → IsAudio (message_of type) (codes "x") type (pos 8000) (codes "Zm9v") (codes "{}")
message_of-IsAudio type = record {
  root = 0;
  data' = 1;
  rest = 4;
  audio_item = 2;
  rate_item = 3;
  parsed = refl;
  named = refl;
  given = refl;
  typed = refl;
  detached = refl;
  text = refl;
  rated = refl;
  valued = refl;
  prints = refl;
}

abbrev quiet : RawMode
quiet = record { active = false; rate = pos 8000 }

abbrev player : Player simple_buffers
player = record {
  enabled = true;
  paused = false;
  cleanup_started = false;
  in_response = false;
  buffer = some (fresh 1000);
  native_sampling = 8000;
  seq = 0;
  remaining = pos 0;
}

abbrev output : Output simple_buffers simple_resampler
output = record { player = player; speex = none; speex_rate = pos 8000 }

abbrev no_opus : List ℕ → List ℕ
no_opus packet = []

abbrev no_speex : ℤ → ℕ → Option (List ℕ)
no_speex rate native = none

foo_encoded : base64_encode (codes "foo") false ≡ some (codes "Zm9v")
unfolding base64_encode encode_loop encode_round char_of trailing_char
foo_encoded = refl

foo_decoded : base64_decode (codes "Zm9v") false ≡ ok (codes "foo")
unfolding base64_decode decode_loop decode_round pos_of_char
foo_decoded = refl

IsRate-native : IsRate 8000
IsRate-native = record { multiple = refl; least = omega arith; most = omega arith }

event_callback-queue_audio_example :
    (event_callback simple_buffers simple_resampler
        (message_of (codes "raw"))
        no_opus
        no_speex
        message_received
        (codes "x")
        quiet
        (some output)
      ≡ record {
        mode = quiet;
        output = some (record output { player = queue_audio simple_buffers player (codes "foo") });
        sent = event_play (codes "{}") ∷ [];
      })
    × ((b : Store) × ((queue_audio simple_buffers player (codes "foo")).buffer ≡ some b)
        × (b.bytes ≡ codes "foo"))
event_callback-queue_audio_example =
    event_callback-queue_audio simple_buffers simple_resampler (message_of (codes "raw")) no_opus
      no_speex (codes "foo") quiet output foo_encoded (ground arith) (omega arith) (omega arith)
      (omega arith) IsRate-native (message_of-IsAudio (codes "raw")) refl refl

event_callback_undecoded_example :
    event_callback simple_buffers simple_resampler
      (message_of (codes "opus"))
      no_opus
      no_speex
      message_received
      (codes "x")
      quiet
      (some output)
    ≡ record {
      mode = record { active = true; rate = pos 48000 };
      output = some output;
      sent = event_json (codes "{}") ∷ [];
    }
event_callback_undecoded_example =
    event_callback_undecoded simple_buffers simple_resampler (message_of (codes "opus")) no_opus
      no_speex (codes "foo") quiet (some output) foo_decoded refl
      (message_of-IsAudio (codes "opus"))
