-- ===== src/Streamer/EventLaws.antt =====
-- `eventCallback` on audio that the server sends in base64.
use mod_audio_stream.Prelude.{
  ℕ, ◌%◌, ◌≤◌, ◌<◌, ◌^◌, ◌≡◌, refl, sym, ap, subst, ◌∙◌, true, false, ◌&&◌, Option, some, List, [],
  ◌∷◌, ◌++◌, codes, AreBytes, length, arith, ok, if◌then◌else◌, ◌==◌,
}
use mod_audio_stream.Prelude.Ints.{ℤ, pos}
use mod_audio_stream.Prelude.Cases.{IfAny}
use mod_audio_stream.StreamUtils.Numeral.{equal_strings}
use mod_audio_stream.Base64.Decoder.{base64_decode}
use mod_audio_stream.Base64.Encoder.{base64_encode}
use mod_audio_stream.Base64.Laws.{base64_decode-base64_encode}
use mod_audio_stream.Stream.Interfaces.{Buffers, Resampler}
use mod_audio_stream.Stream.Playback.{Player, queue_audio}
use mod_audio_stream.Streamer.Message.{
  Json, Processed, is_unsupported_rate, is_raw_like, is_known_type, decode_audio, finish_message,
  decode_message, check_audio, process_message,
}
use mod_audio_stream.Streamer.MessageLaws.{IsAudio, process_message-IsAudio}
use mod_audio_stream.Streamer.Events.{
  event_json, event_play, message_received, RawMode, Output, needs_resampling, has_buffer, renew,
  resample_source, resample, queue_resampled, play_audio, play_if, text_of, message_case,
  event_callback,
}

-- The rates that raw audio may have.
pub record IsRate (n : ℕ) : Type 0 where
  pub multiple : n % 8000 ≡ 0
  pub least : 8000 ≤ n
  pub most : n ≤ 64000

supported : (n : ℕ) → IsRate n → is_unsupported_rate (pos n) ≡ false
unfolding is_unsupported_rate
supported n h = ground (arith, h.multiple, h.least, h.most)

abbrev decoded_as : List ℕ → ℤ → List ℕ → Processed
decoded_as bytes rate printed = record {
  is_ok = true;
  rewritten = printed;
  decoded_audio = bytes;
  sample_rate = rate;
  audio_type = codes "raw";
  errors = [];
}

module _ (opus : List ℕ → List ℕ) (audio printed bytes : List ℕ)
    (decodes : base64_decode audio false ≡ ok bytes) where
  check_audio_raw :
      (n : ℕ)
      → IsRate n
      → check_audio opus (codes "raw") (pos n) audio (some printed)
        ≡ decoded_as bytes (pos n) printed
  unfolding check_audio is_known_type is_raw_like equal_strings decode_message decode_audio
      finish_message
  check_audio_raw n h = rw (supported n h, decodes) refl

  check_audio_opus :
      (rate : ℤ)
      → check_audio opus (codes "opus") rate audio (some printed)
        ≡ decoded_as (opus bytes) (pos 48000) printed
  unfolding check_audio is_known_type is_raw_like equal_strings decode_message decode_audio
      finish_message
  check_audio_opus rate = rw decodes refl

module _ (buffers : Buffers) (resampler : Resampler) where
  abbrev Renew : Type 0
  Renew = ℤ → ℕ → Option resampler.Speex

  -- A message that is processed to audio, or to none.
  message_case_audio :
      (init : Renew) (c : ℕ) (bytes : List ℕ) (rate : ℤ) (printed : List ℕ) (mode : RawMode)
      (o : Option (Output buffers resampler))
      → message_case buffers resampler init (decoded_as (c ∷ bytes) rate printed) printed mode o
        ≡ record {
          mode = mode;
          output = play_if buffers resampler init rate (c ∷ bytes) o;
          sent = event_play printed ∷ [];
        }
  unfolding message_case equal_strings
  message_case_audio init c bytes rate printed mode o =
      let e : (length (c ∷ bytes) == 0) ≡ false = ground arith in rw e refl

  message_case_none :
      (init : Renew) (rate : ℤ) (printed : List ℕ) (mode : RawMode)
      (o : Option (Output buffers resampler))
      → message_case buffers resampler init (decoded_as [] rate printed) printed mode o ≡ record {
        mode = record { active = true; rate = rate };
        output = o;
        sent = event_json printed ∷ [];
      }
  unfolding message_case equal_strings
  message_case_none init rate printed mode o = refl

  needs_native : (n : ℕ) (src : List ℕ) → needs_resampling buffers resampler (pos n) n src ≡ false
  unfolding needs_resampling
  needs_native n src = ground arith

  resample_native :
      (init : Renew) (src : List ℕ) (o : Output buffers resampler)
      → resample buffers resampler init (pos o.player.native_sampling) src o ≡ (src, o)
  unfolding resample
  resample_native init src o =
      ap
        (λ b.
          if b
          then resample_source buffers resampler (pos o.player.native_sampling) src
              (renew buffers resampler init (pos o.player.native_sampling) o)
          else (src, o))
        (needs_native o.player.native_sampling src)

  -- Audio at the call's rate goes into the queue as it is.
  pub play_audio_native :
      (init : Renew) (src : List ℕ) (o : Output buffers resampler) {b : buffers.Buffer}
      → o.player.enabled ≡ true
      → o.player.buffer ≡ some b
      → play_audio buffers resampler init (pos o.player.native_sampling) src o
        ≡ record o { player = queue_audio buffers o.player src }
  unfolding play_audio queue_resampled
  play_audio_native init src o on there =
      let fed =
        queue_resampled buffers resampler
          (resample buffers resampler init (pos o.player.native_sampling) src o) in
      ap (λ e. if e && has_buffer buffers resampler o.player.buffer then fed else o) on
      ∙ ap (λ m. if has_buffer buffers resampler m then fed else o) there
      ∙ ap (queue_resampled buffers resampler) (resample_native init src o)

  module _ (json : Json) (opus : List ℕ → List ℕ) (init : Renew) (message : List ℕ)
      {printed : List ℕ} (mode : RawMode) (o : Option (Output buffers resampler)) where
    event_callback_decoded :
        (bytes : List ℕ) (rate : ℤ)
        → process_message json opus message ≡ decoded_as bytes rate printed
        → event_callback buffers resampler json opus init message_received message mode o
          ≡ message_case buffers resampler init (decoded_as bytes rate printed) printed mode o
    unfolding event_callback text_of
    event_callback_decoded bytes rate e =
        ap
          (λ pr.
            message_case buffers resampler init pr (text_of buffers resampler pr message) mode o)
          e

decode_encoded :
    (bytes audio : List ℕ)
    → base64_encode bytes false ≡ some audio
    → AreBytes bytes
    → length bytes < 2 ^ 32
    → base64_decode audio false ≡ ok bytes
decode_encoded bytes audio e h fits =
    let back = base64_decode-base64_encode bytes false h fits in
    let q : some back.0 ≡ some audio = sym back.1 ∙ e in
    subst (λ m. IfAny (λ t. base64_decode t false ≡ ok bytes) m) q back.2

event_callback-play :
    (buffers : Buffers) (resampler : Resampler) (json : Json) (opus : List ℕ → List ℕ)
    (init : ℤ → ℕ → Option resampler.Speex) {message audio printed : List ℕ} (bytes : List ℕ)
    (mode : RawMode) (o : Output buffers resampler) {b : buffers.Buffer}
    → base64_encode bytes false ≡ some audio
    → AreBytes bytes
    → 0 < length bytes
    → length bytes < 2 ^ 32
    → IsRate o.player.native_sampling
    → IsAudio json message (codes "raw") (pos o.player.native_sampling) audio printed
    → o.player.enabled ≡ true
    → o.player.buffer ≡ some b
    → event_callback buffers resampler json opus init message_received message mode (some o)
      ≡ record {
        mode = mode;
        output = some (record o { player = queue_audio buffers o.player bytes });
        sent = event_play printed ∷ [];
      }
event_callback-play buffers resampler json opus init [] mode o e h more fits rate m on there =
    absurd (omega arith)
event_callback-play buffers resampler json opus init {message = message} {audio = audio}
      {printed = printed} (c ∷ bytes) mode o e h more fits rate m on there =
    event_callback_decoded buffers resampler json opus init message mode (some o) (c ∷ bytes)
      (pos o.player.native_sampling)
      (process_message-IsAudio opus m
        ∙ check_audio_raw opus audio printed (c ∷ bytes) (decode_encoded (c ∷ bytes) audio e h fits)
            o.player.native_sampling rate)
    ∙ message_case_audio buffers resampler init c bytes (pos o.player.native_sampling) printed mode
        (some o)
    ∙ ap (λ q. record { mode = mode; output = some q; sent = event_play printed ∷ [] })
        (play_audio_native buffers resampler init (c ∷ bytes) o on there)

queue_audio-room :
    (buffers : Buffers) (p : Player buffers) (b : buffers.Buffer) (src : List ℕ)
    → p.enabled ≡ true
    → p.buffer ≡ some b
    → (queue_audio buffers p src).buffer ≡ some (buffers.write b src)
unfolding queue_audio
queue_audio-room buffers p b src on there = ground (arith, on, there)

-- A message of type streamAudio carries, as audio of type raw, the base64 encoding of one or more
-- bytes, fewer than 2^32, with the call's own rate, a multiple of 8000 from 8000 to 64000, and the
-- rest of its data can be printed. When it arrives, playback is enabled and there is a buffer with
-- room for the bytes, eventCallback puts exactly these bytes behind those in the buffer, sends the
-- play event with the rest of the data, and changes neither the raw binary mode nor the resampler.
-- The JSON library's answers are the message's, its printing given.
pub event_callback-queue_audio :
    (buffers : Buffers) (resampler : Resampler) (json : Json) (opus : List ℕ → List ℕ)
    (init : ℤ → ℕ → Option resampler.Speex) {message audio printed : List ℕ} (bytes : List ℕ)
    (mode : RawMode) (o : Output buffers resampler) {b : buffers.Buffer}
    → base64_encode bytes false ≡ some audio
    → AreBytes bytes
    → 0 < length bytes
    → length bytes < 2 ^ 32
    → length bytes ≤ buffers.freespace b
    → IsRate o.player.native_sampling
    → IsAudio json message (codes "raw") (pos o.player.native_sampling) audio printed
    → o.player.enabled ≡ true
    → o.player.buffer ≡ some b
    → (event_callback buffers resampler json opus init message_received message mode (some o)
        ≡ record {
          mode = mode;
          output = some (record o { player = queue_audio buffers o.player bytes });
          sent = event_play printed ∷ [];
        })
      × ((b' : buffers.Buffer) × ((queue_audio buffers o.player bytes).buffer ≡ some b')
          × (buffers.contents b' ≡ buffers.contents b ++ bytes))
event_callback-queue_audio buffers resampler json opus init bytes mode o {b = b} e h more fits room
      rate m on there =
    (
      event_callback-play buffers resampler json opus init bytes mode o e h more fits rate m on
          there,
      (
        buffers.write b bytes,
        queue_audio-room buffers o.player b bytes on there,
        buffers.write_contents b bytes room,
      ),
    )

-- A message of type streamAudio carries opus audio that is sound base64 but that the Opus decoder
-- makes nothing of. eventCallback takes it for the announcement of a raw stream: it switches the
-- raw binary mode on at 48000 samples, plays nothing, and sends the rest of the data as the JSON
-- event, not the play event.
pub event_callback_undecoded :
    (buffers : Buffers) (resampler : Resampler) (json : Json) (opus : List ℕ → List ℕ)
    (init : ℤ → ℕ → Option resampler.Speex) {message audio printed : List ℕ} (bytes : List ℕ)
    {rate : ℤ} (mode : RawMode) (o : Option (Output buffers resampler))
    → base64_decode audio false ≡ ok bytes
    → opus bytes ≡ []
    → IsAudio json message (codes "opus") rate audio printed
    → event_callback buffers resampler json opus init message_received message mode o ≡ record {
      mode = record { active = true; rate = pos 48000 };
      output = o;
      sent = event_json printed ∷ [];
    }
event_callback_undecoded buffers resampler json opus init {message = message} {audio = audio}
      {printed = printed} bytes {rate = rate} mode o decodes fails m =
    event_callback_decoded buffers resampler json opus init message mode o [] (pos 48000) (
      process_message-IsAudio opus m
      ∙ check_audio_opus opus audio printed bytes decodes rate
      ∙ ap (λ b. decoded_as b (pos 48000) printed) fails)
    ∙ message_case_none buffers resampler init (pos 48000) printed mode o
