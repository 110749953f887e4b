-- ===== src/Streamer/Events.antt =====
-- audio_streamer_glue.cpp: `eventCallback` and `onBinaryData`, with the resampling of what is to be
-- played. The session and its bug are given, as the player that the bug's user data holds.
use mod_audio_stream.Prelude.{
  ℕ, ◌+◌, ◌*◌, ◌/◌, ◌%◌, ◌^◌, Bool, true, false, ◌&&◌, ◌||◌, not, Option, none, some, List, [], ◌∷◌,
  codes, length, ltb, ◌==◌, if◌then◌else◌,
}
use mod_audio_stream.Prelude.Ints.{ℤ, pos, negsuc}
use mod_audio_stream.StreamUtils.Numeral.{equal_strings}
use mod_audio_stream.Stream.Interfaces.{Buffers, Resampler}
use mod_audio_stream.Stream.Playback.{Player, queue_audio}
use mod_audio_stream.Streamer.Message.{Json, Processed, process_message}

-- The calls of `m_notify`, and what else goes out. A text goes out as a C string, up to its first
-- zero byte.
pub data Notification : Type 0 where
  event_connect event_disconnect event_error event_json event_play : List ℕ → Notification
  initial_metadata close_bug : Notification

pub data NotifyEvent : Type 0 where
  connect_success connect_error connection_dropped message_received : NotifyEvent

-- `m_rawAudioActive` and `m_rawSampleRate`.
pub record RawMode : Type 0 where
  pub active : Bool
  pub rate : ℤ

module _ (buffers : Buffers) (resampler : Resampler) where
  -- The player with `playback_resampler` and `playback_sample_rate`.
  pub record Output : Type 0 where
    pub player : Player buffers
    pub speex : Option resampler.Speex
    pub speex_rate : ℤ

  -- `rate != tp->native_sampling && rate > 0 && src_len > 0`.
  unfoldable pub needs_resampling : ℤ → ℕ → List ℕ → Bool
  needs_resampling (negsuc n) native src = false
  needs_resampling (pos n) native src = not (n == native) && ltb 0 n && ltb 0 (length src)

  abbrev pub same_int : ℤ → ℤ → Bool
  same_int (pos m) (pos n) = m == n
  same_int (negsuc m) (negsuc n) = m == n
  same_int (pos m) (negsuc n) = false
  same_int (negsuc m) (pos n) = false

  abbrev has_speex : Option resampler.Speex → Bool
  has_speex none = false
  has_speex (some s) = true

  -- A resampler for this rate; `init` is `speex_resampler_init`, none where it fails.
  unfoldable pub renew : (ℤ → ℕ → Option resampler.Speex) → ℤ → Output → Output
  renew init rate o =
      if has_speex o.speex && same_int o.speex_rate rate
      then o
      else elim (init rate o.player.native_sampling) [
        | none ↦ record o { speex = none; speex_rate = pos 0 }
        | some s ↦ record o { speex = some s; speex_rate = rate }
      ]

  abbrev rate_of : ℤ → ℕ
  rate_of (pos n) = n
  rate_of (negsuc n) = 0

  -- `(spx_uint32_t) (src_len / 2)` samples go in; there is room for those that the ratio of the
  -- rates gives, and 32 more.
  unfoldable pub room_for : ℕ → ℕ → ℕ → ℕ
  room_for in_len native rate = (in_len * native / rate + 32) % 2 ^ 32

  -- The bytes that the resampler gives, or `src` where it gives none.
  unfoldable pub resample_source : ℤ → List ℕ → Output → List ℕ × Output
  unfolding room_for
  resample_source rate src o = elim o.speex [
    | none ↦ (src, o)
    | some s ↦
        let in_len = length src / 2 % 2 ^ 32 in
        let r =
          resampler.process s 1 src in_len
            (room_for in_len o.player.native_sampling (rate_of rate)) in
        let o' = record o { speex = some r.speex } in
        if ltb 0 r.out_len then (r.bytes, o') else (src, o')
  ]

  unfoldable pub resample : (ℤ → ℕ → Option resampler.Speex) → ℤ → List ℕ → Output → List ℕ × Output
  unfolding needs_resampling renew resample_source
  resample init rate src o =
      if needs_resampling rate o.player.native_sampling src
      then resample_source rate src (renew init rate o)
      else (src, o)

  abbrev pub has_buffer : Option buffers.Buffer → Bool
  has_buffer none = false
  has_buffer (some b) = true

  unfoldable pub queue_resampled : List ℕ × Output → Output
  unfolding queue_audio
  queue_resampled r = record r.1 { player = queue_audio buffers r.1.player r.0 }

  -- `tp && tp->playback_enabled && tp->playback_buffer`, and then the audio into the queue.
  unfoldable pub play_audio : (ℤ → ℕ → Option resampler.Speex) → ℤ → List ℕ → Output → Output
  unfolding resample queue_resampled
  play_audio init rate src o =
      if o.player.enabled && has_buffer o.player.buffer
      then queue_resampled (resample init rate src o)
      else o

  abbrev pub play_if : (ℤ → ℕ → Option resampler.Speex) → ℤ → List ℕ → Option Output → Option Output
  play_if init rate src none = none
  play_if init rate src (some o) = some (play_audio init rate src o)

  -- `onBinaryData`, where the session is located; the output is none without a bug.
  unfoldable pub on_binary_data :
      (ℤ → ℕ → Option resampler.Speex) → RawMode → List ℕ → Option Output → Option Output
  unfolding play_audio
  on_binary_data init mode data' o =
      if not mode.active || length data' == 0 then o else play_if init mode.rate data' o

  -- What an event leaves: the mode, the output, and what went out, in order.
  pub record Handled : Type 0 where
    pub mode : RawMode
    pub output : Option Output
    pub sent : List Notification

  abbrev is_empty : List ℕ → Bool
  is_empty s = length s == 0

  -- The message's text: the one rewritten, where processing succeeded.
  unfoldable pub text_of : Processed → List ℕ → List ℕ
  text_of pr message = if pr.is_ok then pr.rewritten else message

  unfoldable pub message_case :
      (ℤ → ℕ → Option resampler.Speex) → Processed → List ℕ → RawMode → Option Output → Handled
  unfolding equal_strings play_audio
  message_case init pr text mode o =
      if not pr.is_ok
      then record { mode = mode; output = o; sent = event_json text ∷ [] }
      else if equal_strings pr.audio_type (codes "raw") && is_empty pr.decoded_audio
      then record {
        mode = record { active = true; rate = pr.sample_rate };
        output = o;
        sent = event_json text ∷ [];
      }
      else if not (is_empty pr.decoded_audio)
      then record {
        mode = mode;
        output = play_if init pr.sample_rate pr.decoded_audio o;
        sent = event_play text ∷ [];
      }
      else record { mode = mode; output = o; sent = event_play text ∷ [] }

  module _ (json : Json) (opus : List ℕ → List ℕ) (init : ℤ → ℕ → Option resampler.Speex) where
    -- `eventCallback`, where the session is located. `send_initial_metadata` and `media_bug_close`
    -- look for the bug themselves.
    unfoldable pub event_callback : NotifyEvent → List ℕ → RawMode → Option Output → Handled
    unfolding message_case text_of process_message
    event_callback connect_success message mode o = record {
      mode = mode;
      output = o;
      sent = initial_metadata ∷ event_connect message ∷ [];
    }
    event_callback connection_dropped message mode o = record {
      mode = mode;
      output = o;
      sent = event_disconnect message ∷ [];
    }
    event_callback connect_error message mode o = record {
      mode = mode;
      output = o;
      sent = event_error message ∷ close_bug ∷ [];
    }
    event_callback message_received message mode o =
        let pr = process_message json opus message in
        message_case init pr (text_of pr message) mode o
