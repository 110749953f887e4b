-- ===== src/Streamer/MessageLaws.antt =====
-- `processMessage` on messages of type streamAudio.
use mod_audio_stream.Prelude.{ℕ, ◌≡◌, refl, ap, ◌∙◌, some, List, codes}
use mod_audio_stream.Prelude.Ints.{ℤ}
use mod_audio_stream.StreamUtils.Numeral.{equal_strings}
use mod_audio_stream.Streamer.Message.{
  Json, check_audio, check_text, check_detached, process_data, process_type, process_root,
  process_message,
}

-- The message is an object of type streamAudio whose data have this audio type, rate and audio, and
-- print as `printed` without the audio.
pub record IsAudio (json : Json) (message type : List ℕ) (rate : ℤ) (audio printed : List ℕ)
    : Type 0 where
  pub root : json.Item
  pub data' : json.Item
  pub rest : json.Item
  pub audio_item : json.Item
  pub rate_item : json.Item
  pub parsed : json.parse message ≡ some root
  pub named : json.cstr root (codes "type") ≡ some (codes "streamAudio")
  pub given : json.item root (codes "data") ≡ some data'
  pub typed : json.cstr data' (codes "audioDataType") ≡ some type
  pub detached : json.detach data' (codes "audioData") ≡ (some audio_item, rest)
  pub text : json.string_of audio_item ≡ some audio
  pub rated : json.item rest (codes "sampleRate") ≡ some rate_item
  pub valued : json.valueint rate_item ≡ rate
  pub prints : json.print rest ≡ some printed

module _ {json : Json} (opus : List ℕ → List ℕ) {message type : List ℕ} {rate : ℤ}
    {audio printed : List ℕ} (m : IsAudio json message type rate audio printed) where
  process_data-IsAudio :
      process_data json opus (some m.data') ≡ check_audio opus type rate audio (some printed)
  unfolding process_data check_detached check_text
  process_data-IsAudio = rw (m.detached, m.typed, m.rated, m.valued, m.prints, m.text) refl

  process_type-IsAudio :
      process_type json opus m.root (some (codes "streamAudio"))
      ≡ check_audio opus type rate audio (some printed)
  unfolding process_type equal_strings
  process_type-IsAudio = ap (process_data json opus) m.given ∙ process_data-IsAudio

  pub process_message-IsAudio :
      process_message json opus message ≡ check_audio opus type rate audio (some printed)
  unfolding process_message process_root
  process_message-IsAudio =
      ap (process_root json opus) m.parsed
      ∙ ap (process_type json opus m.root) m.named
      ∙ process_type-IsAudio
