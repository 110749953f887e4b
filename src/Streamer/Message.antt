-- ===== src/Streamer/Message.antt =====
-- audio_streamer_glue.cpp: `processMessage`. cJSON and the Opus decoder are given.
use mod_audio_stream.Prelude.{
  ℕ, ◌%◌, Bool, true, false, ◌&&◌, ◌||◌, not, Option, none, some, List, [], ◌∷◌, codes, leb, ◌==◌,
  Error, Result, ok, err, if◌then◌else◌,
}
use mod_audio_stream.Prelude.Ints.{ℤ, pos, negsuc}
use mod_audio_stream.StreamUtils.Numeral.{equal_strings}
use mod_audio_stream.Base64.Decoder.{base64_decode}

-- `cJSON_Parse`, `cJSON_GetObjectItem`, `cJSON_GetObjectCstr`, `cJSON_DetachItemFromObject` (with
-- what it leaves), the value of a string item, `valueint` and `cJSON_PrintUnformatted`.
pub record Json : Type 1 where
  pub Item : Type 0
  pub parse : List ℕ → Option Item
  pub item : Item → List ℕ → Option Item
  pub cstr : Item → List ℕ → Option (List ℕ)
  pub detach : Item → List ℕ → Option Item × Item
  pub string_of : Item → Option (List ℕ)
  pub valueint : Item → ℤ
  pub print : Item → Option (List ℕ)

pub data Failure : Type 0 where
  no_data missing_audio audio_no_string : Failure
  unsupported_type : List ℕ → Failure
  unsupported_rate : ℤ → Failure
  decode_error : Error → Failure
  print_failed : Failure

pub record Processed : Type 0 where
  pub is_ok : Bool
  pub rewritten : List ℕ
  pub decoded_audio : List ℕ
  pub sample_rate : ℤ
  pub audio_type : List ℕ
  pub errors : List Failure

abbrev pub nothing_processed : Processed
nothing_processed = record {
  is_ok = false;
  rewritten = [];
  decoded_audio = [];
  sample_rate = pos 8000;
  audio_type = [];
  errors = [];
}

abbrev pub failed_with : Failure → Processed
failed_with f = record nothing_processed { errors = f ∷ [] }

abbrev pub word_or : Option (List ℕ) → List ℕ → List ℕ
word_or none d = d
word_or (some s) d = s

-- `sampleRate % 8000 != 0 || sampleRate < 8000 || sampleRate > 64000`.
unfoldable pub is_unsupported_rate : ℤ → Bool
is_unsupported_rate (negsuc n) = true
is_unsupported_rate (pos n) = not (n % 8000 == 0) || not (leb 8000 n) || not (leb n 64000)

unfoldable pub is_raw_like : List ℕ → Bool
unfolding equal_strings
is_raw_like type =
    equal_strings type (codes "raw")
    || equal_strings type (codes "pcmu")
    || equal_strings type (codes "pcma")

unfoldable pub is_known_type : List ℕ → Bool
unfolding is_raw_like equal_strings
is_known_type type =
    is_raw_like type
    || equal_strings type (codes "wav")
    || equal_strings type (codes "mp3")
    || equal_strings type (codes "ogg")
    || equal_strings type (codes "opus")

-- The audio for the playback buffer. `opus` gives the bytes of the frames that were decoded, none
-- where the decoder fails. A file of type wav, mp3 or ogg is not decoded.
unfoldable pub decode_audio : (List ℕ → List ℕ) → List ℕ → ℤ → List ℕ → Processed
unfolding is_raw_like equal_strings
decode_audio opus type rate decoded =
    if is_raw_like type
    then record nothing_processed {
      decoded_audio = decoded;
      sample_rate = if equal_strings type (codes "raw") then rate else pos 8000;
      audio_type = type;
    }
    else if equal_strings type (codes "opus")
    then record nothing_processed {
      decoded_audio = opus decoded;
      sample_rate = pos 48000;
      audio_type = codes "raw";
    }
    else nothing_processed

unfoldable pub finish_message : Processed → Option (List ℕ) → Processed
finish_message out none = record out { errors = print_failed ∷ [] }
finish_message out (some text) = record out { is_ok = true; rewritten = text }

-- From the decoding of base64 on; `printed` is the rest of the data, printed.
unfoldable pub decode_message :
    (List ℕ → List ℕ) → List ℕ → ℤ → Result (List ℕ) → Option (List ℕ) → Processed
unfolding decode_audio finish_message
decode_message opus type rate (err e) printed = failed_with (decode_error e)
decode_message opus type rate (ok decoded) printed =
    finish_message (decode_audio opus type rate decoded) printed

-- From the tests of the type and the rate on.
unfoldable pub check_audio : (List ℕ → List ℕ) → List ℕ → ℤ → List ℕ → Option (List ℕ) → Processed
unfolding is_known_type is_unsupported_rate decode_message equal_strings base64_decode
check_audio opus type rate audio printed =
    if not (is_known_type type)
    then failed_with (unsupported_type type)
    else if equal_strings type (codes "raw") && is_unsupported_rate rate
    then failed_with (unsupported_rate rate)
    else decode_message opus type rate (base64_decode audio false) printed

module _ (json : Json) (opus : List ℕ → List ℕ) where
  abbrev rate_or : Option json.Item → ℤ → ℤ
  rate_or none d = d
  rate_or (some i) d = json.valueint i

  unfoldable pub check_text : List ℕ → ℤ → Option (List ℕ) → Option (List ℕ) → Processed
  unfolding check_audio
  check_text type rate printed none = failed_with audio_no_string
  check_text type rate printed (some text) = check_audio opus type rate text printed

  -- With what the detaching gave: the audio, and the rest of the data.
  unfoldable pub check_detached : List ℕ → Option json.Item × json.Item → Processed
  unfolding check_text
  check_detached type (none, rest) = failed_with missing_audio
  check_detached type (some audio, rest) =
      check_text type (rate_or (json.item rest (codes "sampleRate")) (pos 0)) (json.print rest)
        (json.string_of audio)

  -- A message of type streamAudio, from its data on. The audio is detached before the rate is read.
  unfoldable pub process_data : Option json.Item → Processed
  unfolding check_detached
  process_data none = failed_with no_data
  process_data (some data') =
      check_detached (word_or (json.cstr data' (codes "audioDataType")) [])
        (json.detach data' (codes "audioData"))

  unfoldable pub raw_rate_in : Option json.Item → ℤ
  raw_rate_in none = pos 8000
  raw_rate_in (some d) = rate_or (json.item d (codes "sampleRate")) (pos 8000)

  unfoldable pub process_type : json.Item → Option (List ℕ) → Processed
  unfolding process_data equal_strings raw_rate_in
  process_type root none = nothing_processed
  process_type root (some type) =
      if equal_strings type (codes "rawAudio")
      then record nothing_processed {
        is_ok = true;
        sample_rate = raw_rate_in (json.item root (codes "data"));
        audio_type = codes "raw";
      }
      else if not (equal_strings type (codes "streamAudio"))
      then nothing_processed
      else process_data (json.item root (codes "data"))

  unfoldable pub process_root : Option json.Item → Processed
  unfolding process_type
  process_root none = nothing_processed
  process_root (some root) = process_type root (json.cstr root (codes "type"))

  unfoldable pub process_message : List ℕ → Processed
  unfolding process_root
  process_message message = process_root (json.parse message)
