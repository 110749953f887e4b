-- ===== src/LifeCycle/Init.antt =====
-- audio_streamer_glue.cpp: `stream_session_init` and `stream_data_init`.
use mod_audio_stream.Prelude.{
  ℕ, suc, ◌-◌, ◌*◌, ◌/◌, ◌%◌, ◌^◌, Bool, true, false, ◌&&◌, not, Option, none, some, List, [], ◌∷◌,
  ◌++◌, codes, length, take, replicate, leb, ltb, ◌==◌, if◌then◌else◌,
}
use mod_audio_stream.Prelude.Ints.{ℤ, pos, negsuc}
use mod_audio_stream.StreamUtils.Numeral.{atoi, strtol}
use mod_audio_stream.LifeCycle.Store.{
  Pvt, Status, success, failed, Call, streamer_create, mutex_init, resampler_init, buffer_create,
  mutex_destroy, resampler_destroy, playback_resampler_destroy,
}

-- The channel's variables: `switch_channel_get_variable` and `switch_channel_var_true`.
pub record Channel : Type 0 where
  pub variable : List ℕ → Option (List ℕ)
  pub var_true : List ℕ → Bool

-- What the allocations answer: the memory of the `private_t`, the two buffers, the resampler.
pub record Granted : Type 0 where
  pub memory : Bool
  pub sbuffer : Bool
  pub playback_buffer : Bool
  pub resampler : Bool

-- The local variables of `stream_session_init`.
pub record Settings : Type 0 where
  pub deflate : Bool
  pub suppress_log : Bool
  pub heart_beat : ℤ
  pub rtp_packets : ℕ
  pub extra_headers : Option (List ℕ)
  pub tls_cafile : Option (List ℕ)
  pub tls_keyfile : Option (List ℕ)
  pub tls_certfile : Option (List ℕ)
  pub disable_hostname_validation : Bool
  pub playback_enabled : Bool

-- `value <= INT_MAX && value >= INT_MIN`.
unfoldable pub fits_int : ℤ → Bool
fits_int (pos n) = ltb n (2 ^ 31)
fits_int (negsuc n) = ltb n (2 ^ 31)

unfoldable pub heart_beat_of : Option (List ℕ) → ℤ
unfolding strtol fits_int
heart_beat_of none = pos 0
heart_beat_of (some text) =
    let read = strtol text in
    elim read.1 [ [] ↦ if fits_int read.0 then read.0 else pos 0 | c ∷ s ↦ pos 0 ]

-- `bSize % 20 != 0`, or below 20: one packet.
unfoldable pub packets_of : ℤ → ℕ
packets_of (negsuc n) = 1
packets_of (pos n) = if not (n % 20 == 0) then 1 else if leb 20 n then n / 20 else 1

unfoldable pub rtp_packets_of : Option (List ℕ) → ℕ
unfolding packets_of atoi
rtp_packets_of none = 1
rtp_packets_of (some text) = packets_of (atoi text)

unfoldable pub settings_of : Channel → Settings
unfolding heart_beat_of rtp_packets_of
settings_of ch = record {
  deflate = ch.var_true (codes "STREAM_MESSAGE_DEFLATE");
  suppress_log = ch.var_true (codes "STREAM_SUPPRESS_LOG");
  heart_beat = heart_beat_of (ch.variable (codes "STREAM_HEART_BEAT"));
  rtp_packets = rtp_packets_of (ch.variable (codes "STREAM_BUFFER_SIZE"));
  extra_headers = ch.variable (codes "STREAM_EXTRA_HEADERS");
  tls_cafile = ch.variable (codes "STREAM_TLS_CA_FILE");
  tls_keyfile = ch.variable (codes "STREAM_TLS_KEY_FILE");
  tls_certfile = ch.variable (codes "STREAM_TLS_CERT_FILE");
  disable_hostname_validation = ch.var_true (codes "STREAM_TLS_DISABLE_HOSTNAME_VALIDATION");
  playback_enabled = ch.var_true (codes "STREAM_PLAYBACK");
}

-- The `size_t` of a negative `int` wraps.
unfoldable pub size_of : ℤ → ℕ
size_of (pos n) = n
size_of (negsuc n) = 2 ^ 64 - suc n

-- `FRAME_SIZE_8000 * desiredSampling / 8000`, which rounds towards 0.
unfoldable pub frame_size : ℤ → ℤ
frame_size (pos n) = pos (320 * n / 8000)
frame_size (negsuc n) = let m = 320 * suc n / 8000 in if m == 0 then pos 0 else negsuc (m - 1)

unfoldable pub times : ℤ → ℕ → ℤ
times (pos n) k = pos (n * k)
times (negsuc n) k = let m = suc n * k in if m == 0 then pos 0 else negsuc (m - 1)

unfoldable pub capture_size : ℤ → ℕ → ℕ → ℕ
unfolding size_of frame_size times
capture_size desired channels packets =
    size_of (times (times (frame_size desired) channels) packets)

-- MAX_METADATA_LEN, and `strncpy` into the zeroed array of that size.
abbrev pub max_metadata_len : ℕ
max_metadata_len = 8192

unfoldable pub metadata_array : Option (List ℕ) → List ℕ
metadata_array none = replicate max_metadata_len 0
metadata_array (some text) =
    take max_metadata_len text ++ replicate (max_metadata_len - length text) 0

-- The `private_t` that is set up, and the calls made for it, the last one first.
pub record Data : Type 0 where
  pub pvt : Pvt
  pub ws_uri : List ℕ
  pub sampling : ℤ
  pub native_sampling : ℕ
  pub channels : ℕ
  pub rtp_packets : ℕ
  pub initial_metadata : List ℕ
  pub raw_rate : Option ℤ
  pub calls : List Call

-- `rate >= 8000 && rate % 8000 == 0`.
unfoldable pub is_raw_rate : ℤ → Bool
is_raw_rate (pos n) = leb 8000 n && n % 8000 == 0
is_raw_rate (negsuc n) = false

unfoldable pub raw_rate_of : Option (List ℕ) → Option ℤ
unfolding atoi is_raw_rate
raw_rate_of none = none
raw_rate_of (some text) = if is_raw_rate (atoi text) then some (atoi text) else none

-- `desiredSampling != sampling`, an `int` against a `uint32_t`.
unfoldable pub same_rate : ℤ → ℕ → Bool
same_rate (pos n) m = n == m
same_rate (negsuc n) m = 2 ^ 32 - suc n == m

abbrev pub pvt_with : Bool → Pvt
pvt_with resampler = record {
  cleanup_started = false;
  close_requested = false;
  audio_paused = false;
  streamer = some true;
  mutex = true;
  resampler = resampler;
  playback_resampler = false;
}

unfoldable pub data_with :
    Channel → Settings → ℕ → List ℕ → ℤ → ℕ → Option (List ℕ) → Bool → List Call → Data
unfolding metadata_array raw_rate_of
data_with ch set rate uri desired channels metadata resampler calls = record {
  pvt = pvt_with resampler;
  ws_uri = uri;
  sampling = desired;
  native_sampling = rate;
  channels = channels;
  rtp_packets = set.rtp_packets;
  initial_metadata = metadata_array metadata;
  raw_rate = raw_rate_of (ch.variable (codes "STREAM_SAMPLE_RATE"));
  calls = calls;
}

-- From the resampler on; `speex_resampler_init` returns null where it fails.
unfoldable pub init_resampler :
    Granted → ℤ → ℕ → (Bool → List Call → Data) → List Call → Status × Data
unfolding same_rate
init_resampler granted desired rate data_of calls =
    if same_rate desired rate
    then (success, data_of false calls)
    else if granted.resampler
    then (success, data_of true (resampler_init ∷ calls))
    else (failed, data_of false (resampler_init ∷ calls))

-- From the playback buffer on; PLAYBACK_BUFFER_SECONDS is 30, a sample has two bytes, and the
-- product is one of 32 bits.
unfoldable pub init_playback :
    Granted → Settings → ℤ → ℕ → (Bool → List Call → Data) → List Call → Status × Data
unfolding init_resampler
init_playback granted set desired rate data_of calls =
    let made = buffer_create (rate * 2 * 30 % 2 ^ 32) ∷ calls in
    if not set.playback_enabled
    then init_resampler granted desired rate data_of calls
    else if granted.playback_buffer
    then init_resampler granted desired rate data_of made
    else (failed, data_of false made)

unfoldable pub stream_data_init :
    Channel → Granted → Settings → ℕ → List ℕ → ℤ → ℕ → Option (List ℕ) → Status × Data
unfolding capture_size data_with init_playback
stream_data_init ch granted set rate uri desired channels metadata =
    let data_of = data_with ch set rate uri desired channels metadata in
    let made =
      buffer_create (capture_size desired channels set.rtp_packets)
      ∷ mutex_init
      ∷ streamer_create
      ∷ [] in
    if granted.sbuffer
    then init_playback granted set desired rate data_of made
    else (failed, data_of false made)

-- The calls of `destroy_tech_pvt`, behind the others.
unfoldable pub destroy_calls : Pvt → List Call → List Call
destroy_calls p calls =
    let one = if p.playback_resampler then playback_resampler_destroy ∷ calls else calls in
    let two = if p.resampler then resampler_destroy ∷ one else one in
    if p.mutex then mutex_destroy ∷ two else two

-- `*ppUserData` is set only where this succeeds. The calls are those made in either case.
unfoldable pub stream_session_init :
    Channel → Granted → ℕ → List ℕ → ℤ → ℕ → Option (List ℕ) → Option Data × List Call
unfolding settings_of stream_data_init destroy_calls
stream_session_init ch granted rate uri desired channels metadata =
    if not granted.memory
    then (none, [])
    else (let inited =
          stream_data_init ch granted (settings_of ch) rate uri desired channels metadata in
        elim inited.0 [
          | success ↦ (some inited.1, inited.1.calls)
          | failed ↦ (none, destroy_calls inited.1.pvt inited.1.calls)
        ])
