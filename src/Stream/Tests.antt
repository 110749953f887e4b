-- ===== src/Stream/Tests.antt =====
-- The media callbacks on concrete sessions, with the simple buffer and resampler.
use mod_audio_stream.Prelude.{
  replicate, length-replicate, ℕ, ◌≤◌, ◌≡◌, refl, inl, inr, Bool, true, false, Option, some, List,
  [], ◌∷◌, ◌++◌, arith, length, take, All,
}
use mod_audio_stream.Prelude.Ints.{pos}
use mod_audio_stream.Stream.Simple.{Store, simple_buffers, fresh, simple_resampler, write_store}
use mod_audio_stream.Stream.Capture.{
  Captured, Session, sent_chunks, stream_frame, collect, plain_loop, plain_frame, store, flush_full,
}
use mod_audio_stream.Stream.CaptureLaws.{joined}
use mod_audio_stream.Stream.Conserved.{frames_bytes, Aligned}
use mod_audio_stream.Stream.FrameLaws.{start, stream_frame-plain, stream_frame-resampled}
use mod_audio_stream.Stream.Misfit.{stream_calls, stream_calls_silent}
use mod_audio_stream.Stream.Playback.{Player, frame_bytes, queue_audio, silent, play}
use mod_audio_stream.Stream.PlaybackLaws.{notices_for, Served, Playing, completed}
use mod_audio_stream.Stream.Responses.{Idle, queue_audio-play, queue_audio-leftover}

-- A session of one channel over a buffer of `n` bytes.
abbrev session : Bool → ℕ → ℕ → Session simple_buffers simple_resampler
session resampled rtp n = record {
  audio_paused = false;
  cleanup_started = false;
  has_streamer = true;
  has_resampler = resampled;
  channels = 1;
  rtp_packets = rtp;
  sbuffer = fresh n;
  speex = [];
}

abbrev frame : List ℕ → Captured
frame s = record { bytes = s; samples = 1 }

-- Three frames of two bytes, and an empty one.
abbrev four_frames : List Captured
four_frames = frame (1 ∷ 2 ∷ []) ∷ frame [] ∷ frame (3 ∷ 4 ∷ []) ∷ frame (5 ∷ 6 ∷ []) ∷ []

chunks :
    (stream_frame simple_buffers simple_resampler (session false 2 4) true true four_frames).1
    ≡ (1 ∷ 2 ∷ 3 ∷ 4 ∷ []) ∷ []
unfolding stream_frame collect plain_loop plain_frame store flush_full sent_chunks write_store
chunks = refl

fresh-Aligned :
    Aligned simple_buffers simple_resampler 2 2
      (start simple_buffers simple_resampler (session false 2 4))
fresh-Aligned = record { frames = 0; held = refl; room = omega arith; size = refl }

stream_frame-plain_example :
    let out =
      stream_frame simple_buffers simple_resampler (session false 2 4) true true four_frames in
    (joined out.1 ++ out.0.sbuffer.bytes ≡ [] ++ frames_bytes four_frames)
    × All (λ x. length x ≡ 4) out.1
    × Aligned simple_buffers simple_resampler 2 2 (start simple_buffers simple_resampler out.0)
stream_frame-plain_example =
    stream_frame-plain simple_buffers simple_resampler (session false 2 4) four_frames 2 2
      (refl, refl, refl) refl (omega arith) (omega arith) fresh-Aligned
      (inr refl, (inl refl, (inr refl, (inr refl, tt))))

stream_frame-resampled_example :
    let out =
      stream_frame simple_buffers simple_resampler (session true 2 4) true true four_frames in
    (made : List ℕ) × (out.0.speex ≡ [] ++ made)
    × (joined out.1 ++ out.0.sbuffer.bytes ≡ [] ++ made)
    × All (λ x. length x ≡ 4) out.1
stream_frame-resampled_example =
    stream_frame-resampled simple_buffers simple_resampler (session true 2 4) four_frames
      (refl, refl, refl) refl (omega arith)

-- Frames of 30 ms at 8000 samples a second, and a buffer for 40 ms.
abbrev long_frame : Captured
long_frame = frame (replicate 480 0)

abbrev long_calls : List (List Captured)
long_calls = (long_frame ∷ []) ∷ (long_frame ∷ long_frame ∷ []) ∷ []

long_frame_size : length long_frame.bytes ≡ 480
long_frame_size = length-replicate {A = ℕ} 480 0

stream_calls_silent_example :
    (stream_calls simple_buffers simple_resampler (session false 2 640) long_calls).1 ≡ []
stream_calls_silent_example =
    stream_calls_silent simple_buffers simple_resampler (session false 2 640) 480 long_calls
      (refl, refl, refl) refl (omega arith) refl (omega arith) (omega arith)
      ((long_frame_size, tt), ((long_frame_size, (long_frame_size, tt)), tt))

-- A player with frames of two bytes: 50 samples a second.
abbrev player : Store → Bool → ℕ → Player simple_buffers
player b in_response n = record {
  enabled = true;
  paused = false;
  cleanup_started = false;
  in_response = in_response;
  buffer = some b;
  native_sampling = 50;
  seq = 0;
  remaining = pos n;
}

frame_size : frame_bytes simple_buffers (player (fresh 9) false 0) ≡ 2
unfolding frame_bytes
frame_size = refl

abbrev ticks : List (Bool × Option ℕ)
ticks = (true, some 320) ∷ (true, some 320) ∷ []

abbrev filled : Store
filled = record { free = 4; bytes = 1 ∷ 2 ∷ 3 ∷ 4 ∷ 5 ∷ [] }

filled-Playing : Playing simple_buffers (player filled true 2) filled
unfolding frame_bytes
filled-Playing = record {
  enabled = refl;
  not_paused = refl;
  not_ending = refl;
  in_response = refl;
  buffer = refl;
  frame_pos = omega arith;
  frame_bound = omega arith;
}

ticks-Served : All (Served (frame_bytes simple_buffers (player filled true 2))) ticks
unfolding frame_bytes
ticks-Served = ((refl, (320, refl, omega arith)), ((refl, (320, refl, omega arith)), tt))

fresh-Idle : Idle simple_buffers (player (fresh 9) false 0) (fresh 9)
unfolding frame_bytes
fresh-Idle = record {
  enabled = refl;
  not_paused = refl;
  not_ending = refl;
  buffer = refl;
  empty = refl;
  none_counted = refl;
  frame_pos = omega arith;
  frame_bound = omega arith;
}

abbrev answer : List ℕ
answer = 1 ∷ 2 ∷ 3 ∷ 4 ∷ []

queue_audio-play_example :
    let out =
      play simple_buffers (queue_audio simple_buffers (player (fresh 9) false 0) answer) ticks in
    (out.bytes ≡ answer)
    × (out.notices ≡ notices_for (frame_bytes simple_buffers (player (fresh 9) false 0)) 0 2)
    × ((left : Store) × (out.player ≡ completed simple_buffers (player (fresh 9) false 0) left)
        × (left.bytes ≡ []))
unfolding frame_bytes
queue_audio-play_example =
    queue_audio-play simple_buffers (player (fresh 9) false 0) (fresh 9) answer 1 ticks fresh-Idle
      refl (omega arith) refl ticks-Served

abbrev piece : List ℕ
piece = 1 ∷ 2 ∷ 3 ∷ []

queue_audio-leftover_example :
    let p = player (fresh 9) false 0 in
    let out =
      play simple_buffers
        (queue_audio simple_buffers (queue_audio simple_buffers p piece) piece)
        ticks in
    (out.bytes ≡ take 4 (piece ++ piece))
    × ((left : Store) × (out.player.buffer ≡ some left) × (2 ≤ length left.bytes))
    × ((more : List (Bool × Option ℕ))
        → play simple_buffers out.player more ≡ silent simple_buffers out.player)
unfolding frame_bytes
queue_audio-leftover_example =
    queue_audio-leftover simple_buffers (player (fresh 9) false 0) (fresh 9) piece piece ticks
      fresh-Idle (omega arith, omega arith, omega arith) (omega arith) refl ticks-Served
