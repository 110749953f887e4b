-- ===== src/Stream/Playback.antt =====
-- audio_streamer_glue.cpp: the playback queue. `onBinaryData` and `eventCallback` fill it,
-- `stream_frame_write` plays it frame by frame, `stream_session_break` empties it.
use mod_audio_stream.Prelude.{
  ℕ, ◌+◌, ◌*◌, ◌/◌, Bool, true, false, ◌||◌, not, Option, none, some, List, [], ◌∷◌, ◌++◌, ltb, leb,
  if◌then◌else◌, length,
}
use mod_audio_stream.Prelude.Ints.{ℤ, pos, ◌+ℤ◌, pred, is_spent}
use mod_audio_stream.Stream.Interfaces.{Buffers}

-- PLAYBACK_FRAME_MS.
abbrev pub playback_frame_ms : ℕ
playback_frame_ms = 20

-- The calls of `fire_playback_event`: `seq`, `size` and `remaining`, or `total`.
pub data Notice : Type 0 where
  chunk_played : ℕ → ℕ → ℤ → Notice
  queue_completed : ℕ → Notice

module _ (buffers : Buffers) where
  -- The playback fields of `private_t`.
  pub record Player : Type 0 where
    pub enabled : Bool
    pub paused : Bool
    pub cleanup_started : Bool
    pub in_response : Bool
    pub buffer : Option buffers.Buffer
    pub native_sampling : ℕ
    pub seq : ℕ
    pub remaining : ℤ

  -- 20 ms of 16-bit mono.
  unfoldable pub frame_bytes : Player → ℕ
  frame_bytes p = p.native_sampling * 2 * playback_frame_ms / 1000

  -- `src` of `src_len` bytes, resampled where that was needed, is written to the queue. The result
  -- of `switch_buffer_write` is not looked at: without room nothing is put in, and the frames are
  -- counted all the same.
  unfoldable pub queue_audio : Player → List ℕ → Player
  queue_audio p src = elim p.buffer [
    | none ↦ p
    | some b ↦ if not p.enabled then p else record p {
      buffer = some (buffers.write b src);
      in_response = true;
      remaining = p.remaining +ℤ (length src / frame_bytes p);
    }
  ]

  -- What a call of `stream_frame_write` puts into the write frame, and its events.
  pub record Played : Type 0 where
    pub player : Player
    pub bytes : List ℕ
    pub notices : List Notice

  abbrev pub silent : Player → Played
  silent p = record { player = p; bytes = []; notices = [] }

  -- The frame `out` of `size` bytes replaces the write frame; `b` is left in the buffer.
  unfoldable pub replace_frame : Player → buffers.Buffer → List ℕ → ℕ → Played
  replace_frame p b out size =
      let seq = p.seq + 1 in
      let remaining = pred p.remaining in
      let q = record p { buffer = some b; seq = seq; remaining = remaining } in
      if is_spent remaining
      then record {
        player = record q { in_response = false; seq = 0 };
        bytes = out;
        notices = chunk_played seq size remaining ∷ queue_completed seq ∷ [];
      }
      else record { player = q; bytes = out; notices = chunk_played seq size remaining ∷ [] }

  -- `datalen` of the write-replace frame; `none` is a null pointer.
  unfoldable pub has_room : Option ℕ → ℕ → Bool
  has_room none size = false
  has_room (some datalen) size = leb size datalen

  -- The part behind the tests. The frame is read before the write frame is looked at.
  unfoldable pub play_frame : Player → buffers.Buffer → Option ℕ → Played
  play_frame p b rframe =
      let size = if ltb 4096 (frame_bytes p) then 4096 else frame_bytes p in
      let out = buffers.read b size in
      if leb (frame_bytes p) (buffers.inuse b)
      then (if has_room rframe size
          then replace_frame p out.1 out.0 size
          else silent (record p { buffer = some out.1 }))
      else silent (record p { in_response = false })

  -- `locked` is what `switch_mutex_trylock` answers.
  unfoldable pub stream_frame_write : Player → Bool → Option ℕ → Played
  stream_frame_write p locked rframe = elim p.buffer [
    | none ↦ silent p
    | some b ↦
        if not p.enabled || p.paused
        then silent p
        else if p.cleanup_started
        then silent p
        else if not p.in_response
        then silent p
        else if not locked
        then silent p
        else play_frame p b rframe
  ]

  unfoldable pub session_break : Player → Player × List Notice
  session_break p =
      let q = record p { in_response = false; seq = 0; remaining = pos 0 } in
      elim p.buffer [
        | none ↦ (q, queue_completed 0 ∷ [])
        | some b ↦ (record q { buffer = some (buffers.clear b) }, queue_completed 0 ∷ [])
      ]

  -- Calls of `stream_frame_write` one after the other: the answer of the lock and the write frame.
  unfoldable pub play : Player → List (Bool × Option ℕ) → Played
  play p [] = silent p
  play p (t ∷ ticks) =
      let first = stream_frame_write p t.0 t.1 in
      let rest = play first.player ticks in
      record {
        player = rest.player;
        bytes = first.bytes ++ rest.bytes;
        notices = first.notices ++ rest.notices;
      }
