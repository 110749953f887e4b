-- ===== src/Stream/Capture.antt =====
-- audio_streamer_glue.cpp: `stream_frame`, which reads the frames of the media bug and sends them on.
use mod_audio_stream.Prelude.{
  ℕ, ◌*◌, ◌/◌, Bool, ◌||◌, not, List, [], ◌∷◌, ◌++◌, u32, ltb, leb, ◌==◌, if◌then◌else◌, length,
}
use mod_audio_stream.Stream.Interfaces.{Buffers, Resampler, Resampled}

-- A frame that `switch_core_media_bug_read` hands out: `datalen` bytes, `samples` for each channel.
pub record Captured : Type 0 where
  pub bytes : List ℕ
  pub samples : ℕ

-- `if (!chunk.empty ()) streamer->writeBinary (...)`, for each chunk in turn.
unfoldable pub sent_chunks : List (List ℕ) → List (List ℕ)
sent_chunks [] = []
sent_chunks (chunk ∷ pending) =
    let rest = sent_chunks pending in if length chunk == 0 then rest else chunk ∷ rest

module _ (buffers : Buffers) (speex_lib : Resampler) where
  -- `sbuffer`, the resampler's own state and `pending_send` within one call.
  pub record Collected : Type 0 where
    pub sbuffer : buffers.Buffer
    pub speex : speex_lib.Speex
    pub pending : List (List ℕ)

  -- A full buffer is read whole, emptied, and becomes a chunk.
  unfoldable pub flush_full : Collected → Collected
  flush_full c =
      let n = buffers.inuse c.sbuffer in
      let out = buffers.read c.sbuffer n in
      if buffers.freespace c.sbuffer == 0
      then (if ltb 0 n
          then record c { sbuffer = buffers.clear out.1; pending = c.pending ++ out.0 ∷ [] }
          else c)
      else c

  -- `freespace >= datalen`; else the bytes are dropped.
  unfoldable pub store : Collected → List ℕ → Collected
  store c data' =
      if leb (length data') (buffers.freespace c.sbuffer)
      then record c { sbuffer = buffers.write c.sbuffer data' }
      else c

  -- The bodies of the two loops, without and with a resampler.
  unfoldable pub plain_frame : ℕ → Collected → Captured → Collected
  plain_frame rtp_packets c frame =
      if length frame.bytes == 0
      then c
      else if rtp_packets == 1
      then record c { pending = c.pending ++ frame.bytes ∷ [] }
      else flush_full (store c frame.bytes)

  -- `out_len` after the call is `r.out_len`; no bytes are stored where it is 0.
  unfoldable pub take_resampled : ℕ → Collected → Resampled speex_lib.Speex → Collected
  take_resampled rtp_packets c r =
      let d = record c { speex = r.speex } in
      if r.out_len == 0
      then flush_full d
      else if rtp_packets == 1
      then record d { pending = d.pending ++ r.bytes ∷ [] }
      else flush_full (store d r.bytes)

  unfoldable pub resampled_frame : ℕ → ℕ → Collected → Captured → Collected
  resampled_frame channels rtp_packets c frame =
      let out_len = u32 (buffers.freespace c.sbuffer / (channels * 2)) in
      if length frame.bytes == 0
      then c
      else if out_len == 0
      then flush_full c
      else take_resampled rtp_packets c
          (speex_lib.process c.speex channels frame.bytes frame.samples out_len)

  unfoldable pub plain_loop : ℕ → Collected → List Captured → Collected
  plain_loop rtp_packets c [] = c
  plain_loop rtp_packets c (frame ∷ frames) =
      plain_loop rtp_packets (plain_frame rtp_packets c frame) frames

  unfoldable pub resampled_loop : ℕ → ℕ → Collected → List Captured → Collected
  resampled_loop channels rtp_packets c [] = c
  resampled_loop channels rtp_packets c (frame ∷ frames) =
      resampled_loop channels rtp_packets (resampled_frame channels rtp_packets c frame) frames

  -- What `stream_frame` uses of the session's `private_t`. `has_streamer` is the test of
  -- `pAudioStreamer` and of what it points to.
  pub record Session : Type 0 where
    pub audio_paused : Bool
    pub cleanup_started : Bool
    pub has_streamer : Bool
    pub has_resampler : Bool
    pub channels : ℕ
    pub rtp_packets : ℕ
    pub sbuffer : buffers.Buffer
    pub speex : speex_lib.Speex

  unfoldable pub collect : Session → List Captured → Collected
  collect s frames =
      let c : Collected = record { sbuffer = s.sbuffer; speex = s.speex; pending = [] } in
      if not s.has_resampler
      then plain_loop s.rtp_packets c frames
      else resampled_loop s.channels s.rtp_packets c frames

  -- `locked` is what `switch_mutex_trylock` answers, `connected` what `isConnected` answers, `frames`
  -- what the calls of `switch_core_media_bug_read` return. The result holds the session and the calls
  -- of `writeBinary`.
  unfoldable pub stream_frame : Session → Bool → Bool → List Captured → Session × List (List ℕ)
  stream_frame s locked connected frames =
      let c = collect s frames in
      let s' = record s { sbuffer = c.sbuffer; speex = c.speex } in
      if s.audio_paused || s.cleanup_started
      then (s, [])
      else if not locked
      then (s, [])
      else if not s.has_streamer
      then (s, [])
      else if not connected
      then (s', [])
      else (s', sent_chunks c.pending)
