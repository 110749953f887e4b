-- ===== src/Stream/FrameLaws.antt =====
-- What `stream_frame` sends on.
use mod_audio_stream.Prelude.{
  ℕ, ◌*◌, ◌<◌, ◌≡◌, ◌≢◌, ◌⊎◌, refl, ap, ◌∙◌, true, false, List, [], ◌∷◌, ◌++◌, arith, length, All,
  subst,
}
use mod_audio_stream.Stream.Interfaces.{Buffers, Resampler}
use mod_audio_stream.Stream.Capture.{
  Captured, Collected, sent_chunks, plain_loop, resampled_loop, Session, collect, stream_frame,
}
use mod_audio_stream.Stream.CaptureLaws.{joined}
use mod_audio_stream.Stream.Conserved.{
  frames_bytes, Aligned, plain_loop-Added, resampled_loop-Produced,
}

pub sent_chunks-cons :
    (c : ℕ) (x : List ℕ) (p : List (List ℕ)) → sent_chunks ((c ∷ x) ∷ p) ≡ (c ∷ x) ∷ sent_chunks p
unfolding sent_chunks
sent_chunks-cons c x p = ground arith

joined-sent_chunks : (p : List (List ℕ)) → joined (sent_chunks p) ≡ joined p
unfolding joined
joined-sent_chunks [] = unfold sent_chunks in refl
joined-sent_chunks ([] ∷ p) =
    (let e : sent_chunks ([] ∷ p) ≡ sent_chunks p = unfold sent_chunks in refl in ap joined e)
    ∙ joined-sent_chunks p
joined-sent_chunks ((c ∷ x) ∷ p) =
    ap joined (sent_chunks-cons c x p) ∙ ap (◌++◌ (c ∷ x)) (joined-sent_chunks p)

All-sent_chunks {κ} : (P : List ℕ → Type κ) (p : List (List ℕ)) → All P p → All P (sent_chunks p)
All-sent_chunks P [] h = unfold sent_chunks in tt
All-sent_chunks P ([] ∷ p) h =
    let e : sent_chunks ([] ∷ p) ≡ sent_chunks p = unfold sent_chunks in refl in
    rw e (All-sent_chunks P p h.1)
All-sent_chunks P ((c ∷ x) ∷ p) h = rw (sent_chunks-cons c x p) (h.0, All-sent_chunks P p h.1)

module _ (buffers : Buffers) (speex_lib : Resampler) where
  -- The session takes part: not paused, not in cleanup, with its streamer.
  abbrev pub Active : Session buffers speex_lib → Type 0
  Active s = (s.audio_paused ≡ false) × (s.cleanup_started ≡ false) × (s.has_streamer ≡ true)

  -- The state of the loops as `stream_frame` starts them.
  abbrev pub start : Session buffers speex_lib → Collected buffers speex_lib
  start s = record { sbuffer = s.sbuffer; speex = s.speex; pending = [] }

  pub stream_frame-Active :
      (s : Session buffers speex_lib) (frames : List Captured)
      → Active s
      → let c = collect buffers speex_lib s frames in
        stream_frame buffers speex_lib s true true frames
        ≡ (record s { sbuffer = c.sbuffer; speex = c.speex }, sent_chunks c.pending)
  unfolding stream_frame
  stream_frame-Active s frames on = ground (arith, on)

  pub collect-plain :
      (s : Session buffers speex_lib) (frames : List Captured)
      → s.has_resampler ≡ false
      → collect buffers speex_lib s frames
        ≡ plain_loop buffers speex_lib s.rtp_packets (start s) frames
  unfolding collect
  collect-plain s frames e = ground arith

  collect-resampled :
      (s : Session buffers speex_lib) (frames : List Captured)
      → s.has_resampler ≡ true
      → collect buffers speex_lib s frames
        ≡ resampled_loop buffers speex_lib s.channels s.rtp_packets (start s) frames
  unfolding collect
  collect-resampled s frames e = ground arith

  -- Without a resampler, connected, not paused, with the lock and with more than one packet to a
  -- chunk, where each frame is empty or of f bytes, the buffer has room for k such frames, holds
  -- whole ones and is not full: stream_frame drops no byte. The chunks sent, and then what is left
  -- in the buffer, are the bytes that were in the buffer and those of the frames, in order; each
  -- chunk is as long as the buffer, and the buffer is again not full.
  pub stream_frame-plain :
      (s : Session buffers speex_lib) (frames : List Captured) (f k : ℕ)
      → Active s
      → s.has_resampler ≡ false
      → s.rtp_packets ≢ 1
      → 0 < f
      → Aligned buffers speex_lib f k (start s)
      → All (λ x. (length x.bytes ≡ 0) ⊎ (length x.bytes ≡ f)) frames
      → let out = stream_frame buffers speex_lib s true true frames in
        (joined out.1 ++ buffers.contents out.0.sbuffer
          ≡ buffers.contents s.sbuffer ++ frames_bytes frames)
        × All (λ x. length x ≡ k * f) out.1
        × Aligned buffers speex_lib f k (start out.0)
  unfolding joined
  stream_frame-plain s frames f k on plain several pos a sizes =
      let (added, a') =
        plain_loop-Added buffers speex_lib f k s.rtp_packets pos several (start s) frames sizes a in
      rw (stream_frame-Active s frames on, collect-plain s frames plain)
        (
          ap
                (λ z.
                  z
                  ++ buffers.contents
                      (plain_loop buffers speex_lib s.rtp_packets (start s) frames).sbuffer)
                (joined-sent_chunks _)
              ∙ added.bytes,
          All-sent_chunks _ _ (
              subst
                (λ n.
                  All (λ x. length x ≡ n)
                    (plain_loop buffers speex_lib s.rtp_packets (start s) frames).pending)
                a.size (added.chunks tt)),
          record { frames = a'.frames; held = a'.held; room = a'.room; size = a'.size },
        )

  -- With a resampler, connected, not paused, with the lock and with more than one packet to a
  -- chunk, whatever the frames and the resampler's answers: the chunks that stream_frame sends, and
  -- then what is left in the buffer, are the bytes that were in the buffer and those that the
  -- resampler wrote meanwhile, in order, and each chunk is as long as the buffer.
  pub stream_frame-resampled :
      (s : Session buffers speex_lib) (frames : List Captured)
      → Active s
      → s.has_resampler ≡ true
      → s.rtp_packets ≢ 1
      → let out = stream_frame buffers speex_lib s true true frames in
        (made : List ℕ) × (speex_lib.emitted out.0.speex ≡ speex_lib.emitted s.speex ++ made)
        × (joined out.1 ++ buffers.contents out.0.sbuffer ≡ buffers.contents s.sbuffer ++ made)
        × All (λ x. length x ≡ buffers.capacity s.sbuffer) out.1
  unfolding joined
  stream_frame-resampled s frames on resampled several =
      let (made, e, added) =
        resampled_loop-Produced buffers speex_lib s.channels s.rtp_packets several (start s)
          frames in
      rw (stream_frame-Active s frames on, collect-resampled s frames resampled)
        (
          made,
          e,
          ap
                (λ z.
                  z
                  ++ buffers.contents
                      (resampled_loop buffers speex_lib s.channels s.rtp_packets (start s)
                        frames).sbuffer)
                (joined-sent_chunks _)
              ∙ added.bytes,
          All-sent_chunks _ _ (added.chunks tt),
        )
