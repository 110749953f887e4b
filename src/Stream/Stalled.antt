-- ===== src/Stream/Stalled.antt =====
-- `stream_frame` without a resampler: frames that go out at once, and frames that never fit.
use mod_audio_stream.Prelude.{
  ℕ, ◌<◌, ◌≡◌, ◌≢◌, refl, sym, ap, ◌∙◌, true, false, List, [], ◌∷◌, ◌++◌, map, arith, length,
  append_assoc, append-nil, All, dec_lt,
}
use mod_audio_stream.Stream.Interfaces.{Buffers, Resampler}
use mod_audio_stream.Stream.Capture.{
  Captured, Collected, sent_chunks, flush_full, store, plain_frame, plain_loop, Session,
  stream_frame,
}
use mod_audio_stream.Stream.FrameLaws.{Active, start, stream_frame-Active, collect-plain}

module _ (buffers : Buffers) (speex_lib : Resampler) where
  pub stalled_frame :
      (rtp : ℕ) (c : Collected buffers speex_lib) (x : Captured)
      → rtp ≢ 1
      → 0 < buffers.freespace c.sbuffer
      → buffers.freespace c.sbuffer < length x.bytes
      → plain_frame buffers speex_lib rtp c x ≡ c
  unfolding plain_frame store flush_full
  stalled_frame rtp c x several free big = ground arith

  stalled_loop :
      (rtp : ℕ) (c : Collected buffers speex_lib) (frames : List Captured)
      → rtp ≢ 1
      → 0 < buffers.freespace c.sbuffer
      → All (λ x. buffers.freespace c.sbuffer < length x.bytes) frames
      → plain_loop buffers speex_lib rtp c frames ≡ c
  unfolding plain_loop
  stalled_loop rtp c [] several free big = refl
  stalled_loop rtp c (x ∷ frames) several free big =
      ap (λ d. plain_loop buffers speex_lib rtp d frames) (stalled_frame rtp c x several free big.0)
      ∙ stalled_loop rtp c frames several free big.1

  -- Without a resampler and with more than one packet to a chunk: once the buffer's room is not 0
  -- but less than every frame that comes, stream_frame sends nothing and changes nothing, however
  -- many frames come.
  pub stream_frame-stalled :
      (s : Session buffers speex_lib) (frames : List Captured)
      → Active buffers speex_lib s
      → s.has_resampler ≡ false
      → s.rtp_packets ≢ 1
      → 0 < buffers.freespace s.sbuffer
      → All (λ x. buffers.freespace s.sbuffer < length x.bytes) frames
      → stream_frame buffers speex_lib s true true frames ≡ (s, [])
  unfolding sent_chunks
  stream_frame-stalled s frames on plain several free big =
      rw
        (
          stream_frame-Active buffers speex_lib s frames on,
          collect-plain buffers speex_lib s frames plain,
          stalled_loop s.rtp_packets (start buffers speex_lib s) frames several free big,
        )
        refl

  direct_frame :
      (c : Collected buffers speex_lib) (x : Captured)
      → 0 < length x.bytes
      → plain_frame buffers speex_lib 1 c x ≡ record c { pending = c.pending ++ x.bytes ∷ [] }
  unfolding plain_frame
  direct_frame c x given = ground arith

  direct_skip :
      (c : Collected buffers speex_lib) (x : Captured)
      → length x.bytes ≡ 0
      → plain_frame buffers speex_lib 1 c x ≡ c
  unfolding plain_frame
  direct_skip c x empty = ground arith

  sent_first :
      (x : List ℕ) (p : List (List ℕ)) → 0 < length x → sent_chunks (x ∷ p) ≡ x ∷ sent_chunks p
  unfolding sent_chunks
  sent_first x p given = ground arith

  sent_skip : (x : List ℕ) (p : List (List ℕ)) → length x ≡ 0 → sent_chunks (x ∷ p) ≡ sent_chunks p
  unfolding sent_chunks
  sent_skip x p empty = ground arith

  -- The frames' bytes, in their order.
  abbrev pub bytes_of : List Captured → List (List ℕ)
  bytes_of = map (λ x. x.bytes)

  plain_loop-cons :
      (c : Collected buffers speex_lib) (x : Captured) (frames : List Captured)
      → plain_loop buffers speex_lib 1 c (x ∷ frames)
        ≡ plain_loop buffers speex_lib 1 (plain_frame buffers speex_lib 1 c x) frames
  unfolding plain_loop
  plain_loop-cons c x frames = refl

  direct_loop :
      (c : Collected buffers speex_lib) (frames : List Captured)
      → plain_loop buffers speex_lib 1 c frames
        ≡ record c { pending = c.pending ++ sent_chunks (bytes_of frames) }
  direct_loop c [] =
      unfold plain_loop in
      unfold sent_chunks in ap (λ p. record c { pending = p }) (sym (append-nil c.pending))
  direct_loop c (x ∷ frames) = plain_loop-cons c x frames ∙ elim (dec_lt 0 (length x.bytes)) [
    | yes given ↦
        let d = record c { pending = c.pending ++ x.bytes ∷ [] } in
        rw (direct_frame c x given, sent_first x.bytes (bytes_of frames) given)
          (direct_loop d frames
            ∙ ap (λ p. record c { pending = p })
                (append_assoc c.pending (x.bytes ∷ []) (sent_chunks (bytes_of frames))))
    | no none_ ↦
        rw
          (
            direct_skip c x (omega (arith, none_)),
            sent_skip x.bytes (bytes_of frames) (omega (arith, none_)),
          )
          (direct_loop c frames)
  ]

  sent_twice : (p : List (List ℕ)) → sent_chunks (sent_chunks p) ≡ sent_chunks p
  sent_twice [] = unfold sent_chunks in refl
  sent_twice (x ∷ p) = elim (dec_lt 0 (length x)) [
    | yes given ↦
        rw (sent_first x p given, sent_first x (sent_chunks p) given) (ap (◌∷◌ x) (sent_twice p))
    | no none_ ↦ rw (sent_skip x p (omega (arith, none_))) (sent_twice p)
  ]

  -- Without a resampler, connected, not paused, with the lock and with one packet to a chunk,
  -- stream_frame sends each frame that is not empty at once, in order, and leaves the session as it
  -- was.
  pub stream_frame-direct :
      (s : Session buffers speex_lib) (frames : List Captured)
      → Active buffers speex_lib s
      → s.has_resampler ≡ false
      → s.rtp_packets ≡ 1
      → stream_frame buffers speex_lib s true true frames ≡ (s, sent_chunks (bytes_of frames))
  stream_frame-direct s frames on plain single =
      rw
        (
          stream_frame-Active buffers speex_lib s frames on,
          collect-plain buffers speex_lib s frames plain,
          single,
          direct_loop (start buffers speex_lib s) frames,
          sent_twice (bytes_of frames),
        )
        refl
