-- ===== src/Stream/Misfit.antt =====
-- `stream_frame` with frames whose size does not divide that of the buffer.
use mod_audio_stream.Prelude.{
  ℕ, zero, suc, ◌+◌, ◌*◌, ◌/◌, ◌%◌, ◌≤◌, ◌<◌, ◌≡◌, ◌≢◌, refl, ap, ap₂, ◌∙◌, true, false, List, [],
  ◌∷◌, ◌++◌, arith, length, length-append, All,
}
use mod_audio_stream.Stream.Interfaces.{Buffers, Resampler}
use mod_audio_stream.Stream.Capture.{
  Captured, Collected, sent_chunks, flush_full, store, plain_frame, plain_loop, Session,
  stream_frame,
}
use mod_audio_stream.Stream.FrameLaws.{Active, start, stream_frame-Active, collect-plain}
use mod_audio_stream.Stream.Stalled.{stalled_frame}

module _ (buffers : Buffers) (speex_lib : Resampler) where
  -- The room is some frames of `f` bytes and a rest that no frame fits.
  abbrev Misfit : ℕ → buffers.Buffer → Type 0
  Misfit f b = (m : ℕ) × (rest : ℕ) × (buffers.freespace b ≡ m * f + rest) × (0 < rest) × (rest < f)

  write_room :
      (b : buffers.Buffer) (x : List ℕ)
      → length x ≤ buffers.freespace b
      → buffers.freespace (buffers.write b x) + length x ≡ buffers.freespace b
  write_room b x fits =
      let held =
        ap length (buffers.write_contents b x fits) ∙ length-append (buffers.contents b) x in
      omega (
        arith,
        held,
        buffers.write_capacity b x,
        buffers.freespace_lem b,
        buffers.freespace_lem (buffers.write b x),
      )

  stored_frame :
      (rtp : ℕ) (c : Collected buffers speex_lib) (x : Captured)
      → rtp ≢ 1
      → 0 < length x.bytes
      → length x.bytes < buffers.freespace c.sbuffer
      → plain_frame buffers speex_lib rtp c x
        ≡ record c { sbuffer = buffers.write c.sbuffer x.bytes }
  unfolding plain_frame store flush_full
  stored_frame rtp c x several given fits =
      let more = write_room c.sbuffer x.bytes (omega arith) in ground (arith, more)

  abbrev Quiet : ℕ → Collected buffers speex_lib → Collected buffers speex_lib → Type 0
  Quiet f c d = Misfit f d.sbuffer × (d.pending ≡ c.pending)

  frame-Quiet :
      (rtp f : ℕ) (c : Collected buffers speex_lib) (x : Captured)
      → rtp ≢ 1
      → length x.bytes ≡ f
      → Misfit f c.sbuffer
      → Quiet f c (plain_frame buffers speex_lib rtp c x)
  frame-Quiet rtp f c x several size (zero, rest, room, left, short) =
      rw (stalled_frame buffers speex_lib rtp c x several (omega arith) (omega arith))
        ((zero, rest, room, left, short), refl)
  frame-Quiet rtp f c x several size (suc m, rest, room, left, short) =
      let fits : length x.bytes < buffers.freespace c.sbuffer = grind arith in
      let more = write_room c.sbuffer x.bytes (omega arith) in
      rw (stored_frame rtp c x several (omega arith) fits)
        ((m, rest, grind (arith, more), left, short), refl)

  loop-Quiet :
      (rtp f : ℕ) (c : Collected buffers speex_lib) (frames : List Captured)
      → rtp ≢ 1
      → All (λ x. length x.bytes ≡ f) frames
      → Misfit f c.sbuffer
      → Quiet f c (plain_loop buffers speex_lib rtp c frames)
  unfolding plain_loop
  loop-Quiet rtp f c [] several sizes h = (h, refl)
  loop-Quiet rtp f c (x ∷ frames) several sizes h =
      let one = frame-Quiet rtp f c x several sizes.0 h in
      let rest =
        loop-Quiet rtp f (plain_frame buffers speex_lib rtp c x) frames several sizes.1 one.0 in
      (rest.0, rest.1 ∙ one.1)

  -- The calls of `stream_frame`, each with the frames that it reads: the session, and what was sent.
  unfoldable pub stream_calls :
      Session buffers speex_lib → List (List Captured) → Session buffers speex_lib × List (List ℕ)
  unfolding stream_frame
  stream_calls s [] = (s, [])
  stream_calls s (frames ∷ calls) =
      let now = stream_frame buffers speex_lib s true true frames in
      let rest = stream_calls now.0 calls in (rest.0, now.1 ++ rest.1)

  calls_quiet :
      (s : Session buffers speex_lib) (f : ℕ) (calls : List (List Captured))
      → Active buffers speex_lib s
      → s.has_resampler ≡ false
      → s.rtp_packets ≢ 1
      → All (All (λ x. length x.bytes ≡ f)) calls
      → Misfit f s.sbuffer
      → (stream_calls s calls).1 ≡ []
  unfolding stream_calls sent_chunks
  calls_quiet s f [] on plain several sizes h = refl
  calls_quiet s f (frames ∷ calls) on plain several sizes h =
      let c = plain_loop buffers speex_lib s.rtp_packets (start buffers speex_lib s) frames in
      let q = loop-Quiet s.rtp_packets f (start buffers speex_lib s) frames several sizes.0 h in
      let now =
        stream_frame-Active buffers speex_lib s frames on
        ∙ ap
            (λ (d : Collected buffers speex_lib).
              (record s { sbuffer = d.sbuffer; speex = d.speex }, sent_chunks d.pending))
            (collect-plain buffers speex_lib s frames plain) in
      ap (λ (o : Session buffers speex_lib × List (List ℕ)). o.1 ++ (stream_calls o.0 calls).1) now
      ∙ ap₂ (λ l r. l ++ r) (ap sent_chunks q.1)
          (calls_quiet (record s { sbuffer = c.sbuffer; speex = c.speex }) f calls on plain several
            sizes.1 q.0)

  division : (n f : ℕ) → 0 < f → n ≡ n / f * f + n % f
  division n f h = grind arith

  remainder : (n f : ℕ) → 0 < f → n % f < f
  remainder n f h = grind arith

  -- Without a resampler, connected, not paused, with the lock and with more than one packet to a
  -- chunk, from an empty buffer: if all frames have one size that does not divide the buffer's,
  -- then however many calls of stream_frame are made and however many frames each reads, nothing is
  -- ever sent.
  pub stream_calls_silent :
      (s : Session buffers speex_lib) (f : ℕ) (calls : List (List Captured))
      → Active buffers speex_lib s
      → s.has_resampler ≡ false
      → s.rtp_packets ≢ 1
      → buffers.contents s.sbuffer ≡ []
      → 0 < f
      → buffers.capacity s.sbuffer % f ≢ 0
      → All (All (λ x. length x.bytes ≡ f)) calls
      → (stream_calls s calls).1 ≡ []
  stream_calls_silent s f calls on plain several fresh given odd sizes =
      let size = buffers.capacity s.sbuffer in
      let room : buffers.freespace s.sbuffer ≡ size =
        omega (arith, buffers.freespace_lem s.sbuffer, ap length fresh) in
      calls_quiet s f calls on plain several sizes (
        size / f,
        size % f,
        room ∙ division size f given,
        omega (arith, odd),
        remainder size f given,
      )
