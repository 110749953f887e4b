-- ===== src/Stream/Responses.antt =====
-- Whole responses: audio that is queued and then played.
use mod_audio_stream.Prelude.{
  ℕ, zero, suc, ◌+◌, ◌*◌, ◌/◌, ◌≤◌, ◌<◌, ◌≡◌, refl, ap, ◌∙◌, Bool, true, false, Option, some, List,
  [], ◌∷◌, ◌++◌, arith, length, length-append, take, drop, length-drop, All, Option-cases, inl, inr,
}
use mod_audio_stream.Prelude.Slices.{take_all, drop_all}
use mod_audio_stream.Prelude.Ints.{pos, ◌+ℤ◌}
use mod_audio_stream.Stream.Interfaces.{Buffers}
use mod_audio_stream.Stream.Playback.{
  session_break, queue_completed, Player, frame_bytes, queue_audio, Played, silent,
  stream_frame_write, play,
}
use mod_audio_stream.Stream.PlaybackLaws.{
  notices_for, Served, Playing, Playing-next, next, completed, Whole, Whole-last, Whole-more,
}

module _ (buffers : Buffers) where
  -- While m + 1 frames are counted and the buffer holds their bytes, m + 1 calls of
  -- stream_frame_write that get the lock and room in the write frame play them in order, with their
  -- events; the player is then out of the response, and the bytes behind them stay in the buffer.
  pub play-Whole :
      (m : ℕ) (p : Player buffers) (b : buffers.Buffer) (ticks : List (Bool × Option ℕ))
      → Playing buffers p b
      → p.remaining ≡ pos (suc m)
      → suc m * frame_bytes buffers p ≤ length (buffers.contents b)
      → length ticks ≡ suc m
      → All (Served (frame_bytes buffers p)) ticks
      → Whole buffers p b (suc m) ticks
  unfolding frame_bytes
  play-Whole m p b [] on e enough count served = absurd (omega arith)
  play-Whole zero p b (t ∷ []) on e enough count served =
      Whole-last buffers p b t on served.0 e (omega arith)
  play-Whole zero p b (t ∷ u ∷ ticks) on e enough count served = absurd (omega arith)
  play-Whole (suc m) p b (t ∷ ticks) on e enough count served =
      let f = frame_bytes buffers p in
      let first : f ≤ length (buffers.contents b) = grind arith in
      let fits : f ≤ buffers.inuse b = omega (arith, first, buffers.inuse_lem b) in
      let left = ap length (buffers.read_contents b f fits) ∙ length-drop f (buffers.contents b) in
      Whole-more buffers p b t m ticks on served.0 e first (
        play-Whole m (next buffers p b t (suc m)) (buffers.read b f).1 ticks
          (Playing-next buffers p b t (suc m) on) refl (grind (arith, left, enough)) (omega arith)
          served.1)

  -- A player out of a response plays nothing.
  idle_write :
      (p : Player buffers) (t : Bool × Option ℕ)
      → p.in_response ≡ false
      → stream_frame_write buffers p t.0 t.1 ≡ silent buffers p
  unfolding stream_frame_write
  idle_write p t e = elim (Option-cases p.buffer) [
    | inl none_ ↦ ground (arith, e, none_)
    | inr (b, some_) ↦ ground (arith, e, some_)
  ]

  -- An idle player: out of a response, with `b` in its buffer and nothing counted.
  pub record Idle (p : Player buffers) (b : buffers.Buffer) : Type 0 where
    pub enabled : p.enabled ≡ true
    pub not_paused : p.paused ≡ false
    pub not_ending : p.cleanup_started ≡ false
    pub buffer : p.buffer ≡ some b
    pub empty : buffers.contents b ≡ []
    pub none_counted : p.remaining ≡ pos 0
    pub frame_pos : 0 < frame_bytes buffers p
    pub frame_bound : frame_bytes buffers p ≤ 4096

  -- `p` with `src` queued.
  abbrev pub queued : Player buffers → buffers.Buffer → List ℕ → ℕ → Player buffers
  queued p b src n = record p {
    buffer = some (buffers.write b src);
    in_response = true;
    remaining = pos n;
  }

  queue_audio_lem :
      (p : Player buffers) (b : buffers.Buffer) (src : List ℕ) (r : ℕ)
      → p.enabled ≡ true
      → p.buffer ≡ some b
      → p.remaining ≡ pos r
      → queue_audio buffers p src ≡ queued p b src (r + length src / frame_bytes buffers p)
  unfolding queue_audio ◌+ℤ◌
  queue_audio_lem p b src r on e counted = ground (arith, on, e, counted)

  idle_play :
      (p : Player buffers) (ticks : List (Bool × Option ℕ))
      → p.in_response ≡ false
      → play buffers p ticks ≡ silent buffers p
  unfolding play
  idle_play p [] e = refl
  idle_play p (t ∷ ticks) e =
      ap
        (λ (f : Played buffers). record {
          player = (play buffers f.player ticks).player;
          bytes = f.bytes ++ (play buffers f.player ticks).bytes;
          notices = f.notices ++ (play buffers f.player ticks).notices;
        })
        (idle_write p t e)
      ∙ idle_play p ticks e

  Playing-queued :
      (p : Player buffers) (b b' : buffers.Buffer) (n : ℕ)
      → Idle p b
      → Playing buffers (record p { buffer = some b'; in_response = true; remaining = pos n }) b'
  unfolding frame_bytes
  Playing-queued p b b' n i = record {
    enabled = i.enabled;
    not_paused = i.not_paused;
    not_ending = i.not_ending;
    in_response = refl;
    buffer = refl;
    frame_pos = i.frame_pos;
    frame_bound = i.frame_bound;
  }

  frames_in : (m f n : ℕ) → 0 < f → n ≡ m * f → n / f ≡ m
  frames_in m f n h e = grind arith

  -- A player that is idle with an empty buffer gets audio of m + 1 whole frames, which fits its
  -- buffer: m + 1 calls of stream_frame_write that get the lock and room in the write frame play
  -- exactly that audio, in order, fire a chunk_played for each frame with the count of those left
  -- and one queue_completed at the end, and leave the player idle with an empty buffer. A frame has
  -- 1 to 4096 bytes.
  pub queue_audio-play :
      (p : Player buffers) (b : buffers.Buffer) (src : List ℕ) (m : ℕ)
      (ticks : List (Bool × Option ℕ))
      → Idle p b
      → length src ≡ suc m * frame_bytes buffers p
      → length src ≤ buffers.freespace b
      → length ticks ≡ suc m
      → All (Served (frame_bytes buffers p)) ticks
      → let out = play buffers (queue_audio buffers p src) ticks in
        (out.bytes ≡ src)
        × (out.notices ≡ notices_for (frame_bytes buffers p) p.seq (suc m))
        × ((left : buffers.Buffer) × (out.player ≡ completed buffers p left)
            × (buffers.contents left ≡ []))
  unfolding frame_bytes
  queue_audio-play p b src m ticks i size fits count served =
      let f = frame_bytes buffers p in
      let counted : queue_audio buffers p src ≡ queued p b src (suc m) =
        queue_audio_lem p b src 0 i.enabled i.buffer i.none_counted
        ∙ ap (queued p b src) (omega (arith, frames_in (suc m) f (length src) i.frame_pos size)) in
      let held : buffers.contents (buffers.write b src) ≡ src =
        buffers.write_contents b src fits ∙ ap (λ s. s ++ src) i.empty in
      let w =
        play-Whole m (queued p b src (suc m)) (buffers.write b src) ticks
          (Playing-queued p b (buffers.write b src) (suc m) i) refl
          (omega (arith, size, ap length held)) count served in
      rw counted (
        w.bytes ∙ ap (take (suc m * f)) held ∙ take_all src (suc m * f) (omega (arith, size)),
        w.notices,
        (
          w.left,
          w.player,
          w.rest ∙ ap (drop (suc m * f)) held ∙ drop_all src (suc m * f) (omega (arith, size)),
        ),
      )

  one_frame : (f n : ℕ) → 0 < f → f ≤ n → n < f + f → n / f ≡ 1
  one_frame f n h low high = grind arith

  -- An idle player with an empty buffer gets two pieces of audio that fit, each shorter than two
  -- frames, and of three frames' bytes or more together. The frames are counted for each piece by
  -- itself: after the two counted frames the player is out of the response with a whole frame or
  -- more in its buffer, and no further call of stream_frame_write plays anything.
  pub queue_audio-leftover :
      (p : Player buffers) (b : buffers.Buffer) (src src' : List ℕ) (ticks : List (Bool × Option ℕ))
      → Idle p b
      → (length src < frame_bytes buffers p + frame_bytes buffers p)
        × (length src' < frame_bytes buffers p + frame_bytes buffers p)
        × (3 * frame_bytes buffers p ≤ length src + length src')
      → length src + length src' ≤ buffers.freespace b
      → length ticks ≡ 2
      → All (Served (frame_bytes buffers p)) ticks
      → let out = play buffers (queue_audio buffers (queue_audio buffers p src) src') ticks in
        (out.bytes ≡ take (2 * frame_bytes buffers p) (src ++ src'))
        × ((left : buffers.Buffer) × (out.player.buffer ≡ some left)
            × (frame_bytes buffers p ≤ length (buffers.contents left)))
        × ((more : List (Bool × Option ℕ))
            → play buffers out.player more ≡ silent buffers out.player)
  unfolding frame_bytes
  queue_audio-leftover p b src src' ticks i sizes fits count served =
      let f = frame_bytes buffers p in
      let q = queued p b src 1 in
      let free = buffers.freespace_lem b in
      let free' = buffers.freespace_lem (buffers.write b src) in
      let held : buffers.contents (buffers.write b src) ≡ src =
        buffers.write_contents b src (omega (arith, fits)) ∙ ap (λ s. s ++ src) i.empty in
      let held' : buffers.contents (buffers.write (buffers.write b src) src') ≡ src ++ src' =
        buffers.write_contents (buffers.write b src) src' (
          omega (
            arith,
            fits,
            free,
            free',
            buffers.write_capacity b src,
            ap length held,
            ap length i.empty,
          ))
        ∙ ap (λ s. s ++ src') held in
      let long : length (src ++ src') ≡ length src + length src' = length-append src src' in
      let first : queue_audio buffers p src ≡ q =
        queue_audio_lem p b src 0 i.enabled i.buffer i.none_counted
        ∙ ap (queued p b src) (
            omega (
              arith,
              one_frame f (length src) i.frame_pos (omega (arith, sizes)) (omega (arith, sizes)),
            )) in
      let second : queue_audio buffers q src' ≡ queued q (buffers.write b src) src' 2 =
        queue_audio_lem q (buffers.write b src) src' 1 i.enabled refl refl
        ∙ ap (queued q (buffers.write b src) src') (
            omega (
              arith,
              one_frame f (length src') i.frame_pos (omega (arith, sizes)) (omega (arith, sizes)),
            )) in
      let w =
        play-Whole 1 (queued q (buffers.write b src) src' 2)
          (buffers.write (buffers.write b src) src') ticks
          (Playing-queued p b (buffers.write (buffers.write b src) src') 2 i) refl
          (omega (arith, sizes, ap length held', long)) count served in
      rw (first, second)
        (
          w.bytes ∙ ap (take (2 * f)) held',
          (
            w.left,
            ap (λ (z : Player buffers). z.buffer) w.player,
            omega (
              arith,
              ap length w.rest,
              length-drop (2 * f) (buffers.contents (buffers.write (buffers.write b src) src')),
              ap length held',
              long,
              sizes,
            ),
          ),
          λ more. idle_play _ more (ap (λ (z : Player buffers). z.in_response) w.player),
        )

  session_break_lem :
      (p : Player buffers) (b : buffers.Buffer)
      → p.buffer ≡ some b
      → session_break buffers p ≡ (
        record p {
          in_response = false;
          buffer = some (buffers.clear b);
          seq = 0;
          remaining = pos 0;
        },
        queue_completed 0 ∷ [],
      )
  unfolding session_break
  session_break_lem p b e = ground (arith, e)

  -- For a player with a buffer, enabled, not paused and not in cleanup, with frames of 1 to 4096
  -- bytes: stream_session_break leaves it idle, with an empty buffer and nothing counted, fires one
  -- queue_completed, and no further call of stream_frame_write plays anything.
  pub session_break-Idle :
      (p : Player buffers) (b : buffers.Buffer)
      → p.enabled ≡ true
      → p.paused ≡ false
      → p.cleanup_started ≡ false
      → p.buffer ≡ some b
      → 0 < frame_bytes buffers p
      → frame_bytes buffers p ≤ 4096
      → Idle (session_break buffers p).0 (buffers.clear b)
        × ((more : List (Bool × Option ℕ))
            → play buffers (session_break buffers p).0 more
              ≡ silent buffers (session_break buffers p).0)
        × ((session_break buffers p).1 ≡ queue_completed 0 ∷ [])
  unfolding frame_bytes
  session_break-Idle p b on playing going e h h' =
      let stopped = record p {
        in_response = false;
        buffer = some (buffers.clear b);
        seq = 0;
        remaining = pos 0;
      } in
      let out : session_break buffers p ≡ (stopped, queue_completed 0 ∷ []) =
        session_break_lem p b e in
      rw out (
        record {
          enabled = on;
          not_paused = playing;
          not_ending = going;
          buffer = refl;
          empty = buffers.clear_contents b;
          none_counted = refl;
          frame_pos = h;
          frame_bound = h';
        },
        λ more. idle_play stopped more refl,
        refl,
      )
