-- ===== src/Stream/PlaybackLaws.antt =====
-- The playback queue is played frame by frame.
use mod_audio_stream.Prelude.{
  ℕ, zero, suc, ◌+◌, ◌*◌, ◌≤◌, ◌<◌, ◌≡◌, refl, sym, ap, ap₂, ◌∙◌, Bool, true, false, Option, some,
  List, [], ◌∷◌, ◌++◌, arith, length, append-nil, take, drop,
}
use mod_audio_stream.Prelude.Slices.{take-drop, drop-drop}
use mod_audio_stream.Prelude.Ints.{pos, pred, is_spent}
use mod_audio_stream.Stream.Interfaces.{Buffers}
use mod_audio_stream.Stream.Playback.{
  Notice, chunk_played, queue_completed, Player, frame_bytes, Played, replace_frame, has_room,
  play_frame, stream_frame_write, play,
}

-- The notices for `m` frames of `size` bytes after `seq` others, down to the last of the queue.
unfoldable pub notices_for : ℕ → ℕ → ℕ → List Notice
notices_for size seq zero = queue_completed seq ∷ []
notices_for size seq (suc m) = chunk_played (seq + 1) size (pos m) ∷ notices_for size (seq + 1) m

-- A call that gets the lock and a write frame with room for `size` bytes.
abbrev pub Served : ℕ → Bool × Option ℕ → Type 0
Served size t = (t.0 ≡ true) × ((room : ℕ) × (t.1 ≡ some room) × (size ≤ room))

module _ (buffers : Buffers) where
  -- The player plays from `b`: enabled, not paused, not in cleanup, in a response; a frame has a
  -- byte at least and 4096 at most.
  pub record Playing (p : Player buffers) (b : buffers.Buffer) : Type 0 where
    pub enabled : p.enabled ≡ true
    pub not_paused : p.paused ≡ false
    pub not_ending : p.cleanup_started ≡ false
    pub in_response : p.in_response ≡ true
    pub buffer : p.buffer ≡ some b
    pub frame_pos : 0 < frame_bytes buffers p
    pub frame_bound : frame_bytes buffers p ≤ 4096

  module _ (p : Player buffers) (b : buffers.Buffer) (t : Bool × Option ℕ) where
    abbrev size : ℕ
    size = frame_bytes buffers p

    write-replace :
        Playing p b
        → Served size t
        → size ≤ length (buffers.contents b)
        → stream_frame_write buffers p t.0 t.1
          ≡ replace_frame buffers p (buffers.read b size).1 (buffers.read b size).0 size
    unfolding stream_frame_write play_frame has_room
    write-replace on served enough = ground (
      arith,
      on.enabled,
      on.not_paused,
      on.not_ending,
      on.in_response,
      on.buffer,
      on.frame_bound,
      served,
      buffers.inuse_lem b,
    )

    abbrev pub next : ℕ → Player buffers
    next m = record p { buffer = some (buffers.read b size).1; seq = p.seq + 1; remaining = pos m }

    replace-more :
        (m : ℕ) (out : List ℕ)
        → p.remaining ≡ pos (suc (suc m))
        → replace_frame buffers p (buffers.read b size).1 out size ≡ record {
          player = next (suc m);
          bytes = out;
          notices = chunk_played (p.seq + 1) size (pos (suc m)) ∷ [];
        }
    unfolding replace_frame pred is_spent
    replace-more m out e = ground (arith, e)

    replace-last :
        (out : List ℕ)
        → p.remaining ≡ pos 1
        → replace_frame buffers p (buffers.read b size).1 out size ≡ record {
          player = record (next 0) { in_response = false; seq = 0 };
          bytes = out;
          notices = chunk_played (p.seq + 1) size (pos 0) ∷ queue_completed (p.seq + 1) ∷ [];
        }
    unfolding replace_frame pred is_spent
    replace-last out e = ground (arith, e)

    pub Playing-next : (m : ℕ) → Playing p b → Playing (next m) (buffers.read b size).1
    unfolding frame_bytes
    Playing-next m on = record {
      enabled = on.enabled;
      not_paused = on.not_paused;
      not_ending = on.not_ending;
      in_response = on.in_response;
      buffer = refl;
      frame_pos = on.frame_pos;
      frame_bound = on.frame_bound;
    }

    -- A call, and then the others.
    play_step :
        (first : Played buffers) (ticks : List (Bool × Option ℕ))
        → stream_frame_write buffers p t.0 t.1 ≡ first
        → play buffers p (t ∷ ticks) ≡ record {
          player = (play buffers first.player ticks).player;
          bytes = first.bytes ++ (play buffers first.player ticks).bytes;
          notices = first.notices ++ (play buffers first.player ticks).notices;
        }
    unfolding play
    play_step first ticks e =
        ap
          (λ (f : Played buffers). record {
            player = (play buffers f.player ticks).player;
            bytes = f.bytes ++ (play buffers f.player ticks).bytes;
            notices = f.notices ++ (play buffers f.player ticks).notices;
          })
          e

  -- The player after the last frame of its queue, with `b` in the buffer.
  abbrev pub completed : Player buffers → buffers.Buffer → Player buffers
  completed p b = record p { in_response = false; buffer = some b; seq = 0; remaining = pos 0 }

  -- `m` frames were played from `b`, and `b'` is left.
  pub record Whole (p : Player buffers) (b : buffers.Buffer) (m : ℕ)
      (ticks : List (Bool × Option ℕ)) : Type 0 where
    pub left : buffers.Buffer
    pub player : (play buffers p ticks).player ≡ completed p left
    pub bytes : (play buffers p ticks).bytes ≡ take (m * frame_bytes buffers p) (buffers.contents b)
    pub notices : (play buffers p ticks).notices ≡ notices_for (frame_bytes buffers p) p.seq m
    pub rest : buffers.contents left ≡ drop (m * frame_bytes buffers p) (buffers.contents b)

  mul_suc : (m f : ℕ) → suc m * f ≡ f + m * f
  mul_suc m f = grind arith

  pub Whole-last :
      (p : Player buffers) (b : buffers.Buffer) (t : Bool × Option ℕ)
      → Playing p b
      → Served (frame_bytes buffers p) t
      → p.remaining ≡ pos 1
      → frame_bytes buffers p ≤ length (buffers.contents b)
      → Whole p b 1 (t ∷ [])
  unfolding notices_for play
  Whole-last p b t on served e enough =
      let f = frame_bytes buffers p in
      let one : 1 * f ≡ f = omega arith in
      let fits : f ≤ buffers.inuse b = omega (arith, enough, buffers.inuse_lem b) in
      let step =
        play_step p b t _ []
          (write-replace p b t on served enough ∙ replace-last p b t (buffers.read b f).0 e) in
      record {
        left = (buffers.read b f).1;
        player = ap (λ (o : Played buffers). o.player) step;
        bytes =
            ap (λ (o : Played buffers). o.bytes) step
            ∙ append-nil (buffers.read b f).0
            ∙ buffers.read_bytes b f fits
            ∙ ap (λ n. take n (buffers.contents b)) (sym one);
        notices = ap (λ (o : Played buffers). o.notices) step;
        rest = rw one (buffers.read_contents b f fits);
      }

  pub Whole-more :
      (p : Player buffers) (b : buffers.Buffer) (t : Bool × Option ℕ) (m : ℕ)
      (ticks : List (Bool × Option ℕ))
      → Playing p b
      → Served (frame_bytes buffers p) t
      → p.remaining ≡ pos (suc (suc m))
      → frame_bytes buffers p ≤ length (buffers.contents b)
      → Whole (next p b t (suc m)) (buffers.read b (frame_bytes buffers p)).1 (suc m) ticks
      → Whole p b (suc (suc m)) (t ∷ ticks)
  unfolding notices_for frame_bytes
  Whole-more p b t m ticks on served e enough w =
      let f = frame_bytes buffers p in
      let more = mul_suc (suc m) f in
      let fits : f ≤ buffers.inuse b = omega (arith, enough, buffers.inuse_lem b) in
      let left = buffers.read_contents b f fits in
      let step =
        play_step p b t _ ticks
          (write-replace p b t on served enough ∙ replace-more p b t m (buffers.read b f).0 e) in
      record {
        left = w.left;
        player = ap (λ (o : Played buffers). o.player) step ∙ w.player;
        bytes =
            ap (λ (o : Played buffers). o.bytes) step
            ∙ ap₂ (◌++◌) (buffers.read_bytes b f fits) (w.bytes ∙ ap (take (suc m * f)) left)
            ∙ take-drop f (suc m * f) (buffers.contents b)
            ∙ ap (λ n. take n (buffers.contents b)) (sym more);
        notices =
            ap (λ (o : Played buffers). o.notices) step
            ∙ ap (◌∷◌ (chunk_played (p.seq + 1) f (pos (suc m)))) w.notices;
        rest =
            w.rest
            ∙ ap (drop (suc m * f)) left
            ∙ drop-drop f (suc m * f) (buffers.contents b)
            ∙ ap (λ n. drop n (buffers.contents b)) (sym more);
      }
