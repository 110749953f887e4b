-- ===== src/Stream/Conserved.antt =====
-- The loops of `stream_frame`: what comes in is sent or still buffered.
use mod_audio_stream.Prelude.{
  ℕ, suc, ◌+◌, ◌*◌, ◌/◌, ◌≤◌, ◌<◌, ◌≡◌, ◌≢◌, ◌⊎◌, refl, sym, ap, ◌∙◌, inl, inr, List, [], ◌∷◌, ◌++◌,
  arith, length, length-append, append_assoc, append-nil, dec_lt, All, u32, subst,
}
use mod_audio_stream.Stream.Interfaces.{Buffers, Resampler, Resampled}
use mod_audio_stream.Stream.Capture.{
  Captured, Collected, flush_full, store, plain_frame, plain_loop, take_resampled, resampled_frame,
  resampled_loop,
}
use mod_audio_stream.Stream.CaptureLaws.{
  Added, Added-nothing, store_contents, Added-trans, flush_full-Added, flush_full-room, store-Added,
}

-- The bytes of the frames, in their order.
unfoldable pub frames_bytes : List Captured → List ℕ
frames_bytes [] = []
frames_bytes (x ∷ xs) = x.bytes ++ frames_bytes xs

mul_room : (f m k : ℕ) → m < k → m * f + f ≤ k * f
mul_room f m k h = grind arith

mul_less : (f m k : ℕ) → m * f < k * f → m < k
mul_less f m k h = elim (dec_lt m k) [ yes less ↦ less | no more ↦ absurd (grind arith) ]

div_room : (n p : ℕ) → u32 (p / n) * n ≤ p
div_room n p = grind arith

empty_list {ℓ} : {A : Type ℓ} (s : List A) → length s ≡ 0 → s ≡ []
empty_list [] h = refl
empty_list (x ∷ s) h = absurd (omega arith)

module _ (buffers : Buffers) (speex_lib : Resampler) where
  -- The buffer holds a number of whole frames of `f` bytes, and has room for `k`.
  pub record Aligned (f k : ℕ) (c : Collected buffers speex_lib) : Type 0 where
    pub frames : ℕ
    pub held : length (buffers.contents c.sbuffer) ≡ frames * f
    pub room : frames < k
    pub size : buffers.capacity c.sbuffer ≡ k * f

  module _ (f k rtp : ℕ) (pos : 0 < f) (several : rtp ≢ 1) where
    Aligned-flush_full :
        (c : Collected buffers speex_lib) (m : ℕ)
        → length (buffers.contents c.sbuffer) ≡ m * f
        → buffers.capacity c.sbuffer ≡ k * f
        → 0 < k
        → Aligned f k (flush_full buffers speex_lib c)
    Aligned-flush_full c m held size k0 =
        let (short, which) = flush_full-room buffers speex_lib c (grind arith) in
        let same = (flush_full-Added buffers speex_lib c).capacity in
        let kept : flush_full buffers speex_lib c ≡ c
            → length (buffers.contents (flush_full buffers speex_lib c).sbuffer) ≡ m * f =
          λ e.
            ap (λ (d : Collected buffers speex_lib). length (buffers.contents d.sbuffer)) e
            ∙ held in
        elim which [
          | inl e ↦ record {
            frames = 0;
            held = ap length e ∙ omega arith;
            room = k0;
            size = same ∙ size;
          }
          | inr e ↦ record {
            frames = m;
            held = kept e;
            room = mul_less f m k (omega (arith, short, kept e, size));
            size = same ∙ size;
          }
        ]

    plain_frame-stored :
        (c : Collected buffers speex_lib) (x : Captured)
        → length x.bytes ≡ f
        → plain_frame buffers speex_lib rtp c x
          ≡ flush_full buffers speex_lib (store buffers speex_lib c x.bytes)
    unfolding plain_frame
    plain_frame-stored c x h = ground arith

    plain_frame-skipped :
        (c : Collected buffers speex_lib) (x : Captured)
        → length x.bytes ≡ 0
        → plain_frame buffers speex_lib rtp c x ≡ c
    unfolding plain_frame
    plain_frame-skipped c x h = ground arith

    plain_frame-Added :
        (c : Collected buffers speex_lib) (x : Captured)
        → (length x.bytes ≡ 0) ⊎ (length x.bytes ≡ f)
        → Aligned f k c
        → Added buffers speex_lib c (plain_frame buffers speex_lib rtp c x) x.bytes
          × Aligned f k (plain_frame buffers speex_lib rtp c x)
    plain_frame-Added c x (inl none_) a = rw (plain_frame-skipped c x none_) (
      subst (Added buffers speex_lib c c) (sym (empty_list x.bytes none_))
          (Added-nothing buffers speex_lib c),
      a,
    )
    plain_frame-Added c x (inr full) a =
        let stored = store buffers speex_lib c x.bytes in
        let free = buffers.freespace_lem c.sbuffer in
        let fits : length x.bytes ≤ buffers.freespace c.sbuffer =
          omega (arith, full, free, a.held, a.size, mul_room f a.frames k a.room) in
        let added = store-Added buffers speex_lib c x.bytes fits in
        let held =
          ap length (store_contents buffers speex_lib c x.bytes fits)
          ∙ length-append (buffers.contents c.sbuffer) x.bytes in
        rw (plain_frame-stored c x full) (
          subst (Added buffers speex_lib c (flush_full buffers speex_lib stored))
              (append-nil x.bytes)
              (Added-trans buffers speex_lib c stored _ x.bytes [] added
                (flush_full-Added buffers speex_lib stored)),
          Aligned-flush_full stored (suc a.frames) (grind (arith, held, a.held, full))
              (added.capacity ∙ a.size) (omega (arith, a.room)),
        )

    -- Without a resampler and with more than one packet to a chunk, where the buffer's size is a
    -- multiple of the frames' one and it is not full: no byte is dropped. The chunks, each as long
    -- as the buffer, and then what is in the buffer, are the bytes that were there and those of the
    -- frames, in order.
    pub plain_loop-Added :
        (c : Collected buffers speex_lib) (frames : List Captured)
        → All (λ x. (length x.bytes ≡ 0) ⊎ (length x.bytes ≡ f)) frames
        → Aligned f k c
        → Added buffers speex_lib c
            (plain_loop buffers speex_lib rtp c frames)
            (frames_bytes frames)
          × Aligned f k (plain_loop buffers speex_lib rtp c frames)
    unfolding plain_loop frames_bytes
    plain_loop-Added c [] h a = (Added-nothing buffers speex_lib c, a)
    plain_loop-Added c (x ∷ xs) h a =
        let c' = plain_frame buffers speex_lib rtp c x in
        let (first, a') = plain_frame-Added c x h.0 a in
        let (rest, a'') = plain_loop-Added c' xs h.1 a' in
        (Added-trans buffers speex_lib c c' _ x.bytes (frames_bytes xs) first rest, a'')

  -- What the resampler wrote is added.
  abbrev pub Produced : Collected buffers speex_lib → Collected buffers speex_lib → Type 0
  Produced c c' =
      (made : List ℕ) × (speex_lib.emitted c'.speex ≡ speex_lib.emitted c.speex ++ made)
      × Added buffers speex_lib c c' made

  module _ (channels rtp : ℕ) (several : rtp ≢ 1) where
    Added-flush :
        (c d : Collected buffers speex_lib) (made : List ℕ)
        → Added buffers speex_lib c d made
        → Added buffers speex_lib c (flush_full buffers speex_lib d) made
    Added-flush c d made a =
        subst (Added buffers speex_lib c (flush_full buffers speex_lib d)) (append-nil made)
          (Added-trans buffers speex_lib c d _ made [] a (flush_full-Added buffers speex_lib d))

    flush_full-speex :
        (c : Collected buffers speex_lib) → (flush_full buffers speex_lib c).speex ≡ c.speex
    unfolding flush_full
    flush_full-speex c = ground arith

    store-speex :
        (c : Collected buffers speex_lib) (s : List ℕ)
        → (store buffers speex_lib c s).speex ≡ c.speex
    unfolding store
    store-speex c s = ground arith

    Added-speex :
        (c : Collected buffers speex_lib) (s : speex_lib.Speex)
        → Added buffers speex_lib c (record c { speex = s }) []
    Added-speex c s = record { bytes = sym (append-nil _); capacity = refl; chunks = λ h. h }

    take_resampled-Added :
        (c : Collected buffers speex_lib) (r : Resampled speex_lib.Speex)
        → length r.bytes ≡ r.out_len * (channels * 2)
        → length r.bytes ≤ buffers.freespace c.sbuffer
        → Added buffers speex_lib c (take_resampled buffers speex_lib rtp c r) r.bytes
          × ((take_resampled buffers speex_lib rtp c r).speex ≡ r.speex)
    unfolding take_resampled
    take_resampled-Added c r size fits =
        let d = record c { speex = r.speex } in
        let stored = store buffers speex_lib d r.bytes in
        elim (dec_lt 0 r.out_len) [
          | no nothing ↦
              let e : take_resampled buffers speex_lib rtp c r ≡ flush_full buffers speex_lib d =
                ground arith in
              let none_ : length r.bytes ≡ 0 = grind (arith, nothing, size) in
              rw (e, empty_list r.bytes none_)
                (Added-flush c d [] (Added-speex c r.speex), flush_full-speex d)
          | yes some_ ↦
              let e : take_resampled buffers speex_lib rtp c r
                  ≡ flush_full buffers speex_lib stored =
                ground arith in
              rw e (
                Added-flush c stored r.bytes (
                    Added-trans buffers speex_lib c d stored [] r.bytes (Added-speex c r.speex)
                      (store-Added buffers speex_lib d r.bytes fits)),
                flush_full-speex stored ∙ store-speex d r.bytes,
              )
        ]

    resampled_frame-Produced :
        (c : Collected buffers speex_lib) (x : Captured)
        → Produced c (resampled_frame buffers speex_lib channels rtp c x)
    unfolding resampled_frame
    resampled_frame-Produced c x =
        let room = u32 (buffers.freespace c.sbuffer / (channels * 2)) in
        let r = speex_lib.process c.speex channels x.bytes x.samples room in
        let size = speex_lib.bytes_size c.speex channels x.bytes x.samples room in
        let fits : length r.bytes ≤ buffers.freespace c.sbuffer = grind (
          arith,
          size,
          speex_lib.out_len_bound c.speex channels x.bytes x.samples room,
          div_room (channels * 2) (buffers.freespace c.sbuffer),
        ) in
        elim (dec_lt 0 (length x.bytes)) [
          | no empty ↦
              let e : resampled_frame buffers speex_lib channels rtp c x ≡ c = ground arith in
              rw e ([], sym (append-nil _), Added-nothing buffers speex_lib c)
          | yes given ↦ elim (dec_lt 0 room) [
            | no none_ ↦
                let e : resampled_frame buffers speex_lib channels rtp c x
                    ≡ flush_full buffers speex_lib c =
                  ground arith in
                rw e (
                  [],
                  ap speex_lib.emitted (flush_full-speex c) ∙ sym (append-nil _),
                  flush_full-Added buffers speex_lib c,
                )
            | yes some_ ↦
                let e : resampled_frame buffers speex_lib channels rtp c x
                    ≡ take_resampled buffers speex_lib rtp c r =
                  ground arith in
                let (added, same) = take_resampled-Added c r size fits in
                rw e (
                  r.bytes,
                  ap speex_lib.emitted same
                      ∙ speex_lib.bytes_emitted c.speex channels x.bytes x.samples room,
                  added,
                )
          ]
        ]

    pub resampled_loop-Produced :
        (c : Collected buffers speex_lib) (frames : List Captured)
        → Produced c (resampled_loop buffers speex_lib channels rtp c frames)
    unfolding resampled_loop
    resampled_loop-Produced c [] = ([], sym (append-nil _), Added-nothing buffers speex_lib c)
    resampled_loop-Produced c (x ∷ xs) =
        let c' = resampled_frame buffers speex_lib channels rtp c x in
        let (p, e, a) = resampled_frame-Produced c x in
        let (q, e', a') = resampled_loop-Produced c' xs in
        (
          p ++ q,
          e' ∙ ap (λ z. z ++ q) e ∙ append_assoc (speex_lib.emitted c.speex) p q,
          Added-trans buffers speex_lib c c' _ p q a a',
        )
