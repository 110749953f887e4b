-- ===== src/Stream/CaptureLaws.antt =====
-- What `stream_frame` collects, against what the media bug and the resampler gave.
use mod_audio_stream.Prelude.{
  ℕ, ◌≤◌, ◌<◌, ◌≡◌, ◌≢◌, ◌⊎◌, refl, sym, ap, ◌∙◌, inl, inr, List, [], ◌∷◌, ◌++◌, arith, length,
  append_assoc, append-nil, dec_lt, All, All-append, subst,
}
use mod_audio_stream.Prelude.Slices.{take_all}
use mod_audio_stream.Stream.Interfaces.{Buffers, Resampler}
use mod_audio_stream.Stream.Capture.{Collected, flush_full, store}

unfoldable pub joined : List (List ℕ) → List ℕ
joined [] = []
joined (x ∷ xs) = x ++ joined xs

joined-append : (p q : List (List ℕ)) → joined (p ++ q) ≡ joined p ++ joined q
unfolding joined
joined-append [] q = refl
joined-append (x ∷ p) q =
    ap (◌++◌ x) (joined-append p q) ∙ sym (append_assoc x (joined p) (joined q))

pub joined-one : (p : List (List ℕ)) (x : List ℕ) → joined (p ++ x ∷ []) ≡ joined p ++ x
unfolding joined
joined-one p x = joined-append p (x ∷ []) ∙ ap (◌++◌ (joined p)) (append-nil x)

module _ (buffers : Buffers) (speex_lib : Resampler) where
  -- The chunks and what is still in the buffer.
  abbrev pub all_bytes : Collected buffers speex_lib → List ℕ
  all_bytes c = joined c.pending ++ buffers.contents c.sbuffer

  -- `c'` is `c` with `data'` behind all its bytes; new chunks are as long as the buffer.
  pub record Added (c c' : Collected buffers speex_lib) (data' : List ℕ) : Type 0 where
    pub bytes : all_bytes c' ≡ all_bytes c ++ data'
    pub capacity : buffers.capacity c'.sbuffer ≡ buffers.capacity c.sbuffer
    pub chunks :
        All (λ x. length x ≡ buffers.capacity c.sbuffer) c.pending
        → All (λ x. length x ≡ buffers.capacity c.sbuffer) c'.pending

  pub Added-nothing : (c : Collected buffers speex_lib) → Added c c []
  Added-nothing c = record { bytes = sym (append-nil _); capacity = refl; chunks = λ h. h }

  pub Added-trans :
      (c c' c'' : Collected buffers speex_lib) (p q : List ℕ)
      → Added c c' p
      → Added c' c'' q
      → Added c c'' (p ++ q)
  Added-trans c c' c'' p q f g = record {
    bytes = g.bytes ∙ ap (λ z. z ++ q) f.bytes ∙ append_assoc (all_bytes c) p q;
    capacity = g.capacity ∙ f.capacity;
    chunks = λ h.
        subst (λ k. All (λ x. length x ≡ k) c''.pending) f.capacity
          (g.chunks
            (subst (λ k. All (λ x. length x ≡ k) c'.pending) (sym f.capacity) (f.chunks h)));
  }

  -- The buffer is full: what `flush_full` makes of it.
  module _ (c : Collected buffers speex_lib) where
    abbrev whole : List ℕ
    whole = (buffers.read c.sbuffer (buffers.inuse c.sbuffer)).0

    abbrev flushed : Collected buffers speex_lib
    flushed = record c {
      sbuffer = buffers.clear (buffers.read c.sbuffer (buffers.inuse c.sbuffer)).1;
      pending = c.pending ++ whole ∷ [];
    }

    flush_full-cases :
        ((buffers.freespace c.sbuffer ≡ 0) × (flush_full buffers speex_lib c ≡ flushed))
        ⊎ (((buffers.freespace c.sbuffer ≢ 0) ⊎ (buffers.capacity c.sbuffer ≡ 0))
            × (flush_full buffers speex_lib c ≡ c))
    unfolding flush_full
    flush_full-cases = elim (dec_lt 0 (buffers.freespace c.sbuffer)) [
      | yes free ↦ inr (inl (omega (arith, free)), ground arith)
      | no full ↦ elim (dec_lt 0 (buffers.inuse c.sbuffer)) [
        | yes some_ ↦ inl (omega arith, ground arith)
        | no none_ ↦ inr (
          inr (omega (arith, buffers.inuse_lem c.sbuffer, buffers.freespace_lem c.sbuffer)),
          ground arith,
        )
      ]
    ]

    whole_lem : whole ≡ buffers.contents c.sbuffer
    whole_lem =
        buffers.read_bytes c.sbuffer (buffers.inuse c.sbuffer) (omega arith)
        ∙ take_all (buffers.contents c.sbuffer) (buffers.inuse c.sbuffer)
            (omega (arith, buffers.inuse_lem c.sbuffer))

    flushed-Added : buffers.freespace c.sbuffer ≡ 0 → Added c flushed []
    flushed-Added full = record {
      bytes =
          rw
            (
              buffers.clear_contents (buffers.read c.sbuffer (buffers.inuse c.sbuffer)).1,
              joined-one c.pending whole,
              whole_lem,
            )
            refl;
      capacity =
          buffers.clear_capacity _ ∙ buffers.read_capacity c.sbuffer (buffers.inuse c.sbuffer);
      chunks = λ h.
          All-append _ c.pending (whole ∷ []) h
            (ap length whole_lem ∙ omega (arith, full, buffers.freespace_lem c.sbuffer), tt);
    }

    pub flush_full-Added : Added c (flush_full buffers speex_lib c) []
    flush_full-Added = elim flush_full-cases [
      | inl (full, e) ↦ rw e (flushed-Added full)
      | inr (_, e) ↦ rw e (Added-nothing c)
    ]

    -- After `flush_full` there is room, unless the buffer has no size.
    pub flush_full-room :
        0 < buffers.capacity c.sbuffer
        → let c' = flush_full buffers speex_lib c in
          (length (buffers.contents c'.sbuffer) < buffers.capacity c.sbuffer)
          × ((buffers.contents c'.sbuffer ≡ []) ⊎ (c' ≡ c))
    flush_full-room pos = elim flush_full-cases [
      | inl (full, e) ↦
          let empty = buffers.clear_contents (buffers.read c.sbuffer (buffers.inuse c.sbuffer)).1 in
          rw (e, empty) (omega arith, inl refl)
      | inr (inl free, e) ↦ rw e (omega (arith, free, buffers.freespace_lem c.sbuffer), inr refl)
      | inr (inr zero_, e) ↦ absurd (omega (arith, zero_))
    ]

    pub store_contents :
        (data' : List ℕ)
        → length data' ≤ buffers.freespace c.sbuffer
        → buffers.contents (store buffers speex_lib c data').sbuffer
          ≡ buffers.contents c.sbuffer ++ data'
    unfolding store
    store_contents data' fits = ground (arith, buffers.write_contents c.sbuffer data')

    pub store-Added :
        (data' : List ℕ)
        → length data' ≤ buffers.freespace c.sbuffer
        → Added c (store buffers speex_lib c data') data'
    unfolding store
    store-Added data' fits =
        let stored : store buffers speex_lib c data'
            ≡ record c { sbuffer = buffers.write c.sbuffer data' } =
          ground arith in
        rw stored (record {
          bytes =
              ap (◌++◌ (joined c.pending)) (buffers.write_contents c.sbuffer data' fits)
              ∙ sym (append_assoc (joined c.pending) (buffers.contents c.sbuffer) data');
          capacity = buffers.write_capacity c.sbuffer data';
          chunks = λ h. h;
        })
