-- ===== src/WsClient/ReceiveAppend.antt =====
-- What `processFrame` has decided about a buffer does not change as more bytes arrive.
use mod_audio_stream.Prelude.{
  ℕ, zero, suc, ◌+◌, ◌*◌, ◌^◌, ◌≤◌, ◌<◌, bit_and, bit_or, ◌≡◌, ◌≢◌, refl, inl, inr, none, List, [],
  ◌∷◌, ◌++◌, arith, length, length-append, take, drop, length-drop, Option-cases, dec_le,
}
use mod_audio_stream.Prelude.Slices.{take-append_left, drop-append_left, get_or-append_left}
use mod_audio_stream.WsClient.Receive.{
  byte_at, read_length, length_field, mask_field, Parsed, need_more, overrun, got, parse_payload,
  parse_mask, parse_length, parse_frame,
}

module _ (buf more : List ℕ) where
  read_length-append :
      (left k n : ℕ)
      → k + left ≤ length buf
      → read_length left k (buf ++ more) n ≡ read_length left k buf n
  unfolding read_length
  read_length-append zero k n h = refl
  read_length-append (suc left) k n h =
      rw (get_or-append_left buf more k 0 (omega arith))
        (read_length-append left (k + 1) _ (omega arith))

  slice-append :
      (h n : ℕ) → h + n ≤ length buf → take n (drop h (buf ++ more)) ≡ take n (drop h buf)
  slice-append h n fits =
      rw (drop-append_left buf more h (omega arith))
        (take-append_left (drop h buf) more n (omega (arith, length-drop h buf)))

  module _ (two : 2 ≤ length buf) where
    length_field-append : length_field buf ≢ none → length_field (buf ++ more) ≡ length_field buf
    unfolding length_field
    length_field-append known = ground (
      arith,
      length-append buf more,
      get_or-append_left buf more 1 0,
      get_or-append_left buf more 2 0,
      get_or-append_left buf more 3 0,
      read_length-append 8 2 0,
    )

    mask_field-append :
        (h : ℕ) → mask_field buf h ≢ none → mask_field (buf ++ more) h ≡ mask_field buf h
    unfolding mask_field
    mask_field-append h known =
        ground (arith, length-append buf more, get_or-append_left buf more 1 0, slice-append h 4)

    parse_payload-append :
        (h n : ℕ) (key : List ℕ)
        → length (buf ++ more) < 2 ^ 63
        → parse_payload buf h n key ≢ need_more
        → parse_payload (buf ++ more) h n key ≡ parse_payload buf h n key
    unfolding parse_payload
    parse_payload-append h n key small known = ground (
      arith,
      length-append buf more,
      get_or-append_left buf more 0 0,
      get_or-append_left buf more 1 0,
      slice-append h n,
    )

    parse_mask-append :
        (h n : ℕ)
        → length (buf ++ more) < 2 ^ 63
        → parse_mask buf h n ≢ need_more
        → parse_mask (buf ++ more) h n ≡ parse_mask buf h n
    unfolding parse_mask
    parse_mask-append h n small known = elim (Option-cases (mask_field buf h)) [
      | inl e ↦ absurd (known (rw (e, parse_mask)))
      | inr ((h', key), e) ↦
          let same = mask_field-append h (λ (z : mask_field buf h ≡ none). ground arith) in
          rw (same, e, parse_mask)
            (parse_payload-append h' n key small λ z. known (rw (e, parse_mask) z))
    ]

    parse_length-append :
        length (buf ++ more) < 2 ^ 63
        → parse_length buf ≢ need_more
        → parse_length (buf ++ more) ≡ parse_length buf
    unfolding parse_length
    parse_length-append small known = elim (Option-cases (length_field buf)) [
      | inl e ↦ absurd (known (rw (e, parse_length)))
      | inr ((h, n), e) ↦
          let same = length_field-append (λ (z : length_field buf ≡ none). ground arith) in
          rw (same, e, parse_length)
            (parse_mask-append h n small λ z. known (rw (e, parse_length) z))
    ]

  -- A buffer on which `processFrame` does not wait is read the same with more bytes behind it.
  pub parse_frame-append :
      length (buf ++ more) < 2 ^ 63
      → parse_frame buf ≢ need_more
      → parse_frame (buf ++ more) ≡ parse_frame buf
  unfolding parse_frame
  parse_frame-append small known = elim (dec_le 2 (length buf)) [
    | yes two ↦ ground (arith, length-append buf more, parse_length-append two small)
    | no short ↦ absurd (known (ground arith))
  ]

-- A frame that was found lies in the buffer, and its header has two bytes at least.
module _ (buf : List ℕ) where
  abbrev pub InBuffer : Parsed → Type 0
  InBuffer need_more = Unit {0}
  InBuffer overrun = Unit {0}
  InBuffer (got f) = (2 ≤ f.size) × (f.size ≤ length buf)

  parse_payload-InBuffer : (h n : ℕ) (key : List ℕ) → 2 ≤ h → InBuffer (parse_payload buf h n key)
  unfolding parse_payload
  parse_payload-InBuffer h n key two = ground arith

  parse_mask-InBuffer : (h n : ℕ) → 2 ≤ h → InBuffer (parse_mask buf h n)
  unfolding parse_mask mask_field
  parse_mask-InBuffer h n two = ground (
    arith,
    parse_payload-InBuffer h n (0 ∷ 0 ∷ 0 ∷ 0 ∷ []),
    parse_payload-InBuffer (h + 4) n (take 4 (drop h buf)),
  )

  parse_length-InBuffer : InBuffer (parse_length buf)
  unfolding parse_length length_field
  parse_length-InBuffer = ground (
    arith,
    parse_mask-InBuffer 2 (bit_and (byte_at buf 1) 0x7F),
    parse_mask-InBuffer 4 (bit_or (byte_at buf 2 * 2 ^ 8) (byte_at buf 3)),
    parse_mask-InBuffer 10 (read_length 8 2 buf 0),
  )

  pub parse_frame-InBuffer : InBuffer (parse_frame buf)
  unfolding parse_frame
  parse_frame-InBuffer = ground (arith, parse_length-InBuffer)
