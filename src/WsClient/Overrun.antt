-- ===== src/WsClient/Overrun.antt =====
-- When the size test of `processFrame` lets a payload through that is not there.
use mod_audio_stream.Prelude.{
  ℕ, ◌+◌, ◌^◌, ◌≤◌, ◌≡◌, sym, ap, ◌∙◌, none, some, List, arith, inl, inr, Option-cases,
}
use mod_audio_stream.WsClient.Receive.{
  overrun, need_more, length_field, mask_field, parse_payload, parse_mask, parse_length,
  parse_frame,
}

payload-wraps :
    (buf : List ℕ) (header n : ℕ) (key : List ℕ)
    → parse_payload buf header n key ≡ overrun
    → 2 ^ 64 ≤ header + n
unfolding parse_payload
payload-wraps buf header n key e = ground (arith, e)

mask-short :
    (buf : List ℕ) (header header' : ℕ) (key : List ℕ)
    → mask_field buf header ≡ some (header', key)
    → header' ≤ header + 4
unfolding mask_field
mask-short buf header header' key e = ground (arith, e)

-- The header in front of the buffer claims a payload near 2^64 bytes.
abbrev pub IsHuge : List ℕ → Type 0
IsHuge buf =
    (header : ℕ) × (n : ℕ) × (length_field buf ≡ some (header, n)) × (2 ^ 64 ≤ header + n + 4)

mask-wraps :
    (buf : List ℕ) (header n : ℕ) → parse_mask buf header n ≡ overrun → 2 ^ 64 ≤ header + n + 4
mask-wraps buf header n e = elim (Option-cases (mask_field buf header)) [
  | inl none_ ↦ absurd (unfold parse_mask in ground (arith, e, none_))
  | inr ((header', key), some_) ↦
      let short = mask-short buf header header' key some_ in
      let wraps = payload-wraps buf header' n key (
        sym (ap (λ m. elim m [ none ↦ need_more | some k ↦ parse_payload buf k.0 n k.1 ]) some_)
        ∙ (unfold parse_mask in e)) in
      omega (arith, short, wraps)
]

pub parse_frame-IsHuge : (buf : List ℕ) → parse_frame buf ≡ overrun → IsHuge buf
parse_frame-IsHuge buf e = elim (Option-cases (length_field buf)) [
  | inl none_ ↦ absurd (unfold parse_frame in unfold parse_length in ground (arith, e, none_))
  | inr ((header, n), some_) ↦ (
    header,
    n,
    some_,
    mask-wraps buf header n (unfold parse_frame in unfold parse_length in ground (arith, e, some_)),
  )
]
