-- ===== src/WsClient/RandomLaws.antt =====
-- `randomBase64` against the groups of RFC 4648, and both encoders of ws_client.cpp against that of
-- base64.cpp.
use mod_audio_stream.Prelude.{
  ℕ, zero, suc, ◌+◌, ◌*◌, ◌^◌, ◌<◌, ◌≤◌, ◌≡◌, refl, sym, ap, subst, ◌∙◌, true, false, some, List,
  [], ◌∷◌, ◌++◌, append_assoc, append-nil, AreBytes, length, length-append, ltb, arith,
}
use mod_audio_stream.Base64.Encoder.{trailing_char, base64_encode}
use mod_audio_stream.Base64.Groups.{group, encode_groups}
use mod_audio_stream.Base64.EncodeLaws.{base64_encode-encode_groups}
use mod_audio_stream.WsClient.Key.{
  digit_at, join_bytes, four_digits, sha1_and_base64, random_round, random_loop, random_base64,
}
use mod_audio_stream.WsClient.KeyLaws.{
  digit_at-sextet, two_bytes_group, four_digits-group, get_or-append, digest_base64-encode_groups,
}

module _ (pre : List ℕ) where
  inside : (s : List ℕ) (k : ℕ) → k < length s → ltb (length pre + k) (length (pre ++ s)) ≡ true
  inside s k h = ground (arith, length-append pre s)

  outside : (s : List ℕ) (k : ℕ) → length s ≤ k → ltb (length pre + k) (length (pre ++ s)) ≡ false
  outside s k h = ground (arith, length-append pre s)

  random_round_one :
      (a : ℕ) → random_round (pre ++ a ∷ []) (length pre) ≡ encode_groups false (a ∷ [])
  unfolding random_round encode_groups trailing_char
  random_round_one a =
      let n = group a 0 0 in
      let first : a * 2 ^ 16 ≡ n = omega arith in
      rw
        (
          outside (a ∷ []) 1 (omega arith),
          outside (a ∷ []) 2 (omega arith),
          get_or-append pre (a ∷ []) (length pre) 0 (omega arith),
        )
        (ap (λ m. digit_at m 18 ∷ digit_at m 12 ∷ b'=' ∷ b'=' ∷ []) first
          ∙ rw (digit_at-sextet n 3, digit_at-sextet n 2) refl)

  random_round_two :
      (a b : ℕ)
      → a < 256
      → b < 256
      → random_round (pre ++ a ∷ b ∷ []) (length pre) ≡ encode_groups false (a ∷ b ∷ [])
  unfolding random_round encode_groups trailing_char
  random_round_two a b ha hb =
      let n = group a b 0 in
      rw
        (
          inside (a ∷ b ∷ []) 1 (omega arith),
          outside (a ∷ b ∷ []) 2 (omega arith),
          get_or-append pre (a ∷ b ∷ []) (length pre) 0 (omega arith),
          get_or-append pre (a ∷ b ∷ []) (length pre + 1) 1 (omega arith),
          two_bytes_group a b ha hb,
          digit_at-sextet n 3,
          digit_at-sextet n 2,
          digit_at-sextet n 1,
        )
        refl

  random_round_three :
      (a b c : ℕ) (r : List ℕ)
      → random_round (pre ++ a ∷ b ∷ c ∷ r) (length pre) ≡ four_digits (join_bytes a b c)
  unfolding random_round join_bytes four_digits
  random_round_three a b c r =
      let all : List ℕ = a ∷ b ∷ c ∷ r in
      rw
        (
          inside all 1 (omega arith),
          inside all 2 (omega arith),
          get_or-append pre all (length pre) 0 (omega arith),
          get_or-append pre all (length pre + 1) 1 (omega arith),
          get_or-append pre all (length pre + 2) 2 (omega arith),
        )
        refl

random_loop_end : (buf : List ℕ) (fuel i : ℕ) → length buf ≤ i → random_loop buf fuel i ≡ []
unfolding random_loop
random_loop_end buf zero i h = refl
random_loop_end buf (suc fuel) i h = ground arith

random_loop_more :
    (buf : List ℕ) (fuel i : ℕ)
    → i < length buf
    → random_loop buf (suc fuel) i ≡ random_round buf i ++ random_loop buf fuel (i + 3)
unfolding random_loop
random_loop_more buf fuel i h = ground arith

-- The last round, and those with others behind them.
random_loop_last :
    (pre s : List ℕ) (fuel : ℕ)
    → 0 < length s
    → length s < 3
    → random_round (pre ++ s) (length pre) ≡ encode_groups false s
    → random_loop (pre ++ s) (suc fuel) (length pre) ≡ encode_groups false s
random_loop_last pre s fuel more short e =
    random_loop_more (pre ++ s) fuel (length pre) (omega (arith, length-append pre s))
    ∙ ap (λ v. v ++ random_loop (pre ++ s) fuel (length pre + 3)) e
    ∙ ap (λ v. encode_groups false s ++ v)
        (random_loop_end (pre ++ s) fuel (length pre + 3) (omega (arith, length-append pre s)))
    ∙ append-nil (encode_groups false s)

random_loop-append :
    (s pre : List ℕ) (fuel : ℕ)
    → length s < fuel
    → AreBytes s
    → random_loop (pre ++ s) fuel (length pre) ≡ encode_groups false s
random_loop-append s pre zero lt h = absurd (omega arith)
random_loop-append [] pre (suc fuel) lt h =
    unfold encode_groups in
    random_loop_end (pre ++ []) (suc fuel) (length pre) (omega (arith, length-append pre []))
random_loop-append (a ∷ []) pre (suc fuel) lt h =
    random_loop_last pre (a ∷ []) fuel (omega arith) (omega arith) (random_round_one pre a)
random_loop-append (a ∷ b ∷ []) pre (suc fuel) lt h =
    random_loop_last pre (a ∷ b ∷ []) fuel (omega arith) (omega arith)
      (random_round_two pre a b h.0 h.1.0)
random_loop-append (a ∷ b ∷ c ∷ r) pre (suc fuel) lt h =
    let chunk : List ℕ = a ∷ b ∷ c ∷ [] in
    let all : List ℕ = a ∷ b ∷ c ∷ r in
    let next : length (pre ++ chunk) ≡ length pre + 3 = omega (arith, length-append pre chunk) in
    let rest =
      subst (λ i. random_loop (pre ++ all) fuel i ≡ encode_groups false r) next
        (subst (λ v. random_loop v fuel (length (pre ++ chunk)) ≡ encode_groups false r)
          (append_assoc pre chunk r)
          (random_loop-append r (pre ++ chunk) fuel (omega arith) h.1.1.1)) in
    random_loop_more (pre ++ all) fuel (length pre) (omega (arith, length-append pre all))
    ∙ ap (λ v. v ++ random_loop (pre ++ all) fuel (length pre + 3)) (random_round_three pre a b c r)
    ∙ ap (λ v. four_digits (join_bytes a b c) ++ v) rest
    ∙ four_digits-group a b c r h.0 h.1.0 h.1.1.0

random_base64-encode_groups :
    (buf : List ℕ) → AreBytes buf → random_base64 buf ≡ encode_groups false buf
unfolding random_base64
random_base64-encode_groups buf h = random_loop-append buf [] (suc (length buf)) (omega arith) h

-- The two encoders of ws_client.cpp agree with base64_encode: sha1_and_base64 on a digest of 20
-- bytes, randomBase64 on every byte string shorter than 2^32.
pub base64_encode_agrees :
    (sha1 : List ℕ → List ℕ) (input buf : List ℕ)
    → AreBytes (sha1 input)
    → length (sha1 input) ≡ 20
    → AreBytes buf
    → length buf < 2 ^ 32
    → (base64_encode (sha1 input) false ≡ some (sha1_and_base64 sha1 input))
      × (base64_encode buf false ≡ some (random_base64 buf))
unfolding sha1_and_base64
base64_encode_agrees sha1 input buf digest twenty bytes fits = (
  base64_encode-encode_groups (sha1 input) false digest (omega arith)
      ∙ ap some (sym (digest_base64-encode_groups (sha1 input) digest twenty)),
  base64_encode-encode_groups buf false bytes fits
      ∙ ap some (sym (random_base64-encode_groups buf bytes)),
)
