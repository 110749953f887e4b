-- ===== src/Base64/RoundTrip.antt =====
-- `base64_decode` undoes `base64_encode`.
use mod_audio_stream.Prelude.{ℕ, ◌<◌, ◌≡◌, refl, Bool, List, [], ◌∷◌, arith, AreBytes, ok}
use mod_audio_stream.Base64.Encoder.{char_of, trailing_char}
use mod_audio_stream.Base64.Decoder.{
  first_byte, second_byte, third_byte, decode_third, decode_second, decode_round, decode_loop,
}
use mod_audio_stream.Base64.Tables.{
  masks, pos_of_char-char_of, is_data-char_of, is_data-trailing_char,
}
use mod_audio_stream.Base64.Groups.{group, sextet, encode_groups}

first_byte_lem :
    (a b c : ℕ)
    → a < 256
    → b < 256
    → c < 256
    → first_byte (sextet 3 (group a b c)) (sextet 2 (group a b c)) ≡ a
unfolding first_byte
first_byte_lem a b c ha hb hc = omega (arith, masks (sextet 2 (group a b c)) (omega arith))

second_byte_lem :
    (a b c : ℕ)
    → a < 256
    → b < 256
    → c < 256
    → second_byte (sextet 2 (group a b c)) (sextet 1 (group a b c)) ≡ b
unfolding second_byte
second_byte_lem a b c ha hb hc = omega (
  arith,
  masks (sextet 2 (group a b c)) (omega arith),
  masks (sextet 1 (group a b c)) (omega arith),
)

third_byte_lem :
    (a b c : ℕ)
    → a < 256
    → b < 256
    → c < 256
    → third_byte (sextet 1 (group a b c)) (sextet 0 (group a b c)) ≡ c
unfolding third_byte
third_byte_lem a b c ha hb hc = omega (arith, masks (sextet 1 (group a b c)) (omega arith))

module _ (url : Bool) where
  decode_round-one :
      (a : ℕ) (r : List ℕ)
      → a < 256
      → decode_round
          (char_of url (sextet 3 (group a 0 0)))
          (char_of url (sextet 2 (group a 0 0)))
          (trailing_char url ∷ r)
        ≡ ok (a ∷ [])
  unfolding decode_round decode_second
  decode_round-one a r ha = ground (
    arith,
    first_byte_lem a 0 0,
    pos_of_char-char_of url (sextet 3 (group a 0 0)),
    pos_of_char-char_of url (sextet 2 (group a 0 0)),
    is_data-trailing_char url,
  )

  decode_round_two :
      (a b : ℕ) (r : List ℕ)
      → a < 256
      → b < 256
      → let n = group a b 0 in
        decode_round
          (char_of url (sextet 3 n))
          (char_of url (sextet 2 n))
          (char_of url (sextet 1 n) ∷ trailing_char url ∷ r)
        ≡ ok (a ∷ b ∷ [])
  unfolding decode_round decode_second decode_third
  decode_round_two a b r ha hb = ground (
    arith,
    first_byte_lem a b 0,
    second_byte_lem a b 0,
    pos_of_char-char_of url (sextet 3 (group a b 0)),
    pos_of_char-char_of url (sextet 2 (group a b 0)),
    pos_of_char-char_of url (sextet 1 (group a b 0)),
    is_data-char_of url (sextet 1 (group a b 0)),
    is_data-trailing_char url,
  )

  decode_round_three :
      (a b c : ℕ) (r : List ℕ)
      → a < 256
      → b < 256
      → c < 256
      → let n = group a b c in
        decode_round
          (char_of url (sextet 3 n))
          (char_of url (sextet 2 n))
          (char_of url (sextet 1 n) ∷ char_of url (sextet 0 n) ∷ r)
        ≡ ok (a ∷ b ∷ c ∷ [])
  unfolding decode_round decode_second decode_third
  decode_round_three a b c r ha hb hc = ground (
    arith,
    first_byte_lem a b c,
    second_byte_lem a b c,
    third_byte_lem a b c,
    pos_of_char-char_of url (sextet 3 (group a b c)),
    pos_of_char-char_of url (sextet 2 (group a b c)),
    pos_of_char-char_of url (sextet 1 (group a b c)),
    pos_of_char-char_of url (sextet 0 (group a b c)),
    is_data-char_of url (sextet 1 (group a b c)),
    is_data-char_of url (sextet 0 (group a b c)),
  )

  pub decode_loop-encode_groups :
      (s : List ℕ) → AreBytes s → decode_loop (encode_groups url s) ≡ ok s
  unfolding decode_loop encode_groups
  decode_loop-encode_groups [] h = refl
  decode_loop-encode_groups (a ∷ []) h = ground (arith, decode_round-one a (trailing_char url ∷ []))
  decode_loop-encode_groups (a ∷ b ∷ []) h = ground (arith, decode_round_two a b [])
  decode_loop-encode_groups (a ∷ b ∷ c ∷ r) h =
      ground (arith, decode_round_three a b c [], decode_loop-encode_groups r h.1.1.1)
