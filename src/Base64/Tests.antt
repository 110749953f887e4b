-- ===== src/Base64/Tests.antt =====
-- base64.cpp on concrete inputs, several of them from test/test_base64.cpp.
use mod_audio_stream.Prelude.{
  ℕ, ◌≡◌, refl, true, false, some, ok, List, [], ◌∷◌, arith, codes, AreBytes,
}
use mod_audio_stream.Base64.Encoder.{
  base64_encode, encode_loop, encode_round, char_of, trailing_char,
}
use mod_audio_stream.Base64.Decoder.{base64_decode, decode_loop, decode_round, pos_of_char}
use mod_audio_stream.Base64.LineBreaks.{base64_encode_pem, base64_encode_mime}
use mod_audio_stream.Base64.LineLaws.{lines_fit}
use mod_audio_stream.Base64.Groups.{encode_groups}
use mod_audio_stream.Base64.EncodeLaws.{base64_encode-encode_groups}
use mod_audio_stream.Base64.Laws.{pem_and_mime}
use mod_audio_stream.Base64.Laws.{base64_decode-base64_encode}

encode_foob : base64_encode (codes "foob") false ≡ some (codes "Zm9vYg==")
unfolding base64_encode encode_loop encode_round char_of trailing_char
encode_foob = refl

encode_url : base64_encode (0xFF ∷ 0xFE ∷ []) true ≡ some (codes "__4.")
unfolding base64_encode encode_loop encode_round char_of trailing_char
encode_url = refl

decode_foob : base64_decode (codes "Zm9vYg==") false ≡ ok (codes "foob")
unfolding base64_decode decode_loop decode_round pos_of_char
decode_foob = refl

abbrev four_bytes : List ℕ
four_bytes = 0x00 ∷ 0xFF ∷ 0x10 ∷ 0x80 ∷ []

four_bytes-AreBytes : AreBytes four_bytes
four_bytes-AreBytes = ground arith

base64_encode-encode_groups_example :
    base64_encode four_bytes true ≡ some (encode_groups true four_bytes)
base64_encode-encode_groups_example =
    base64_encode-encode_groups four_bytes true four_bytes-AreBytes (omega arith)

base64_decode-base64_encode_example :
    (t : List ℕ) × (base64_encode four_bytes true ≡ some t)
    × (base64_decode t false ≡ ok four_bytes)
base64_decode-base64_encode_example =
    base64_decode-base64_encode four_bytes true four_bytes-AreBytes (omega arith)

pem_and_mime_example :
    ((t : List ℕ) × (base64_encode_pem four_bytes ≡ some t)
      × (lines_fit 64 64 t ≡ true)
      × (base64_decode t true ≡ ok four_bytes))
    × ((t : List ℕ) × (base64_encode_mime four_bytes ≡ some t)
        × (lines_fit 76 76 t ≡ true)
        × (base64_decode t true ≡ ok four_bytes))
pem_and_mime_example = pem_and_mime four_bytes four_bytes-AreBytes (omega arith)
