-- ===== src/Base64/Laws.antt =====
-- base64.cpp as its callers see it: encoding and decoding, with and without line breaks.
use mod_audio_stream.Prelude.{
  ℕ, ◌+◌, ◌/◌, ◌*◌, ◌<◌, ◌^◌, ◌≡◌, refl, ◌∙◌, ap, ◌==◌, Bool, true, false, some, List, [], ◌∷◌,
  arith, AreBytes, ok, length,
}
use mod_audio_stream.Base64.Encoder.{char_of, base64_encode}
use mod_audio_stream.Base64.Decoder.{newline, without_newlines, decode_loop, base64_decode}
use mod_audio_stream.Base64.LineBreaks.{
  encode_with_line_breaks, base64_encode_pem, base64_encode_mime,
}
use mod_audio_stream.Base64.LineLaws.{HasNoNewline, lines_fit, insert_linebreaks-Lines}
use mod_audio_stream.Base64.Tables.{char_of-ne-newline, trailing_char-ne-newline}
use mod_audio_stream.Base64.Groups.{encode_groups, sextet, group}
use mod_audio_stream.Base64.EncodeLaws.{base64_encode-encode_groups}
use mod_audio_stream.Base64.RoundTrip.{decode_loop-encode_groups}

base64_decode-decode_loop : (s : List ℕ) → base64_decode s false ≡ decode_loop s
unfolding base64_decode decode_loop
base64_decode-decode_loop [] = refl
base64_decode-decode_loop (c ∷ s) = refl

base64_decode-newlines : (s : List ℕ) → base64_decode s true ≡ decode_loop (without_newlines s)
unfolding base64_decode decode_loop without_newlines
base64_decode-newlines [] = refl
base64_decode-newlines (c ∷ s) = refl

-- For a byte string shorter than 2^32 and either alphabet, base64_encode returns a text, and
-- base64_decode returns the string from it.
pub base64_decode-base64_encode :
    (s : List ℕ) (url : Bool)
    → AreBytes s
    → length s < 2 ^ 32
    → (t : List ℕ) × (base64_encode s url ≡ some t) × (base64_decode t false ≡ ok s)
base64_decode-base64_encode s url h fits = (
  encode_groups url s,
  base64_encode-encode_groups s url h fits,
  base64_decode-decode_loop _ ∙ decode_loop-encode_groups url s h,
)

-- The encoding of `n` bytes has `(n + 2) / 3 * 4` characters, the length that the code reserves.
length-encode_groups :
    (url : Bool) (s : List ℕ) → length (encode_groups url s) ≡ (length s + 2) / 3 * 4
unfolding encode_groups
length-encode_groups url [] = omega arith
length-encode_groups url (a ∷ []) = omega arith
length-encode_groups url (a ∷ b ∷ []) = omega arith
length-encode_groups url (a ∷ b ∷ c ∷ r) = omega (arith, length-encode_groups url r)

-- A character of the encoding is no line feed.
digit : (url : Bool) (n k : ℕ) → (char_of url (sextet k n) == newline) ≡ false
digit url n k = char_of-ne-newline url _ (omega arith)

encode_groups-HasNoNewline : (url : Bool) (s : List ℕ) → HasNoNewline (encode_groups url s)
unfolding encode_groups
encode_groups-HasNoNewline url [] = tt
encode_groups-HasNoNewline url (a ∷ []) =
    let n = group a 0 0 in
    let end = trailing_char-ne-newline url in (digit url n 3, (digit url n 2, (end, (end, tt))))
encode_groups-HasNoNewline url (a ∷ b ∷ []) =
    let n = group a b 0 in
    (digit url n 3, (digit url n 2, (digit url n 1, (trailing_char-ne-newline url, tt))))
encode_groups-HasNoNewline url (a ∷ b ∷ c ∷ r) =
    let n = group a b c in
    (
      digit url n 3,
      (digit url n 2, (digit url n 1, (digit url n 0, encode_groups-HasNoNewline url r))),
    )

-- For every positive line length and every byte string shorter than 2^32, the encoder with line
-- breaks returns a text whose lines are at most that long, and which decodes, with the line
-- breaks removed, to the string.
pub base64_decode-encode_with_line_breaks :
    (line_length : ℕ) (s : List ℕ)
    → 0 < line_length
    → AreBytes s
    → length s < 2 ^ 32
    → (t : List ℕ) × (encode_with_line_breaks line_length s ≡ some t)
      × (lines_fit line_length line_length t ≡ true)
      × (base64_decode t true ≡ ok s)
unfolding encode_with_line_breaks
base64_decode-encode_with_line_breaks line_length s h0 h fits =
    let code = encode_groups false s in
    let (t, broken, lines) =
      insert_linebreaks-Lines line_length code h0 (encode_groups-HasNoNewline false s) in
    (
      t,
      rw (base64_encode-encode_groups s false h fits) broken,
      lines.1,
      base64_decode-newlines t ∙ ap decode_loop lines.0 ∙ decode_loop-encode_groups false s h,
    )

-- A PEM text has lines of at most 64 characters and a MIME text of at most 76; of a byte string
-- shorter than 2^32, both decode to the string once the line breaks are removed.
pub pem_and_mime :
    (s : List ℕ)
    → AreBytes s
    → length s < 2 ^ 32
    → ((t : List ℕ) × (base64_encode_pem s ≡ some t)
        × (lines_fit 64 64 t ≡ true)
        × (base64_decode t true ≡ ok s))
      × ((t : List ℕ) × (base64_encode_mime s ≡ some t)
          × (lines_fit 76 76 t ≡ true)
          × (base64_decode t true ≡ ok s))
unfolding base64_encode_pem base64_encode_mime
pem_and_mime s h fits = (
  base64_decode-encode_with_line_breaks 64 s (omega arith) h fits,
  base64_decode-encode_with_line_breaks 76 s (omega arith) h fits,
)
