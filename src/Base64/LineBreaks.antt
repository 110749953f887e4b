-- ===== src/Base64/LineBreaks.antt =====
-- base64.cpp: `insert_linebreaks` and the encoders that use it, `base64_encode_pem` and
-- `base64_encode_mime`.
use mod_audio_stream.Prelude.{
  ℕ, zero, suc, ◌+◌, true, false, Option, none, some, List, [], ◌∷◌, ◌++◌, length, take, drop, ltb,
  bind_option,
}
use mod_audio_stream.Base64.Encoder.{base64_encode}
use mod_audio_stream.Base64.Decoder.{newline}

-- `str.insert (pos, "\n")`.
unfoldable pub insert_newline : ℕ → List ℕ → List ℕ
insert_newline pos str = take pos str ++ newline ∷ drop pos str

-- `while (pos < str.size ())`. `none` means that the fuel ran out.
unfoldable pub linebreak_loop : ℕ → ℕ → ℕ → List ℕ → Option (List ℕ)
unfolding insert_newline
linebreak_loop zero distance pos str = none
linebreak_loop (suc fuel) distance pos str = elim (ltb pos (length str)) [
  | true ↦ linebreak_loop fuel distance (pos + (distance + 1)) (insert_newline pos str)
  | false ↦ some str
]

-- Each round leaves at least one more character behind `pos`, so the length is fuel enough.
unfoldable pub insert_linebreaks : List ℕ → ℕ → Option (List ℕ)
unfolding linebreak_loop
insert_linebreaks [] distance = some []
insert_linebreaks (c ∷ str) distance =
    linebreak_loop (suc (length (c ∷ str))) distance distance (c ∷ str)

unfoldable pub encode_with_line_breaks : ℕ → List ℕ → Option (List ℕ)
encode_with_line_breaks line_length s =
    bind_option (base64_encode s false) (λ str. insert_linebreaks str line_length)

unfoldable pub base64_encode_pem : List ℕ → Option (List ℕ)
unfolding encode_with_line_breaks
base64_encode_pem s = encode_with_line_breaks 64 s

unfoldable pub base64_encode_mime : List ℕ → Option (List ℕ)
unfolding encode_with_line_breaks
base64_encode_mime s = encode_with_line_breaks 76 s
