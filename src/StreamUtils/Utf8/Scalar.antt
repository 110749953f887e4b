-- ===== src/StreamUtils/Utf8/Scalar.antt =====
-- UTF-8 as the Unicode standard defines it: scalar values, and the bytes of each.
use mod_audio_stream.Prelude.{
  ℕ, ◌+◌, ◌/◌, ◌%◌, ◌≤◌, ◌<◌, ◌⊎◌, List, [], ◌∷◌, ◌++◌, ltb, if◌then◌else◌,
}

-- A scalar value that may stand in a C string: no surrogate, and not U+0000.
abbrev pub IsScalar : ℕ → Type 0
IsScalar cp = (0 < cp) × ((cp < 0xD800) ⊎ ((0xE000 ≤ cp) × (cp ≤ 0x10FFFF)))

-- The shortest form.
unfoldable pub utf8_bytes : ℕ → List ℕ
utf8_bytes cp =
    if ltb cp 0x80
    then cp ∷ []
    else if ltb cp 0x800
    then (0xC0 + cp / 64) ∷ (0x80 + cp % 64) ∷ []
    else if ltb cp 0x10000
    then (0xE0 + cp / 4096) ∷ (0x80 + cp / 64 % 64) ∷ (0x80 + cp % 64) ∷ []
    else (0xF0 + cp / 262144)
      ∷ (0x80 + cp / 4096 % 64)
      ∷ (0x80 + cp / 64 % 64)
      ∷ (0x80 + cp % 64)
      ∷ []

unfoldable pub utf8_text : List ℕ → List ℕ
utf8_text [] = []
utf8_text (cp ∷ cps) = utf8_bytes cp ++ utf8_text cps
