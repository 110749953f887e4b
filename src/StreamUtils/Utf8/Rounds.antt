-- ===== src/StreamUtils/Utf8/Rounds.antt =====
-- One round of `is_valid_utf8` against the bytes of one scalar value.
use mod_audio_stream.Prelude.{
  ℕ, suc, ◌+◌, ◌*◌, ◌/◌, ◌%◌, ◌≤◌, ◌<◌, ◌≡◌, ◌⊎◌, Option, none, some, List, [], ◌∷◌, ◌++◌, arith,
  drop, length,
}
use mod_audio_stream.StreamUtils.CString.{c_read, IsCString}
use mod_audio_stream.StreamUtils.Utf8.{
  Round, reject, advance, round_two, round_three, round_four, utf8_round, utf8_loop,
  code_point_three, code_point_four,
}
use mod_audio_stream.StreamUtils.Utf8.Masks.{
  ranges, code_point_two_lem, code_point_three_lem, code_point_four_lem,
}
use mod_audio_stream.StreamUtils.Utf8.Scalar.{IsScalar, utf8_bytes}

-- The string begins with the bytes of a scalar value, `n` of them.
abbrev pub Begins : ℕ → List ℕ → Type 0
Begins n str =
    (cp : ℕ) × IsScalar cp × (length (utf8_bytes cp) ≡ n) × (utf8_bytes cp ++ drop n str ≡ str)

-- A round returns normally, and what it accepts begins with a scalar value.
abbrev pub Sound : List ℕ → Option Round → Type 0
Sound str none = ⊥
Sound str (some reject) = Unit {0}
Sound str (some (advance n)) = Begins n str

round_two-Begins :
    (c0 c1 : ℕ) (s : List ℕ)
    → 192 ≤ c0
    → c0 < 224
    → 128 ≤ c1
    → c1 < 192
    → 128 ≤ c0 % 32 * 64 + c1 % 64
    → Begins 2 (c0 ∷ c1 ∷ s)
unfolding utf8_bytes
round_two-Begins c0 c1 s h0 h0' h1 h1' big =
    (c0 % 32 * 64 + c1 % 64, (omega arith, omega arith), ground arith, ground arith)

round_three-Begins :
    (c0 c1 c2 cp : ℕ) (s : List ℕ)
    → 224 ≤ c0
    → c0 < 240
    → 128 ≤ c1
    → c1 < 192
    → 128 ≤ c2
    → c2 < 192
    → cp ≡ (c0 % 16 * 64 + c1 % 64) * 64 + c2 % 64
    → 0x800 ≤ cp
    → (cp < 0xD800) ⊎ (0xE000 ≤ cp)
    → Begins 3 (c0 ∷ c1 ∷ c2 ∷ s)
unfolding utf8_bytes
round_three-Begins c0 c1 c2 cp s h0 h0' h1 h1' h2 h2' e big out =
    (cp, (omega arith, omega arith), ground arith, ground arith)

round_four-Begins :
    (c0 c1 c2 c3 cp : ℕ) (s : List ℕ)
    → 240 ≤ c0
    → c0 < 248
    → 128 ≤ c1
    → c1 < 192
    → 128 ≤ c2
    → c2 < 192
    → 128 ≤ c3
    → c3 < 192
    → cp ≡ ((c0 % 8 * 64 + c1 % 64) * 64 + c2 % 64) * 64 + c3 % 64
    → 0x10000 ≤ cp
    → cp ≤ 0x10FFFF
    → Begins 4 (c0 ∷ c1 ∷ c2 ∷ c3 ∷ s)
unfolding utf8_bytes
round_four-Begins c0 c1 c2 c3 cp s h0 h0' h1 h1' h2 h2' h3 h3' e big small =
    (cp, (omega arith, omega arith), ground arith, ground arith)

round_two-Sound :
    (c0 : ℕ) (s : List ℕ)
    → 192 ≤ c0
    → c0 < 224
    → IsCString s
    → Sound (c0 ∷ s) (round_two c0 (c0 ∷ s))
unfolding round_two c_read
round_two-Sound c0 [] h h' w = ground (arith, ranges 0 (omega arith))
round_two-Sound c0 (c1 ∷ s) h h' w =
    ground (arith, ranges c1, code_point_two_lem c0 c1, round_two-Begins c0 c1 s)

round_three-Sound :
    (c0 : ℕ) (s : List ℕ)
    → 224 ≤ c0
    → c0 < 240
    → IsCString s
    → Sound (c0 ∷ s) (round_three c0 (c0 ∷ s))
unfolding round_three c_read
round_three-Sound c0 [] h h' w = ground (arith, ranges 0 (omega arith))
round_three-Sound c0 (c1 ∷ []) h h' w = ground (arith, ranges c1, ranges 0 (omega arith))
round_three-Sound c0 (c1 ∷ c2 ∷ s) h h' w = ground (
  arith,
  ranges c1,
  ranges c2,
  round_three-Begins c0 c1 c2 (code_point_three c0 c1 c2) s,
  code_point_three_lem c0 c1 c2,
)

round_four-Sound :
    (c0 : ℕ) (s : List ℕ)
    → 240 ≤ c0
    → c0 < 248
    → IsCString s
    → Sound (c0 ∷ s) (round_four c0 (c0 ∷ s))
unfolding round_four c_read
round_four-Sound c0 [] h h' w = ground (arith, ranges 0 (omega arith))
round_four-Sound c0 (c1 ∷ []) h h' w = ground (arith, ranges c1, ranges 0 (omega arith))
round_four-Sound c0 (c1 ∷ c2 ∷ []) h h' w =
    ground (arith, ranges c1, ranges c2, ranges 0 (omega arith))
round_four-Sound c0 (c1 ∷ c2 ∷ c3 ∷ s) h h' w = ground (
  arith,
  ranges c1,
  ranges c2,
  ranges c3,
  round_four-Begins c0 c1 c2 c3 (code_point_four c0 c1 c2 c3) s,
  code_point_four_lem c0 c1 c2 c3,
)

round_one-Begins : (c0 : ℕ) (s : List ℕ) → 0 < c0 → c0 < 128 → Begins 1 (c0 ∷ s)
unfolding utf8_bytes
round_one-Begins c0 s h h' = (c0, (omega arith, omega arith), ground arith, ground arith)

pub utf8_round-Sound :
    (c0 : ℕ) (s : List ℕ) → IsCString (c0 ∷ s) → Sound (c0 ∷ s) (utf8_round c0 (c0 ∷ s))
unfolding utf8_round
utf8_round-Sound c0 s w = ground (
  arith,
  ranges c0,
  round_one-Begins c0 s,
  round_two-Sound c0 s,
  round_three-Sound c0 s,
  round_four-Sound c0 s,
)

-- The other way: the bytes of a scalar value are taken in one round, whatever follows.
round_two-take :
    (cp : ℕ) (r : List ℕ)
    → 0x80 ≤ cp
    → cp < 0x800
    → let c0 = 0xC0 + cp / 64 in
      let c1 = 0x80 + cp % 64 in utf8_round c0 (c0 ∷ c1 ∷ r) ≡ some (advance 2)
unfolding utf8_round round_two c_read
round_two-take cp r lo hi =
    let c0 = 0xC0 + cp / 64 in
    let c1 = 0x80 + cp % 64 in
    ground (
      arith,
      ranges c0 (omega arith),
      ranges c1 (omega arith),
      code_point_two_lem c0 c1 (omega arith) (omega arith),
    )

round_three-take :
    (cp : ℕ) (r : List ℕ)
    → 0x800 ≤ cp
    → (cp < 0xD800) ⊎ ((0xE000 ≤ cp) × (cp < 0x10000))
    → let c0 = 0xE0 + cp / 4096 in
      let c1 = 0x80 + cp / 64 % 64 in
      let c2 = 0x80 + cp % 64 in utf8_round c0 (c0 ∷ c1 ∷ c2 ∷ r) ≡ some (advance 3)
unfolding utf8_round round_three c_read
round_three-take cp r lo hi =
    let c0 = 0xE0 + cp / 4096 in
    let c1 = 0x80 + cp / 64 % 64 in
    let c2 = 0x80 + cp % 64 in
    ground (
      arith,
      ranges c0 (omega arith),
      ranges c1 (omega arith),
      ranges c2 (omega arith),
      code_point_three_lem c0 c1 c2 (omega arith) (omega arith) (omega arith),
    )

round_four-take :
    (cp : ℕ) (r : List ℕ)
    → 0x10000 ≤ cp
    → cp ≤ 0x10FFFF
    → let c0 = 0xF0 + cp / 262144 in
      let c1 = 0x80 + cp / 4096 % 64 in
      let c2 = 0x80 + cp / 64 % 64 in
      let c3 = 0x80 + cp % 64 in utf8_round c0 (c0 ∷ c1 ∷ c2 ∷ c3 ∷ r) ≡ some (advance 4)
unfolding utf8_round round_four c_read
round_four-take cp r lo hi =
    let c0 = 0xF0 + cp / 262144 in
    let c1 = 0x80 + cp / 4096 % 64 in
    let c2 = 0x80 + cp / 64 % 64 in
    let c3 = 0x80 + cp % 64 in
    ground (
      arith,
      ranges c0 (omega arith),
      ranges c1 (omega arith),
      ranges c2 (omega arith),
      ranges c3 (omega arith),
      code_point_four_lem c0 c1 c2 c3 (omega arith) (omega arith) (omega arith) (omega arith),
    )

round_one-take : (cp : ℕ) (r : List ℕ) → cp < 0x80 → utf8_round cp (cp ∷ r) ≡ some (advance 1)
unfolding utf8_round
round_one-take cp r hi = ground (arith, ranges cp (omega arith))

pub utf8_loop-advance :
    (fuel c0 n : ℕ) (s : List ℕ)
    → 0 < c0
    → utf8_round c0 (c0 ∷ s) ≡ some (advance n)
    → utf8_loop (suc fuel) (c0 ∷ s) ≡ utf8_loop fuel (drop n (c0 ∷ s))
unfolding utf8_loop c_read
utf8_loop-advance fuel c0 n s h e = ground arith

pub utf8_loop-utf8_bytes :
    (fuel cp : ℕ) (r : List ℕ)
    → IsScalar cp
    → utf8_loop (suc fuel) (utf8_bytes cp ++ r) ≡ utf8_loop fuel r
unfolding utf8_bytes
utf8_loop-utf8_bytes fuel cp r h = ground (
  arith,
  round_one-take cp r,
  round_two-take cp r,
  round_three-take cp r,
  round_four-take cp r,
  utf8_loop-advance fuel cp 1 r,
  utf8_loop-advance fuel (0xC0 + cp / 64) 2 ((0x80 + cp % 64) ∷ r),
  utf8_loop-advance fuel (0xE0 + cp / 4096) 3 ((0x80 + cp / 64 % 64) ∷ (0x80 + cp % 64) ∷ r),
  utf8_loop-advance fuel (0xF0 + cp / 262144) 4
      ((0x80 + cp / 4096 % 64) ∷ (0x80 + cp / 64 % 64) ∷ (0x80 + cp % 64) ∷ r),
)
