-- ===== src/StreamUtils/Utf8.antt =====
-- stream_utils.cpp: `is_valid_utf8`.
pub mod Masks
pub mod Scalar
pub mod Rounds
pub mod Laws
use mod_audio_stream.Prelude.{
  ℕ, zero, suc, ◌*◌, ◌^◌, bit_and, bit_or, Bool, true, false, ◌&&◌, ◌||◌, not, Option, none, some,
  List, ltb, leb, ◌==◌, if◌then◌else◌, bind_option, drop, length,
}
use mod_audio_stream.StreamUtils.CString.{c_read}

infixl 5 ◌>>=◌
abbrev ◌>>=◌ {ℓ κ} : {A : Type ℓ} {B : Type κ} → Option A → (A → Option B) → Option B
m >>= f = bind_option m f

-- What one round does: `return 0`, or `str += n`.
pub data Round : Type 0 where
  reject : Round
  advance : ℕ → Round

-- `(c & 0xC0) == 0x80`.
unfoldable pub is_tail : ℕ → Bool
is_tail c = bit_and c 0xC0 == 0x80

unfoldable pub code_point_two : ℕ → ℕ → ℕ
code_point_two c0 c1 = bit_or (bit_and c0 0x1F * 2 ^ 6) (bit_and c1 0x3F)

unfoldable pub code_point_three : ℕ → ℕ → ℕ → ℕ
code_point_three c0 c1 c2 =
    bit_or (bit_or (bit_and c0 0x0F * 2 ^ 12) (bit_and c1 0x3F * 2 ^ 6)) (bit_and c2 0x3F)

unfoldable pub code_point_four : ℕ → ℕ → ℕ → ℕ → ℕ
code_point_four c0 c1 c2 c3 =
    bit_or
      (bit_or (bit_or (bit_and c0 0x07 * 2 ^ 18) (bit_and c1 0x3F * 2 ^ 12))
        (bit_and c2 0x3F * 2 ^ 6))
      (bit_and c3 0x3F)

-- The three branches for lead bytes. `||` reads the next byte only if the one before is a tail.
unfoldable pub round_two : ℕ → List ℕ → Option Round
round_two c0 str = do
  c1 ← c_read str 1
  let cp = code_point_two c0 c1
  some (if not (is_tail c1) then reject else if ltb cp 0x80 then reject else advance 2)

unfoldable pub round_three : ℕ → List ℕ → Option Round
round_three c0 str = do
  c1 ← c_read str 1
  let go_on = bind_option (c_read str 2) λ c2.
      let cp = code_point_three c0 c1 c2 in
      some (
        if not (is_tail c2)
        then reject
        else if ltb cp 0x800 || (leb 0xD800 cp && leb cp 0xDFFF)
        then reject
        else advance 3)
  if not (is_tail c1) then some reject else go_on

unfoldable pub round_four : ℕ → List ℕ → Option Round
round_four c0 str = do
  c1 ← c_read str 1
  let last = λ (c2 : ℕ). bind_option (c_read str 3) λ c3.
      let cp = code_point_four c0 c1 c2 c3 in
      some (
        if not (is_tail c3)
        then reject
        else if ltb cp 0x10000 || ltb 0x10FFFF cp
        then reject
        else advance 4)
  let go_on = bind_option (c_read str 2) λ c2. if not (is_tail c2) then some reject else last c2
  if not (is_tail c1) then some reject else go_on

-- The body of the loop on a string that begins with `c0`.
unfoldable pub utf8_round : ℕ → List ℕ → Option Round
utf8_round c0 str =
    if bit_and c0 0x80 == 0x00
    then some (advance 1)
    else if bit_and c0 0xE0 == 0xC0
    then round_two c0 str
    else if bit_and c0 0xF0 == 0xE0
    then round_three c0 str
    else if bit_and c0 0xF8 == 0xF0
    then round_four c0 str
    else some reject

-- `while (*str)`. `none` is a read behind the terminator, or that the fuel ran out.
unfoldable pub utf8_loop : ℕ → List ℕ → Option Bool
utf8_loop zero str = none
utf8_loop (suc fuel) str = do
  c0 ← c_read str 0
  elim (c0 == 0) [
    | true ↦ some true
    | false ↦
        bind_option (utf8_round c0 str)
          (elim [ reject ↦ some false | advance n ↦ utf8_loop fuel (drop n str) ])
  ]

-- One round for each byte, and one for the terminator, are enough.
unfoldable pub is_valid_utf8 : List ℕ → Option Bool
is_valid_utf8 str = utf8_loop (suc (length str)) str
