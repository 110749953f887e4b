-- ===== src/Base64/Tables.antt =====
-- The two alphabets against `pos_of_char`, and the masks of base64.cpp as arithmetic, each
-- checked on every value.
use mod_audio_stream.Prelude.{
  ℕ, ◌/◌, ◌%◌, ◌<◌, bit_and, ◌≡◌, refl, Bool, true, false, ◌&&◌, not, arith, ◌==◌, holds_below,
  holds_at, Result, ok, err,
}
use mod_audio_stream.Base64.Encoder.{char_of, trailing_char}
use mod_audio_stream.Base64.Decoder.{pos_of_char, is_data, newline}

abbrev is_ok : Result ℕ → ℕ → Bool
is_ok (ok a) b = a == b
is_ok (err e) b = false

is_ok_sound : (r : Result ℕ) (b : ℕ) → is_ok r b ≡ true → r ≡ ok b
is_ok_sound (ok a) b h = ground arith
is_ok_sound (err e) b h = ground arith

abbrev alphabet_test : Bool → ℕ → Bool
alphabet_test url i =
    is_ok (pos_of_char (char_of url i)) i
    && is_data (char_of url i)
    && not (char_of url i == newline)

alphabet_table : (url : Bool) → holds_below 64 (alphabet_test url) ≡ true
unfolding holds_below char_of pos_of_char is_data
alphabet_table true = refl
alphabet_table false = refl

alphabet_entry : (url : Bool) (i : ℕ) → i < 64 → alphabet_test url i ≡ true
alphabet_entry url i h = holds_at 64 (alphabet_test url) i (alphabet_table url) h

-- `pos_of_char` inverts both alphabets.
pub pos_of_char-char_of : (url : Bool) (i : ℕ) → i < 64 → pos_of_char (char_of url i) ≡ ok i
pos_of_char-char_of url i h = is_ok_sound _ i (ground (arith, alphabet_entry url i h))

pub is_data-char_of : (url : Bool) (i : ℕ) → i < 64 → is_data (char_of url i) ≡ true
is_data-char_of url i h = ground (arith, alphabet_entry url i h)

pub char_of-ne-newline : (url : Bool) (i : ℕ) → i < 64 → (char_of url i == newline) ≡ false
char_of-ne-newline url i h = ground (arith, alphabet_entry url i h)

pub is_data-trailing_char : (url : Bool) → is_data (trailing_char url) ≡ false
unfolding is_data trailing_char
is_data-trailing_char true = refl
is_data-trailing_char false = refl

pub trailing_char-ne-newline : (url : Bool) → (trailing_char url == newline) ≡ false
unfolding trailing_char
trailing_char-ne-newline true = refl
trailing_char-ne-newline false = refl

abbrev mask_test : ℕ → Bool
mask_test b =
    (bit_and b 0xfc / 4 == b / 4)
    && (bit_and b 0x03 == b % 4)
    && (bit_and b 0xf0 / 16 == b / 16)
    && (bit_and b 0x0f == b % 16)
    && (bit_and b 0xc0 / 64 == b / 64)
    && (bit_and b 0x3f == b % 64)
    && (bit_and b 0x30 / 16 == b / 16 % 4)
    && (bit_and b 0x3c / 4 == b / 4 % 16)

mask_table : holds_below 256 mask_test ≡ true
unfolding holds_below
mask_table = refl

-- The masks of the encoder and the decoder, on a byte.
pub record Masks (b : ℕ) : Type 0 where
  pub fc : bit_and b 0xfc / 4 ≡ b / 4
  pub x03 : bit_and b 0x03 ≡ b % 4
  pub f0 : bit_and b 0xf0 / 16 ≡ b / 16
  pub x0f : bit_and b 0x0f ≡ b % 16
  pub c0 : bit_and b 0xc0 / 64 ≡ b / 64
  pub x3f : bit_and b 0x3f ≡ b % 64
  pub x30 : bit_and b 0x30 / 16 ≡ b / 16 % 4
  pub x3c : bit_and b 0x3c / 4 ≡ b / 4 % 16

pub masks : (b : ℕ) → b < 256 → Masks b
masks b h = ground (arith, holds_at 256 mask_test b mask_table h)
