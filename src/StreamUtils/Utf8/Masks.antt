-- ===== src/StreamUtils/Utf8/Masks.antt =====
-- The masks of `is_valid_utf8` as arithmetic, checked on every byte.
use mod_audio_stream.Prelude.{
  ℕ, ◌+◌, ◌*◌, ◌%◌, ◌^◌, ◌<◌, bit_and, bit_or, ◌≡◌, refl, Bool, true, ◌&&◌, not, arith, ltb, leb,
  ◌==◌, if◌then◌else◌, holds_below, holds_at, bit_or_disjoint,
}
use mod_audio_stream.StreamUtils.Utf8.{is_tail, code_point_two, code_point_three, code_point_four}

abbrev same : Bool → Bool → Bool
same a b = if a then b else not b

same_sound : (a b : Bool) → same a b ≡ true → a ≡ b
same_sound a b h = ground arith

abbrev byte_test : ℕ → Bool
byte_test c =
    same (bit_and c 0x80 == 0x00) (ltb c 128)
    && same (bit_and c 0xE0 == 0xC0) (leb 192 c && ltb c 224)
    && same (bit_and c 0xF0 == 0xE0) (leb 224 c && ltb c 240)
    && same (bit_and c 0xF8 == 0xF0) (leb 240 c && ltb c 248)
    && same (bit_and c 0xC0 == 0x80) (leb 128 c && ltb c 192)

byte_table : holds_below 256 byte_test ≡ true
unfolding holds_below
byte_table = refl

abbrev field_test : ℕ → Bool
field_test c =
    (bit_and c 0x1F == c % 32)
    && (bit_and c 0x0F == c % 16)
    && (bit_and c 0x07 == c % 8)
    && (bit_and c 0x3F == c % 64)

field_table : holds_below 256 field_test ≡ true
unfolding holds_below
field_table = refl

-- The tests on a byte, as ranges.
pub record Ranges (c : ℕ) : Type 0 where
  pub ascii : (bit_and c 0x80 == 0x00) ≡ ltb c 128
  pub lead_two : (bit_and c 0xE0 == 0xC0) ≡ (leb 192 c && ltb c 224)
  pub lead_three : (bit_and c 0xF0 == 0xE0) ≡ (leb 224 c && ltb c 240)
  pub lead_four : (bit_and c 0xF8 == 0xF0) ≡ (leb 240 c && ltb c 248)
  pub tail : is_tail c ≡ (leb 128 c && ltb c 192)

pub ranges : (c : ℕ) → c < 256 → Ranges c
unfolding is_tail
ranges c h =
    let t : byte_test c ≡ true = holds_at 256 byte_test c byte_table h in
    record {
      ascii = same_sound _ _ (ground (arith, t));
      lead_two = same_sound _ _ (ground (arith, t));
      lead_three = same_sound _ _ (ground (arith, t));
      lead_four = same_sound _ _ (ground (arith, t));
      tail = same_sound _ _ (ground (arith, t));
    }

record Fields (c : ℕ) : Type 0 where
  five : bit_and c 0x1F ≡ c % 32
  four : bit_and c 0x0F ≡ c % 16
  three : bit_and c 0x07 ≡ c % 8
  six : bit_and c 0x3F ≡ c % 64

fields : (c : ℕ) → c < 256 → Fields c
fields c h = ground (arith, holds_at 256 field_test c field_table h)

pub code_point_two_lem :
    (c0 c1 : ℕ) → c0 < 256 → c1 < 256 → code_point_two c0 c1 ≡ c0 % 32 * 64 + c1 % 64
unfolding code_point_two
code_point_two_lem c0 c1 h0 h1 =
    rw ((fields c0 h0).five, (fields c1 h1).six)
      (bit_or_disjoint 6 (c0 % 32) (c1 % 64) (omega arith))

or_three :
    (q a b : ℕ)
    → a < 64
    → b < 64
    → bit_or (bit_or (q * 2 ^ 12) (a * 2 ^ 6)) b ≡ (q * 64 + a) * 64 + b
or_three q a b ha hb =
    let high : bit_or (q * 2 ^ 12) (a * 2 ^ 6) ≡ (q * 64 + a) * 2 ^ 6 =
      omega (arith, bit_or_disjoint 12 q (a * 2 ^ 6) (omega arith)) in
    rw high (bit_or_disjoint 6 (q * 64 + a) b hb)

or_four :
    (q a b c : ℕ)
    → a < 64
    → b < 64
    → c < 64
    → bit_or (bit_or (bit_or (q * 2 ^ 18) (a * 2 ^ 12)) (b * 2 ^ 6)) c
      ≡ ((q * 64 + a) * 64 + b) * 64 + c
or_four q a b c ha hb hc =
    let high : bit_or (q * 2 ^ 18) (a * 2 ^ 12) ≡ (q * 64 + a) * 2 ^ 12 =
      omega (arith, bit_or_disjoint 18 q (a * 2 ^ 12) (omega arith)) in
    rw high (or_three (q * 64 + a) b c hb hc)

pub code_point_three_lem :
    (c0 c1 c2 : ℕ)
    → c0 < 256
    → c1 < 256
    → c2 < 256
    → code_point_three c0 c1 c2 ≡ (c0 % 16 * 64 + c1 % 64) * 64 + c2 % 64
unfolding code_point_three
code_point_three_lem c0 c1 c2 h0 h1 h2 =
    rw ((fields c0 h0).four, (fields c1 h1).six, (fields c2 h2).six)
      (or_three (c0 % 16) (c1 % 64) (c2 % 64) (omega arith) (omega arith))

pub code_point_four_lem :
    (c0 c1 c2 c3 : ℕ)
    → c0 < 256
    → c1 < 256
    → c2 < 256
    → c3 < 256
    → code_point_four c0 c1 c2 c3 ≡ ((c0 % 8 * 64 + c1 % 64) * 64 + c2 % 64) * 64 + c3 % 64
unfolding code_point_four
code_point_four_lem c0 c1 c2 c3 h0 h1 h2 h3 =
    rw ((fields c0 h0).three, (fields c1 h1).six, (fields c2 h2).six, (fields c3 h3).six)
      (or_four (c0 % 8) (c1 % 64) (c2 % 64) (c3 % 64) (omega arith) (omega arith) (omega arith))
