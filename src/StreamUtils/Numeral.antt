-- ===== src/StreamUtils/Numeral.antt =====
-- The C library's reading of decimal integers (`atoi`, and `%d` of `sscanf`) and its comparison of
-- strings, with and without the case of ASCII letters. C leaves an integer that does not fit the
-- type undefined: `atoi` does what glibc does there, for `%d` and `strtol` it is itself here.
use mod_audio_stream.Prelude.{
  ℕ, zero, suc, ◌+◌, ◌-◌, ◌*◌, ◌%◌, ◌^◌, ◌<◌, ◌≡◌, ap, ◌∙◌, arith, min, ltb, Bool, true, false,
  ◌&&◌, ◌||◌, Option, none, some, List, [], ◌∷◌, leb, ◌==◌, if◌then◌else◌,
}
use mod_audio_stream.Prelude.Ints.{ℤ, pos, negsuc}
use mod_audio_stream.StreamUtils.Uri.{is_digit}

-- `isspace` in the "C" locale.
unfoldable pub is_space : ℕ → Bool
is_space c = c == b' ' || leb 9 c && leb c 13

unfoldable pub skip_spaces : List ℕ → List ℕ
unfolding is_space
skip_spaces [] = []
skip_spaces (c ∷ s) = if is_space c then skip_spaces s else c ∷ s

-- The value of the digits in front, behind those that gave `n`.
unfoldable pub digits_value : ℕ → List ℕ → ℕ
unfolding is_digit
digits_value n [] = n
digits_value n (c ∷ s) = if is_digit c then digits_value (n * 10 + (c - b'0')) s else n

abbrev pub negate : ℕ → ℤ
negate zero = pos 0
negate (suc n) = negsuc n

-- `none`: there is no digit.
unfoldable pub unsigned_value : Bool → List ℕ → Option ℤ
unfolding is_digit digits_value
unsigned_value minus [] = none
unsigned_value minus (c ∷ s) =
    let n = digits_value 0 (c ∷ s) in
    if is_digit c then some (if minus then negate n else pos n) else none

unfoldable pub signed_value : List ℕ → Option ℤ
unfolding unsigned_value
signed_value [] = none
signed_value (c ∷ s) =
    if c == b'-'
    then unsigned_value true s
    else if c == b'+'
    then unsigned_value false s
    else unsigned_value false (c ∷ s)

-- `%d`.
unfoldable pub scan_int : List ℕ → Option ℤ
unfolding skip_spaces signed_value
scan_int s = signed_value (skip_spaces s)

-- The `int` with these 32 bits.
unfoldable pub int_of_word : ℕ → ℤ
int_of_word m = if ltb m (2 ^ 31) then pos m else negsuc (2 ^ 32 - 1 - m)

-- From a `long`, which stops at its least and its greatest value, to an `int`.
unfoldable pub to_int : ℤ → ℤ
unfolding int_of_word
to_int (pos n) = int_of_word (min n (2 ^ 63 - 1) % 2 ^ 32)
to_int (negsuc n) = int_of_word (2 ^ 32 - 1 - min n (2 ^ 63 - 1) % 2 ^ 32)

unfoldable pub int_or_zero : Option ℤ → ℤ
unfolding to_int
int_or_zero none = pos 0
int_or_zero (some z) = to_int z

unfoldable pub atoi : List ℕ → ℤ
unfolding scan_int int_or_zero
atoi s = int_or_zero (scan_int s)

to_int-fits : (n : ℕ) → n < 2 ^ 31 → to_int (pos n) ≡ pos n
unfolding to_int int_of_word
to_int-fits n h = let m : min n (2 ^ 63 - 1) % 2 ^ 32 ≡ n = omega arith in rw m (ground arith)

pub atoi-fits : (s : List ℕ) (n : ℕ) → scan_int s ≡ some (pos n) → n < 2 ^ 31 → atoi s ≡ pos n
unfolding atoi int_or_zero
atoi-fits s n e h = ap int_or_zero e ∙ to_int-fits n h

unfoldable pub skip_digits : List ℕ → List ℕ
unfolding is_digit
skip_digits [] = []
skip_digits (c ∷ s) = if is_digit c then skip_digits s else c ∷ s

unfoldable pub skip_sign : List ℕ → List ℕ
skip_sign [] = []
skip_sign (c ∷ s) = if c == b'-' || c == b'+' then s else c ∷ s

-- `strtol (s, &end, 10)` with what `end` points at. A `long` is an integer here.
unfoldable pub strtol : List ℕ → ℤ × List ℕ
unfolding scan_int skip_digits skip_sign skip_spaces
strtol s = elim (scan_int s) [
  | none ↦ (pos 0, s)
  | some z ↦ (z, skip_digits (skip_sign (skip_spaces s)))
]

-- `strcmp (s, t) == 0`.
unfoldable pub equal_strings : List ℕ → List ℕ → Bool
equal_strings [] [] = true
equal_strings [] (d ∷ t) = false
equal_strings (c ∷ s) [] = false
equal_strings (c ∷ s) (d ∷ t) = c == d && equal_strings s t

-- `tolower` in the "C" locale.
unfoldable pub lower : ℕ → ℕ
lower c = if leb b'A' c && leb c b'Z' then c + 32 else c

-- `strcasecmp (s, t) == 0`.
unfoldable pub same_caseless : List ℕ → List ℕ → Bool
unfolding lower
same_caseless [] [] = true
same_caseless [] (d ∷ t) = false
same_caseless (c ∷ s) [] = false
same_caseless (c ∷ s) (d ∷ t) = lower c == lower d && same_caseless s t

-- `strncasecmp (s, p, strlen (p)) == 0`.
unfoldable pub starts_caseless : List ℕ → List ℕ → Bool
unfolding lower
starts_caseless [] s = true
starts_caseless (c ∷ p) [] = false
starts_caseless (c ∷ p) (d ∷ s) = lower c == lower d && starts_caseless p s
