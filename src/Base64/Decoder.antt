-- ===== src/Base64/Decoder.antt =====
-- base64.cpp: `pos_of_char` and `base64_decode`.
use mod_audio_stream.Prelude.{
  ℕ, ◌+◌, ◌-◌, ◌*◌, ◌/◌, ◌^◌, bit_and, Bool, true, false, ◌&&◌, ◌||◌, not, List, [], ◌∷◌, ◌++◌, u8,
  leb, ◌==◌, if◌then◌else◌, Result, ok, err, out_of_range, invalid_base64, bind_result,
}

infixl 5 ◌>>=◌
abbrev ◌>>=◌ {ℓ κ} : {A : Type ℓ} {B : Type κ} → Result A → (A → Result B) → Result B
m >>= f = bind_result m f

abbrev pub newline : ℕ
newline = 10

unfoldable pub pos_of_char : ℕ → Result ℕ
pos_of_char chr =
    if leb b'A' chr && leb chr b'Z'
    then ok (chr - b'A')
    else if leb b'a' chr && leb chr b'z'
    then ok (chr - b'a' + (b'Z' - b'A') + 1)
    else if leb b'0' chr && leb chr b'9'
    then ok (chr - b'0' + (b'Z' - b'A') + (b'z' - b'a') + 2)
    else if chr == b'+' || chr == b'-'
    then ok 62
    else if chr == b'/' || chr == b'_'
    then ok 63
    else err invalid_base64

-- The test of the second and the third byte of a chunk: is this character data?
unfoldable pub is_data : ℕ → Bool
is_data c = not (c == b'=') && not (c == b'.')

-- The three bytes that a chunk may push back, cast to `char`.
unfoldable pub first_byte : ℕ → ℕ → ℕ
first_byte p0 p1 = u8 (p0 * 2 ^ 2 + bit_and p1 0x30 / 2 ^ 4)

unfoldable pub second_byte : ℕ → ℕ → ℕ
second_byte p1 p2 = u8 (bit_and p1 0x0f * 2 ^ 4 + bit_and p2 0x3c / 2 ^ 2)

unfoldable pub third_byte : ℕ → ℕ → ℕ
third_byte p2 p3 = u8 (bit_and p2 0x03 * 2 ^ 6 + p3)

-- What a round does with the characters from `pos + 3` on, and with those from `pos + 2` on.
unfoldable pub decode_third : ℕ → List ℕ → Result (List ℕ)
unfolding is_data third_byte
decode_third p2 [] = ok []
decode_third p2 (c3 ∷ _) =
    if is_data c3 then bind_result (pos_of_char c3) (λ p3. ok (third_byte p2 p3 ∷ [])) else ok []

unfoldable pub decode_second : ℕ → List ℕ → Result (List ℕ)
unfolding is_data second_byte decode_third
decode_second p1 [] = ok []
decode_second p1 (c2 ∷ r) =
    let two_or_three =
      bind_result (pos_of_char c2)
        λ p2. bind_result (decode_third p2 r) λ out. ok (second_byte p1 p2 ∷ out) in
    if is_data c2 then two_or_three else ok []

-- A round with the characters at `pos`, `pos + 1`, and those behind them. The position of the
-- second character is computed first.
unfoldable pub decode_round : ℕ → ℕ → List ℕ → Result (List ℕ)
unfolding first_byte decode_second
decode_round c0 c1 r = do
  p1 ← pos_of_char c1
  p0 ← pos_of_char c0
  out ← decode_second p1 r
  ok (first_byte p0 p1 ∷ out)

-- The loop over the string from `pos` on. `at (pos + 1)` throws where one character is left.
unfoldable pub decode_loop : List ℕ → Result (List ℕ)
decode_loop [] = ok []
decode_loop (c0 ∷ []) = err out_of_range
decode_loop (c0 ∷ c1 ∷ []) = decode_round c0 c1 []
decode_loop (c0 ∷ c1 ∷ c2 ∷ []) = decode_round c0 c1 (c2 ∷ [])
decode_loop (c0 ∷ c1 ∷ c2 ∷ c3 ∷ r) = do
  out ← decode_round c0 c1 (c2 ∷ c3 ∷ [])
  rest ← decode_loop r
  ok (out ++ rest)

-- `std::remove` of the line feeds.
unfoldable pub without_newlines : List ℕ → List ℕ
without_newlines [] = []
without_newlines (c ∷ s) = let rest = without_newlines s in if c == newline then rest else c ∷ rest

-- An empty string leaves early; with `remove_linebreaks` the copy is decoded in its turn.
unfoldable pub base64_decode : List ℕ → Bool → Result (List ℕ)
base64_decode [] _ = ok []
base64_decode (c ∷ s) true = decode_loop (without_newlines (c ∷ s))
base64_decode (c ∷ s) false = decode_loop (c ∷ s)
