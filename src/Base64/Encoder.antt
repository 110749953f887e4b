-- ===== src/Base64/Encoder.antt =====
-- base64.cpp: the alphabets and `base64_encode`.
use mod_audio_stream.Prelude.{
  ℕ, zero, suc, ◌+◌, ◌*◌, ◌/◌, ◌^◌, bit_and, Bool, true, false, Option, none, some, List, [], ◌∷◌,
  ◌++◌, u32, codes, length, get_elem?, get_or, ltb, if◌then◌else◌, bind_option,
}

infixl 5 ◌>>=◌
abbrev ◌>>=◌ {ℓ κ} : {A : Type ℓ} {B : Type κ} → Option A → (A → Option B) → Option B
m >>= f = bind_option m f

unfoldable pub base64_chars : Bool → List ℕ
base64_chars false = codes "ABCDEFGHIJKLMNOPQRSTUVWXYZabcdefghijklmnopqrstuvwxyz0123456789+/"
base64_chars true = codes "ABCDEFGHIJKLMNOPQRSTUVWXYZabcdefghijklmnopqrstuvwxyz0123456789-_"

-- `base64_chars_[i]`. Index 64 is the terminator of the literal.
unfoldable pub char_of : Bool → ℕ → ℕ
unfolding base64_chars
char_of url i = get_or (base64_chars url) i 0

unfoldable pub trailing_char : Bool → ℕ
trailing_char url = if url then b'.' else b'='

-- The body of the loop at `pos`: the four characters that one round pushes back. `pos` is an
-- `unsigned int`, so `pos + 1` and `pos + 2` wrap; `none` is a read past the input.
unfoldable pub encode_round : Bool → List ℕ → ℕ → Option (List ℕ)
encode_round url bytes pos = do
  b0 ← get_elem? bytes pos
  let c0 = char_of url (bit_and b0 0xfc / 2 ^ 2)
  let one_byte =
      c0 ∷ char_of url (bit_and b0 0x03 * 2 ^ 4) ∷ trailing_char url ∷ trailing_char url ∷ []
  let two_or_three = do
    b1 ← get_elem? bytes (u32 (pos + 1))
    let c1 = char_of url (bit_and b0 0x03 * 2 ^ 4 + bit_and b1 0xf0 / 2 ^ 4)
    let two_bytes = c0 ∷ c1 ∷ char_of url (bit_and b1 0x0f * 2 ^ 2) ∷ trailing_char url ∷ []
    let three = do
      b2 ← get_elem? bytes (u32 (pos + 2))
      let c2 = char_of url (bit_and b1 0x0f * 2 ^ 2 + bit_and b2 0xc0 / 2 ^ 6)
      some (c0 ∷ c1 ∷ c2 ∷ char_of url (bit_and b2 0x3f) ∷ [])
    if ltb (u32 (pos + 2)) (length bytes) then three else some two_bytes
  if ltb (u32 (pos + 1)) (length bytes) then two_or_three else some one_byte

-- `while (pos < in_len)`. `none` is a fault of a round, or that the fuel ran out.
unfoldable pub encode_loop : Bool → List ℕ → ℕ → ℕ → Option (List ℕ)
encode_loop url bytes zero pos = none
encode_loop url bytes (suc fuel) pos = elim (ltb pos (length bytes)) [
  | true ↦ do
    out ← encode_round url bytes pos
    rest ← encode_loop url bytes fuel (u32 (pos + 3))
    some (out ++ rest)
  | false ↦ some []
]

-- One round for each input byte, and one for the test that ends the loop, are more than enough.
unfoldable pub base64_encode : List ℕ → Bool → Option (List ℕ)
base64_encode bytes url = encode_loop url bytes (suc (length bytes)) 0
