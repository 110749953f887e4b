-- ===== src/Base64/Groups.antt =====
-- The encoding that RFC 4648 describes: groups of 24 bits cut into four numbers of 6 bits, the
-- last group padded.
use mod_audio_stream.Prelude.{ℕ, ◌+◌, ◌*◌, ◌/◌, ◌%◌, ◌^◌, Bool, List, [], ◌∷◌}
use mod_audio_stream.Base64.Encoder.{char_of, trailing_char}

abbrev pub group : ℕ → ℕ → ℕ → ℕ
group a b c = a * 65536 + b * 256 + c

-- The `k`-th number of a group, from the left.
abbrev pub sextet : ℕ → ℕ → ℕ
sextet k n = n / 2 ^ (6 * k) % 64

unfoldable pub encode_groups : Bool → List ℕ → List ℕ
encode_groups url [] = []
encode_groups url (a ∷ []) =
    let n = group a 0 0 in
    char_of url (sextet 3 n) ∷ char_of url (sextet 2 n) ∷ trailing_char url ∷ trailing_char url ∷ []
encode_groups url (a ∷ b ∷ []) =
    let n = group a b 0 in
    char_of url (sextet 3 n)
    ∷ char_of url (sextet 2 n)
    ∷ char_of url (sextet 1 n)
    ∷ trailing_char url
    ∷ []
encode_groups url (a ∷ b ∷ c ∷ r) =
    let n = group a b c in
    char_of url (sextet 3 n)
    ∷ char_of url (sextet 2 n)
    ∷ char_of url (sextet 1 n)
    ∷ char_of url (sextet 0 n)
    ∷ encode_groups url r
