-- ===== src/StreamUtils/CString.antt =====
-- A C string, as the bytes before its terminator, and reads of it.
use mod_audio_stream.Prelude.{
  ℕ, zero, suc, ◌<◌, Option, none, some, List, [], ◌∷◌, All, ◌==◌, if◌then◌else◌,
}

-- `s[k]`. The terminator reads as 0; past it lies what the program may not read: `none`.
unfoldable pub c_read : List ℕ → ℕ → Option ℕ
c_read [] zero = some 0
c_read [] (suc k) = none
c_read (x ∷ s) zero = some x
c_read (x ∷ s) (suc k) = c_read s k

-- The bytes of a C string: none of them is the terminator.
abbrev pub IsCString : List ℕ → Type 0
IsCString = All (λ b. (0 < b) × (b < 256))

-- The C string that an array holds.
unfoldable pub c_string : List ℕ → List ℕ
c_string [] = []
c_string (c ∷ s) = if c == 0 then [] else c ∷ c_string s
