-- ===== src/Base64/EncodeLaws.antt =====
-- The loop of `base64_encode` against the groups of RFC 4648, and when it ends.
use mod_audio_stream.Prelude.{
  ℕ, zero, suc, ◌+◌, ◌%◌, ◌^◌, ◌≤◌, ◌<◌, ◌≡◌, refl, Bool, List, [], ◌∷◌, ◌++◌, arith, AreBytes,
  some, none, u32, length, length-append, append-nil, append_assoc,
}
use mod_audio_stream.Prelude.Slices.{get_elem?-append}
use mod_audio_stream.Base64.Encoder.{encode_round, encode_loop, base64_encode}
use mod_audio_stream.Base64.Tables.{masks}
use mod_audio_stream.Base64.Groups.{encode_groups}

module _ (url : Bool) (pre : List ℕ) where
  encode_round_one :
      (a : ℕ)
      → a < 256
      → length pre + 1 < 2 ^ 32
      → encode_round url (pre ++ a ∷ []) (length pre) ≡ some (encode_groups url (a ∷ []))
  unfolding encode_round encode_groups
  encode_round_one a ha fits =
      ground
        (arith, masks a, length-append pre (a ∷ []), get_elem?-append (a ∷ []) 0 pre (length pre))

  encode_round_two :
      (a b : ℕ)
      → a < 256
      → b < 256
      → length pre + 2 < 2 ^ 32
      → encode_round url (pre ++ a ∷ b ∷ []) (length pre) ≡ some (encode_groups url (a ∷ b ∷ []))
  unfolding encode_round encode_groups
  encode_round_two a b ha hb fits = ground (
    arith,
    masks a,
    masks b,
    length-append pre (a ∷ b ∷ []),
    get_elem?-append (a ∷ b ∷ []) 0 pre (length pre),
    get_elem?-append (a ∷ b ∷ []) 1 pre (u32 (length pre + 1)),
  )

  encode_round_three :
      (a b c : ℕ) (r : List ℕ)
      → a < 256
      → b < 256
      → c < 256
      → length pre + 3 ≤ 2 ^ 32
      → encode_round url (pre ++ a ∷ b ∷ c ∷ r) (length pre)
        ≡ some (encode_groups url (a ∷ b ∷ c ∷ []))
  unfolding encode_round encode_groups
  encode_round_three a b c r ha hb hc fits = ground (
    arith,
    masks a,
    masks b,
    masks c,
    length-append pre (a ∷ b ∷ c ∷ r),
    get_elem?-append (a ∷ b ∷ c ∷ r) 0 pre (length pre),
    get_elem?-append (a ∷ b ∷ c ∷ r) 1 pre (u32 (length pre + 1)),
    get_elem?-append (a ∷ b ∷ c ∷ r) 2 pre (u32 (length pre + 2)),
  )

-- A round whose chunk is known, and the rounds behind it.
encode_loop_round :
    (url : Bool) (bytes : List ℕ) (fuel pos : ℕ) (out rest : List ℕ)
    → pos < length bytes
    → encode_round url bytes pos ≡ some out
    → encode_loop url bytes fuel (u32 (pos + 3)) ≡ some rest
    → encode_loop url bytes (suc fuel) pos ≡ some (out ++ rest)
unfolding encode_loop
encode_loop_round url bytes fuel pos out rest lt e f = ground arith

encode_loop_end :
    (url : Bool) (bytes : List ℕ) (fuel pos : ℕ)
    → 0 < fuel
    → length bytes ≤ pos
    → encode_loop url bytes fuel pos ≡ some []
unfolding encode_loop
encode_loop_end url bytes zero pos h le = absurd (omega arith)
encode_loop_end url bytes (suc fuel) pos h le = ground arith

-- The last round, on a chunk that leaves nothing behind.
encode_loop_last :
    (url : Bool) (bytes : List ℕ) (fuel : ℕ) (pre s : List ℕ)
    → bytes ≡ pre ++ s
    → length pre % 3 ≡ 0
    → length s ≤ 3
    → 0 < length s
    → 0 < fuel
    → length bytes < 2 ^ 32
    → encode_round url bytes (length pre) ≡ some (encode_groups url s)
    → encode_loop url bytes (suc fuel) (length pre) ≡ some (encode_groups url s)
encode_loop_last url bytes fuel pre s split m short some_left more fits round =
    rw (← append-nil (encode_groups url s)) (
      encode_loop_round url bytes fuel (length pre) (encode_groups url s) [] (omega (arith, size))
        round (encode_loop_end url bytes fuel _ more (omega (arith, size))))
  where
    size : length bytes ≡ length pre + length s
    size = rw split (length-append pre s)

-- A full round, with the rounds behind it.
encode_loop_chunk :
    (url : Bool) (pre : List ℕ) (a b c : ℕ) (r : List ℕ) (fuel : ℕ)
    → a < 256
    → b < 256
    → c < 256
    → length pre + 3 < 2 ^ 32
    → encode_loop url ((pre ++ a ∷ b ∷ c ∷ []) ++ r) fuel (length (pre ++ a ∷ b ∷ c ∷ []))
      ≡ some (encode_groups url r)
    → encode_loop url (pre ++ a ∷ b ∷ c ∷ r) (suc fuel) (length pre)
      ≡ some (encode_groups url (a ∷ b ∷ c ∷ r))
encode_loop_chunk url pre a b c r fuel ha hb hc fits rest =
    unfold encode_groups in
    encode_loop_round url (pre ++ a ∷ b ∷ c ∷ r) fuel (length pre)
      (encode_groups url (a ∷ b ∷ c ∷ [])) (encode_groups url r)
      (omega (arith, length-append pre (a ∷ b ∷ c ∷ r)))
      (encode_round_three url pre a b c r ha hb hc (omega arith))
      (rw (next, ← append_assoc pre (a ∷ b ∷ c ∷ []) r) rest)
  where
    next : u32 (length pre + 3) ≡ length (pre ++ a ∷ b ∷ c ∷ [])
    next = omega (arith, length-append pre (a ∷ b ∷ c ∷ []))

-- At the end of `pre`, with `s` still to come.
encode_loop-append :
    (url : Bool) (s pre : List ℕ) (fuel : ℕ)
    → length pre % 3 ≡ 0
    → length s < fuel
    → length pre + length s < 2 ^ 32
    → AreBytes s
    → encode_loop url (pre ++ s) fuel (length pre) ≡ some (encode_groups url s)
encode_loop-append url s pre zero m lt fits h = absurd (omega arith)
encode_loop-append url [] pre (suc fuel) m lt fits h =
    unfold encode_groups in
    encode_loop_end url (pre ++ []) (suc fuel) (length pre) (omega arith)
      (omega (arith, length-append pre []))
encode_loop-append url (a ∷ []) pre (suc fuel) m lt fits h =
    encode_loop_last url (pre ++ a ∷ []) fuel pre (a ∷ []) refl m (omega arith) (omega arith)
      (omega arith) (omega (arith, length-append pre (a ∷ [])))
      (encode_round_one url pre a h.0 (omega arith))
encode_loop-append url (a ∷ b ∷ []) pre (suc fuel) m lt fits h =
    encode_loop_last url (pre ++ a ∷ b ∷ []) fuel pre (a ∷ b ∷ []) refl m (omega arith)
      (omega arith) (omega arith) (omega (arith, length-append pre (a ∷ b ∷ [])))
      (encode_round_two url pre a b h.0 h.1.0 (omega arith))
encode_loop-append url (a ∷ b ∷ c ∷ r) pre (suc fuel) m lt fits h =
    let chunk : List ℕ = a ∷ b ∷ c ∷ [] in
    let next = length-append pre chunk in
    encode_loop_chunk url pre a b c r fuel h.0 h.1.0 h.1.1.0 (omega arith) (
      encode_loop-append url r (pre ++ chunk) fuel (omega (arith, next)) (omega arith)
        (omega (arith, next)) h.1.1.1)

-- From 4 GiB on `pos` never reaches the end.
encode_loop_diverges :
    (url : Bool) (bytes : List ℕ) (fuel pos : ℕ)
    → 2 ^ 32 ≤ length bytes
    → pos < 2 ^ 32
    → encode_loop url bytes fuel pos ≡ none
unfolding encode_loop
encode_loop_diverges url bytes zero pos big lt = refl
encode_loop_diverges url bytes (suc fuel) pos big lt =
    ground (arith, encode_loop_diverges url bytes fuel (u32 (pos + 3)))

-- On every byte string shorter than 2^32, base64_encode returns, and what it returns is the
-- encoding by groups of RFC 4648 in the alphabet and with the padding that url selects.
pub base64_encode-encode_groups :
    (bytes : List ℕ) (url : Bool)
    → AreBytes bytes
    → length bytes < 2 ^ 32
    → base64_encode bytes url ≡ some (encode_groups url bytes)
unfolding base64_encode
base64_encode-encode_groups bytes url h fits =
    encode_loop-append url bytes [] (suc (length bytes)) (omega arith) (omega arith) (omega arith) h

-- With 4 GiB or more the unsigned int position never reaches the end: whatever the number of
-- rounds, the loop has returned nothing.
pub encode_loop_large :
    (bytes : List ℕ) (url : Bool) (fuel : ℕ)
    → 2 ^ 32 ≤ length bytes
    → encode_loop url bytes fuel 0 ≡ none
encode_loop_large bytes url fuel big = encode_loop_diverges url bytes fuel 0 big (omega arith)
