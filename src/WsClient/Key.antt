-- ===== src/WsClient/Key.antt =====
-- ws_client.cpp: `sha1_and_base64`, `randomBase64` and `generateKey`, with the digest of SHA-1 and
-- the bytes of the random generator given.
use mod_audio_stream.Prelude.{
  ℕ, zero, suc, ◌+◌, ◌*◌, ◌/◌, ◌^◌, bit_and, bit_or, List, [], ◌∷◌, ◌++◌, codes, length, get_or,
  ltb, if◌then◌else◌,
}

unfoldable pub b64 : ℕ → ℕ
b64 i = get_or (codes "ABCDEFGHIJKLMNOPQRSTUVWXYZabcdefghijklmnopqrstuvwxyz0123456789+/") i 0

-- `b64[(n >> shift) & 0x3F]`.
unfoldable pub digit_at : ℕ → ℕ → ℕ
unfolding b64
digit_at n shift = b64 (bit_and (n / 2 ^ shift) 0x3F)

unfoldable pub join_bytes : ℕ → ℕ → ℕ → ℕ
join_bytes a b c = bit_or (bit_or (a * 2 ^ 16) (b * 2 ^ 8)) c

unfoldable pub four_digits : ℕ → List ℕ
unfolding digit_at
four_digits n = digit_at n 18 ∷ digit_at n 12 ∷ digit_at n 6 ∷ digit_at n 0 ∷ []

-- `for (int i = 0; i < 18; i += 3)`, with the rounds that are left.
unfoldable pub digest_rounds : List ℕ → ℕ → ℕ → List ℕ
unfolding join_bytes four_digits
digest_rounds digest zero i = []
digest_rounds digest (suc rounds) i =
    let n = join_bytes (get_or digest i 0) (get_or digest (i + 1) 0) (get_or digest (i + 2) 0) in
    four_digits n ++ digest_rounds digest rounds (i + 3)

-- From the digest on.
unfoldable pub digest_base64 : List ℕ → List ℕ
unfolding digest_rounds digit_at
digest_base64 digest =
    let n = bit_or (get_or digest 18 0 * 2 ^ 16) (get_or digest 19 0 * 2 ^ 8) in
    digest_rounds digest 6 0 ++ digit_at n 18 ∷ digit_at n 12 ∷ digit_at n 6 ∷ b'=' ∷ []

unfoldable pub sha1_and_base64 : (List ℕ → List ℕ) → List ℕ → List ℕ
unfolding digest_base64
sha1_and_base64 sha1 input = digest_base64 (sha1 input)

-- The body of the loop at `i`, where `buf[i]` is there.
unfoldable pub random_round : List ℕ → ℕ → List ℕ
unfolding digit_at
random_round buf i =
    let one = get_or buf i 0 * 2 ^ 16 in
    let two = if ltb (i + 1) (length buf) then bit_or one (get_or buf (i + 1) 0 * 2 ^ 8) else one in
    let n = if ltb (i + 2) (length buf) then bit_or two (get_or buf (i + 2) 0) else two in
    let last = if ltb (i + 2) (length buf) then digit_at n 0 else b'=' in
    digit_at n 18
    ∷ digit_at n 12
    ∷ (if ltb (i + 1) (length buf) then digit_at n 6 ∷ last ∷ [] else b'=' ∷ b'=' ∷ [])

-- `for (size_t i = 0; i < buf.size (); i += 3)`. A round takes three bytes: as many rounds as
-- there are bytes, and one, are enough.
unfoldable pub random_loop : List ℕ → ℕ → ℕ → List ℕ
unfolding random_round
random_loop buf zero i = []
random_loop buf (suc fuel) i =
    let rest = random_loop buf fuel (i + 3) in
    if ltb i (length buf) then random_round buf i ++ rest else []

unfoldable pub random_base64 : List ℕ → List ℕ
unfolding random_loop
random_base64 buf = random_loop buf (suc (length buf)) 0
