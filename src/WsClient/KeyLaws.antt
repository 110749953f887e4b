-- ===== src/WsClient/KeyLaws.antt =====
-- The encoders of ws_client.cpp against the groups of RFC 4648, and so against base64.cpp.
use mod_audio_stream.Prelude.{
  ℕ, zero, suc, ◌+◌, ◌*◌, ◌/◌, ◌^◌, ◌<◌, bit_or, bit_or_disjoint, bit_and_low, ◌≡◌, refl, ap, subst,
  ◌∙◌, false, List, [], ◌∷◌, ◌++◌, append_assoc, AreBytes, length, length-append, get_or, arith,
}
use mod_audio_stream.Base64.Encoder.{char_of, trailing_char, base64_chars}
use mod_audio_stream.Base64.Groups.{group, sextet, encode_groups}
use mod_audio_stream.WsClient.Key.{
  b64, digit_at, join_bytes, four_digits, digest_rounds, digest_base64,
}

b64-char_of : (i : ℕ) → b64 i ≡ char_of false i
unfolding b64 char_of base64_chars
b64-char_of i = refl

pub digit_at-sextet : (n k : ℕ) → digit_at n (6 * k) ≡ char_of false (sextet k n)
unfolding digit_at
digit_at-sextet n k = b64-char_of _ ∙ ap (char_of false) (bit_and_low 6 (n / 2 ^ (6 * k)))

two_bytes : (a b : ℕ) → a < 256 → b < 256 → bit_or (a * 2 ^ 16) (b * 2 ^ 8) ≡ a * 65536 + b * 256
two_bytes a b ha hb = bit_or_disjoint 16 a (b * 2 ^ 8) (omega arith)

pub two_bytes_group : (a b : ℕ) → a < 256 → b < 256 → bit_or (a * 2 ^ 16) (b * 2 ^ 8) ≡ group a b 0
two_bytes_group a b ha hb = two_bytes a b ha hb ∙ omega arith

three_bytes : (a b c : ℕ) → a < 256 → b < 256 → c < 256 → join_bytes a b c ≡ group a b c
unfolding join_bytes
three_bytes a b c ha hb hc =
    let q : a * 65536 + b * 256 ≡ (a * 256 + b) * 2 ^ 8 = omega arith in
    rw (two_bytes a b ha hb, q) (bit_or_disjoint 8 (a * 256 + b) c (omega arith) ∙ omega arith)

pub four_digits-group :
    (a b c : ℕ) (r : List ℕ)
    → a < 256
    → b < 256
    → c < 256
    → four_digits (join_bytes a b c) ++ encode_groups false r ≡ encode_groups false (a ∷ b ∷ c ∷ r)
unfolding four_digits encode_groups
four_digits-group a b c r ha hb hc =
    let n = group a b c in
    rw
      (
        three_bytes a b c ha hb hc,
        digit_at-sextet n 3,
        digit_at-sextet n 2,
        digit_at-sextet n 1,
        digit_at-sextet n 0,
      )
      refl

pub get_or-append :
    (pre s : List ℕ) (i k : ℕ) → i ≡ length pre + k → get_or (pre ++ s) i 0 ≡ get_or s k 0
get_or-append [] s i k e = let q : i ≡ k = omega arith in rw q refl
get_or-append (x ∷ pre) s zero k e = absurd (omega arith)
get_or-append (x ∷ pre) s (suc i) k e = get_or-append pre s i k (omega arith)

abbrev last_digits : List ℕ → List ℕ
last_digits digest =
    let n = bit_or (get_or digest 18 0 * 2 ^ 16) (get_or digest 19 0 * 2 ^ 8) in
    digit_at n 18 ∷ digit_at n 12 ∷ digit_at n 6 ∷ b'=' ∷ []

last_digits-group :
    (pre : List ℕ) (a b : ℕ)
    → length pre ≡ 18
    → a < 256
    → b < 256
    → last_digits (pre ++ a ∷ b ∷ []) ≡ encode_groups false (a ∷ b ∷ [])
unfolding encode_groups trailing_char
last_digits-group pre a b e ha hb =
    let n = group a b 0 in
    rw
      (
        get_or-append pre (a ∷ b ∷ []) 18 0 (omega arith),
        get_or-append pre (a ∷ b ∷ []) 19 1 (omega arith),
        two_bytes_group a b ha hb,
        digit_at-sextet n 3,
        digit_at-sextet n 2,
        digit_at-sextet n 1,
      )
      refl

digest_step :
    (pre s : List ℕ) (a b c rounds : ℕ)
    → digest_rounds (pre ++ a ∷ b ∷ c ∷ s) (suc rounds) (length pre)
      ≡ four_digits (join_bytes a b c)
        ++ digest_rounds (pre ++ a ∷ b ∷ c ∷ s) rounds (length (pre ++ a ∷ b ∷ c ∷ []))
unfolding digest_rounds
digest_step pre s a b c rounds =
    let chunk : List ℕ = a ∷ b ∷ c ∷ [] in
    let all : List ℕ = a ∷ b ∷ c ∷ s in
    let next : length pre + 3 ≡ length (pre ++ chunk) = omega (arith, length-append pre chunk) in
    rw
      (
        get_or-append pre all (length pre) 0 (omega arith),
        get_or-append pre all (length pre + 1) 1 (omega arith),
        get_or-append pre all (length pre + 2) 2 (omega arith),
        next,
      )
      refl

digest_rounds-append :
    (rounds : ℕ) (pre s : List ℕ)
    → length s ≡ 3 * rounds + 2
    → length pre + 3 * rounds ≡ 18
    → AreBytes s
    → digest_rounds (pre ++ s) rounds (length pre) ++ last_digits (pre ++ s) ≡ encode_groups false s
unfolding digest_rounds
digest_rounds-append zero pre [] e f h = absurd (omega arith)
digest_rounds-append zero pre (a ∷ []) e f h = absurd (omega arith)
digest_rounds-append zero pre (a ∷ b ∷ []) e f h = last_digits-group pre a b (omega arith) h.0 h.1.0
digest_rounds-append zero pre (a ∷ b ∷ c ∷ s) e f h = absurd (omega arith)
digest_rounds-append (suc rounds) pre [] e f h = absurd (omega arith)
digest_rounds-append (suc rounds) pre (a ∷ []) e f h = absurd (omega arith)
digest_rounds-append (suc rounds) pre (a ∷ b ∷ []) e f h = absurd (omega arith)
digest_rounds-append (suc rounds) pre (a ∷ b ∷ c ∷ s) e f h =
    let chunk : List ℕ = a ∷ b ∷ c ∷ [] in
    let all : List ℕ = a ∷ b ∷ c ∷ s in
    let next : length pre + 3 ≡ length (pre ++ chunk) = omega (arith, length-append pre chunk) in
    let n = join_bytes a b c in
    let rest =
      subst
        (λ v.
          digest_rounds v rounds (length (pre ++ chunk)) ++ last_digits v ≡ encode_groups false s)
        (append_assoc pre chunk s)
        (digest_rounds-append rounds (pre ++ chunk) s (omega arith) (omega (arith, next))
          h.1.1.1) in
    ap (λ v. v ++ last_digits (pre ++ all)) (digest_step pre s a b c rounds)
    ∙ append_assoc (four_digits n) (digest_rounds (pre ++ all) rounds (length (pre ++ chunk)))
        (last_digits (pre ++ all))
    ∙ ap (λ v. four_digits n ++ v) rest
    ∙ four_digits-group a b c s h.0 h.1.0 h.1.1.0

pub digest_base64-encode_groups :
    (digest : List ℕ)
    → AreBytes digest
    → length digest ≡ 20
    → digest_base64 digest ≡ encode_groups false digest
unfolding digest_base64
digest_base64-encode_groups digest h e = digest_rounds-append 6 [] digest (omega arith) refl h
