-- ===== src/WsClient/HandshakeLaws.antt =====
-- `doHandshake` with a server that takes the upgrade.
use mod_audio_stream.Prelude.{
  ℕ, suc, ◌+◌, ◌-◌, ◌<◌, ◌≤◌, ◌≡◌, refl, ap, subst, ◌∙◌, true, false, some, List, [], ◌∷◌, ◌++◌,
  append-nil, All, codes, arith, length, length-append, take, drop, if◌then◌else◌, lt→ltb,
}
use mod_audio_stream.Prelude.Slices.{take-append}
use mod_audio_stream.StreamUtils.Numeral.{equal_strings, starts_caseless}
use mod_audio_stream.WsClient.HandshakeLines.{NoLf, read_line-append}
use mod_audio_stream.WsClient.Handshake.{
  crlf, read_line, first_not_of, last_not_of, is_blank, is_blank_or_end, accept_name, value_between,
  accept_of, read_headers,
}

-- The characters of a key.
abbrev pub Solid : List ℕ → Type 0
Solid = All (λ c. (is_blank_or_end c ≡ false))

last_not_of-Solid :
    (key : List ℕ) (i : ℕ)
    → Solid key
    → 0 < length key
    → last_not_of is_blank_or_end i (key ++ crlf) ≡ some (i + length key - 1)
unfolding last_not_of
last_not_of-Solid [] i h more = absurd (omega arith)
last_not_of-Solid (c ∷ []) i h more = let e : i + 1 - 1 ≡ i = omega arith in rw (h.0, e) refl
last_not_of-Solid (c ∷ d ∷ key) i h more =
    let e : suc i + suc (length key) - 1 ≡ i + suc (suc (length key)) - 1 = omega arith in
    rw (last_not_of-Solid (d ∷ key) (suc i) h.1 (omega arith), e) refl

-- A value in front stays the last one found.
last_not_of-append :
    (pre s : List ℕ) (i j : ℕ)
    → last_not_of is_blank_or_end (i + length pre) s ≡ some j
    → last_not_of is_blank_or_end i (pre ++ s) ≡ some j
unfolding last_not_of
last_not_of-append [] s i j e =
    let q : i + 0 ≡ i = omega arith in subst (λ k. last_not_of is_blank_or_end k s ≡ some j) q e
last_not_of-append (c ∷ pre) s i j e =
    let q : i + suc (length pre) ≡ suc i + length pre = omega arith in
    rw
      (last_not_of-append pre s (suc i) j
        (subst (λ k. last_not_of is_blank_or_end k s ≡ some j) q e))
      refl

abbrev pub accept_line : List ℕ → List ℕ
accept_line key = accept_name ++ b' ' ∷ key

first_not_of-Solid :
    (key : List ℕ)
    → Solid key
    → 0 < length key
    → first_not_of is_blank 21 (b' ' ∷ (key ++ crlf)) ≡ some 22
unfolding first_not_of
first_not_of-Solid [] h more = absurd (omega arith)
first_not_of-Solid (c ∷ key) h more = ground (arith, h.0)

accept_of_value :
    (line accept : List ℕ) (start end : ℕ)
    → 22 < length line
    → starts_caseless accept_name line ≡ true
    → first_not_of is_blank 21 (drop 21 line) ≡ some start
    → last_not_of is_blank_or_end 0 line ≡ some end
    → start < end
    → accept_of line accept ≡ take (end - start + 1) (drop start line)
unfolding accept_of value_between
accept_of_value line accept start end long named e f less =
    rw (e, f, named, lt→ltb 22 (length line) long, lt→ltb start end less) refl

named : (s : List ℕ) → starts_caseless accept_name (accept_name ++ s) ≡ true
unfolding starts_caseless
named s = refl

pub accept_of-accept_line :
    (key accept : List ℕ)
    → Solid key
    → 1 < length key
    → accept_of (accept_line key ++ crlf) accept ≡ key
accept_of-accept_line key accept h more =
    let size : 22 + length key - 1 - 22 + 1 ≡ length key = omega arith in
    accept_of_value (accept_line key ++ crlf) accept 22 (22 + length key - 1)
      (omega (arith, length-append key crlf)) (named (b' ' ∷ (key ++ crlf)))
      (first_not_of-Solid key h (omega arith))
      (last_not_of-append (codes "Sec-WebSocket-Accept: ") (key ++ crlf) 0 (22 + length key - 1)
        (last_not_of-Solid key 22 h (omega arith)))
      (omega arith)
    ∙ ap (λ n. take n (key ++ crlf)) size
    ∙ take-append crlf 0 key (length key) (omega arith)
    ∙ append-nil key

-- A header that the server may send beside the accepted key.
pub record IsOther (h : List ℕ) : Type 0 where
  pub given : 0 < length h
  pub short : length h + 2 ≤ 4096
  pub one_line : NoLf h
  pub unnamed : starts_caseless accept_name (h ++ crlf) ≡ false

-- Header lines, and then `s`.
abbrev pub with_headers : List (List ℕ) → List ℕ → List ℕ
with_headers [] s = s
with_headers (h ∷ hs) s = h ++ 13 ∷ 10 ∷ with_headers hs s

same_crlf : (h : List ℕ) → 0 < length h → equal_strings (h ++ crlf) crlf ≡ false
unfolding equal_strings
same_crlf [] more = absurd (omega arith)
same_crlf (a ∷ []) more = ground arith
same_crlf (a ∷ b ∷ []) more = ground arith
same_crlf (a ∷ b ∷ c ∷ h) more = ground arith

read_headers_at :
    (fuel : ℕ) (accept input line rest : List ℕ)
    → read_line 4096 [] input ≡ some (line, rest)
    → read_headers (suc fuel) accept input ≡ (
        if equal_strings line crlf
        then some (some (accept, rest))
        else read_headers fuel (accept_of line accept) rest)
unfolding read_headers
read_headers_at fuel accept input line rest e = ground arith

pub read_headers_line :
    (fuel : ℕ) (accept h s : List ℕ)
    → NoLf h
    → 0 < length h
    → length h + 2 ≤ 4096
    → read_headers (suc fuel) accept (h ++ 13 ∷ 10 ∷ s)
      ≡ read_headers fuel (accept_of (h ++ crlf) accept) s
read_headers_line fuel accept h s plain more short =
    read_headers_at fuel accept _ (h ++ crlf) s (read_line-append h [] s 4096 plain short)
    ∙ ap
        (λ b.
          if b then some (some (accept, s)) else read_headers fuel (accept_of (h ++ crlf) accept) s)
        (same_crlf h more)

pub read_headers_blank :
    (fuel : ℕ) (accept s : List ℕ)
    → read_headers (suc fuel) accept (13 ∷ 10 ∷ s) ≡ some (some (accept, s))
unfolding equal_strings
read_headers_blank fuel accept s =
    read_headers_at fuel accept _ crlf s (read_line-append [] [] s 4096 tt (omega arith))

accept_of_other : (h accept : List ℕ) → IsOther h → accept_of (h ++ crlf) accept ≡ accept
unfolding accept_of
accept_of_other h accept other = rw other.unnamed (ground arith)

pub length-with_headers :
    (hs : List (List ℕ)) (s : List ℕ) → length hs + length s ≤ length (with_headers hs s)
length-with_headers [] s = omega arith
length-with_headers (h ∷ hs) s =
    omega (arith, length-append h (13 ∷ 10 ∷ with_headers hs s), length-with_headers hs s)

pub read_headers-with_headers :
    (hs : List (List ℕ)) (s accept : List ℕ) (fuel : ℕ)
    → All IsOther hs
    → read_headers (length hs + fuel) accept (with_headers hs s) ≡ read_headers fuel accept s
read_headers-with_headers [] s accept fuel h = let e : 0 + fuel ≡ fuel = omega arith in rw e refl
read_headers-with_headers (x ∷ hs) s accept fuel h =
    let e : suc (length hs) + fuel ≡ suc (length hs + fuel) = omega arith in
    rw
      (
        e,
        read_headers_line (length hs + fuel) accept x (with_headers hs s) h.0.one_line h.0.given
            h.0.short,
        accept_of_other x accept h.0,
      )
      (read_headers-with_headers hs s accept fuel h.1)
