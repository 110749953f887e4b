-- ===== src/WsClient/HandshakeSuccess.antt =====
-- A server that takes the upgrade, and what `doHandshake` makes of its answer.
use mod_audio_stream.Prelude.{
  ℕ, suc, ◌+◌, ◌-◌, ◌*◌, ◌<◌, ◌≤◌, ◌≡◌, refl, sym, ap, subst, ◌∙◌, Bool, true, false, ◌&&◌, not,
  Option, some, List, [], ◌∷◌, ◌++◌, All, AreBytes, codes, arith, length, length-append, ◌==◌,
  bind_option, holds_below, holds_at,
}
use mod_audio_stream.Prelude.Ints.{pos}
use mod_audio_stream.Prelude.Cases.{if_both, Returns-some}
use mod_audio_stream.Base64.Encoder.{char_of, trailing_char}
use mod_audio_stream.Base64.Groups.{sextet, encode_groups}
use mod_audio_stream.StreamUtils.Uri.{starts_with}
use mod_audio_stream.StreamUtils.CString.{c_string}
use mod_audio_stream.StreamUtils.Numeral.{
  equal_strings, skip_spaces, scan_int, signed_value, unsigned_value, digits_value, is_space,
}
use mod_audio_stream.WsClient.Url.{Endpoint}
use mod_audio_stream.WsClient.Key.{sha1_and_base64}
use mod_audio_stream.WsClient.KeyLaws.{digest_base64-encode_groups}
use mod_audio_stream.WsClient.HandshakeLines.{NoLf, read_line-append, read_answer-Returns}
use mod_audio_stream.WsClient.HandshakeLaws.{
  Solid, accept_line, accept_of-accept_line, IsOther, with_headers, read_headers_line,
  read_headers_blank, length-with_headers, read_headers-with_headers,
}
use mod_audio_stream.WsClient.Handshake.{
  crlf, request, send_request, read_line, is_blank_or_end, read_headers, scan_status, Handshake,
  send_failed, upgraded, check_accept, bad_status_of, read_answer, read_status, read_rest,
  websocket_guid, do_handshake,
}

same_refl : (s : List ℕ) → equal_strings s s ≡ true
unfolding equal_strings
same_refl [] = refl
same_refl (c ∷ s) = ground (arith, same_refl s)

abbrev NoNul : List ℕ → Type 0
NoNul = All (λ c. (c == 0) ≡ false)

c_string_whole : (s t : List ℕ) → NoNul s → c_string (s ++ t) ≡ s ++ c_string t
unfolding c_string
c_string_whole [] t h = refl
c_string_whole (c ∷ s) t h = ground (arith, h.0, c_string_whole s t h.1)

-- The alphabet of a key.
abbrev solid_test : ℕ → Bool
solid_test i = not (is_blank_or_end (char_of false i)) && not (char_of false i == 10)

solid_table : holds_below 64 solid_test ≡ true
unfolding holds_below char_of
solid_table = refl

solid_at : (k n : ℕ) → is_blank_or_end (char_of false (sextet k n)) ≡ false
solid_at k n = ground (arith, holds_at 64 solid_test (sextet k n) solid_table (omega arith))

encode_groups-Solid : (s : List ℕ) → Solid (encode_groups false s)
unfolding encode_groups trailing_char
encode_groups-Solid [] = tt
encode_groups-Solid (a ∷ []) = (solid_at 3 _, (solid_at 2 _, (refl, (refl, tt))))
encode_groups-Solid (a ∷ b ∷ []) = (solid_at 3 _, (solid_at 2 _, (solid_at 1 _, (refl, tt))))
encode_groups-Solid (a ∷ b ∷ c ∷ r) =
    (solid_at 3 _, (solid_at 2 _, (solid_at 1 _, (solid_at 0 _, encode_groups-Solid r))))

Solid-NoLf : (s : List ℕ) → Solid s → NoLf s
Solid-NoLf [] h = tt
Solid-NoLf (c ∷ s) h = (ground (arith, h.0), Solid-NoLf s h.1)

abbrev Sized : ℕ → ℕ → Type 0
Sized n m = (n ≤ m) × (m ≤ 4 * n)

encode_groups-Sized : (s : List ℕ) → Sized (length s) (length (encode_groups false s))
unfolding encode_groups
encode_groups-Sized [] = (omega arith, omega arith)
encode_groups-Sized (a ∷ []) = (omega arith, omega arith)
encode_groups-Sized (a ∷ b ∷ []) = (omega arith, omega arith)
encode_groups-Sized (a ∷ b ∷ c ∷ r) =
    let size = encode_groups-Sized r in (omega (arith, size), omega (arith, size))

abbrev pub status_line : List ℕ → List ℕ
status_line words = codes "HTTP/1.1 101 " ++ words

status_line-NoNul : (words : List ℕ) → NoNul words → NoNul (status_line words)
status_line-NoNul words h = ground (arith, h)

scan_status_101 : (s : List ℕ) → scan_status (status_line s) ≡ some (pos 101)
unfolding scan_status starts_with skip_spaces is_space scan_int signed_value unsigned_value
    digits_value
scan_status_101 s = refl

status_line-scan_status :
    (words : List ℕ)
    → NoNul words
    → scan_status (c_string (status_line words ++ crlf)) ≡ some (pos 101)
status_line-scan_status words h =
    ap scan_status (c_string_whole (status_line words) crlf (status_line-NoNul words h))
    ∙ scan_status_101 (words ++ c_string crlf)

Solid-NoLf_line : (key : List ℕ) → Solid key → NoLf (accept_line key)
Solid-NoLf_line key h = ground (arith, Solid-NoLf key h)

status_line-NoLf : (words : List ℕ) → NoLf words → NoLf (status_line words)
status_line-NoLf words h = ground (arith, h)

-- The answer of a server that takes the upgrade: 101 and any words, header lines, the accepted
-- key, header lines, a blank line, and then bytes of the WebSocket connection.
abbrev pub server_answer : List ℕ → List (List ℕ) → List ℕ → List (List ℕ) → List ℕ → List ℕ
server_answer words before key after rest =
    status_line words
    ++ 13
      ∷ 10
      ∷ with_headers before (accept_line key ++ 13 ∷ 10 ∷ with_headers after (13 ∷ 10 ∷ rest))

read_headers-server_answer :
    (before after : List (List ℕ)) (key rest : List ℕ) (fuel : ℕ)
    → All IsOther before
    → All IsOther after
    → Solid key
    → 1 < length key
    → length key ≤ 4000
    → length before + (length after + 2) ≤ fuel
    → read_headers fuel []
        (with_headers before (accept_line key ++ 13 ∷ 10 ∷ with_headers after (13 ∷ 10 ∷ rest)))
      ≡ some (some (key, rest))
read_headers-server_answer before after key rest fuel hb ha solid more short enough =
    let k : ℕ = fuel - length before - length after - 2 in
    let e : fuel ≡ length before + suc (length after + suc k) = omega arith in
    let tail' = with_headers after (13 ∷ 10 ∷ rest) in
    ap (λ n. read_headers n [] (with_headers before (accept_line key ++ 13 ∷ 10 ∷ tail'))) e
    ∙ read_headers-with_headers before _ [] (suc (length after + suc k)) hb
    ∙ read_headers_line (length after + suc k) [] (accept_line key) tail'
        (Solid-NoLf_line key solid) (omega arith) (omega arith)
    ∙ ap (λ a. read_headers (length after + suc k) a tail')
        (accept_of-accept_line key [] solid more)
    ∙ read_headers-with_headers after (13 ∷ 10 ∷ rest) key (suc k) ha
    ∙ read_headers_blank k key rest

read_answer_at :
    (expected input line rest : List ℕ)
    → read_line 1024 [] input ≡ some (line, rest)
    → scan_status (c_string line) ≡ some (pos 101)
    → read_answer expected input
      ≡ bind_option (read_headers (suc (length rest)) [] rest) (λ h. some (check_accept expected h))
unfolding read_answer read_status read_rest bad_status_of
read_answer_at expected input line rest e status =
    ap (read_status expected) e ∙ ap (λ z. read_rest expected rest (bad_status_of z)) status

check_same : (key rest : List ℕ) → some (check_accept key (some (key, rest))) ≡ some (upgraded rest)
unfolding check_accept
check_same key rest = rw (same_refl key) refl

read_answer-server_answer :
    (words : List ℕ) (before after : List (List ℕ)) (key rest : List ℕ)
    → NoNul words
    → NoLf words
    → length words ≤ 1000
    → All IsOther before
    → All IsOther after
    → Solid key
    → 1 < length key
    → length key ≤ 4000
    → read_answer key (server_answer words before key after rest) ≡ some (upgraded rest)
read_answer-server_answer words before after key rest nul plain fits hb ha solid more short =
    let last : List ℕ = with_headers after (13 ∷ 10 ∷ rest) in
    let tail' : List ℕ = with_headers before (accept_line key ++ 13 ∷ 10 ∷ last) in
    let enough : length before + (length after + 2) ≤ suc (length tail') = omega (
      arith,
      length-with_headers before (accept_line key ++ 13 ∷ 10 ∷ last),
      length-append key (13 ∷ 10 ∷ last),
      length-with_headers after (13 ∷ 10 ∷ rest),
    ) in
    read_answer_at key (server_answer words before key after rest) (status_line words ++ crlf) tail'
      (read_line-append (status_line words) [] tail' 1024 (status_line-NoLf words plain)
        (omega arith))
      (status_line-scan_status words nul)
    ∙ ap (λ m. bind_option m (λ h. some (check_accept key h)))
        (read_headers-server_answer before after key rest _ hb ha solid more short enough)
    ∙ check_same key rest

handshake_sent :
    (sha1 : List ℕ → List ℕ) (e : Endpoint) (extra : List (List ℕ × List ℕ))
    (key answers input : List ℕ)
    → (send_request answers (request e key extra)).0 ≡ true
    → (do_handshake sha1 e extra key answers input).0
      ≡ read_answer (sha1_and_base64 sha1 (key ++ websocket_guid)) input
unfolding do_handshake
handshake_sent sha1 e extra key answers input sent = ground arith

-- If the whole request is taken and the server answers with status 101, any header lines of at most
-- 4096 bytes, none of which names the accepted key, and the key that SHA-1 and base64 give, in any
-- place among them: doHandshake returns true, and the bytes behind the blank line stay for the
-- WebSocket connection. SHA-1 gives 20 bytes; the words behind 101 are at most 1000 bytes without
-- NUL or line feed.
pub do_handshake-upgraded :
    (sha1 : List ℕ → List ℕ) (e : Endpoint) (extra : List (List ℕ × List ℕ))
    (key answers words : List ℕ) (before after : List (List ℕ)) (rest : List ℕ)
    → AreBytes (sha1 (key ++ websocket_guid))
    → length (sha1 (key ++ websocket_guid)) ≡ 20
    → (send_request answers (request e key extra)).0 ≡ true
    → NoNul words
    → NoLf words
    → length words ≤ 1000
    → All IsOther before
    → All IsOther after
    → (do_handshake sha1 e extra key answers
        (server_answer words before (sha1_and_base64 sha1 (key ++ websocket_guid)) after rest)).0
      ≡ some (upgraded rest)
unfolding sha1_and_base64
do_handshake-upgraded sha1 e extra key answers words before after rest bytes twenty sent nul plain
      fits hb ha =
    let digest : List ℕ = sha1 (key ++ websocket_guid) in
    let accept : List ℕ = sha1_and_base64 sha1 (key ++ websocket_guid) in
    let coded : accept ≡ encode_groups false digest =
      digest_base64-encode_groups digest bytes twenty in
    let size = encode_groups-Sized digest in
    let sizes : Sized 20 (length accept) =
      subst (λ a. Sized 20 (length a)) (sym coded)
        (subst (λ n. Sized n (length (encode_groups false digest))) twenty size) in
    handshake_sent sha1 e extra key answers _ sent
    ∙ read_answer-server_answer words before after accept rest nul plain fits hb ha
        (subst Solid (sym coded) (encode_groups-Solid digest)) (omega (arith, sizes))
        (omega (arith, sizes))

pub do_handshake_total :
    (sha1 : List ℕ → List ℕ) (e : Endpoint) (extra : List (List ℕ × List ℕ))
    (key answers input : List ℕ)
    → (r : Handshake) × ((do_handshake sha1 e extra key answers input).0 ≡ some r)
unfolding do_handshake
do_handshake_total sha1 e extra key answers input =
    if_both (λ (r : Option Handshake × List ℕ). (a : Handshake) × (r.0 ≡ some a))
      (send_request answers (request e key extra)).0 _ _
      (λ q.
        Returns-some _ (read_answer-Returns (sha1_and_base64 sha1 (key ++ websocket_guid)) input))
      (λ q. (send_failed, refl))
