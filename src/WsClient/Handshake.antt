-- ===== src/WsClient/Handshake.antt =====
-- ws_client.cpp: `doHandshake`, built with TLS support. What the connection takes and brings is
-- given: what each send takes, and the bytes that come until a read fails.
use mod_audio_stream.Prelude.{
  ℕ, zero, suc, ◌+◌, ◌-◌, ◌/◌, ◌%◌, Bool, true, false, ◌&&◌, ◌||◌, Option, none, some, List, [],
  ◌∷◌, ◌++◌, codes, length, get_or, take, drop, ltb, leb, ◌==◌, if◌then◌else◌, bind_option,
}
use mod_audio_stream.Prelude.Ints.{ℤ, pos, negsuc}
use mod_audio_stream.StreamUtils.Uri.{starts_with}
use mod_audio_stream.StreamUtils.CString.{c_string}
use mod_audio_stream.StreamUtils.Numeral.{equal_strings, starts_caseless, skip_spaces, scan_int}
use mod_audio_stream.WsClient.Url.{Endpoint}
use mod_audio_stream.WsClient.Key.{sha1_and_base64}

-- `std::to_string`; a number has fewer digits than one more than itself.
unfoldable pub digits_of : ℕ → ℕ → List ℕ
digits_of zero n = []
digits_of (suc fuel) n =
    let rest = digits_of fuel (n / 10) in
    if ltb n 10 then (b'0' + n) ∷ [] else rest ++ (b'0' + n % 10) ∷ []

unfoldable pub to_string : ℤ → List ℕ
unfolding digits_of
to_string (pos n) = digits_of (suc n) n
to_string (negsuc n) = b'-' ∷ digits_of (suc (suc n)) (suc n)

abbrev pub crlf : List ℕ
crlf = 13 ∷ 10 ∷ []

-- `(useTls_ && port_ != 443) || (!useTls_ && port_ != 80)`.
unfoldable pub is_usual_port : Bool → ℤ → Bool
is_usual_port tls (negsuc n) = false
is_usual_port true (pos n) = n == 443
is_usual_port false (pos n) = n == 80

unfoldable pub header_lines : List (List ℕ × List ℕ) → List ℕ
header_lines [] = []
header_lines (h ∷ hs) = h.0 ++ (codes ": " ++ (h.1 ++ (crlf ++ header_lines hs)))

-- The request; `extra` is the map of headers, in its order.
unfoldable pub request : Endpoint → List ℕ → List (List ℕ × List ℕ) → List ℕ
unfolding to_string is_usual_port header_lines
request e key extra =
    codes "GET "
    ++ (e.path
        ++ (codes " HTTP/1.1"
            ++ (crlf
                ++ (codes "Host: "
                    ++ (e.host
                        ++ ((if is_usual_port e.use_tls e.port then [] else b':' ∷ to_string e.port)
                            ++ (crlf
                                ++ (codes "Upgrade: websocket"
                                    ++ (crlf
                                        ++ (codes "Connection: Upgrade"
                                            ++ (crlf
                                                ++ (codes "Sec-WebSocket-Key: "
                                                    ++ (key
                                                        ++ (crlf
                                                            ++ (codes "Sec-WebSocket-Version: 13"
                                                            ++ (crlf
                                                            ++ (header_lines extra
                                                            ++ crlf)))))))))))))))))

-- The loop that sends, by the answers of `send`: 0 is an error. Where they end, the connection
-- fails. It says whether all is sent, and what is on the wire.
unfoldable pub send_request : List ℕ → List ℕ → Bool × List ℕ
send_request [] [] = (true, [])
send_request [] (b ∷ req) = (false, [])
send_request (n ∷ answers) [] = (true, [])
send_request (zero ∷ answers) (b ∷ req) = (false, [])
send_request (suc n ∷ answers) (b ∷ req) =
    let rest = send_request answers (drop n req) in (rest.0, b ∷ (take n req ++ rest.1))

-- Does the text end in CR LF?
unfoldable pub ends_crlf : List ℕ → Bool
ends_crlf s = leb 2 (length s) && get_or s (length s - 2) 0 == 13 && get_or s (length s - 1) 0 == 10

-- The loops that read a line of `left` bytes more at most; `none`: a read has failed.
unfoldable pub read_line : ℕ → List ℕ → List ℕ → Option (List ℕ × List ℕ)
unfolding ends_crlf
read_line zero line input = some (line, input)
read_line (suc left) line [] = none
read_line (suc left) line (c ∷ input) =
    let more = read_line left (line ++ c ∷ []) input in
    if ends_crlf (line ++ c ∷ []) then some (line ++ c ∷ [], input) else more

-- `sscanf (…, "HTTP/1.1 %d", &status)`; `none` where it does not answer 1.
unfoldable pub scan_status : List ℕ → Option ℤ
unfolding starts_with skip_spaces scan_int
scan_status line =
    if starts_with (codes "HTTP/1.1") line then scan_int (skip_spaces (drop 8 line)) else none

-- `find_first_not_of` and `find_last_not_of`, with the index of the first byte.
unfoldable pub first_not_of : (ℕ → Bool) → ℕ → List ℕ → Option ℕ
first_not_of blank i [] = none
first_not_of blank i (c ∷ s) = if blank c then first_not_of blank (suc i) s else some i

unfoldable pub last_not_of : (ℕ → Bool) → ℕ → List ℕ → Option ℕ
last_not_of blank i [] = none
last_not_of blank i (c ∷ s) = elim (last_not_of blank (suc i) s) [
  | some j ↦ some j
  | none ↦ if blank c then none else some i
]

abbrev pub is_blank : ℕ → Bool
is_blank c = c == b' ' || c == 9

abbrev pub is_blank_or_end : ℕ → Bool
is_blank_or_end c = c == b' ' || c == 9 || c == 13 || c == 10

abbrev pub accept_name : List ℕ
accept_name = codes "Sec-WebSocket-Accept:"

-- The value between `start` and `end`, if `end > start`.
unfoldable pub value_between : List ℕ → List ℕ → Option ℕ → Option ℕ → List ℕ
value_between line accept none end = accept
value_between line accept (some start) none = accept
value_between line accept (some start) (some end) =
    if ltb start end then take (end - start + 1) (drop start line) else accept

-- What `serverAccept` is behind a header line.
unfoldable pub accept_of : List ℕ → List ℕ → List ℕ
unfolding starts_caseless first_not_of last_not_of value_between
accept_of line accept =
    if ltb 22 (length line) && starts_caseless accept_name line
    then value_between line accept (first_not_of is_blank 21 (drop 21 line))
        (last_not_of is_blank_or_end 0 line)
    else accept

-- `for (;;)` over the header lines. `none`: out of fuel; `some none`: a read has failed.
unfoldable pub read_headers : ℕ → List ℕ → List ℕ → Option (Option (List ℕ × List ℕ))
unfolding read_line accept_of equal_strings
read_headers zero accept input = none
read_headers (suc fuel) accept input = elim (read_line 4096 [] input) [
  | none ↦ some none
  | some r ↦
      let rest = read_headers fuel (accept_of r.0 accept) r.1 in
      if equal_strings r.0 crlf then some (some (accept, r.1)) else rest
]

-- The text that `fail` gets, always with code 6; or the bytes behind the server's answer.
pub data Handshake : Type 0 where
  send_failed closed_in_answer closed_in_headers accept_mismatch : Handshake
  bad_status : ℤ → Handshake
  upgraded : List ℕ → Handshake

unfoldable pub check_accept : List ℕ → Option (List ℕ × List ℕ) → Handshake
unfolding equal_strings
check_accept expected none = closed_in_headers
check_accept expected (some r) =
    if equal_strings r.0 expected then upgraded r.1 else accept_mismatch

-- `status` stays 0 where `sscanf` finds none.
unfoldable pub bad_status_of : Option ℤ → Option Handshake
bad_status_of none = some (bad_status (pos 0))
bad_status_of (some (negsuc n)) = some (bad_status (negsuc n))
bad_status_of (some (pos n)) = if n == 101 then none else some (bad_status (pos n))

-- From the header lines on. Every line takes a byte: one round more than there are bytes.
unfoldable pub read_rest : List ℕ → List ℕ → Option Handshake → Option Handshake
unfolding read_headers check_accept
read_rest expected input (some bad) = some bad
read_rest expected input none =
    bind_option (read_headers (suc (length input)) [] input) (λ h. some (check_accept expected h))

-- From the status on.
unfoldable pub read_status : List ℕ → Option (List ℕ × List ℕ) → Option Handshake
unfolding scan_status bad_status_of read_rest c_string
read_status expected none = some closed_in_answer
read_status expected (some r) = read_rest expected r.1 (bad_status_of (scan_status (c_string r.0)))

unfoldable pub read_answer : List ℕ → List ℕ → Option Handshake
unfolding read_line read_status
read_answer expected input = read_status expected (read_line 1024 [] input)

abbrev pub websocket_guid : List ℕ
websocket_guid = codes "258EAFA5-E914-47DA-95CA-C5AB0DC85B11"

-- The answer, and what was written. `key` is what `generateKey` gave.
unfoldable pub do_handshake :
    (List ℕ → List ℕ)
    → Endpoint
    → List (List ℕ × List ℕ)
    → List ℕ
    → List ℕ
    → List ℕ
    → Option Handshake × List ℕ
unfolding sha1_and_base64 request send_request read_answer
do_handshake sha1 e extra key answers input =
    let sent = send_request answers (request e key extra) in
    if sent.0
    then (read_answer (sha1_and_base64 sha1 (key ++ websocket_guid)) input, sent.1)
    else (some send_failed, sent.1)
