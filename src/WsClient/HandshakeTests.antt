-- ===== src/WsClient/HandshakeTests.antt =====
-- The URL, the keys and the handshake on concrete inputs.
use mod_audio_stream.Prelude.{
  ℕ, ◌≡◌, refl, inl, true, false, some, List, [], ◌∷◌, codes, replicate, AreBytes, arith,
}
use mod_audio_stream.Prelude.Ints.{pos}
use mod_audio_stream.Base64.Encoder.{base64_encode}
use mod_audio_stream.StreamUtils.Uri.{is_host_char, is_digit}
use mod_audio_stream.StreamUtils.Uri.Grammar.{IsWsUri, port, slash}
use mod_audio_stream.StreamUtils.Numeral.{starts_caseless, atoi}
use mod_audio_stream.WsClient.Url.{Endpoint, endpoint, set_url}
use mod_audio_stream.WsClient.UrlLaws.{address, set_url-address}
use mod_audio_stream.WsClient.Key.{sha1_and_base64, random_base64}
use mod_audio_stream.WsClient.RandomLaws.{base64_encode_agrees}
use mod_audio_stream.WsClient.HandshakeLaws.{IsOther}
use mod_audio_stream.WsClient.HandshakeSuccess.{server_answer, do_handshake-upgraded}
use mod_audio_stream.WsClient.Handshake.{request, send_request, upgraded, do_handshake, to_string}

abbrev nowhere : Endpoint
nowhere = endpoint [] false (pos 0) [] []

abbrev short_url : List ℕ
short_url = codes "ws://a:81/p"

url_read : set_url short_url nowhere ≡ endpoint short_url false (pos 81) (codes "a") (codes "/p")
unfolding set_url atoi
url_read = refl

-- No digits behind the colon: the port is 0, not the scheme's.
url_no_digits :
    set_url (codes "ws://a:/p") nowhere
    ≡ endpoint (codes "ws://a:/p") false (pos 0) (codes "a") (codes "/p")
unfolding set_url atoi
url_no_digits = refl

abbrev short_url-IsWsUri : IsWsUri short_url
short_url-IsWsUri = record {
  scheme = codes "ws://";
  host = codes "a";
  rest = codes ":81/p";
  known_scheme = inl refl;
  host_chars = unfold is_host_char in (refl, tt);
  host_given = omega arith;
  port_path =
      port (codes "81") (codes "/p") (unfold is_digit in (refl, (refl, tt))) (slash (codes "p"))
        refl;
  whole = refl;
}

set_url-address_example : set_url short_url nowhere ≡ address short_url-IsWsUri
set_url-address_example = set_url-address short_url nowhere short_url-IsWsUri (omega arith)

-- A port that does not fit an `int`.
url_wide_port :
    set_url (codes "ws://a:4294967376/") nowhere
    ≡ endpoint (codes "ws://a:4294967376/") false (pos 80) (codes "a") (codes "/")
unfolding set_url atoi
url_wide_port = refl

-- A digest of 20 bytes.
abbrev digest_of : List ℕ → List ℕ
digest_of input = replicate 20 0xA5

digest_of-AreBytes : AreBytes (digest_of [])
digest_of-AreBytes = ground arith

base64_encode_agrees_example :
    (base64_encode (digest_of []) false ≡ some (sha1_and_base64 digest_of []))
    × (base64_encode (1 ∷ 2 ∷ []) false ≡ some (random_base64 (1 ∷ 2 ∷ [])))
base64_encode_agrees_example =
    base64_encode_agrees digest_of [] (1 ∷ 2 ∷ []) digest_of-AreBytes refl (ground arith)
      (omega arith)

port_printed : to_string (pos 8080) ≡ codes "8080"
unfolding to_string
port_printed = refl

abbrev web : Endpoint
web = endpoint (codes "ws://a") false (pos 80) (codes "a") (codes "/")

abbrev upgrade_header : List ℕ
upgrade_header = codes "Upgrade: websocket"

upgrade_header-IsOther : IsOther upgrade_header
upgrade_header-IsOther = record {
  given = omega arith;
  short = omega arith;
  one_line = ground arith;
  unnamed = unfold starts_caseless in refl;
}

-- Two calls take the request.
request_sent : (send_request (30 ∷ 1000 ∷ []) (request web (codes "key") [])).0 ≡ true
unfolding send_request request
request_sent = refl

do_handshake-upgraded_example :
    (do_handshake digest_of web [] (codes "key") (30 ∷ 1000 ∷ []) (
      server_answer
        (codes "Switching")
        (upgrade_header ∷ [])
        (sha1_and_base64 digest_of (codes "key258EAFA5-E914-47DA-95CA-C5AB0DC85B11"))
        []
        (0x81 ∷ []))).0
    ≡ some (upgraded (0x81 ∷ []))
do_handshake-upgraded_example =
    do_handshake-upgraded digest_of web [] (codes "key") (30 ∷ 1000 ∷ []) (codes "Switching")
      (upgrade_header ∷ []) [] (0x81 ∷ []) digest_of-AreBytes refl request_sent (ground arith)
      (ground arith) (omega arith) (upgrade_header-IsOther, tt) tt
