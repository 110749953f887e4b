-- ===== src/StreamUtils/Tests.antt =====
-- stream_utils.cpp on concrete inputs, several of them from test/test_utf8.cpp and
-- test/test_ws_uri.cpp.
use mod_audio_stream.Prelude.{
  ℕ, ◌≡◌, ◌↔◌, refl, true, false, none, some, List, [], ◌∷◌, arith, codes,
}
use mod_audio_stream.StreamUtils.CString.{IsCString, c_read}
use mod_audio_stream.StreamUtils.Utf8.{
  is_valid_utf8, utf8_loop, utf8_round, round_two, round_three, is_tail, code_point_two,
  code_point_three,
}
use mod_audio_stream.StreamUtils.Utf8.Laws.{is_valid_utf8_iff, IsUtf8}
use mod_audio_stream.StreamUtils.Uri.{
  copy_uri, validate_ws_uri, host_start, scan_host, port_is_fine,
}
use mod_audio_stream.StreamUtils.Uri.Grammar.{IsWsUri}
use mod_audio_stream.StreamUtils.Uri.Laws.{validate_ws_uri_iff}

-- An `é`, in its two bytes.
abbrev e_acute : List ℕ
e_acute = 0x68 ∷ 0xC3 ∷ 0xA9 ∷ []

-- A surrogate, in three bytes.
abbrev surrogate : List ℕ
surrogate = 0xED ∷ 0xA0 ∷ 0x80 ∷ []

utf8_two : is_valid_utf8 e_acute ≡ some true
unfolding is_valid_utf8 utf8_loop c_read utf8_round round_two is_tail code_point_two
utf8_two = refl

utf8_surrogate : is_valid_utf8 surrogate ≡ some false
unfolding is_valid_utf8 utf8_loop c_read utf8_round round_three is_tail code_point_three
utf8_surrogate = refl

e_acute-IsCString : IsCString e_acute
e_acute-IsCString = ground arith

is_valid_utf8_iff_example : (is_valid_utf8 e_acute ≡ some true) ↔ IsUtf8 e_acute
is_valid_utf8_iff_example = is_valid_utf8_iff e_acute e_acute-IsCString

abbrev short_uri : List ℕ
short_uri = codes "ws://a:8/p"

uri_accepted : validate_ws_uri short_uri ≡ some (copy_uri short_uri)
unfolding validate_ws_uri host_start scan_host port_is_fine
uri_accepted = refl

uri_scheme : validate_ws_uri (codes "http://a") ≡ none
unfolding validate_ws_uri host_start scan_host port_is_fine
uri_scheme = refl

uri_port : validate_ws_uri (codes "ws://a:8x") ≡ none
unfolding validate_ws_uri host_start scan_host port_is_fine
uri_port = refl

uri_no_host : validate_ws_uri (codes "wss://:80") ≡ none
unfolding validate_ws_uri host_start scan_host port_is_fine
uri_no_host = refl

validate_ws_uri_iff_example :
    ((buf : List ℕ) × (validate_ws_uri (codes "ws://a:8/p") ≡ some buf))
    ↔ IsWsUri (codes "ws://a:8/p")
validate_ws_uri_iff_example = validate_ws_uri_iff (codes "ws://a:8/p")

short_uri-IsCString : IsCString short_uri
short_uri-IsCString = ground arith
