-- ===== src/WsClient/Url.antt =====
-- ws_client.cpp: `setUrl`. A pointer into the URL is the rest of the C string from there.
use mod_audio_stream.Prelude.{
  ℕ, ◌-◌, Bool, true, false, Option, none, some, List, [], ◌∷◌, codes, length, take, drop, ltb,
  ◌==◌, if◌then◌else◌,
}
use mod_audio_stream.Prelude.Ints.{ℤ, pos}
use mod_audio_stream.StreamUtils.Uri.{starts_with}
use mod_audio_stream.StreamUtils.Numeral.{atoi}

-- The members of the client that `setUrl` sets.
pub record Endpoint : Type 0 where
  pub url : List ℕ
  pub use_tls : Bool
  pub port : ℤ
  pub host : List ℕ
  pub path : List ℕ

-- `strchr (s, c)`.
unfoldable pub find : ℕ → List ℕ → Option (List ℕ)
find c [] = none
find c (d ∷ s) = if d == c then some (d ∷ s) else find c s

-- `path_.assign (slash, strlen (slash))`, or "/".
unfoldable pub path_or_root : Option (List ℕ) → List ℕ
path_or_root none = codes "/"
path_or_root (some slash) = slash

-- The bytes from `start` up to the pointer `end`.
unfoldable pub up_to : List ℕ → List ℕ → List ℕ
up_to start end = take (length start - length end) start

-- `!slash || colon < slash`.
unfoldable pub before : List ℕ → Option (List ℕ) → Bool
before colon none = true
before colon (some slash) = ltb (length slash) (length colon)

-- `host_` in the branch with no port.
unfoldable pub whole_host : List ℕ → Option (List ℕ) → List ℕ
unfolding up_to
whole_host start none = start
whole_host start (some slash) = up_to start slash

abbrev pub endpoint : List ℕ → Bool → ℤ → List ℕ → List ℕ → Endpoint
endpoint url tls port host path = record {
  url = url;
  use_tls = tls;
  port = port;
  host = host;
  path = path;
}

-- `start` is where the host begins, `slash` and `colon` are the first such characters behind it.
unfoldable pub split_at : List ℕ → Bool → ℤ → List ℕ → Option (List ℕ) → Option (List ℕ) → Endpoint
unfolding path_or_root whole_host before up_to
split_at url tls port start slash none =
    endpoint url tls port (whole_host start slash) (path_or_root slash)
split_at url tls port start slash (some colon) =
    if before colon slash
    then endpoint url tls (atoi (drop 1 colon)) (up_to start colon) (path_or_root slash)
    else endpoint url tls port (whole_host start slash) (path_or_root slash)

unfoldable pub split_authority : List ℕ → Bool → ℤ → List ℕ → Endpoint
unfolding find split_at
split_authority url tls port start = split_at url tls port start (find b'/' start) (find b':' start)

-- With another scheme only `url_` changes.
unfoldable pub set_url : List ℕ → Endpoint → Endpoint
unfolding starts_with split_authority
set_url url e =
    if starts_with (codes "wss://") url
    then split_authority url true (pos 443) (drop 6 url)
    else if starts_with (codes "ws://") url
    then split_authority url false (pos 80) (drop 5 url)
    else endpoint url e.use_tls e.port e.host e.path
