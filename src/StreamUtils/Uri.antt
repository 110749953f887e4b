-- ===== src/StreamUtils/Uri.antt =====
-- stream_utils.cpp: `validate_ws_uri`. A pointer into `url` is the rest of the string from there.
pub mod Grammar
pub mod Laws
use mod_audio_stream.Prelude.{
  ℕ, ◌-◌, Bool, true, false, ◌&&◌, ◌||◌, not, Option, none, some, List, [], ◌∷◌, ◌++◌, leb, ◌==◌,
  if◌then◌else◌, bind_option, drop, take, length, replicate, codes,
}

infixl 5 ◌>>=◌
abbrev ◌>>=◌ {ℓ κ} : {A : Type ℓ} {B : Type κ} → Option A → (A → Option B) → Option B
m >>= f = bind_option m f

-- MAX_WS_URI of mod_audio_stream.h.
abbrev pub max_ws_uri : ℕ
max_ws_uri = 4096

-- `strncmp (s, p, strlen (p)) == 0`.
unfoldable pub starts_with : List ℕ → List ℕ → Bool
starts_with [] s = true
starts_with (c ∷ p) [] = false
starts_with (c ∷ p) (d ∷ s) = d == c && starts_with p s

-- `std::isdigit` and `std::isalnum` in the "C" locale.
unfoldable pub is_digit : ℕ → Bool
is_digit c = leb b'0' c && leb c b'9'

unfoldable pub is_alnum : ℕ → Bool
unfolding is_digit
is_alnum c = is_digit c || leb b'A' c && leb c b'Z' || leb b'a' c && leb c b'z'

unfoldable pub is_host_char : ℕ → Bool
unfolding is_alnum
is_host_char c = is_alnum c || c == b'-' || c == b'.' || c == b'_'

-- Where the host begins; `none` for another scheme.
unfoldable pub host_start : List ℕ → Option (List ℕ)
unfolding starts_with
host_start url =
    if starts_with (codes "ws://") url
    then some (drop 5 url)
    else if starts_with (codes "wss://") url
    then some (drop 6 url)
    else none

-- The first loop: `hostEnd`, or `none` at a character that a host may not hold.
unfoldable pub scan_host : List ℕ → Option (List ℕ)
unfolding is_host_char
scan_host [] = some []
scan_host (c ∷ s) =
    if c == b':' || c == b'/'
    then some (c ∷ s)
    else if not (is_host_char c)
    then none
    else scan_host s

-- The second loop: only digits up to the path?
unfoldable pub scan_port : List ℕ → Bool
unfolding is_digit
scan_port [] = true
scan_port (c ∷ s) = if c == b'/' then true else if not (is_digit c) then false else scan_port s

unfoldable pub port_is_fine : List ℕ → Bool
unfolding scan_port
port_is_fine [] = true
port_is_fine (c ∷ s) = if c == b':' then scan_port s else true

-- `strncpy (wsUri, url, MAX_WS_URI - 1); wsUri[MAX_WS_URI - 1] = 0;`, the whole array.
unfoldable pub copy_uri : List ℕ → List ℕ
copy_uri url = take (max_ws_uri - 1) url ++ (replicate (max_ws_uri - 1 - length url) 0 ++ 0 ∷ [])

-- `none` is the result 0; `some` holds the array `wsUri` beside the result 1.
unfoldable pub validate_ws_uri : List ℕ → Option (List ℕ)
validate_ws_uri url = do
  start ← host_start url
  end ← scan_host start
  if length start == length end
      then none
      else if not (port_is_fine end)
      then none
      else some (copy_uri url)
