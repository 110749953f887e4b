-- ===== src/Streamer/Settings.antt =====
-- audio_streamer_glue.cpp: the constructor of `AudioStreamer`, which sets the client up. What cJSON
-- makes of the extra headers is given.
use mod_audio_stream.Prelude.{ℕ, Bool, false, Option, none, some, List, [], ◌∷◌, ltb, if◌then◌else◌}
use mod_audio_stream.Prelude.Ints.{ℤ, pos}
use mod_audio_stream.WsClient.Url.{Endpoint, set_url}

pub data Order : Type 0 where
  before same after : Order

-- `operator <` of strings, by bytes, and what is neither way.
unfoldable pub compare : List ℕ → List ℕ → Order
compare [] [] = same
compare [] (d ∷ t) = before
compare (c ∷ s) [] = after
compare (c ∷ s) (d ∷ t) = if ltb c d then before else if ltb d c then after else compare s t

-- The `std::map` of the headers, in its order.
abbrev pub Headers : Type 0
Headers = List (List ℕ × List ℕ)

-- A header's place at the map's first entry, where `rest` has it behind that.
unfoldable pub put_at : Order → List ℕ × List ℕ → List ℕ × List ℕ → Headers → Headers → Headers
put_at before new h hs rest = new ∷ h ∷ hs
put_at same new h hs rest = new ∷ hs
put_at after new h hs rest = h ∷ rest

-- `hdrs[name] = value`.
unfoldable pub set_header : List ℕ → List ℕ → Headers → Headers
unfolding compare put_at
set_header name value [] = (name, value) ∷ []
set_header name value (h ∷ hs) =
    put_at (compare name h.0) (name, value) h hs (set_header name value hs)

-- A child of the JSON value: its name, if it has one, and its text, if it is a string.
pub record Child : Type 0 where
  pub name : Option (List ℕ)
  pub text : Option (List ℕ)

-- The map's next state, none where the name is a null pointer.
unfoldable pub add_header : Option (List ℕ) → Option (List ℕ) → Headers → Option Headers
unfolding set_header
add_header name none hs = some hs
add_header none (some value) hs = none
add_header (some name) (some value) hs = some (set_header name value hs)

unfoldable pub add_headers : List Child → Headers → Option Headers
unfolding add_header
add_headers [] hs = some hs
add_headers (c ∷ cs) hs = elim (add_header c.name c.text hs) [
  | none ↦ none
  | some hs' ↦ add_headers cs hs'
]

abbrev pub text_or_empty : Option (List ℕ) → List ℕ
text_or_empty none = []
text_or_empty (some s) = s

-- What the client is given: the address, `TLSOptions`, the seconds between pings, the headers.
pub record Settings : Type 0 where
  pub address : Endpoint
  pub ca_file : List ℕ
  pub key_file : List ℕ
  pub cert_file : List ℕ
  pub disable_hostname_validation : Bool
  pub ping_interval : ℤ
  pub headers : Headers

-- What `create` is called with.
pub record Wanted : Type 0 where
  pub url : List ℕ
  pub heart_beat : ℤ
  pub extra_headers : Option (List ℕ)
  pub tls_cafile : Option (List ℕ)
  pub tls_keyfile : Option (List ℕ)
  pub tls_certfile : Option (List ℕ)
  pub tls_disable : Bool

-- The headers in what cJSON makes of their text.
unfoldable pub children_headers : Option (List Child) → Option Headers
unfolding add_headers
children_headers none = some []
children_headers (some cs) = add_headers cs []

unfoldable pub parsed_headers : (List ℕ → Option (List Child)) → Option (List ℕ) → Option Headers
unfolding children_headers
parsed_headers parse none = some []
parsed_headers parse (some text) = children_headers (parse text)

abbrev pub fresh_endpoint : Endpoint
fresh_endpoint = record { url = []; use_tls = false; port = pos 0; host = []; path = [] }

-- The interval is 0, for no pings, until it is set; so are the headers empty.
unfoldable pub client_settings : Wanted → Headers → Settings
unfolding set_url
client_settings w headers = record {
  address = set_url w.url fresh_endpoint;
  ca_file = text_or_empty w.tls_cafile;
  key_file = text_or_empty w.tls_keyfile;
  cert_file = text_or_empty w.tls_certfile;
  disable_hostname_validation = w.tls_disable;
  ping_interval = w.heart_beat;
  headers = headers;
}

unfoldable pub settings_with : Wanted → Option Headers → Option Settings
unfolding client_settings
settings_with w none = none
settings_with w (some headers) = some (client_settings w headers)

-- The constructor's calls of the client. None where it makes a string of a null pointer.
unfoldable pub new_client : (List ℕ → Option (List Child)) → Wanted → Option Settings
unfolding parsed_headers settings_with
new_client parse w = settings_with w (parsed_headers parse w.extra_headers)
