-- ===== src/StreamUtils/Uri/Grammar.antt =====
-- The URIs that `validate_ws_uri` is meant for, as a grammar.
use mod_audio_stream.Prelude.{ℕ, ◌<◌, ◌≡◌, ◌⊎◌, true, List, [], ◌∷◌, ◌++◌, codes, All, length}
use mod_audio_stream.StreamUtils.Uri.{is_digit, is_host_char}

-- The end of the URI, or a path.
pub data IsPath : List ℕ → Type 0 where
  none : IsPath []
  slash : (s : List ℕ) → IsPath (b'/' ∷ s)

-- What may follow the host: a path, or a colon, digits (none, too) and a path.
pub data IsPortPath : List ℕ → Type 0 where
  path : {s : List ℕ} → IsPath s → IsPortPath s
  port :
      (digits s : List ℕ) {t : List ℕ}
      → All (λ c. is_digit c ≡ true) digits
      → IsPath s
      → t ≡ digits ++ s
      → IsPortPath (b':' ∷ t)

pub record IsWsUri (url : List ℕ) : Type 0 where
  pub scheme : List ℕ
  pub host : List ℕ
  pub rest : List ℕ
  pub known_scheme : (scheme ≡ codes "ws://") ⊎ (scheme ≡ codes "wss://")
  pub host_chars : All (λ c. is_host_char c ≡ true) host
  pub host_given : 0 < length host
  pub port_path : IsPortPath rest
  pub whole : url ≡ scheme ++ (host ++ rest)
