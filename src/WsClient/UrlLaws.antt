-- ===== src/WsClient/UrlLaws.antt =====
-- `setUrl` on the URIs that `validate_ws_uri` lets through.
use mod_audio_stream.Prelude.{
  ℕ, ◌+◌, ◌-◌, ◌*◌, ◌^◌, ◌<◌, ◌≤◌, ◌≡◌, ◌⊎◌, inl, inr, refl, sym, ap, ◌∙◌, subst, Bool, true, false,
  Option, none, some, List, [], ◌∷◌, ◌++◌, append-nil, All, arith, codes, length, length-append,
  ◌==◌, if◌then◌else◌,
}
use mod_audio_stream.Prelude.Ints.{pos}
use mod_audio_stream.Prelude.Slices.{take-append}
use mod_audio_stream.StreamUtils.Uri.{starts_with, is_digit, is_alnum, is_host_char}
use mod_audio_stream.StreamUtils.Uri.Grammar.{IsPath, none, slash, IsPortPath, path, port, IsWsUri}
use mod_audio_stream.StreamUtils.Numeral.{
  atoi, atoi-fits, scan_int, skip_spaces, is_space, signed_value, unsigned_value, digits_value,
}
use mod_audio_stream.WsClient.Url.{
  Endpoint, endpoint, find, path_or_root, up_to, before, whole_host, split_at, split_authority,
  set_url,
}

-- The number that digits write.
abbrev pub decimal : ℕ → List ℕ → ℕ
decimal n [] = n
decimal n (c ∷ s) = decimal (n * 10 + (c - b'0')) s

-- The path of a URI, "/" where it has none; its port, or that of the scheme.
abbrev pub path_of : {s : List ℕ} → IsPath s → List ℕ
path_of none = codes "/"
path_of (slash s) = b'/' ∷ s

abbrev pub request_path : {s : List ℕ} → IsPortPath s → List ℕ
request_path (path p) = path_of p
request_path (port digits s given p e) = path_of p

abbrev pub request_port : {s : List ℕ} → ℕ → IsPortPath s → ℕ
request_port default (path p) = default
request_port default (port digits s given p e) = decimal 0 digits

All-map {ℓ κ λ'} :
    {A : Type ℓ} {P : A → Type κ} {Q : A → Type λ'}
    → ((a : A) → P a → Q a)
    → (xs : List A) → All P xs
    → All Q xs
All-map f [] h = tt
All-map f (x ∷ xs) h = (f x h.0, All-map f xs h.1)

find-append : (c : ℕ) (s t : List ℕ) → All (λ d. (d == c) ≡ false) s → find c (s ++ t) ≡ find c t
unfolding find
find-append c [] t h = refl
find-append c (d ∷ s) t h = ground (arith, find-append c s t h.1)

host_char-plain : (d : ℕ) → is_host_char d ≡ true → ((d == b'/') ≡ false) × ((d == b':') ≡ false)
unfolding is_host_char is_alnum is_digit
host_char-plain d h = ground arith

digit-plain :
    (d : ℕ)
    → is_digit d ≡ true
    → ((d == b'/') ≡ false) × (is_space d ≡ false) × ((d == b'-') ≡ false) × ((d == b'+') ≡ false)
unfolding is_digit is_space
digit-plain d h = ground arith

-- The digits of a port, and the path behind them.
digits_value-decimal :
    (digits : List ℕ) (n : ℕ) {s : List ℕ}
    → All (λ c. is_digit c ≡ true) digits
    → IsPath s
    → digits_value n (digits ++ s) ≡ decimal n digits
unfolding digits_value
digits_value-decimal [] n h none = refl
digits_value-decimal [] n h (slash s) = refl
digits_value-decimal (c ∷ digits) n h p =
    rw h.0 (digits_value-decimal digits (n * 10 + (c - b'0')) h.1 p)

scan_int_digit :
    (c : ℕ) (s : List ℕ)
    → is_digit c ≡ true
    → scan_int (c ∷ s) ≡ some (pos (digits_value 0 (c ∷ s)))
unfolding scan_int skip_spaces signed_value unsigned_value
scan_int_digit c s h = ground (arith, digit-plain c h)

atoi-decimal :
    (digits : List ℕ) {s : List ℕ}
    → All (λ c. is_digit c ≡ true) digits
    → IsPath s
    → decimal 0 digits < 2 ^ 31
    → atoi (digits ++ s) ≡ pos (decimal 0 digits)
unfolding atoi scan_int skip_spaces signed_value unsigned_value is_space
atoi-decimal [] h none fits = refl
atoi-decimal [] h (slash s) fits = refl
atoi-decimal (c ∷ digits) {s = s} h p fits =
    atoi-fits (c ∷ (digits ++ s)) (decimal 0 (c ∷ digits))
      (scan_int_digit c (digits ++ s) h.0
        ∙ ap (λ n. some (pos n)) (digits_value-decimal (c ∷ digits) 0 h p))
      fits

find-length : (c : ℕ) (s : List ℕ) {t : List ℕ} → find c s ≡ some t → length t ≤ length s
unfolding find
find-length c [] e = ground arith
find-length c (d ∷ s) e = grind (arith, find-length c s)

up_to-append : (host rest : List ℕ) → up_to (host ++ rest) rest ≡ host
unfolding up_to
up_to-append host rest =
    take-append rest 0 host _ (omega (arith, length-append host rest)) ∙ append-nil host

module _ (url host : List ℕ) (tls : Bool) (default : ℕ)
    (plain : All (λ c. is_host_char c ≡ true) host) where
  no_slash : All (λ d. (d == b'/') ≡ false) host
  no_slash = All-map (λ d h. (host_char-plain d h).0) host plain

  no_colon : All (λ d. (d == b':') ≡ false) host
  no_colon = All-map (λ d h. (host_char-plain d h).1) host plain

  split_none :
      split_authority url tls (pos default) (host ++ [])
      ≡ endpoint url tls (pos default) host (codes "/")
  unfolding split_authority split_at find path_or_root whole_host
  split_none =
      rw (find-append b'/' host [] no_slash, find-append b':' host [] no_colon, append-nil host)
        refl

  -- A colon in the path is no port.
  split_at_path :
      (s : List ℕ) (colon : Option (List ℕ))
      → find b':' s ≡ colon
      → split_at url tls (pos default) (host ++ b'/' ∷ s) (some (b'/' ∷ s)) colon
        ≡ endpoint url tls (pos default) host (b'/' ∷ s)
  unfolding split_at path_or_root whole_host before
  split_at_path s none e = rw (up_to-append host (b'/' ∷ s)) refl
  split_at_path s (some colon) e =
      let short = find-length b':' s e in rw (up_to-append host (b'/' ∷ s)) (ground arith)

  split_slash :
      (s : List ℕ)
      → split_authority url tls (pos default) (host ++ b'/' ∷ s)
        ≡ endpoint url tls (pos default) host (b'/' ∷ s)
  unfolding split_authority find
  split_slash s =
      rw (find-append b'/' host (b'/' ∷ s) no_slash, find-append b':' host (b'/' ∷ s) no_colon)
        (split_at_path s (find b':' s) refl)

  split_at_port :
      (digits s : List ℕ) (p : IsPath s)
      → All (λ c. is_digit c ≡ true) digits
      → decimal 0 digits < 2 ^ 31
      → split_at url tls
          (pos default)
          (host ++ b':' ∷ (digits ++ s))
          (find b'/' s)
          (some (b':' ∷ (digits ++ s)))
        ≡ endpoint url tls (pos (decimal 0 digits)) host (path_of p)
  unfolding split_at find path_or_root before
  split_at_port digits [] none h fits =
      rw (up_to-append host (b':' ∷ (digits ++ [])), atoi-decimal digits {s = []} h none fits) refl
  split_at_port digits (_ ∷ _) (slash s) h fits =
      rw (up_to-append host (b':' ∷ (digits ++ b'/' ∷ s)), atoi-decimal digits h (slash s) fits)
        (ground (arith, length-append digits (b'/' ∷ s)))

  split_port :
      (digits s : List ℕ) (p : IsPath s)
      → All (λ c. is_digit c ≡ true) digits
      → decimal 0 digits < 2 ^ 31
      → split_authority url tls (pos default) (host ++ b':' ∷ (digits ++ s))
        ≡ endpoint url tls (pos (decimal 0 digits)) host (path_of p)
  unfolding split_authority find
  split_port digits s p h fits =
      rw
        (
          find-append b'/' host (b':' ∷ (digits ++ s)) no_slash,
          find-append b':' host (b':' ∷ (digits ++ s)) no_colon,
          find-append b'/' digits s (All-map (λ d q. (digit-plain d q).0) digits h),
        )
        (split_at_port digits s p h fits)

  split_authority-IsPortPath :
      {rest : List ℕ} (p : IsPortPath rest)
      → request_port default p < 2 ^ 31
      → split_authority url tls (pos default) (host ++ rest)
        ≡ endpoint url tls (pos (request_port default p)) host (request_path p)
  split_authority-IsPortPath (path none) fits = split_none
  split_authority-IsPortPath (path (slash s)) fits = split_slash s
  split_authority-IsPortPath (port digits s h p e) fits = rw e (split_port digits s p h fits)

abbrev IsScheme : List ℕ → Type 0
IsScheme s = (s ≡ codes "ws://") ⊎ (s ≡ codes "wss://")

abbrev pub is_secure : {s : List ℕ} → (s ≡ codes "ws://") ⊎ (s ≡ codes "wss://") → Bool
is_secure (inl e) = false
is_secure (inr e) = true

abbrev pub default_port : Bool → ℕ
default_port tls = if tls then 443 else 80

set_url_scheme :
    (url scheme tail' : List ℕ) (e : Endpoint)
    → (k : (scheme ≡ codes "ws://") ⊎ (scheme ≡ codes "wss://")) → url ≡ scheme ++ tail'
    → set_url url e ≡ split_authority url (is_secure k) (pos (default_port (is_secure k))) tail'
unfolding set_url starts_with
set_url_scheme url scheme tail' e (inl w) q =
    subst (λ v. set_url v e ≡ split_authority v false (pos 80) tail')
      (sym (q ∙ ap (λ s. s ++ tail') w)) refl
set_url_scheme url scheme tail' e (inr w) q =
    subst (λ v. set_url v e ≡ split_authority v true (pos 443) tail')
      (sym (q ∙ ap (λ s. s ++ tail') w)) refl

-- The client's address by the grammar.
abbrev pub address : {url : List ℕ} → IsWsUri url → Endpoint
address {url} u =
    let tls = is_secure u.known_scheme in
    endpoint url tls (pos (request_port (default_port tls) u.port_path)) u.host
      (request_path u.port_path)

-- On every URI of the grammar that validate_ws_uri checks and whose port, as a number, is less than
-- 2^31, setUrl sets the members to what the grammar says: TLS for wss://, the host, the number that
-- the port's digits write (0 without digits) or the scheme's port without a colon, and the path or
-- /.
pub set_url-address :
    (url : List ℕ) (e : Endpoint) (u : IsWsUri url)
    → request_port (default_port (is_secure u.known_scheme)) u.port_path < 2 ^ 31
    → set_url url e ≡ address u
set_url-address url e u fits =
    set_url_scheme url u.scheme (u.host ++ u.rest) e u.known_scheme u.whole
    ∙ split_authority-IsPortPath url u.host (is_secure u.known_scheme)
        (default_port (is_secure u.known_scheme)) u.host_chars u.port_path fits
