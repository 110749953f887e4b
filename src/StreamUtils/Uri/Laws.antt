-- ===== src/StreamUtils/Uri/Laws.antt =====
-- `validate_ws_uri` accepts exactly the URIs of the grammar, and what it writes.
use mod_audio_stream.Prelude.{
  ℕ, zero, suc, ◌+◌, ◌-◌, ◌<◌, ◌≡◌, ◌↔◌, ◌⊎◌, inl, inr, refl, ap, ◌∙◌, true, false, ◌||◌, Option,
  none, some, List, [], ◌∷◌, ◌++◌, arith, codes, All, drop, take, length, length-append, replicate,
  length-take, length-replicate, ◌==◌, Bool-cases, Option-cases, subst,
}
use mod_audio_stream.StreamUtils.Uri.{
  starts_with, host_start, is_digit, is_host_char, scan_host, scan_port, port_is_fine, copy_uri,
  validate_ws_uri, max_ws_uri,
}
use mod_audio_stream.StreamUtils.CString.{c_string, IsCString}
use mod_audio_stream.StreamUtils.Uri.Grammar.{IsPath, IsPortPath, IsWsUri}

pub starts_with-append : (p s : List ℕ) → starts_with p (p ++ s) ≡ true
unfolding starts_with
starts_with-append [] s = refl
starts_with-append (c ∷ p) s = ground (arith, starts_with-append p s)

pub eq_of_starts_with : (p s : List ℕ) → starts_with p s ≡ true → s ≡ p ++ drop (length p) s
unfolding starts_with
eq_of_starts_with [] s h = refl
eq_of_starts_with (c ∷ p) [] h = cc
eq_of_starts_with (c ∷ p) (d ∷ s) h = ground (arith, eq_of_starts_with p s)

-- Where the first loop stops.
abbrev pub Stops : List ℕ → Type 0
Stops [] = Unit {0}
Stops (c ∷ s) = (c ≡ b':') ⊎ (c ≡ b'/')

pub record Host (s e : List ℕ) : Type 0 where
  pub host : List ℕ
  pub chars : All (λ c. is_host_char c ≡ true) host
  pub split : s ≡ host ++ e
  pub stops : Stops e

Host-none : (s : List ℕ) → Stops s → Host s s
Host-none s h = record { host = []; chars = tt; split = refl; stops = h }

abbrev HostOf : List ℕ → Option (List ℕ) → Type 0
HostOf s none = Unit {0}
HostOf s (some e) = Host s e

HostOf-cons :
    (c : ℕ) (s : List ℕ) (r : Option (List ℕ))
    → is_host_char c ≡ true
    → HostOf s r
    → HostOf (c ∷ s) r
HostOf-cons c s none h t = tt
HostOf-cons c s (some e) h t = record {
  host = c ∷ t.host;
  chars = (h, t.chars);
  split = ap (◌∷◌ c) t.split;
  stops = t.stops;
}

scan_host-HostOf : (s : List ℕ) → HostOf s (scan_host s)
unfolding scan_host
scan_host-HostOf [] = Host-none [] tt
scan_host-HostOf (c ∷ s) =
    ground (arith, Host-none (c ∷ s), HostOf-cons c s (scan_host s), scan_host-HostOf s)

pub scan_host-Host : (s e : List ℕ) → scan_host s ≡ some e → Host s e
scan_host-Host s e h = subst (HostOf s) h (scan_host-HostOf s)

host_char-ne-stop : (c : ℕ) → is_host_char c ≡ true → (c == b':' || c == b'/') ≡ false
unfolding is_host_char
host_char-ne-stop c h = ground arith

pub scan_host-append :
    (host e : List ℕ)
    → All (λ c. is_host_char c ≡ true) host
    → Stops e
    → scan_host (host ++ e) ≡ some e
unfolding scan_host
scan_host-append [] [] h t = refl
scan_host-append [] (c ∷ e) h t = ground arith
scan_host-append (c ∷ host) e h t =
    ground (arith, host_char-ne-stop c h.0, scan_host-append host e h.1)

IsPath-cons : (s : List ℕ) → IsPath (b'/' ∷ s)
IsPath-cons s = IsPath.slash s

-- Digits up to a path.
record Port (s : List ℕ) : Type 0 where
  digits : List ℕ
  rest : List ℕ
  numeric : All (λ c. is_digit c ≡ true) digits
  path : IsPath rest
  split : s ≡ digits ++ rest

Port-cons : (c : ℕ) (s : List ℕ) → is_digit c ≡ true → Port s → Port (c ∷ s)
Port-cons c s h p = record {
  digits = c ∷ p.digits;
  rest = p.rest;
  numeric = (h, p.numeric);
  path = p.path;
  split = ap (◌∷◌ c) p.split;
}

Port-slash : (c : ℕ) (s : List ℕ) → c ≡ b'/' → Port (c ∷ s)
Port-slash c s e =
    rw e
      (record { digits = []; rest = b'/' ∷ s; numeric = tt; path = IsPath.slash s; split = refl })

scan_port-Port : (s : List ℕ) → scan_port s ≡ true → Port s
unfolding scan_port
scan_port-Port [] h = record {
  digits = [];
  rest = [];
  numeric = tt;
  path = IsPath.none;
  split = refl;
}
scan_port-Port (c ∷ s) h = ground (arith, Port-slash c s, Port-cons c s, scan_port-Port s)

port_is_fine-IsPortPath : (s : List ℕ) → Stops s → port_is_fine s ≡ true → IsPortPath s
unfolding port_is_fine
port_is_fine-IsPortPath [] h f = IsPortPath.path IsPath.none
port_is_fine-IsPortPath (c ∷ s) (inl e) f =
    let p = scan_port-Port s (ground arith) in
    rw e (IsPortPath.port p.digits p.rest p.numeric p.path p.split)
port_is_fine-IsPortPath (c ∷ s) (inr e) f = rw e (IsPortPath.path (IsPath.slash s))

scan_port-append :
    (digits s : List ℕ)
    → All (λ c. is_digit c ≡ true) digits
    → IsPath s
    → scan_port (digits ++ s) ≡ true
unfolding scan_port
scan_port-append [] s h IsPath.none = refl
scan_port-append [] s h (IsPath.slash t) = refl
scan_port-append (c ∷ digits) s h p = ground (arith, scan_port-append digits s h.1 p)

IsPortPath-fine : {s : List ℕ} → IsPortPath s → Stops s × (port_is_fine s ≡ true)
unfolding port_is_fine
IsPortPath-fine (IsPortPath.path IsPath.none) = (tt, refl)
IsPortPath-fine (IsPortPath.path (IsPath.slash s)) = (inr refl, refl)
IsPortPath-fine (IsPortPath.port digits s h p e) = (inl refl, rw e (scan_port-append digits s h p))

abbrev pub IsScheme : List ℕ → Type 0
IsScheme p = (p ≡ codes "ws://") ⊎ (p ≡ codes "wss://")

abbrev SchemeOf : List ℕ → Option (List ℕ) → Type 0
SchemeOf url none = Unit {0}
SchemeOf url (some start) = (p : List ℕ) × IsScheme p × (url ≡ p ++ start)

host_start-SchemeOf : (url : List ℕ) → SchemeOf url (host_start url)
unfolding host_start
host_start-SchemeOf url = elim (Bool-cases (starts_with (codes "ws://") url)) [
  | inl ws ↦ rw ws (codes "ws://", inl refl, eq_of_starts_with (codes "ws://") url ws)
  | inr other ↦ rw other (elim (Bool-cases (starts_with (codes "wss://") url)) [
    | inl wss ↦ rw wss (codes "wss://", inr refl, eq_of_starts_with (codes "wss://") url wss)
    | inr neither ↦ rw neither tt
  ])
]

host_start-append : (p start : List ℕ) → IsScheme p → host_start (p ++ start) ≡ some start
unfolding host_start starts_with
host_start-append p start (inl e) = rw e
host_start-append p start (inr e) = rw e

-- The values that an accepted URI goes through.
record Accepted (url buf : List ℕ) : Type 0 where
  start : List ℕ
  end : List ℕ
  scheme : host_start url ≡ some start
  host : scan_host start ≡ some end
  given : (length start == length end) ≡ false
  fine : port_is_fine end ≡ true
  copied : buf ≡ copy_uri url

validate_ws_uri-Accepted : (url buf : List ℕ) → validate_ws_uri url ≡ some buf → Accepted url buf
unfolding validate_ws_uri
validate_ws_uri-Accepted url buf h = elim (Option-cases (host_start url)) [
  | inl e ↦ absurd (ground arith)
  | inr (start, e) ↦ elim (Option-cases (scan_host start)) [
    | inl f ↦ absurd (ground arith)
    | inr (end, f) ↦ record {
      start = start;
      end = end;
      scheme = e;
      host = f;
      given = ground arith;
      fine = ground arith;
      copied = ground arith;
    }
  ]
]

Accepted-IsWsUri : (url buf : List ℕ) → Accepted url buf → IsWsUri url
Accepted-IsWsUri url buf a =
    let (p, known, whole) = subst (SchemeOf url) a.scheme (host_start-SchemeOf url) in
    let h = scan_host-Host a.start a.end a.host in
    let given : (length a.start == length a.end) ≡ false = a.given in
    record {
      scheme = p;
      host = h.host;
      rest = a.end;
      known_scheme = known;
      host_chars = h.chars;
      host_given = ground (arith, ap length h.split, length-append h.host a.end);
      port_path = port_is_fine-IsPortPath a.end h.stops a.fine;
      whole = whole ∙ ap (◌++◌ p) h.split;
    }

validate_of_IsWsUri : (url : List ℕ) → IsWsUri url → validate_ws_uri url ≡ some (copy_uri url)
unfolding validate_ws_uri
validate_of_IsWsUri url u = ground (
  arith,
  u.whole,
  host_start-append u.scheme (u.host ++ u.rest) u.known_scheme,
  scan_host-append u.host u.rest u.host_chars (IsPortPath-fine u.port_path).0,
  IsPortPath-fine u.port_path,
  u.host_given,
  length-append u.host u.rest,
)

-- validate_ws_uri accepts a string exactly when it is a scheme ws:// or wss://, a host of at least
-- one letter, digit, -, . or _, and behind it nothing, a path, or a colon with digits (or none) and
-- then nothing or a path.
pub validate_ws_uri_iff :
    (url : List ℕ) → ((buf : List ℕ) × (validate_ws_uri url ≡ some buf)) ↔ IsWsUri url
validate_ws_uri_iff url = (
  λ (a : (buf : List ℕ) × (validate_ws_uri url ≡ some buf)).
      Accepted-IsWsUri url a.0 (validate_ws_uri-Accepted url a.0 a.1),
  λ u. (copy_uri url, validate_of_IsWsUri url u),
)

c_string-append : (s t : List ℕ) → All (λ b. (0 < b) × (b < 256)) s → c_string (s ++ 0 ∷ t) ≡ s
unfolding c_string
c_string-append [] t h = refl
c_string-append (c ∷ s) t h = ground (arith, c_string-append s t h.1)

replicate-snoc : (k z : ℕ) → replicate k z ++ z ∷ [] ≡ z ∷ replicate k z
replicate-snoc zero z = refl
replicate-snoc (suc k) z = ap (◌∷◌ z) (replicate-snoc k z)

IsCString-take : (n : ℕ) (s : List ℕ) → IsCString s → IsCString (take n s)
IsCString-take zero s h = tt
IsCString-take (suc n) [] h = tt
IsCString-take (suc n) (c ∷ s) h = (h.0, IsCString-take n s h.1)

copy_string :
    (n k : ℕ) (url : List ℕ)
    → IsCString url
    → c_string (take n url ++ (replicate k 0 ++ 0 ∷ [])) ≡ take n url
copy_string n k url w =
    rw (replicate-snoc k 0) (c_string-append (take n url) (replicate k 0) (IsCString-take n url w))

copy_length :
    (n : ℕ) (url : List ℕ) → length (take n url ++ (replicate (n - length url) 0 ++ 0 ∷ [])) ≡ n + 1
copy_length n url = omega (
  arith,
  length-append (take n url) (replicate (n - length url) 0 ++ 0 ∷ []),
  length-append {A = ℕ} (replicate (n - length url) 0) (0 ∷ []),
  length-replicate {A = ℕ} (n - length url) 0,
  length-take n url,
)

-- When validate_ws_uri accepts a C string, it fills the whole array of MAX_WS_URI bytes, and the C
-- string in the array is the URI, cut to its first MAX_WS_URI - 1 bytes if it is longer.
pub validate_ws_uri-copy :
    (url buf : List ℕ)
    → IsCString url
    → validate_ws_uri url ≡ some buf
    → (length buf ≡ max_ws_uri) × (c_string buf ≡ take (max_ws_uri - 1) url)
unfolding copy_uri
validate_ws_uri-copy url buf w h =
    rw (validate_ws_uri-Accepted url buf h).copied
      (copy_length 4095 url, copy_string 4095 (4095 - length url) url w)
