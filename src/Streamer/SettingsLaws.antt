-- ===== src/Streamer/SettingsLaws.antt =====
-- The map of the extra headers.
use mod_audio_stream.Prelude.{
  ℕ, ◌≡◌, refl, sym, ap, ap₂, ◌∙◌, subst, Option, none, some, List, [], ◌∷◌, arith, ◌⊎◌, inl, inr,
}
use mod_audio_stream.WsClient.Url.{set_url}
use mod_audio_stream.Streamer.Settings.{
  Wanted, Settings, new_client, client_settings, parsed_headers, children_headers, settings_with,
  fresh_endpoint, Order, before, same, after, compare, Headers, put_at, set_header, Child,
  add_header, add_headers,
}

Order-cases : (o : Order) → (o ≡ before) ⊎ (o ≡ same) ⊎ (o ≡ after)
Order-cases before = inl refl
Order-cases same = inr (inl refl)
Order-cases after = inr (inr refl)

compare-after : (s t : List ℕ) → compare s t ≡ after → compare t s ≡ before
unfolding compare
compare-after [] [] e = ground (arith, e)
compare-after [] (d ∷ t) e = ground (arith, e)
compare-after (c ∷ s) [] e = refl
compare-after (c ∷ s) (d ∷ t) e = ground (arith, e, compare-after s t)

compare-same : (s t : List ℕ) → compare s t ≡ same → s ≡ t
unfolding compare
compare-same [] [] e = refl
compare-same [] (d ∷ t) e = ground (arith, e)
compare-same (c ∷ s) [] e = ground (arith, e)
compare-same (c ∷ s) (d ∷ t) e = ground (arith, e, compare-same s t)

compare_refl : (s : List ℕ) → compare s s ≡ same
unfolding compare
compare_refl [] = refl
compare_refl (c ∷ s) = ground (arith, compare_refl s)

abbrev pub pick : Order → Option (List ℕ) → Option (List ℕ) → Option (List ℕ)
pick before a b = b
pick same a b = a
pick after a b = b

-- The value under a name.
unfoldable pub lookup : List ℕ → Headers → Option (List ℕ)
lookup name [] = none
lookup name (h ∷ hs) = pick (compare name h.0) (some h.1) (lookup name hs)

pick_twice : (o : Order) (a b c : Option (List ℕ)) → pick o a (pick o b c) ≡ pick o a c
pick_twice before a b c = refl
pick_twice same a b c = refl
pick_twice after a b c = refl

pick_other :
    (p q : Order) (a b c : Option (List ℕ))
    → (p ≡ same → q ≡ same → a ≡ b)
    → pick p a (pick q b c) ≡ pick q b (pick p a c)
pick_other before q a b c h = refl
pick_other after q a b c h = refl
pick_other same before a b c h = refl
pick_other same after a b c h = refl
pick_other same same a b c h = h refl refl

clash :
    (n k m : List ℕ) {A : Type 0}
    → compare k m ≡ after
    → compare n m ≡ same
    → compare n k ≡ same
    → A
clash n k m e p q =
    let r : compare n n ≡ after = ap₂ compare (compare-same n k q) (compare-same n m p) ∙ e in
    let s : same ≡ after = sym (compare_refl n) ∙ r in absurd (ground (arith, s))

lookup-set_header :
    (n k v : List ℕ) (hs : Headers)
    → lookup n (set_header k v hs) ≡ pick (compare n k) (some v) (lookup n hs)
unfolding lookup set_header put_at
lookup-set_header n k v [] = refl
lookup-set_header n k v (h ∷ hs) =
    let placed : Order → Option (List ℕ) =
      λ o. lookup n (put_at o (k, v) h hs (set_header k v hs)) in
    elim (Order-cases (compare k h.0)) [
      | inl e ↦ ap placed e
      | inr (inl e) ↦
          ap placed e
          ∙ sym (pick_twice (compare n k) (some v) (some h.1) (lookup n hs))
          ∙ ap (λ m. pick (compare n k) (some v) (pick (compare n m) (some h.1) (lookup n hs)))
              (compare-same k h.0 e)
      | inr (inr e) ↦
          ap placed e
          ∙ ap (pick (compare n h.0) (some h.1)) (lookup-set_header n k v hs)
          ∙ pick_other (compare n h.0) (compare n k) (some h.1) (some v) (lookup n hs)
              (λ p q. clash n k h.0 e p q)
    ]

-- The names come in order, each once.
abbrev Follows : List ℕ → Headers → Type 0
Follows name [] = Unit
Follows name (h ∷ hs) = compare name h.0 ≡ before

abbrev pub IsSorted : Headers → Type 0
IsSorted [] = Unit
IsSorted (h ∷ hs) = Follows h.0 hs × IsSorted hs

Follows-put_at :
    (o : Order) (m k v : List ℕ) (g : List ℕ × List ℕ) (gs rest : Headers)
    → compare m k ≡ before
    → compare m g.0 ≡ before
    → Follows m (put_at o (k, v) g gs rest)
unfolding put_at
Follows-put_at before m k v g gs rest p q = p
Follows-put_at same m k v g gs rest p q = p
Follows-put_at after m k v g gs rest p q = q

Follows-set_header :
    (m k v : List ℕ) (hs : Headers)
    → compare m k ≡ before
    → Follows m hs
    → Follows m (set_header k v hs)
unfolding set_header
Follows-set_header m k v [] p q = p
Follows-set_header m k v (g ∷ gs) p q =
    Follows-put_at (compare k g.0) m k v g gs (set_header k v gs) p q

set_header-IsSorted : (k v : List ℕ) (hs : Headers) → IsSorted hs → IsSorted (set_header k v hs)
unfolding set_header put_at
set_header-IsSorted k v [] s = (tt, tt)
set_header-IsSorted k v (h ∷ hs) s =
    let placed : Order → Type 0 = λ o. IsSorted (put_at o (k, v) h hs (set_header k v hs)) in
    elim (Order-cases (compare k h.0)) [
      | inl e ↦ subst placed (sym e) (e, s)
      | inr (inl e) ↦
          subst placed (sym e) (subst (λ m. Follows m hs) (sym (compare-same k h.0 e)) s.0, s.1)
      | inr (inr e) ↦ subst placed (sym e) (
        Follows-set_header h.0 k v hs (compare-after k h.0 e) s.0,
        set_header-IsSorted k v hs s.1,
      )
    ]

-- The text of the last child that has this name and is a string, or `d`.
unfoldable pub text_if : Order → Option (List ℕ) → Option (List ℕ) → Option (List ℕ)
text_if o none d = d
text_if o (some v) d = pick o (some v) d

unfoldable pub last_text :
    List ℕ → List (List ℕ × Option (List ℕ)) → Option (List ℕ) → Option (List ℕ)
unfolding text_if
last_text n [] d = d
last_text n (c ∷ cs) d = last_text n cs (text_if (compare n c.0) c.1 d)

-- The children of an object, which all have names.
abbrev pub named : List (List ℕ × Option (List ℕ)) → List Child
named [] = []
named (c ∷ cs) = record { name = some c.0; text = c.1 } ∷ named cs

-- Children with names go into the map, in the state that their last texts give.
pub add_headers-named :
    (cs : List (List ℕ × Option (List ℕ))) (hs : Headers)
    → IsSorted hs
    → (out : Headers) × (add_headers (named cs) hs ≡ some out)
      × IsSorted out
      × ((n : List ℕ) → lookup n out ≡ last_text n cs (lookup n hs))
unfolding add_headers add_header last_text text_if
add_headers-named [] hs s = (hs, refl, s, λ n. refl)
add_headers-named ((k, none) ∷ cs) hs s = add_headers-named cs hs s
add_headers-named ((k, some v) ∷ cs) hs s =
    let (out, e, sorted, found) =
      add_headers-named cs (set_header k v hs) (set_header-IsSorted k v hs s) in
    (out, e, sorted, λ n. found n ∙ ap (last_text n cs) (lookup-set_header n k v hs))

-- When the extra headers are given and parse to a JSON object, the constructor finishes. The
-- client's headers have under each name the text of the last member of that name that is a string,
-- and nothing under a name without one; the names stand in ascending order, each once; and the
-- address is what setUrl makes of the URI.
pub new_client-lookup :
    (parse : List ℕ → Option (List Child)) (w : Wanted) {text : List ℕ}
    (cs : List (List ℕ × Option (List ℕ)))
    → w.extra_headers ≡ some text
    → parse text ≡ some (named cs)
    → (s : Settings) × (new_client parse w ≡ some s)
      × IsSorted s.headers
      × ((n : List ℕ) → lookup n s.headers ≡ last_text n cs none)
      × (s.address ≡ set_url w.url fresh_endpoint)
unfolding new_client parsed_headers children_headers settings_with client_settings lookup
new_client-lookup parse w cs given parsed =
    let (out, e, sorted, found) = add_headers-named cs [] tt in
    (
      client_settings w out,
      ap (λ x. settings_with w (parsed_headers parse x)) given
          ∙ ap (λ x. settings_with w (children_headers x)) parsed
          ∙ ap (settings_with w) e,
      sorted,
      found,
      refl,
    )
