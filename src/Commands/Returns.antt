-- ===== src/Commands/Returns.antt =====
-- When a command reads through a null pointer, and what a capture that starts was given.
use mod_audio_stream.Prelude.{
  ℕ, ◌<◌, ◌≡◌, ◌↔◌, ◌⊎◌, dec_lt, refl, subst, true, false, ◌&&◌, Option, none, some, List, [], ◌∷◌,
  codes, length, ltb, arith, bind_option, Bool-cases, Option-cases, inl, inr, All,
}
use mod_audio_stream.Prelude.Cases.{Returns, if_both, option_both}
use mod_audio_stream.StreamUtils.CString.{IsCString}
use mod_audio_stream.StreamUtils.Numeral.{equal_strings, same_caseless}
use mod_audio_stream.StreamUtils.Utf8.Laws.{is_valid_utf8_total}
use mod_audio_stream.Commands.Backend.{Backend}
use mod_audio_stream.Commands.Dispatch.{
  Locked, Exit, stop_branch, send_branch, is_valid_metadata, start_branch, branches, finish,
  stream_function,
}

same_caseless_trans :
    (s t u : List ℕ) → same_caseless s t ≡ true → same_caseless s u ≡ same_caseless t u
unfolding same_caseless
same_caseless_trans [] [] u e = refl
same_caseless_trans [] (d ∷ t) u e = ground arith
same_caseless_trans (c ∷ s) [] u e = ground arith
same_caseless_trans (c ∷ s) (d ∷ t) [] e = refl
same_caseless_trans (c ∷ s) (d ∷ t) (x ∷ u) e = grind (arith, same_caseless_trans s t u)

bind-Returns :
    {S : Type 0} (m : Option (Exit S))
    → Returns m
    → Returns (bind_option m (λ flow. some (finish flow)))
bind-Returns none h = h
bind-Returns (some flow) h = tt

module _ {S D : Type 0} (b : Backend S D) where
  -- The name of the command in any case of its letters.
  pub branches_start :
      (name : List ℕ) (argv : List (List ℕ)) (l : Locked S)
      → same_caseless name (codes "start") ≡ true
      → branches b name argv l ≡ start_branch b argv l
  unfolding branches same_caseless
  branches_start name argv l e =
      rw
        (
          same_caseless_trans name (codes "start") (codes "stop") e,
          same_caseless_trans name (codes "start") (codes "pause") e,
          same_caseless_trans name (codes "start") (codes "resume") e,
          same_caseless_trans name (codes "start") (codes "break") e,
          same_caseless_trans name (codes "start") (codes "send_text") e,
          e,
        )
        refl

  module _ (id name : List ℕ) (l : Locked S) where
    stop_branch-Returns :
        (r : List (List ℕ)) → All IsCString r → Returns (stop_branch b (id ∷ name ∷ r) l)
    unfolding stop_branch
    stop_branch-Returns [] h = tt
    stop_branch-Returns (text ∷ r) h =
        let total = is_valid_utf8_total text h.0 in
        rw (total.1) (if_both Returns total.0 _ _ (λ q. tt) (λ q. tt))

    send_branch-Returns :
        (r : List (List ℕ)) → All IsCString r → Returns (send_branch b (id ∷ name ∷ r) l)
    unfolding send_branch
    send_branch-Returns [] h = tt
    send_branch-Returns (text ∷ r) h =
        let total = is_valid_utf8_total text h.0 in
        rw (total.1) (if_both Returns total.0 _ _ (λ q. tt) (λ q. tt))

    start_branch-Returns :
        (r : List (List ℕ))
        → All IsCString r
        → (length r < 2 → ⊥)
        → Returns (start_branch b (id ∷ name ∷ r) l)
    unfolding start_branch is_valid_metadata
    start_branch-Returns [] h long = long (omega arith)
    start_branch-Returns (uri ∷ []) h long = long (omega arith)
    start_branch-Returns (uri ∷ mix ∷ []) h long = tt
    start_branch-Returns (uri ∷ mix ∷ rate ∷ []) h long = tt
    start_branch-Returns (uri ∷ mix ∷ rate ∷ text ∷ r) h long =
        let total = is_valid_utf8_total text h.1.1.1.0 in
        rw (total.1) (if_both Returns total.0 _ _ (λ q. tt) (λ q. tt))

    branches-Returns :
        (r : List (List ℕ))
        → All IsCString r
        → (same_caseless name (codes "start") ≡ true → length r < 2 → ⊥)
        → Returns (branches b name (id ∷ name ∷ r) l)
    unfolding branches
    branches-Returns r h long =
        if_both Returns (same_caseless name (codes "stop")) _ _ (λ q. stop_branch-Returns r h)
          (λ q.
            if_both Returns (same_caseless name (codes "pause")) _ _ (λ q. tt)
              (λ q.
                if_both Returns (same_caseless name (codes "resume")) _ _ (λ q. tt)
                  (λ q.
                    if_both Returns (same_caseless name (codes "break")) _ _ (λ q. tt)
                      (λ q.
                        if_both Returns (same_caseless name (codes "send_text")) _ _
                          (λ q. send_branch-Returns r h)
                          (λ q.
                            if_both Returns (same_caseless name (codes "start")) _ _
                              (λ q. start_branch-Returns r h (long q)) (λ q. tt))))))

    start_branch_short :
        (r : List (List ℕ)) → length r < 2 → start_branch b (id ∷ name ∷ r) l ≡ none
    unfolding start_branch is_valid_metadata
    start_branch_short [] short = refl
    start_branch_short (uri ∷ []) short = refl
    start_branch_short (uri ∷ mix ∷ r) short = absurd (omega arith)

module _ {S D : Type 0} (b : Backend S D) (locate : List ℕ → Option S) (id name : List ℕ) where
  abbrev Crashes : List (List ℕ) → Type 0
  Crashes r =
      (same_caseless name (codes "start") ≡ true)
      × (equal_strings name (codes "start") ≡ false)
      × (length r < 2)
      × ((s : S) × (locate id ≡ some s))

  stream_function-Returns :
      (r : List (List ℕ))
      → All IsCString r
      → (Crashes r → ⊥)
      → Returns (stream_function b locate (id ∷ name ∷ r))
  unfolding stream_function
  stream_function-Returns r h safe =
      if_both Returns (equal_strings name (codes "start") && ltb (length (id ∷ name ∷ r)) 4) _ _
        (λ q. tt)
        (λ q.
          option_both Returns (locate id) _ _ (λ e. tt)
            (λ s e. bind-Returns _ (
              branches-Returns b id name _ r h
                (λ caseless short. safe (caseless, ground arith, short, (s, e))))))

  stream_function_crash :
      (r : List (List ℕ)) → Crashes r → stream_function b locate (id ∷ name ∷ r) ≡ none
  unfolding stream_function
  stream_function_crash r (caseless, other, short, (s, e)) =
      rw
        (
          other,
          e,
          branches_start b name (id ∷ name ∷ r) _ caseless,
          start_branch_short b id name _ r short,
        )
        refl

  decided : (r : List (List ℕ)) → Crashes r ⊎ (Crashes r → ⊥)
  decided r = elim (Bool-cases (same_caseless name (codes "start"))) [
    | inr e ↦ inr (λ c. ground (arith, c.0))
    | inl e ↦ elim (Bool-cases (equal_strings name (codes "start"))) [
      | inl f ↦ inr (λ c. ground (arith, c.1))
      | inr f ↦ elim (dec_lt (length r) 2) [
        | no long ↦ inr (λ c. long c.2)
        | yes short ↦ elim (Option-cases (locate id)) [
          | inl g ↦ inr (λ c. ground (arith, c.3.1))
          | inr found ↦ inl (e, f, short, found)
        ]
      ]
    ]
  ]

-- On words that are C strings, stream_function reads through a null pointer exactly for a command
-- that is start but for the case of its letters, with less than four words, on a session that is
-- located; else it returns.
pub stream_function_null :
    {S D : Type 0} (b : Backend S D) (locate : List ℕ → Option S) (id name : List ℕ)
    (r : List (List ℕ))
    → All IsCString r
    → (stream_function b locate (id ∷ name ∷ r) ≡ none) ↔ (
        (same_caseless name (codes "start") ≡ true)
        × (equal_strings name (codes "start") ≡ false)
        × (length r < 2)
        × ((s : S) × (locate id ≡ some s)))
stream_function_null b locate id name r h = (
  (λ e. elim (decided b locate id name r) [
    | inl crash ↦ crash
    | inr safe ↦ absurd (subst Returns e (stream_function-Returns b locate id name r h safe))
  ]),
  stream_function_crash b locate id name r,
)
