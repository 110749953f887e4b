-- ===== src/Base64/LineLaws.antt =====
-- What `insert_linebreaks` does to a text: lines of bounded length, and nothing else.
use mod_audio_stream.Prelude.{
  ℕ, zero, suc, ◌+◌, ◌≤◌, ◌<◌, ◌≡◌, refl, ap, ◌∙◌, Bool, true, false, some, List, [], ◌∷◌, ◌++◌,
  arith, All, append_assoc, length, length-append, take, drop, dec_lt, dec_lt, take-append-drop,
  length-take, length-drop, ltb, ◌==◌,
}
use mod_audio_stream.Prelude.Slices.{take-append, drop-append}
use mod_audio_stream.Base64.Decoder.{newline, without_newlines}
use mod_audio_stream.Base64.LineBreaks.{insert_newline, linebreak_loop, insert_linebreaks}

-- The text cut into lines of `d` characters, the last one at most as long.
wrap : ℕ → ℕ → List ℕ → List ℕ
wrap zero d s = s
wrap (suc fuel) d s = elim (ltb d (length s)) [
  | true ↦ take d s ++ newline ∷ wrap fuel d (drop d s)
  | false ↦ s
]

insert_newline-append :
    (pre s : List ℕ) (d i : ℕ)
    → i ≡ length pre + d
    → insert_newline i (pre ++ s) ≡ (pre ++ take d s ++ newline ∷ []) ++ drop d s
unfolding insert_newline
insert_newline-append pre s d i e =
    rw (take-append s d pre i e, drop-append s d pre i e) (simp append_assoc)

linebreak_loop-more :
    (fuel d pos : ℕ) (s : List ℕ)
    → pos < length s
    → linebreak_loop (suc fuel) d pos s
      ≡ linebreak_loop fuel d (pos + (d + 1)) (insert_newline pos s)
unfolding linebreak_loop
linebreak_loop-more fuel d pos s h = ground arith

linebreak_loop-done :
    (fuel d pos : ℕ) (s : List ℕ) → length s ≤ pos → linebreak_loop (suc fuel) d pos s ≡ some s
unfolding linebreak_loop
linebreak_loop-done fuel d pos s h = ground arith

wrap-more :
    (fuel d : ℕ) (s : List ℕ)
    → d < length s
    → wrap (suc fuel) d s ≡ take d s ++ newline ∷ wrap fuel d (drop d s)
unfolding wrap
wrap-more fuel d s h = ground arith

wrap-done : (fuel d : ℕ) (s : List ℕ) → length s ≤ d → wrap fuel d s ≡ s
unfolding wrap
wrap-done zero d s h = refl
wrap-done (suc fuel) d s h = ground arith

-- At the end of `pre`, with the line that begins `s` still to be broken.
linebreak_loop-wrap :
    (d fuel : ℕ) (pre s : List ℕ) (pos : ℕ)
    → pos ≡ length pre + d
    → length s < fuel
    → 0 < d
    → linebreak_loop fuel d pos (pre ++ s) ≡ some (pre ++ wrap fuel d s)
linebreak_loop-wrap d zero pre s pos e h h0 = absurd (omega arith)
linebreak_loop-wrap d (suc fuel) pre s pos e h h0 = elim (dec_lt d (length s)) [
  | yes more ↦
      let line : List ℕ = pre ++ take d s ++ newline ∷ [] in
      let size : length line ≡ length pre + d + 1 = omega (
        arith,
        length-append (pre ++ take d s) (newline ∷ []),
        length-append pre (take d s),
        length-append pre (take d s ++ newline ∷ []),
        length-append (take d s) (newline ∷ []),
        length-take d s,
      ) in
      rw
        (
          linebreak_loop-more fuel d pos (pre ++ s) (omega (arith, length-append pre s)),
          insert_newline-append pre s d pos e,
          wrap-more fuel d s more,
          linebreak_loop-wrap d fuel line (drop d s) (pos + (d + 1)) (omega arith)
              (omega (arith, length-drop d s)) h0,
        )
        (simp append_assoc)
  | no done ↦ rw (
    linebreak_loop-done fuel d pos (pre ++ s) (omega (arith, length-append pre s)),
    wrap-done (suc fuel) d s (omega arith),
  )
]

-- `insert_linebreaks` returns, and cuts the text into lines.
insert_linebreaks-wrap :
    (d : ℕ) (s : List ℕ) → 0 < d → insert_linebreaks s d ≡ some (wrap (suc (length s)) d s)
unfolding insert_linebreaks wrap
insert_linebreaks-wrap d [] h = ground arith
insert_linebreaks-wrap d (c ∷ s) h =
    linebreak_loop-wrap d (suc (length (c ∷ s))) [] (c ∷ s) d (omega arith) (omega arith) h

-- Is each line, after `room` more characters of the first, of at most `d` characters?
unfoldable pub lines_fit : ℕ → ℕ → List ℕ → Bool
lines_fit d room [] = true
lines_fit d room (c ∷ s) = elim (c == newline) [
  | true ↦ lines_fit d d s
  | false ↦ elim room [ zero ↦ false | suc room' ↦ lines_fit d room' s ]
]

abbrev pub HasNoNewline : List ℕ → Type 0
HasNoNewline = All (λ c. (c == newline) ≡ false)

lines_fit-append :
    (d : ℕ) (l s : List ℕ) (room : ℕ)
    → HasNoNewline l
    → length l ≤ room
    → lines_fit d d s ≡ true
    → lines_fit d room (l ++ newline ∷ s) ≡ true
unfolding lines_fit
lines_fit-append d [] s room n h r = r
lines_fit-append d (c ∷ l) s zero n h r = absurd (omega arith)
lines_fit-append d (c ∷ l) s (suc room) n h r = ground (arith, lines_fit-append d l s room n.1)

lines_fit-line :
    (d : ℕ) (l : List ℕ) (room : ℕ) → HasNoNewline l → length l ≤ room → lines_fit d room l ≡ true
unfolding lines_fit
lines_fit-line d [] room n h = refl
lines_fit-line d (c ∷ l) zero n h = absurd (omega arith)
lines_fit-line d (c ∷ l) (suc room) n h = ground (arith, lines_fit-line d l room n.1)

without_newlines_lem : (l : List ℕ) → HasNoNewline l → without_newlines l ≡ l
unfolding without_newlines
without_newlines_lem [] n = refl
without_newlines_lem (c ∷ l) n = ground (arith, without_newlines_lem l n.1)

without_newlines-append :
    (l s : List ℕ) → HasNoNewline l → without_newlines (l ++ newline ∷ s) ≡ l ++ without_newlines s
unfolding without_newlines
without_newlines-append [] s n = refl
without_newlines-append (c ∷ l) s n = ground (arith, without_newlines-append l s n.1)

HasNoNewline-take : (n : ℕ) (l : List ℕ) → HasNoNewline l → HasNoNewline (take n l)
HasNoNewline-take zero l h = tt
HasNoNewline-take (suc n) [] h = tt
HasNoNewline-take (suc n) (c ∷ l) h = (h.0, HasNoNewline-take n l h.1)

HasNoNewline-drop : (n : ℕ) (l : List ℕ) → HasNoNewline l → HasNoNewline (drop n l)
HasNoNewline-drop zero l h = h
HasNoNewline-drop (suc n) [] h = tt
HasNoNewline-drop (suc n) (c ∷ l) h = HasNoNewline-drop n l h.1

-- The lines hold the text and nothing else, each of at most `d` characters.
abbrev pub Lines : ℕ → List ℕ → List ℕ → Type 0
Lines d s t = (without_newlines t ≡ s) × (lines_fit d d t ≡ true)

wrap-Lines :
    (fuel d : ℕ) (s : List ℕ) → length s < fuel → 0 < d → HasNoNewline s → Lines d s (wrap fuel d s)
wrap-Lines zero d s h h0 n = absurd (omega arith)
wrap-Lines (suc fuel) d s h h0 n = elim (dec_lt d (length s)) [
  | yes more ↦
      let rest =
        wrap-Lines fuel d (drop d s) (omega (arith, length-drop d s)) h0
          (HasNoNewline-drop d s n) in
      rw (wrap-more fuel d s more) (
        without_newlines-append (take d s) _ (HasNoNewline-take d s n)
            ∙ ap (◌++◌ (take d s)) rest.0
            ∙ take-append-drop d s,
        lines_fit-append d (take d s) _ d (HasNoNewline-take d s n) (omega (arith, length-take d s))
            rest.1,
      )
  | no done ↦
      rw (wrap-done (suc fuel) d s (omega arith))
        (without_newlines_lem s n, lines_fit-line d s d n (omega arith))
]

-- On a text without line feeds, insert_linebreaks returns for every positive distance d: the
-- result's lines have at most d characters, and without its line feeds it is the text.
pub insert_linebreaks-Lines :
    (d : ℕ) (s : List ℕ)
    → 0 < d
    → HasNoNewline s
    → (t : List ℕ) × (insert_linebreaks s d ≡ some t) × Lines d s t
insert_linebreaks-Lines d s h n = (
  wrap (suc (length s)) d s,
  insert_linebreaks-wrap d s h,
  wrap-Lines (suc (length s)) d s (omega arith) h n,
)
