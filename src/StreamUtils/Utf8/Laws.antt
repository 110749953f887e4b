-- ===== src/StreamUtils/Utf8/Laws.antt =====
-- `is_valid_utf8` decides UTF-8, reads nothing behind the terminator, and returns.
use mod_audio_stream.Prelude.{
  ℕ, zero, suc, ◌<◌, ◌≡◌, ◌↔◌, refl, ap, ◌∙◌, Bool, true, false, Option, none, some, List, [], ◌∷◌,
  ◌++◌, arith, All, drop, length, length-append, length-drop, subst,
}
use mod_audio_stream.StreamUtils.CString.{c_read, IsCString}
use mod_audio_stream.StreamUtils.Utf8.{Round, reject, advance, utf8_round, utf8_loop, is_valid_utf8}
use mod_audio_stream.StreamUtils.Utf8.Scalar.{IsScalar, utf8_bytes, utf8_text}
use mod_audio_stream.StreamUtils.Utf8.Rounds.{
  Begins, Sound, utf8_round-Sound, utf8_loop-advance, utf8_loop-utf8_bytes,
}

-- The string is the UTF-8 form of a text without U+0000.
abbrev pub IsUtf8 : List ℕ → Type 0
IsUtf8 str = (cps : List ℕ) × All IsScalar cps × (utf8_text cps ≡ str)

abbrev Judged : List ℕ → Option Bool → Type 0
Judged str none = ⊥
Judged str (some false) = Unit {0}
Judged str (some true) = IsUtf8 str

IsCString-drop : (n : ℕ) (s : List ℕ) → IsCString s → IsCString (drop n s)
IsCString-drop zero s h = h
IsCString-drop (suc n) [] h = tt
IsCString-drop (suc n) (c ∷ s) h = IsCString-drop n s h.1

utf8_bytes-pos : (cp : ℕ) → 0 < length (utf8_bytes cp)
unfolding utf8_bytes
utf8_bytes-pos cp = ground arith

IsUtf8-Begins : (n : ℕ) (str : List ℕ) → Begins n str → IsUtf8 (drop n str) → IsUtf8 str
unfolding utf8_text
IsUtf8-Begins n str (cp, scalar, size, front) (cps, all, text) =
    (cp ∷ cps, (scalar, all), ap (◌++◌ (utf8_bytes cp)) text ∙ front)

Judged-Begins :
    (n : ℕ) (str : List ℕ) (r : Option Bool) → Begins n str → Judged (drop n str) r → Judged str r
Judged-Begins n str none b j = j
Judged-Begins n str (some false) b j = tt
Judged-Begins n str (some true) b j = IsUtf8-Begins n str b j

-- A round whose outcome is known, and the judgement on the rest.
after_round :
    (fuel c0 : ℕ) (s : List ℕ) (r : Option Round)
    → 0 < c0
    → utf8_round c0 (c0 ∷ s) ≡ r
    → Sound (c0 ∷ s) r
    → ((n : ℕ) → 0 < n → Judged (drop n (c0 ∷ s)) (utf8_loop fuel (drop n (c0 ∷ s))))
    → Judged (c0 ∷ s) (utf8_loop (suc fuel) (c0 ∷ s))
unfolding utf8_loop c_read
after_round fuel c0 s none h e sound rest = absurd sound
after_round fuel c0 s (some reject) h e sound rest = ground arith
after_round fuel c0 s (some (advance n)) h e (cp, scalar, size, front) rest =
    rw (utf8_loop-advance fuel c0 n s h e) (
      Judged-Begins n (c0 ∷ s) _ (cp, scalar, size, front)
        (rest n (omega (arith, utf8_bytes-pos cp))))

utf8_loop-Judged :
    (fuel : ℕ) (s : List ℕ) → length s < fuel → IsCString s → Judged s (utf8_loop fuel s)
utf8_loop-Judged zero s h w = absurd (omega arith)
utf8_loop-Judged (suc fuel) [] h w = unfold utf8_loop c_read utf8_text in ([], tt, refl)
utf8_loop-Judged (suc fuel) (c0 ∷ s) h w =
    after_round fuel c0 s (utf8_round c0 (c0 ∷ s)) w.0.0 refl (utf8_round-Sound c0 s w) λ n pos.
      utf8_loop-Judged fuel (drop n (c0 ∷ s)) (omega (arith, length-drop n (c0 ∷ s)))
        (IsCString-drop n (c0 ∷ s) w)

utf8_loop-utf8_text :
    (fuel : ℕ) (cps : List ℕ)
    → length (utf8_text cps) < fuel
    → All IsScalar cps
    → utf8_loop fuel (utf8_text cps) ≡ some true
unfolding utf8_text
utf8_loop-utf8_text zero cps h all = absurd (omega arith)
utf8_loop-utf8_text (suc fuel) [] h all = unfold utf8_loop c_read in refl
utf8_loop-utf8_text (suc fuel) (cp ∷ cps) h all =
    utf8_loop-utf8_bytes fuel cp (utf8_text cps) all.0
    ∙ utf8_loop-utf8_text fuel cps
        (omega (arith, length-append (utf8_bytes cp) (utf8_text cps), utf8_bytes-pos cp)) all.1

Judged-total : (str : List ℕ) (r : Option Bool) → Judged str r → (b : Bool) × (r ≡ some b)
Judged-total str none j = absurd j
Judged-total str (some b) j = (b, refl)

Judged-true : (str : List ℕ) (r : Option Bool) → Judged str r → r ≡ some true → IsUtf8 str
Judged-true str r j e = subst (Judged str) e j

-- On every C string is_valid_utf8 returns and reads nothing behind the terminator.
pub is_valid_utf8_total : (str : List ℕ) → IsCString str → (b : Bool) × (is_valid_utf8 str ≡ some b)
unfolding is_valid_utf8
is_valid_utf8_total str w =
    Judged-total str _ (utf8_loop-Judged (suc (length str)) str (omega arith) w)

-- On a C string is_valid_utf8 answers yes exactly when the string is the shortest UTF-8 form of a
-- sequence of Unicode scalar values: no overlong form, no surrogate, nothing above U+10FFFF.
pub is_valid_utf8_iff :
    (str : List ℕ) → IsCString str → (is_valid_utf8 str ≡ some true) ↔ IsUtf8 str
unfolding is_valid_utf8
is_valid_utf8_iff str w = (
  Judged-true str _ (utf8_loop-Judged (suc (length str)) str (omega arith) w),
  λ (u : IsUtf8 str).
      subst (λ s. utf8_loop (suc (length s)) s ≡ some true) u.2
        (utf8_loop-utf8_text _ u.0 (omega arith) u.1),
)
