-- ===== src/WsClient/HandshakeLines.antt =====
-- How `doHandshake` reads lines, and when it ends.
use mod_audio_stream.Prelude.{
  ℕ, zero, suc, ◌+◌, ◌-◌, ◌<◌, ◌≤◌, ◌≡◌, refl, ap, subst, ◌∙◌, true, false, Option, none, some,
  List, [], ◌∷◌, ◌++◌, append_assoc, All, arith, length, length-append, ◌==◌, bind_option,
  Option-cases, inl, inr,
}
use mod_audio_stream.Prelude.Cases.{IfAny, Returns, if_both, option_both}
use mod_audio_stream.StreamUtils.Numeral.{equal_strings}
use mod_audio_stream.WsClient.KeyLaws.{get_or-append}
use mod_audio_stream.WsClient.Handshake.{
  crlf, ends_crlf, read_line, accept_of, read_headers, Handshake, check_accept, read_rest,
  read_status, read_answer,
}

module _ (line : List ℕ) where
  -- Only a line feed can end a line.
  ends_crlf_other : (c : ℕ) → (c == 10) ≡ false → ends_crlf (line ++ c ∷ []) ≡ false
  unfolding ends_crlf
  ends_crlf_other c h =
      let size = length-append line (c ∷ []) in
      rw (get_or-append line (c ∷ []) (length (line ++ c ∷ []) - 1) 0 (omega (arith, size)), h)
        (ground arith)

  ends_crlf_crlf : ends_crlf ((line ++ 13 ∷ []) ++ 10 ∷ []) ≡ true
  unfolding ends_crlf
  ends_crlf_crlf =
      let one = length-append line (13 ∷ []) in
      let two = length-append (line ++ 13 ∷ []) (10 ∷ []) in
      rw
        (
          append_assoc line (13 ∷ []) (10 ∷ []),
          get_or-append line crlf (length (line ++ crlf) - 2) 0
              (omega (arith, length-append line crlf)),
          get_or-append line crlf (length (line ++ crlf) - 1) 1
              (omega (arith, length-append line crlf)),
        )
        (ground (arith, length-append line crlf))

abbrev pub NoLf : List ℕ → Type 0
NoLf = All (λ c. (c == 10) ≡ false)

read_line_more :
    (left : ℕ) (line input : List ℕ) (c : ℕ)
    → ends_crlf (line ++ c ∷ []) ≡ false
    → read_line (suc left) line (c ∷ input) ≡ read_line left (line ++ c ∷ []) input
unfolding read_line
read_line_more left line input c e = rw e refl

read_line_end :
    (left : ℕ) (line input : List ℕ) (c : ℕ)
    → ends_crlf (line ++ c ∷ []) ≡ true
    → read_line (suc left) line (c ∷ input) ≡ some (line ++ c ∷ [], input)
unfolding read_line
read_line_end left line input c e = rw e refl

pub read_line-append :
    (s line rest : List ℕ) (left : ℕ)
    → NoLf s
    → length s + 2 ≤ left
    → read_line left line (s ++ 13 ∷ 10 ∷ rest) ≡ some (line ++ (s ++ crlf), rest)
read_line-append s line rest zero h fits = absurd (omega arith)
read_line-append s line rest (suc zero) h fits = absurd (omega arith)
read_line-append [] line rest (suc (suc left)) h fits =
    read_line_more (suc left) line (10 ∷ rest) 13 (ends_crlf_other line 13 refl)
    ∙ read_line_end left (line ++ 13 ∷ []) rest 10 (ends_crlf_crlf line)
    ∙ ap (λ l. some (l, rest)) (append_assoc line (13 ∷ []) (10 ∷ []))
read_line-append (c ∷ s) line rest (suc (suc left)) h fits =
    read_line_more (suc left) line (s ++ 13 ∷ 10 ∷ rest) c (ends_crlf_other line c h.0)
    ∙ read_line-append s (line ++ c ∷ []) rest (suc left) h.1 (omega arith)
    ∙ ap (λ l. some (l, rest)) (append_assoc line (c ∷ []) (s ++ crlf))

abbrev Shrunk : ℕ → List ℕ × List ℕ → Type 0
Shrunk n r = length r.1 ≤ n

Shrunk-more : (n : ℕ) (m : Option (List ℕ × List ℕ)) → IfAny (Shrunk n) m → IfAny (Shrunk (suc n)) m
Shrunk-more n none h = tt
Shrunk-more n (some r) h = omega arith

read_line_shrinks :
    (left : ℕ) (line input : List ℕ) → IfAny (Shrunk (length input)) (read_line left line input)
unfolding read_line
read_line_shrinks zero line input = omega arith
read_line_shrinks (suc left) line [] = tt
read_line_shrinks (suc left) line (c ∷ input) =
    if_both (IfAny (Shrunk (suc (length input)))) (ends_crlf (line ++ c ∷ [])) _ _
      (λ e. omega arith)
      (λ e. Shrunk-more (length input) _ (read_line_shrinks left (line ++ c ∷ []) input))

-- A line takes a byte, if there is one.
read_line_takes :
    (left : ℕ) (c : ℕ) (input : List ℕ)
    → IfAny (Shrunk (length input)) (read_line (suc left) [] (c ∷ input))
unfolding read_line
read_line_takes left c input =
    if_both (IfAny (Shrunk (length input))) (ends_crlf ([] ++ c ∷ [])) (some ([] ++ c ∷ [], input))
      _ (λ e. omega arith) (λ e. read_line_shrinks left ([] ++ c ∷ []) input)

abbrev Fewer : List ℕ → Option (List ℕ × List ℕ) → Type 0
Fewer input m = IfAny (λ (r : List ℕ × List ℕ). length r.1 < length input) m

read_line-Fewer : (input : List ℕ) → Fewer input (read_line 4096 [] input)
read_line-Fewer [] = unfold read_line in tt
read_line-Fewer (c ∷ input) = elim (Option-cases (read_line 4096 [] (c ∷ input))) [
  | inl e ↦ rw e tt
  | inr (r, e) ↦ rw e (
      let h : length r.1 ≤ length input =
        subst (IfAny (Shrunk (length input))) e (read_line_takes 4095 c input) in
      omega arith)
]

read_headers-Returns :
    (fuel : ℕ) (accept input : List ℕ)
    → length input < fuel
    → Returns (read_headers fuel accept input)
unfolding read_headers
read_headers-Returns zero accept input more = absurd (omega arith)
read_headers-Returns (suc fuel) accept input more =
    option_both Returns (read_line 4096 [] input) _ _ (λ e. tt)
      (λ r e.
        let less : length r.1 < length input = subst (Fewer input) e (read_line-Fewer input) in
        if_both Returns (equal_strings r.0 crlf) _ _ (λ q. tt)
          (λ q. read_headers-Returns fuel (accept_of r.0 accept) r.1 (omega arith)))

bind-Returns :
    {A B : Type 0} (m : Option A) (f : A → B)
    → Returns m
    → Returns (bind_option m (λ a. some (f a)))
bind-Returns none f h = h
bind-Returns (some a) f h = tt

read_rest-Returns :
    (expected input : List ℕ) (bad : Option Handshake) → Returns (read_rest expected input bad)
unfolding read_rest
read_rest-Returns expected input (some bad) = tt
read_rest-Returns expected input none =
    bind-Returns _ (check_accept expected)
      (read_headers-Returns (suc (length input)) [] input (omega arith))

read_status-Returns :
    (expected : List ℕ) (m : Option (List ℕ × List ℕ)) → Returns (read_status expected m)
unfolding read_status
read_status-Returns expected none = tt
read_status-Returns expected (some r) = read_rest-Returns expected r.1 _

pub read_answer-Returns : (expected input : List ℕ) → Returns (read_answer expected input)
unfolding read_answer
read_answer-Returns expected input = read_status-Returns expected (read_line 1024 [] input)
