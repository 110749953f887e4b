-- ===== src/Commands/Starts.antt =====
-- What a command `start` that is answered with "+OK" was given, and what it has done.
use mod_audio_stream.Prelude.{
  ℕ, zero, suc, ◌%◌, ◌≡◌, refl, subst, Bool, true, false, ◌&&◌, Option, none, some, List, [], ◌∷◌,
  codes, length, get_elem?, ltb, if◌then◌else◌, arith, bind_option, All,
}
use mod_audio_stream.Prelude.Cases.{IfAny, if_both, option_both}
use mod_audio_stream.Prelude.Ints.{ℤ, pos, negsuc}
use mod_audio_stream.StreamUtils.CString.{IsCString}
use mod_audio_stream.StreamUtils.Numeral.{equal_strings, same_caseless}
use mod_audio_stream.StreamUtils.Utf8.Laws.{IsUtf8, is_valid_utf8_iff}
use mod_audio_stream.StreamUtils.Uri.{validate_ws_uri}
use mod_audio_stream.StreamUtils.Uri.Grammar.{IsWsUri}
use mod_audio_stream.StreamUtils.Uri.Laws.{validate_ws_uri_iff}
use mod_audio_stream.LifeCycle.Store.{Status, success, failed}
use mod_audio_stream.Commands.Backend.{Flags, Backend}
use mod_audio_stream.Commands.Capture.{start_capture}
use mod_audio_stream.Commands.Dispatch.{
  ok_success, Locked, rwunlock, Exit, goto_done, ran, is_bad_rate, sampling_of, mix_of,
  start_checked, is_valid_metadata, start_branch, Reaction, reply_of, finish, stream_function,
}
use mod_audio_stream.Commands.Returns.{branches_start}

abbrev pub magnitude : ℤ → ℕ
magnitude (pos n) = n
magnitude (negsuc n) = suc n

is_bad_rate-magnitude : (z : ℤ) → is_bad_rate z ≡ false → magnitude z % 8000 ≡ 0
unfolding is_bad_rate
is_bad_rate-magnitude (pos n) e = ground arith
is_bad_rate-magnitude (negsuc n) e = ground arith

reply_of-success : (status : Status) → reply_of status ≡ ok_success → status ≡ success
unfolding reply_of
reply_of-success success e = refl
reply_of-success failed e = ground arith

-- A capture was started on the session, with the words of the command: a URI that the module
-- takes, a mix type, a rate that is a multiple of 8000 and metadata in UTF-8, if any is given.
pub record Started {S D : Type 0} (b : Backend S D) (session : S) (uri mix : List ℕ)
    (rate metadata : Option (List ℕ)) (left : Option (Locked S)) : Type 0 where
  pub flags : Flags
  pub mixed : mix_of mix ≡ some flags
  pub buffer : List ℕ
  pub accepted : validate_ws_uri uri ≡ some buffer
  pub is_ws_uri : IsWsUri uri
  pub multiple : magnitude (sampling_of rate) % 8000 ≡ 0
  pub in_utf8 : (text : List ℕ) → metadata ≡ some text → IsUtf8 text
  pub captured : (start_capture b flags buffer (sampling_of rate) metadata session).0 ≡ success
  pub unlocked :
      left
      ≡ some (record {
        session = (start_capture b flags buffer (sampling_of rate) metadata session).1;
        locks = 0;
      })

module _ {S D : Type 0} (b : Backend S D) (s : S) (uri mix : List ℕ)
    (rate metadata : Option (List ℕ)) where
  abbrev IsStart : Reaction S → Type 0
  IsStart out = out.reply ≡ ok_success → Started b s uri mix rate metadata out.left

  finish-IsStart :
      ((text : List ℕ) → metadata ≡ some text → IsUtf8 text)
      → (flags : Flags) (buffer : List ℕ) → mix_of mix ≡ some flags
      → validate_ws_uri uri ≡ some buffer
      → is_bad_rate (sampling_of rate) ≡ false
      → IsStart (finish (ran 1 (start_capture b flags buffer (sampling_of rate) metadata s)))
  unfolding finish rwunlock
  finish-IsStart utf8 flags buffer mixed accepted fine replied = record {
    flags = flags;
    mixed = mixed;
    buffer = buffer;
    accepted = accepted;
    is_ws_uri = (validate_ws_uri_iff uri).0 (buffer, accepted);
    multiple = is_bad_rate-magnitude (sampling_of rate) fine;
    in_utf8 = utf8;
    captured = reply_of-success _ replied;
    unlocked = refl;
  }

  start_checked-IsStart :
      ((text : List ℕ) → metadata ≡ some text → IsUtf8 text)
      → IsStart (finish (start_checked b uri mix rate metadata (record { session = s; locks = 1 })))
  unfolding start_checked finish
  start_checked-IsStart utf8 =
      option_both (λ f. IsStart (finish f)) (mix_of mix) _ _ (λ e r. ground arith)
        (λ flags mixed.
          option_both (λ f. IsStart (finish f)) (validate_ws_uri uri) _ _ (λ e r. ground arith)
            (λ buffer accepted.
              if_both (λ f. IsStart (finish f)) (is_bad_rate (sampling_of rate)) _ _
                (λ q r. ground arith) (λ q. finish-IsStart utf8 flags buffer mixed accepted q)))

is_valid_metadata-IsUtf8 :
    (metadata : Option (List ℕ))
    → ((text : List ℕ) → metadata ≡ some text → IsCString text)
    → is_valid_metadata metadata ≡ some true
    → (text : List ℕ) → metadata ≡ some text
    → IsUtf8 text
unfolding is_valid_metadata
is_valid_metadata-IsUtf8 none h e text f = ground arith
is_valid_metadata-IsUtf8 (some m) h e text f =
    (is_valid_utf8_iff text (h text f)).0 (subst (λ o. is_valid_metadata o ≡ some true) f e)

All-get_elem? :
    (xs : List (List ℕ)) (i : ℕ) {text : List ℕ}
    → All IsCString xs
    → get_elem? xs i ≡ some text
    → IsCString text
All-get_elem? [] i h e = ground arith
All-get_elem? (x ∷ xs) zero h e = subst (λ o. IfAny IsCString o) e h.0
All-get_elem? (x ∷ xs) (suc i) h e = All-get_elem? xs i h.1 e

finish_if :
    {S : Type 0} (P : Reaction S → Type 0) (m : Option Bool) (yes' no' : Exit S)
    → (m ≡ some true → P (finish yes'))
    → P (finish no')
    → IfAny P (
        bind_option
          (bind_option m (λ v. if v then some yes' else some no'))
          (λ flow. some (finish flow)))
finish_if P none yes' no' p q = tt
finish_if P (some true) yes' no' p q = p refl
finish_if P (some false) yes' no' p q = q

IfAny-map :
    {A : Type 0} {P Q : A → Type 0} (m : Option A) → ((a : A) → P a → Q a) → IfAny P m → IfAny Q m
IfAny-map none f h = tt
IfAny-map (some a) f h = f a h

module _ {S D : Type 0} (b : Backend S D) (id name uri mix : List ℕ) (r : List (List ℕ))
    (strings : All IsCString r) where
  abbrev Starts : S → Reaction S → Type 0
  Starts s = IsStart b s uri mix (get_elem? r 0) (get_elem? r 1)

  start_branch-Starts :
      (s : S)
      → IfAny (Starts s) (
          bind_option
            (start_branch b (id ∷ name ∷ uri ∷ mix ∷ r) (record { session = s; locks = 1 }))
            (λ flow. some (finish flow)))
  unfolding start_branch
  start_branch-Starts s =
      finish_if (Starts s) (is_valid_metadata (get_elem? r 1))
        (start_checked b uri mix (get_elem? r 0) (get_elem? r 1)
          (record { session = s; locks = 1 }))
        (goto_done (rwunlock (record { session = s; locks = 1 })))
        (λ valid.
          start_checked-IsStart b s uri mix (get_elem? r 0) (get_elem? r 1)
            (is_valid_metadata-IsUtf8 (get_elem? r 1) (λ text. All-get_elem? r 1 strings) valid))
        (unfold finish in λ e. ground arith)

  -- The outcome of a command `start`, in any case of its letters.
  abbrev IfStarted : (List ℕ → Option S) → Reaction S → Type 0
  IfStarted locate out =
      out.reply ≡ ok_success
      → (s : S) × (locate id ≡ some s)
        × Started b s uri mix (get_elem? r 0) (get_elem? r 1) out.left

  stream_function-IfStarted :
      (locate : List ℕ → Option S)
      → same_caseless name (codes "start") ≡ true
      → IfAny (IfStarted locate) (stream_function b locate (id ∷ name ∷ uri ∷ mix ∷ r))
  unfolding stream_function
  stream_function-IfStarted locate e =
      if_both (IfAny (IfStarted locate))
        (equal_strings name (codes "start") && ltb (length (id ∷ name ∷ uri ∷ mix ∷ r)) 4) _ _
        (λ q replied. ground arith)
        (λ q.
          option_both (IfAny (IfStarted locate)) (locate id) _ _ (λ f replied. ground arith)
            (λ s f.
              rw
                (branches_start b name (id ∷ name ∷ uri ∷ mix ∷ r)
                  (record { session = s; locks = 1 }) e)
                (IfAny-map {P = Starts s} {Q = IfStarted locate} _
                  (λ out started replied. (s, f, started replied)) (start_branch-Starts s))))

-- If a command start, in any case of its letters, is answered with +OK, its session was found, the
-- URI is one of the grammar, the mix type is known, the rate is a multiple of 8000, the metadata is
-- UTF-8 if any is given, start_capture on those words has succeeded, and no read lock is left. The
-- words behind the mix type are C strings.
pub stream_function-Started :
    {S D : Type 0} (b : Backend S D) (locate : List ℕ → Option S) (id name uri mix : List ℕ)
    (r : List (List ℕ)) {out : Reaction S}
    → All IsCString r
    → same_caseless name (codes "start") ≡ true
    → stream_function b locate (id ∷ name ∷ uri ∷ mix ∷ r) ≡ some out
    → out.reply ≡ ok_success
    → (s : S) × (locate id ≡ some s) × Started b s uri mix (get_elem? r 0) (get_elem? r 1) out.left
stream_function-Started b locate id name uri mix r strings e done' =
    subst (IfAny (IfStarted b id name uri mix r strings locate)) done'
      (stream_function-IfStarted b id name uri mix r strings locate e)
