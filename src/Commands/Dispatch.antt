-- ===== src/Commands/Dispatch.antt =====
-- mod_audio_stream.c: `stream_function`.
use mod_audio_stream.Prelude.{
  ℕ, suc, ◌-◌, Bool, true, false, ◌&&◌, not, Option, none, some, List, [], ◌∷◌, codes, length,
  get_elem?, ltb, ◌==◌, ◌%◌, if◌then◌else◌, bind_option,
}
use mod_audio_stream.Prelude.Ints.{ℤ, pos, negsuc}
use mod_audio_stream.StreamUtils.Numeral.{equal_strings, same_caseless, atoi}
use mod_audio_stream.StreamUtils.Utf8.{is_valid_utf8}
use mod_audio_stream.StreamUtils.Uri.{validate_ws_uri}
use mod_audio_stream.LifeCycle.Store.{Status, success, failed}
use mod_audio_stream.Commands.Backend.{Flags, Backend}
use mod_audio_stream.Commands.Capture.{do_stop, do_pauseresume, do_break, send_text, start_capture}

infixl 5 ◌>>=◌
abbrev ◌>>=◌ {ℓ κ} : {A : Type ℓ} {B : Type κ} → Option A → (A → Option B) → Option B
m >>= f = bind_option m f

-- What is written to the stream; `no_reply` where the code goes to `done` at once.
pub data Reply : Type 0 where
  usage ok_success operation_failed no_reply : Reply

-- A session and the read locks that the command holds on it.
pub record Locked (S : Type 0) : Type 0 where
  pub session : S
  pub locks : ℕ

unfoldable pub rwunlock : {S : Type 0} → Locked S → Locked S
rwunlock l = record { session = l.session; locks = l.locks - 1 }

-- How a branch of the dispatch ends: at `done`, or behind the branches with `status`.
pub data Exit (S : Type 0) : Type 0 where
  goto_done : Locked S → Exit S
  fall_out : Status → Locked S → Exit S

abbrev pub ran : {S : Type 0} → ℕ → Status × S → Exit S
ran locks r = fall_out r.0 (record { session = r.1; locks = locks })

-- `sampling % 8000 != 0`.
unfoldable pub is_bad_rate : ℤ → Bool
is_bad_rate (pos n) = not (n % 8000 == 0)
is_bad_rate (negsuc n) = not (suc n % 8000 == 0)

unfoldable pub sampling_of : Option (List ℕ) → ℤ
unfolding equal_strings atoi
sampling_of none = pos 8000
sampling_of (some rate) =
    if equal_strings rate (codes "16k")
    then pos 16000
    else if equal_strings rate (codes "8k")
    then pos 8000
    else atoi rate

abbrev pub flags_of : Bool → Bool → Flags
flags_of write stereo = record { write_stream = write; stereo = stereo; write_replace = false }

-- `none`: no mix type that there is.
unfoldable pub mix_of : List ℕ → Option Flags
unfolding equal_strings
mix_of mix =
    if equal_strings mix (codes "mixed")
    then some (flags_of true false)
    else if equal_strings mix (codes "stereo")
    then some (flags_of true true)
    else if equal_strings mix (codes "mono")
    then some (flags_of false false)
    else none

-- What a command leaves: its reply, and the session with the locks held, if one was found.
pub record Reaction (S : Type 0) : Type 0 where
  pub reply : Reply
  pub left : Option (Locked S)

unfoldable pub reply_of : Status → Reply
reply_of success = ok_success
reply_of failed = operation_failed

unfoldable pub finish : {S : Type 0} → Exit S → Reaction S
unfolding reply_of rwunlock
finish (goto_done l) = record { reply = no_reply; left = some l }
finish (fall_out status l) = record { reply = reply_of status; left = some (rwunlock l) }

unfoldable pub is_valid_metadata : Option (List ℕ) → Option Bool
is_valid_metadata none = some true
is_valid_metadata (some text) = is_valid_utf8 text

module _ {S D : Type 0} (b : Backend S D) where
  -- The result `none` is a read through a null pointer.
  unfoldable pub stop_branch : List (List ℕ) → Locked S → Option (Exit S)
  unfolding do_stop rwunlock
  stop_branch argv l = elim (get_elem? argv 2) [
    | none ↦ some (ran l.locks (do_stop b none l.session))
    | some text ↦ do
      valid ← is_valid_utf8 text
      if valid
          then some (ran l.locks (do_stop b (some text) l.session))
          else some (goto_done (rwunlock l))
  ]

  unfoldable pub send_branch : List (List ℕ) → Locked S → Option (Exit S)
  unfolding send_text rwunlock
  send_branch argv l = elim (get_elem? argv 2) [
    | none ↦ some (goto_done (rwunlock l))
    | some text ↦ do
      valid ← is_valid_utf8 text
      if valid
          then some (ran l.locks (send_text b text l.session))
          else some (goto_done (rwunlock l))
  ]

  -- From the test of the mix type on; `uri` is `argv[2]`, `mix` is `argv[3]`, `rate` is `argv[4]`.
  unfoldable pub start_checked :
      List ℕ → List ℕ → Option (List ℕ) → Option (List ℕ) → Locked S → Exit S
  unfolding mix_of sampling_of is_bad_rate start_capture rwunlock
  start_checked uri mix rate metadata l = elim (mix_of mix) [
    | none ↦ goto_done (rwunlock l)
    | some flags ↦ elim (validate_ws_uri uri) [
      | none ↦ fall_out failed l
      | some buffer ↦
          let sampling = sampling_of rate in
          if is_bad_rate sampling
          then fall_out failed l
          else ran l.locks (start_capture b flags buffer sampling metadata l.session)
    ]
  ]

  unfoldable pub start_branch : List (List ℕ) → Locked S → Option (Exit S)
  unfolding start_checked is_valid_metadata rwunlock
  start_branch argv l = do
    valid ← is_valid_metadata (get_elem? argv 5)
    let checked = do
      mix ← get_elem? argv 3
      uri ← get_elem? argv 2
      some (start_checked uri mix (get_elem? argv 4) (get_elem? argv 5) l)
    if valid then checked else some (goto_done (rwunlock l))

  unfoldable pub branches : List ℕ → List (List ℕ) → Locked S → Option (Exit S)
  unfolding same_caseless stop_branch send_branch start_branch do_pauseresume do_break
  branches name argv l =
      if same_caseless name (codes "stop")
      then stop_branch argv l
      else if same_caseless name (codes "pause")
      then some (ran l.locks (do_pauseresume b true l.session))
      else if same_caseless name (codes "resume")
      then some (ran l.locks (do_pauseresume b false l.session))
      else if same_caseless name (codes "break")
      then some (ran l.locks (do_break b l.session))
      else if same_caseless name (codes "send_text")
      then send_branch argv l
      else if same_caseless name (codes "start")
      then start_branch argv l
      else some (fall_out failed l)

  -- `locate`: `switch_core_session_locate`, which locks the session that it finds. `argv` is what
  -- `switch_separate_string` makes of the command, six words at most. An empty command has none.
  unfoldable pub stream_function : (List ℕ → Option S) → List (List ℕ) → Option (Reaction S)
  unfolding equal_strings branches finish
  stream_function locate [] = some (record { reply = usage; left = none })
  stream_function locate (id ∷ []) = some (record { reply = usage; left = none })
  stream_function locate (id ∷ name ∷ r) =
      let argv = id ∷ name ∷ r in
      if equal_strings name (codes "start") && ltb (length argv) 4
      then some (record { reply = usage; left = none })
      else elim (locate id) [
        | none ↦ some (record { reply = operation_failed; left = none })
        | some s ↦ do
          flow ← branches name argv (record { session = s; locks = 1 })
          some (finish flow)
      ]
