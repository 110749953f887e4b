-- ===== src/Commands/Capture.antt =====
-- mod_audio_stream.c: `start_capture`, the `do_…` functions and `send_text`.
use mod_audio_stream.Prelude.{ℕ, Bool, false, ◌||◌, Option, none, some, List, if◌then◌else◌}
use mod_audio_stream.Prelude.Ints.{ℤ}
use mod_audio_stream.LifeCycle.Store.{Status, success, failed}
use mod_audio_stream.Commands.Backend.{Flags, Backend}

module _ {S D : Type 0} (b : Backend S D) where
  -- `do_stop`, `do_pauseresume` and `do_break` hand on what the glue answers.
  unfoldable pub do_stop : Option (List ℕ) → S → Status × S
  do_stop text s = b.cleanup text false s

  unfoldable pub do_pauseresume : Bool → S → Status × S
  do_pauseresume pause s = b.pauseresume pause s

  unfoldable pub do_break : S → Status × S
  do_break s = b.break' s

  unfoldable pub send_text : List ℕ → S → Status × S
  send_text text s = if b.get_private s then b.send_text text s else (failed, s)

  -- `if (switch_channel_var_true (channel, "STREAM_PLAYBACK")) flags |= …`
  unfoldable pub with_playback : Bool → Flags → Flags
  with_playback playback flags = record {
    write_stream = flags.write_stream || playback;
    stereo = flags.stereo;
    write_replace = flags.write_replace || playback;
  }

  -- `switch_core_media_bug_add`, and what follows on its status.
  unfoldable pub add_bug : D → Flags → S → Status × S
  add_bug user_data flags s =
      let added = b.bug_add user_data flags s in
      elim added.0 [
        | success ↦ (success, b.set_private added.1)
        | failed ↦ (failed, b.destroy user_data added.1)
      ]

  unfoldable pub init_and_add : Flags → List ℕ → ℤ → Option (List ℕ) → ℕ → S → Status × S
  unfolding add_bug with_playback
  init_and_add flags uri sampling metadata rate s =
      let channels = if flags.stereo then 2 else 1 in
      let inited = b.init rate uri sampling channels metadata s in
      elim inited.0 [
        | none ↦ (failed, inited.1)
        | some user_data ↦ add_bug user_data (with_playback (b.var_true s) flags) inited.1
      ]

  unfoldable pub start_capture : Flags → List ℕ → ℤ → Option (List ℕ) → S → Status × S
  unfolding init_and_add
  start_capture flags uri sampling metadata s =
      let answered = b.pre_answer s in
      if b.get_private s then (failed, s) else elim answered.0 [
        | failed ↦ (failed, answered.1)
        | success ↦ elim (b.read_codec answered.1) [
          | none ↦ (failed, answered.1)
          | some rate ↦ init_and_add flags uri sampling metadata rate answered.1
        ]
      ]
