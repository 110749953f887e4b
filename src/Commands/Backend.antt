-- ===== src/Commands/Backend.antt =====
-- What the commands use of the glue (`stream_session_…`) and of FreeSWITCH. `S` is the session,
-- `D` the user data that `stream_session_init` allocates.
use mod_audio_stream.Prelude.{ℕ, Bool, Option, List}
use mod_audio_stream.Prelude.Ints.{ℤ}
use mod_audio_stream.LifeCycle.Store.{Status}

-- The flags of the media bug beside SMBF_READ_STREAM, which is always set.
pub record Flags : Type 0 where
  pub write_stream : Bool
  pub stereo : Bool
  pub write_replace : Bool

pub record Backend (S D : Type 0) : Type 0 where
  pub cleanup : Option (List ℕ) → Bool → S → Status × S
  pub pauseresume : Bool → S → Status × S
  pub break' : S → Status × S
  pub send_text : List ℕ → S → Status × S
  -- `stream_session_init`: the rate of the read codec, the URI's array, the rate asked for, the
  -- channels and the metadata. `none` is SWITCH_STATUS_FALSE.
  pub init : ℕ → List ℕ → ℤ → ℕ → Option (List ℕ) → S → Option D × S
  pub destroy : D → S → S
  -- The channel's private MY_BUG_NAME.
  pub get_private : S → Bool
  pub set_private : S → S
  pub pre_answer : S → Status × S
  -- The samples per second of the read codec's implementation, if there is one.
  pub read_codec : S → Option ℕ
  pub var_true : S → Bool
  pub bug_add : D → Flags → S → Status × S
