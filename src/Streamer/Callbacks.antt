-- ===== src/Streamer/Callbacks.antt =====
-- audio_streamer_glue.cpp: the callbacks that `bindCallbacks` gives to the client, and
-- `markCleanedUp`, which takes them away. The session is there to be located.
use mod_audio_stream.Prelude.{
  ℕ, Bool, true, false, ◌||◌, not, Option, List, [], ◌∷◌, ◌++◌, if◌then◌else◌,
}
use mod_audio_stream.Prelude.Ints.{ℤ}
use mod_audio_stream.WsClient.Receive.{Event, message, binary, pong}
use mod_audio_stream.StreamUtils.CString.{c_string}
use mod_audio_stream.Stream.Interfaces.{Buffers, Resampler}
use mod_audio_stream.Streamer.Message.{Json}
use mod_audio_stream.Streamer.Events.{
  Notification, NotifyEvent, connect_success, connect_error, connection_dropped, message_received,
  RawMode, Output, on_binary_data, Handled, event_callback,
}

-- What the client calls, with the codes and texts.
pub data ClientCall : Type 0 where
  on_open : ClientCall
  on_message on_binary : List ℕ → ClientCall
  on_error on_close : ℤ → List ℕ → ClientCall

-- Which of the client's callbacks are set.
pub record Bound : Type 0 where
  pub open_set : Bool
  pub message_set : Bool
  pub binary_set : Bool
  pub error_set : Bool
  pub close_set : Bool

-- What cJSON prints for the objects that the callbacks build.
pub record Statuses : Type 0 where
  pub connected : List ℕ
  pub error : ℤ → List ℕ → List ℕ
  pub disconnected : ℤ → List ℕ → List ℕ

module _ (buffers : Buffers) (resampler : Resampler) where
  -- The streamer, with its call's output and all that went out. `alive` says that `lock` of the weak
  -- pointer finds it.
  pub record Hub : Type 0 where
    pub alive : Bool
    pub cleaned_up : Bool
    pub bound : Bound
    pub mode : RawMode
    pub output : Option (Output buffers resampler)
    pub sent : List Notification

  unfoldable pub bind_callbacks : Hub → Hub
  bind_callbacks h = record h {
    bound = record {
      open_set = true;
      message_set = true;
      binary_set = true;
      error_set = true;
      close_set = true;
    };
  }

  -- The callback for binaries stays.
  unfoldable pub mark_cleaned_up : Hub → Hub
  mark_cleaned_up h = record h {
    cleaned_up = true;
    bound = record h.bound {
      open_set = false;
      message_set = false;
      error_set = false;
      close_set = false;
    };
  }

  abbrev pub handled_by : Hub → Handled buffers resampler → Hub
  handled_by h d = record h { mode = d.mode; output = d.output; sent = h.sent ++ d.sent }

  -- A callback that is set, of a streamer that is alive and not cleaned up.
  unfoldable pub if_set : Bool → Hub → Hub → Hub
  if_set is_set h h' = if not is_set || (not h.alive || h.cleaned_up) then h else h'

  module _ (json : Json) (opus : List ℕ → List ℕ) (init : ℤ → ℕ → Option resampler.Speex)
      (statuses : Statuses) where
    unfoldable pub event : NotifyEvent → List ℕ → Hub → Hub
    unfolding event_callback
    event kind text h =
        handled_by h (event_callback buffers resampler json opus init kind text h.mode h.output)

    -- A message is handed on as a C string.
    unfoldable pub call : ClientCall → Hub → Hub
    unfolding if_set event on_binary_data c_string
    call on_open h = if_set h.bound.open_set h (event connect_success statuses.connected h)
    call (on_message text) h =
        if_set h.bound.message_set h (event message_received (c_string text) h)
    call (on_binary data') h =
        if_set h.bound.binary_set h
          (record h { output = on_binary_data buffers resampler init h.mode data' h.output })
    call (on_error code text) h =
        if_set h.bound.error_set h (event connect_error (statuses.error code text) h)
    call (on_close code reason) h = if_set h.bound.close_set h (
        event connection_dropped (statuses.disconnected code reason)
          (record h { mode = record h.mode { active = false } }))

    unfoldable pub calls : List ClientCall → Hub → Hub
    unfolding call
    calls [] h = h
    calls (c ∷ cs) h = calls cs (call c h)

-- What the client's `processFrame` calls; a pong is the client's own.
unfoldable pub calls_of : List Event → List ClientCall
calls_of [] = []
calls_of (message text ∷ es) = on_message text ∷ calls_of es
calls_of (binary data' ∷ es) = on_binary data' ∷ calls_of es
calls_of (pong data' ∷ es) = calls_of es
