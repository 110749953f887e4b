-- ===== src/Streamer/CallbackLaws.antt =====
-- The callbacks of a streamer that is cleaned up.
use mod_audio_stream.Prelude.{
  ℕ, ◌≡◌, refl, ap, ◌∙◌, Bool, true, ◌||◌, not, Option, List, [], ◌∷◌, arith,
}
use mod_audio_stream.Prelude.Ints.{ℤ}
use mod_audio_stream.Stream.Interfaces.{Buffers, Resampler}
use mod_audio_stream.Streamer.Message.{Json}
use mod_audio_stream.Streamer.Callbacks.{
  ClientCall, on_open, on_message, on_binary, on_error, on_close, Statuses, Hub, mark_cleaned_up,
  if_set, call, calls,
}

module _ (buffers : Buffers) (resampler : Resampler) (json : Json) (opus : List ℕ → List ℕ)
    (init : ℤ → ℕ → Option resampler.Speex) (statuses : Statuses) where
  -- A streamer that `lock` does not find, or that is cleaned up.
  abbrev Gone : Hub buffers resampler → Type 0
  Gone h = (not h.alive || h.cleaned_up) ≡ true

  if_set-Gone :
      (is_set : Bool) (h h' : Hub buffers resampler)
      → Gone h
      → if_set buffers resampler is_set h h' ≡ h
  unfolding if_set
  if_set-Gone is_set h h' gone = ground (arith, gone)

  call-Gone :
      (c : ClientCall) (h : Hub buffers resampler)
      → Gone h
      → call buffers resampler json opus init statuses c h ≡ h
  unfolding call
  call-Gone on_open h gone = if_set-Gone h.bound.open_set h _ gone
  call-Gone (on_message text) h gone = if_set-Gone h.bound.message_set h _ gone
  call-Gone (on_binary data') h gone = if_set-Gone h.bound.binary_set h _ gone
  call-Gone (on_error code text) h gone = if_set-Gone h.bound.error_set h _ gone
  call-Gone (on_close code reason) h gone = if_set-Gone h.bound.close_set h _ gone

  pub calls-Gone :
      (cs : List ClientCall) (h : Hub buffers resampler)
      → Gone h
      → calls buffers resampler json opus init statuses cs h ≡ h
  unfolding calls
  calls-Gone [] h gone = refl
  calls-Gone (c ∷ cs) h gone =
      ap (calls buffers resampler json opus init statuses cs) (call-Gone c h gone)
      ∙ calls-Gone cs h gone

  -- After markCleanedUp, whatever the client calls, in whatever order and number, binaries too,
  -- changes nothing of the streamer and its call's output and sends nothing out.
  pub calls-mark_cleaned_up :
      (cs : List ClientCall) (h : Hub buffers resampler)
      → let gone = mark_cleaned_up buffers resampler h in
        calls buffers resampler json opus init statuses cs gone ≡ gone
  unfolding mark_cleaned_up
  calls-mark_cleaned_up cs h = calls-Gone cs (mark_cleaned_up buffers resampler h) (ground arith)
