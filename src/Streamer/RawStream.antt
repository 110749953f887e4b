-- ===== src/Streamer/RawStream.antt =====
-- Raw audio from the frames that the server sends to the frames that the call gets.
use mod_audio_stream.Prelude.{
  ℕ, suc, ◌*◌, ◌≤◌, ◌<◌, ◌^◌, ◌≡◌, refl, sym, ap, ap₂, ◌∙◌, Bool, true, false, Option, some, List,
  [], ◌∷◌, ◌++◌, codes, length, arith, append-nil, ◌==◌, All,
}
use mod_audio_stream.Prelude.Ints.{ℤ, pos}
use mod_audio_stream.StreamUtils.Numeral.{equal_strings}
use mod_audio_stream.WsClient.Frame.{make_frame}
use mod_audio_stream.WsClient.Receive.{
  Receiver, Event, message, binary, done, after_events, process_loop, process_frame,
}
use mod_audio_stream.WsClient.Delivery.{process_frame-make_frame, events_of}
use mod_audio_stream.StreamUtils.CString.{c_string}
use mod_audio_stream.Stream.Interfaces.{Buffers, Resampler}
use mod_audio_stream.Stream.Playback.{queue_audio, frame_bytes, play}
use mod_audio_stream.Stream.PlaybackLaws.{Served}
use mod_audio_stream.Stream.Responses.{Idle, queue_audio-play}
use mod_audio_stream.Streamer.Message.{
  Json, Processed, nothing_processed, process_type, process_root, process_message, raw_rate_in,
}
use mod_audio_stream.Streamer.Events.{
  Notification, event_json, RawMode, Output, on_binary_data, text_of, message_case, event_callback,
}
use mod_audio_stream.Streamer.EventLaws.{play_audio_native}
use mod_audio_stream.Streamer.Callbacks.{
  on_message, on_binary, Statuses, Hub, if_set, event, call, calls, calls_of,
}

-- The text is an object of type rawAudio whose data have this rate.
pub record IsAnnouncement (json : Json) (text : List ℕ) (rate : ℤ) : Type 0 where
  pub root : json.Item
  pub data' : json.Item
  pub rate_item : json.Item
  pub parsed : json.parse text ≡ some root
  pub named : json.cstr root (codes "type") ≡ some (codes "rawAudio")
  pub given : json.item root (codes "data") ≡ some data'
  pub rated : json.item data' (codes "sampleRate") ≡ some rate_item
  pub valued : json.valueint rate_item ≡ rate

abbrev announced : ℤ → Processed
announced rate = record nothing_processed {
  is_ok = true;
  sample_rate = rate;
  audio_type = codes "raw";
}

process_message-IsAnnouncement :
    {json : Json} (opus : List ℕ → List ℕ) {text : List ℕ} {rate : ℤ}
    → IsAnnouncement json text rate
    → process_message json opus text ≡ announced rate
unfolding process_message process_root process_type raw_rate_in equal_strings
process_message-IsAnnouncement {json = json} opus m =
    ap (process_root json opus) m.parsed
    ∙ ap (process_type json opus m.root) m.named
    ∙ rw (m.given, m.rated, m.valued) refl

events_of-text :
    (r : Receiver) (text : List ℕ) → r.on_message ≡ true → events_of r 1 text ≡ message text ∷ []
events_of-text r text set = ground (arith, set)

events_of-binary :
    (r : Receiver) (audio : List ℕ) → r.on_binary ≡ true → events_of r 2 audio ≡ binary audio ∷ []
events_of-binary r audio set = ground (arith, set)

-- The two frames, a text and a binary, as the client takes them apart.
process_frame_two :
    (r : Receiver) (mask mask' text audio : List ℕ)
    → r.on_message ≡ true
    → r.on_binary ≡ true
    → length mask ≡ 4
    → length mask' ≡ 4
    → length text < 2 ^ 63
    → length audio < 2 ^ 63
    → process_frame (record r { rxbuf = make_frame 1 mask text ++ make_frame 2 mask' audio })
      ≡ done (record r { rxbuf = [] }) (message text ∷ binary audio ∷ [])
unfolding process_frame process_loop
process_frame_two r mask mask' text audio texts binaries four four' fits fits' =
    process_frame-make_frame r 1 mask text (make_frame 2 mask' audio) (omega arith) (ground arith)
      four fits
    ∙ ap₂ after_events (events_of-text r text texts) (
        ap (λ b. process_frame (record r { rxbuf = b }))
          (sym (append-nil (make_frame 2 mask' audio)))
        ∙ process_frame-make_frame r 2 mask' audio [] (omega arith) (ground arith) four' fits'
        ∙ ap (λ es. after_events es (process_frame (record r { rxbuf = [] })))
            (events_of-binary r audio binaries))

module _ (buffers : Buffers) (resampler : Resampler) (json : Json) (opus : List ℕ → List ℕ)
    (init : ℤ → ℕ → Option resampler.Speex) (statuses : Statuses) where
  -- The streamer is alive with its callbacks, and its call has this output.
  pub record Ready (h : Hub buffers resampler) (o : Output buffers resampler) : Type 0 where
    pub alive : h.alive ≡ true
    pub kept : h.cleaned_up ≡ false
    pub texts : h.bound.message_set ≡ true
    pub binaries : h.bound.binary_set ≡ true
    pub there : h.output ≡ some o

  call_announced :
      (h : Hub buffers resampler) (o : Output buffers resampler) (text : List ℕ) {rate : ℤ}
      → Ready h o
      → IsAnnouncement json (c_string text) rate
      → call buffers resampler json opus init statuses (on_message text) h ≡ record h {
        mode = record { active = true; rate = rate };
        sent = h.sent ++ event_json [] ∷ [];
      }
  unfolding call if_set event event_callback text_of message_case equal_strings
  call_announced h o text ready m =
      rw (ready.alive, ready.kept, ready.texts, process_message-IsAnnouncement opus m) refl

  if_set-Ready :
      (h : Hub buffers resampler) (o : Output buffers resampler) (h' : Hub buffers resampler)
      (is_set : Bool)
      → is_set ≡ true
      → Ready h o
      → if_set buffers resampler is_set h h' ≡ h'
  unfolding if_set
  if_set-Ready h o h' is_set set ready = ground (arith, set, ready.alive, ready.kept)

  on_binary_data_native :
      (o : Output buffers resampler) (c : ℕ) (audio : List ℕ) {b : buffers.Buffer}
      → o.player.enabled ≡ true
      → o.player.buffer ≡ some b
      → on_binary_data buffers resampler init
          (record { active = true; rate = pos o.player.native_sampling })
          (c ∷ audio)
          (some o)
        ≡ some (record o { player = queue_audio buffers o.player (c ∷ audio) })
  unfolding on_binary_data
  on_binary_data_native o c audio on buffered =
      let e : (length (c ∷ audio) == 0) ≡ false = ground arith in
      rw e (ap some (play_audio_native buffers resampler init (c ∷ audio) o on buffered))

  -- Raw audio at the call's rate goes into the queue as it is.
  call_raw :
      (h : Hub buffers resampler) (o : Output buffers resampler) (c : ℕ) (audio : List ℕ)
      {b : buffers.Buffer}
      → Ready h o
      → h.mode ≡ record { active = true; rate = pos o.player.native_sampling }
      → o.player.enabled ≡ true
      → o.player.buffer ≡ some b
      → call buffers resampler json opus init statuses (on_binary (c ∷ audio)) h ≡ record h {
        output = some (record o { player = queue_audio buffers o.player (c ∷ audio) });
      }
  unfolding call
  call_raw h o c audio ready raw on buffered =
      if_set-Ready h o _ h.bound.binary_set ready.binaries ready
      ∙ ap (λ q. record h { output = on_binary_data buffers resampler init q (c ∷ audio) h.output })
          raw
      ∙ ap
          (λ q. record h {
            output =
                on_binary_data buffers resampler init
                  (record { active = true; rate = pos o.player.native_sampling }) (c ∷ audio) q;
          })
          ready.there
      ∙ ap (λ q. record h { output = q }) (on_binary_data_native o c audio on buffered)

  Ready-announced :
      (h : Hub buffers resampler) (o : Output buffers resampler) (mode : RawMode)
      (sent : List Notification)
      → Ready h o
      → Ready (record h { mode = mode; sent = sent }) o
  Ready-announced h o mode sent ready = record {
    alive = ready.alive;
    kept = ready.kept;
    texts = ready.texts;
    binaries = ready.binaries;
    there = ready.there;
  }

  -- The announcement and the audio behind it.
  calls_raw :
      (h : Hub buffers resampler) (o : Output buffers resampler) (text : List ℕ) (c : ℕ)
      (audio : List ℕ) {b : buffers.Buffer}
      → Ready h o
      → IsAnnouncement json (c_string text) (pos o.player.native_sampling)
      → o.player.enabled ≡ true
      → o.player.buffer ≡ some b
      → calls buffers resampler json opus init statuses
          (calls_of (message text ∷ binary (c ∷ audio) ∷ []))
          h
        ≡ record h {
          mode = record { active = true; rate = pos o.player.native_sampling };
          sent = h.sent ++ event_json [] ∷ [];
          output = some (record o { player = queue_audio buffers o.player (c ∷ audio) });
        }
  unfolding calls calls_of
  calls_raw h o text c audio ready m on buffered =
      let raw : RawMode = record { active = true; rate = pos o.player.native_sampling } in
      ap (call buffers resampler json opus init statuses (on_binary (c ∷ audio)))
        (call_announced h o text ready m)
      ∙ call_raw (record h { mode = raw; sent = h.sent ++ event_json [] ∷ [] }) o c audio
          (Ready-announced h o raw (h.sent ++ event_json [] ∷ []) ready) refl on buffered

  -- The server sends a text frame that announces a raw stream at the call's rate, and a binary
  -- frame of m + 1 whole playback frames; keys are four bytes, payloads shorter than 2^63. The
  -- client's callbacks for texts and binaries are set, the streamer is alive and not cleaned up,
  -- the player is idle with an empty buffer that the audio fits. Then processFrame takes both
  -- frames whole, and when its calls have gone through the streamer's callbacks, m + 1 calls of
  -- stream_frame_write that get the lock and room play exactly the audio; a JSON event with an
  -- empty body went out. The resampler, Opus and the JSON library, given the announcement, are
  -- arbitrary.
  pub process_frame-play :
      (r : Receiver) (h : Hub buffers resampler) (o : Output buffers resampler) (b : buffers.Buffer)
      (mask mask' text audio : List ℕ) (m : ℕ) (ticks : List (Bool × Option ℕ))
      → r.on_message ≡ true
      → r.on_binary ≡ true
      → length mask ≡ 4
      → length mask' ≡ 4
      → length text < 2 ^ 63
      → length audio < 2 ^ 63
      → Ready h o
      → IsAnnouncement json (c_string text) (pos o.player.native_sampling)
      → Idle buffers o.player b
      → length audio ≡ suc m * frame_bytes buffers o.player
      → length audio ≤ buffers.freespace b
      → length ticks ≡ suc m
      → All (Served (frame_bytes buffers o.player)) ticks
      → (es : List Event) × (process_frame
            (record r { rxbuf = make_frame 1 mask text ++ make_frame 2 mask' audio })
          ≡ done (record r { rxbuf = [] }) es)
        × (let h' = calls buffers resampler json opus init statuses (calls_of es) h in
            (o' : Output buffers resampler) × (h'.output ≡ some o')
            × ((play buffers o'.player ticks).bytes ≡ audio)
            × (h'.sent ≡ h.sent ++ event_json [] ∷ []))
  process_frame-play r h o b mask mask' text [] m ticks texts binaries four four' fits fits' ready a
        i size room count served =
      absurd (grind (arith, size, i.frame_pos))
  process_frame-play r h o b mask mask' text (c ∷ audio) m ticks texts binaries four four' fits
        fits' ready a i size room count served =
      let e = calls_raw h o text c audio ready a i.enabled i.buffer in
      (
        message text ∷ binary (c ∷ audio) ∷ [],
        process_frame_two r mask mask' text (c ∷ audio) texts binaries four four' fits fits',
        (
          record o { player = queue_audio buffers o.player (c ∷ audio) },
          ap (λ (g : Hub buffers resampler). g.output) e,
          (queue_audio-play buffers o.player b (c ∷ audio) m ticks i size room count served).0,
          ap (λ (g : Hub buffers resampler). g.sent) e,
        ),
      )
