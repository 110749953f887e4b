-- ===== src/WsClient/Delivery.antt =====
-- What `processFrame` hands over for the frames of a peer, and where its size test fails.
use mod_audio_stream.Prelude.{
  ℕ, ◌+◌, ◌^◌, ◌≤◌, ◌<◌, ◌≡◌, ◌≢◌, true, some, List, [], ◌∷◌, ◌++◌, arith, ◌==◌, if◌then◌else◌,
  length, length-append, ap₂, ◌∙◌, bit_and_low,
}
use mod_audio_stream.Prelude.Slices.{drop-append}
use mod_audio_stream.WsClient.Frame.{make_frame, push_length}
use mod_audio_stream.WsClient.FrameBytes.{read_length_eight, length-push_length}
use mod_audio_stream.WsClient.FrameRoundTrip.{parse_frame-make_frame}
use mod_audio_stream.WsClient.Receive.{
  mask_field, overrun, parse_payload, parse_mask, parse_length, parse_frame, length_field, Receiver,
  Event, message, binary, pong, frame_events, after_events, erase_frame, process_frame,
}
use mod_audio_stream.WsClient.Reassembly.{process_frame-got}

abbrev pub events_of : Receiver → ℕ → List ℕ → List Event
events_of r op payload =
    if op == 1
    then (if r.on_message then message payload ∷ [] else [])
    else if op == 2
    then (if r.on_binary then binary payload ∷ [] else [])
    else if op == 9
    then pong payload ∷ []
    else []

frame_events-final :
    (r : Receiver) (op : ℕ) (payload : List ℕ) (n : ℕ)
    → frame_events r (record { fin = true; opcode = op; payload = payload; size = n })
      ≡ events_of r op payload
unfolding frame_events
frame_events-final r op payload n = ground arith

-- Where the buffer begins with a frame that is no close frame, of an opcode of 4 bits, with a key
-- of 4 bytes and a payload shorter than 2^63, processFrame hands the payload to the callback for
-- texts or binaries, if it is set, or answers a ping, or ignores the frame, as the opcode says;
-- then it goes on with the bytes behind the frame.
pub process_frame-make_frame :
    (r : Receiver) (op : ℕ) (mask payload rest : List ℕ)
    → op < 16
    → op ≢ 8
    → length mask ≡ 4
    → length payload < 2 ^ 63
    → process_frame (record r { rxbuf = make_frame op mask payload ++ rest })
      ≡ after_events (events_of r op payload) (process_frame (record r { rxbuf = rest }))
unfolding erase_frame frame_events
process_frame-make_frame r op mask payload rest h h8 four fits =
    process_frame-got (record r { rxbuf = make_frame op mask payload ++ rest }) _
      (parse_frame-make_frame op mask payload rest h four fits) (ground arith)
    ∙ ap₂ (λ es b. after_events es (process_frame (record r { rxbuf = b })))
        (frame_events-final (record r { rxbuf = make_frame op mask payload ++ rest }) op payload
          (length (make_frame op mask payload)))
        (drop-append rest 0 (make_frame op mask payload) (length (make_frame op mask payload))
          (omega arith))

-- An unmasked header with the length `n` in eight bytes.
abbrev pub long_header : ℕ → ℕ → List ℕ
long_header b0 n = b0 ∷ 127 ∷ push_length 8 n

length_field-unmasked :
    (b0 n : ℕ) (rest : List ℕ)
    → n < 2 ^ 64
    → length_field (b0 ∷ 127 ∷ (push_length 8 n ++ rest)) ≡ some (10, n)
unfolding length_field
length_field-unmasked b0 n rest fits = ground (
  arith,
  bit_and_low 7 127,
  length-append (push_length 8 n) rest,
  length-push_length 8 n,
  read_length_eight n b0 127 rest,
)

-- For a length from 2^64 - 10 up, the sum of header size and length wraps: processFrame takes the
-- frame for complete although its payload reaches past the buffer, whatever the buffer holds behind
-- the ten bytes of the header and whatever the first byte is.
pub parse_frame-overrun :
    (b0 n : ℕ) (rest : List ℕ)
    → 2 ^ 64 ≤ n + 10
    → n < 2 ^ 64
    → length rest < 2 ^ 63
    → parse_frame (long_header b0 n ++ rest) ≡ overrun
unfolding parse_frame parse_length parse_mask mask_field parse_payload
parse_frame-overrun b0 n rest big fits small = ground (
  arith,
  length_field-unmasked b0 n rest,
  length-append (push_length 8 n) rest,
  length-push_length 8 n,
)
