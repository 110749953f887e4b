-- ===== src/WsClient/Delivered.antt =====
-- A peer that reads with `processFrame` what `drainSendQueue` puts on the wire.
use mod_audio_stream.Prelude.{
  ℕ, ◌+◌, ◌^◌, ◌<◌, ◌≡◌, refl, sym, ap, ◌∙◌, true, some, List, [], ◌∷◌, ◌++◌, arith, append-nil,
  ap₂, if◌then◌else◌, length, append_assoc, All,
}
use mod_audio_stream.WsClient.Frame.{make_frame}
use mod_audio_stream.WsClient.Receive.{
  done, Receiver, Event, message, binary, after_events, process_frame, process_loop,
}
use mod_audio_stream.WsClient.Reassembly.{after_events_append, after_events_nil}
use mod_audio_stream.WsClient.Delivery.{process_frame-make_frame, events_of}
use mod_audio_stream.WsClient.Send.{Item, Network, Sender, opcode_of, drain_send_queue}
use mod_audio_stream.WsClient.DrainLaws.{live}
use mod_audio_stream.WsClient.FlushLaws.{frames_of, drain_send_queue_flushes}

-- What the items say to a peer, in their order.
unfoldable pub events_for : List Item → List Event
events_for [] = []
events_for (i ∷ q) = (if i.is_binary then binary i.bytes else message i.bytes) ∷ events_for q

module _ (net : Network) (r : Receiver) (texts : r.on_message ≡ true)
    (binaries : r.on_binary ≡ true) where
  one_event :
      (i : Item)
      → events_of r (opcode_of i) i.bytes
        ≡ (if i.is_binary then binary i.bytes else message i.bytes) ∷ []
  one_event i = ground arith

  -- The peer's callbacks get the items one by one, each as a text or a binary as it was queued,
  -- in the queue's order, before the peer handles what follows on the wire.
  pub process_frame-frames_of :
      (k : ℕ) (q : List Item) (rest : List ℕ)
      → All (λ i. length i.bytes < 2 ^ 63) q
      → process_frame (record r { rxbuf = frames_of net k q ++ rest })
        ≡ after_events (events_for q) (process_frame (record r { rxbuf = rest }))
  unfolding frames_of events_for
  process_frame-frames_of k [] rest fit = sym (after_events_nil _)
  process_frame-frames_of k (i ∷ q) rest fit =
      ap (λ b. process_frame (record r { rxbuf = b }))
        (append_assoc (make_frame (opcode_of i) (net.key k) i.bytes) (frames_of net (k + 1) q) rest)
      ∙ process_frame-make_frame r (opcode_of i) (net.key k) i.bytes
          (frames_of net (k + 1) q ++ rest) (ground arith) (ground arith) (net.key_size k) fit.0
      ∙ ap₂ after_events (one_event i) (process_frame-frames_of (k + 1) q rest fit.1)
      ∙ sym (after_events_append (_ ∷ []) (events_for q) _)

  process_frame-empty : process_frame (record r { rxbuf = [] }) ≡ done (record r { rxbuf = [] }) []
  unfolding process_frame process_loop
  process_frame-empty = refl

  frames_only :
      (k : ℕ) (q : List Item)
      → All (λ i. length i.bytes < 2 ^ 63) q
      → process_frame (record r { rxbuf = frames_of net k q })
        ≡ done (record r { rxbuf = [] }) (events_for q)
  frames_only k q fit =
      ap (λ b. process_frame (record r { rxbuf = b })) (sym (append-nil (frames_of net k q)))
      ∙ process_frame-frames_of k q [] fit
      ∙ ap (after_events (events_for q)) process_frame-empty
      ∙ ap (done (record r { rxbuf = [] })) (append-nil (events_for q))

  -- A socket that takes all it is given is drained, and the peer's buffer holds what was put on the
  -- wire: the peer's callbacks get every queued item that is not empty, once, in the queue's order
  -- and of its kind, and the peer is left with an empty buffer. Each payload is shorter than 2^63
  -- bytes, the peer's callbacks are set, and nothing was on the wire before.
  pub drain_send_queue-process_frame :
      (s : Sender)
      → ((k n : ℕ) → net.accepts k n ≡ n)
      → s.connected ≡ true
      → s.wire ≡ []
      → All (λ i. length i.bytes < 2 ^ 63) (live s.queue)
      → (s' : Sender) × (drain_send_queue net s ≡ some s')
        × (process_frame (record r { rxbuf = s'.wire })
            ≡ done (record r { rxbuf = [] }) (events_for (live s.queue)))
  drain_send_queue-process_frame s takes_all open_ fresh fit =
      let (s', ends, _, _, wire) = drain_send_queue_flushes net takes_all s open_ in
      (
        s',
        ends,
        ap (λ b. process_frame (record r { rxbuf = b }))
              (wire ∙ ap (λ w. w ++ frames_of net s.frames (live s.queue)) fresh)
            ∙ frames_only s.frames (live s.queue) fit,
      )
