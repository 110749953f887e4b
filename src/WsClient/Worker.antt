-- ===== src/WsClient/Worker.antt =====
-- ws_client.cpp: the poll loop of `threadFunc`, with what other threads do between its rounds.
use mod_audio_stream.Prelude.{
  ℕ, Bool, true, false, Option, none, some, List, [], ◌∷◌, ◌++◌, if◌then◌else◌, bind_option,
}
use mod_audio_stream.WsClient.Receive.{
  closing, Receiver, Event, message, binary, pong, Outcome, done, overran, out_of_fuel,
  process_frame,
}
use mod_audio_stream.WsClient.Send.{Item, Network, Sender, enqueue, send_frame, drain_send_queue}

-- What `recv` or `SSL_read` gives: bytes, the end of the stream, a call to try again, an error.
pub data Read : Type 0 where
  bytes : List ℕ → Read
  end_of_stream try_again broken : Read

-- What a successful `poll` reports: POLLIN with what is read then, POLLOUT, and whether the ping
-- interval is over.
pub record Wakeup : Type 0 where
  pub readable : Option Read
  pub writable : Bool
  pub ping_due : Bool

-- A round of the loop (`poll` is interrupted, fails, or reports), or what another thread does
-- before the next: it queues an item, or asks for the close.
pub data Turn : Type 0 where
  interrupted poll_failed : Turn
  woken : Wakeup → Turn
  queued : Item → Turn
  close_requested : Turn

pub record Worker : Type 0 where
  pub receiver : Receiver
  pub sender : Sender
  pub delivered : List Event

-- Go on with the loop, or leave it.
pub data Flow : Type 0 where
  on_with leave : Worker → Flow

module _ (net : Network) where
  -- The pongs among the events: `sendFrame (0xA, ...)`.
  unfoldable pub answer_pings : Sender → List Event → Sender
  answer_pings s [] = s
  answer_pings s (message p ∷ es) = answer_pings s es
  answer_pings s (binary p ∷ es) = answer_pings s es
  answer_pings s (pong p ∷ es) = answer_pings (send_frame net s 0xA p).0 es

  -- `none` is a read past the receive buffer.
  unfoldable pub handled : Worker → Outcome → Option Worker
  handled w (done r es) =
      some
        (record { receiver = r; sender = answer_pings w.sender es; delivered = w.delivered ++ es })
  handled w overran = none
  handled w out_of_fuel = none

  unfoldable pub receive : Worker → List ℕ → Option Worker
  receive w new = handled w (process_frame (record w.receiver { rxbuf = w.receiver.rxbuf ++ new }))

  -- POLLOUT, and then the ping.
  unfoldable pub write_turn : Wakeup → Worker → Option Flow
  write_turn t w =
      let ping = λ (s : Sender). if t.ping_due then (send_frame net s 0x9 []).0 else s in
      if t.writable
      then bind_option (drain_send_queue net w.sender)
          (λ s. some (on_with (record w { sender = ping s })))
      else some (on_with (record w { sender = ping w.sender }))

  unfoldable pub read_turn : Wakeup → Worker → Option Read → Option Flow
  read_turn t w none = write_turn t w
  read_turn t w (some (bytes new)) = bind_option (receive w new) (write_turn t)
  read_turn t w (some end_of_stream) = some (leave w)
  read_turn t w (some try_again) = write_turn t w
  read_turn t w (some broken) = some (leave w)

  unfoldable pub turn : Worker → Turn → Option Flow
  turn w interrupted = some (on_with w)
  turn w poll_failed = some (leave w)
  turn w (woken t) = read_turn t w t.readable
  turn w (queued item) =
      some (on_with (record w { sender = record w.sender { queue = enqueue w.sender.queue item } }))
  turn w close_requested =
      some
        (on_with (record w { receiver = record w.receiver { state = closing; running = false } }))

  -- `while (running_)`, over the turns that happen.
  unfoldable pub poll_loop : Worker → List Turn → Option Worker
  poll_loop w [] = some w
  poll_loop w (t ∷ turns) = elim w.receiver.running [
    | false ↦ some w
    | true ↦ elim (turn w t) [
      | none ↦ none
      | some (leave w') ↦ some w'
      | some (on_with w') ↦ poll_loop w' turns
    ]
  ]
