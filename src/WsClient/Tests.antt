-- ===== src/WsClient/Tests.antt =====
-- ws_client.cpp on concrete inputs: a small network, frames and buffers.
use mathlib.Core.List.{Perm}
use mod_audio_stream.Prelude.{
  ℕ, ◌-◌, ◌^◌, ◌≤◌, ◌<◌, ◌≡◌, refl, true, false, some, List, [], ◌∷◌, ◌++◌, arith, codes, length,
  take, All, if◌then◌else◌, ◌==◌,
}
use mod_audio_stream.WsClient.Frame.{make_frame, length_bytes, apply_mask}
use mod_audio_stream.WsClient.Receive.{
  binary, opened, Receiver, message, overrun, got, done, after_events, parse_frame, parse_length,
  parse_mask, parse_payload, length_field, mask_field, unmask, frame_events, erase_frame,
  process_loop, process_frame,
}
use mod_audio_stream.WsClient.FrameRoundTrip.{parse_frame-make_frame}
use mod_audio_stream.WsClient.Reassembly.{process_frame-append, feed}
use mod_audio_stream.WsClient.Delivery.{parse_frame-overrun, long_header}
use mod_audio_stream.WsClient.Send.{
  send_binary, send_message, enqueue, Item, Network, Sender, drain_send_queue,
}
use mod_audio_stream.WsClient.DrainLaws.{live, drain_send_queue_conserves}
use mod_audio_stream.WsClient.Delivered.{events_for, drain_send_queue-process_frame}
use mod_audio_stream.WsClient.Worker.{
  bytes, Turn, woken, queued, Worker, poll_loop, turn, read_turn, write_turn, receive, handled,
  answer_pings,
}
use mod_audio_stream.WsClient.WorkerLaws.{stream, Settled, Delivered}
use mod_audio_stream.WsClient.PollLoop.{poll_loop-process_frame}
use mod_audio_stream.WsClient.QueueLaws.{Queued, send-Queued}
use mod_audio_stream.WsClient.PartialWrite.{drain_send_queue-torn}

abbrev mask : List ℕ
mask = 0x37 ∷ 0xFA ∷ 0x21 ∷ 0x3D ∷ []

-- The masked `Hello` of RFC 6455, section 5.7.
hello_frame :
    make_frame 1 mask (codes "Hello")
    ≡ 0x81 ∷ 0x85 ∷ 0x37 ∷ 0xFA ∷ 0x21 ∷ 0x3D ∷ 0x7F ∷ 0x9F ∷ 0x4D ∷ 0x51 ∷ 0x58 ∷ []
unfolding make_frame length_bytes apply_mask
hello_frame = refl

abbrev client : Receiver
client = record { rxbuf = []; state = opened; running = true; on_message = true; on_binary = true }

-- The unmasked `Hello`, in two pieces.
abbrev first_piece : List ℕ
first_piece = 0x81 ∷ 0x02 ∷ 0x68 ∷ 0x69 ∷ 0x82 ∷ 0x02 ∷ 0x01 ∷ []

abbrev waiting : Receiver
waiting = record client { rxbuf = 0x82 ∷ 0x02 ∷ 0x01 ∷ [] }

first_round :
    process_frame (record client { rxbuf = first_piece }) ≡ done waiting (message (codes "hi") ∷ [])
unfolding process_frame process_loop parse_frame parse_length parse_mask parse_payload length_field
    mask_field unmask frame_events erase_frame
first_round = refl

parse_frame-make_frame_example :
    parse_frame (make_frame 2 mask (codes "Hello") ++ 0x81 ∷ [])
    ≡ got (record {
      fin = true;
      opcode = 2;
      payload = codes "Hello";
      size = length (make_frame 2 mask (codes "Hello"));
    })
parse_frame-make_frame_example =
    parse_frame-make_frame 2 mask (codes "Hello") (0x81 ∷ []) (omega arith) refl (omega arith)

process_frame-append_example :
    process_frame (feed (record client { rxbuf = first_piece }) (0x02 ∷ []))
    ≡ after_events (message (codes "hi") ∷ []) (process_frame (feed waiting (0x02 ∷ [])))
process_frame-append_example =
    process_frame-append (record client { rxbuf = first_piece }) waiting (message (codes "hi") ∷ [])
      (0x02 ∷ []) first_round refl (omega arith)

parse_frame-overrun_example : parse_frame (long_header 0x82 (2 ^ 64 - 1) ++ []) ≡ overrun
parse_frame-overrun_example =
    parse_frame-overrun 0x82 (2 ^ 64 - 1) [] (omega arith) (omega arith) (omega arith)

-- A socket that takes all it is given.
abbrev fast_network : Network
fast_network = record {
  accepts = λ k n. n;
  key = λ k. mask;
  accepts_bound = λ k n. omega arith;
  key_size = λ k. refl;
}

-- A socket whose first call takes one byte, whose second takes none, and whose later calls take
-- all.
abbrev slow_accepts : ℕ → ℕ → ℕ
slow_accepts k n = if k == 0 then (if n == 0 then 0 else 1) else if k == 1 then 0 else n

slow_accepts_bound : (k n : ℕ) → slow_accepts k n ≤ n
slow_accepts_bound k n = ground arith

abbrev slow_network : Network
slow_network = record {
  accepts = slow_accepts;
  key = λ k. mask;
  accepts_bound = slow_accepts_bound;
  key_size = λ k. refl;
}

abbrev text_item : Item
text_item = record { bytes = codes "hi"; is_binary = false }

abbrev sender : List Item → Sender
sender q = record { connected = true; queue = q; calls = 0; frames = 0; wire = []; sent = [] }

abbrev two_items : List Item
two_items = text_item ∷ record { bytes = 7 ∷ []; is_binary = true } ∷ []

drain_send_queue_conserves_example :
    (s' : Sender) × (drain_send_queue slow_network (sender two_items) ≡ some s')
    × Perm (s'.sent ++ live s'.queue) ([] ++ live two_items)
    × (length s'.queue ≤ 2)
drain_send_queue_conserves_example = drain_send_queue_conserves slow_network (sender two_items)

two_items-fit : All (λ i. length i.bytes < 2 ^ 63) (live two_items)
unfolding live
two_items-fit = ground arith

drain_send_queue-process_frame_example :
    (s' : Sender) × (drain_send_queue fast_network (sender two_items) ≡ some s')
    × (process_frame (record client { rxbuf = s'.wire })
        ≡ done client (events_for (live two_items)))
drain_send_queue-process_frame_example =
    drain_send_queue-process_frame fast_network client refl refl (sender two_items) (λ k n. refl)
      refl refl two_items-fit

abbrev one_item : Sender
one_item = sender (text_item ∷ [])

abbrev second_frame : List ℕ
second_frame = make_frame 1 mask (codes "hi")

drain_send_queue-torn_example :
    (s1 s2 : Sender) × (drain_send_queue slow_network one_item ≡ some s1)
    × (drain_send_queue slow_network s1 ≡ some s2)
    × (s2.wire ≡ ([] ++ take 1 second_frame) ++ second_frame)
    × (s2.queue ≡ [])
    × (s2.sent ≡ [] ++ text_item ∷ [])
unfolding make_frame length_bytes apply_mask
drain_send_queue-torn_example =
    drain_send_queue-torn slow_network text_item one_item 0 refl (λ e. absurd (omega (arith, e)))
      refl (omega arith) refl refl refl

abbrev arrived : List ℕ → Turn
arrived new = woken (record { readable = some (bytes new); writable = false; ping_due = false })

-- The two pieces, and an item that another thread queues between them.
abbrev turns : List Turn
turns = arrived first_piece ∷ queued text_item ∷ arrived (0x02 ∷ []) ∷ []

abbrev worker : Worker
worker = record { receiver = client; sender = sender []; delivered = [] }

abbrev worker_then : Worker
worker_then = record {
  receiver = client;
  sender = one_item;
  delivered = message (codes "hi") ∷ binary (1 ∷ 2 ∷ []) ∷ [];
}

client-Settled : Settled client
unfolding process_frame process_loop
client-Settled = refl

turns_run : poll_loop fast_network worker turns ≡ some worker_then
unfolding poll_loop turn read_turn write_turn receive handled answer_pings enqueue process_frame
    process_loop parse_frame parse_length parse_mask parse_payload length_field mask_field unmask
    frame_events erase_frame
turns_run = refl

poll_loop-process_frame_example : Delivered worker worker_then (stream turns)
poll_loop-process_frame_example =
    poll_loop-process_frame fast_network worker worker_then turns client-Settled (omega arith)
      (refl, (refl, (refl, tt))) turns_run refl

send-Queued_example :
    Queued two_items
      (record { bytes = 9 ∷ []; is_binary = true })
      true
      (send_binary true two_items (9 ∷ []))
    × Queued two_items
        (record { bytes = 9 ∷ []; is_binary = false })
        true
        (send_message two_items (9 ∷ []))
send-Queued_example = send-Queued two_items (9 ∷ []) (omega arith) true
