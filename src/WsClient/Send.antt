-- ===== src/WsClient/Send.antt =====
-- ws_client.cpp: `sendBinary` and `sendMessage`, which fill the send queue, and `sendFrame` and
-- `drainSendQueue`, which empty it into the socket.
use mod_audio_stream.Prelude.{
  ℕ, zero, suc, ◌+◌, ◌*◌, ◌≤◌, ◌≡◌, Bool, true, false, not, Option, none, some, List, [], ◌∷◌, ◌++◌,
  ltb, leb, ◌==◌, if◌then◌else◌, length, take, drop,
}
use mod_audio_stream.WsClient.Frame.{make_frame}

-- MAX_SEND_QUEUE.
abbrev pub max_send_queue : ℕ
max_send_queue = 1024

-- SendItem.
pub record Item : Type 0 where
  pub bytes : List ℕ
  pub is_binary : Bool

-- The network and the random generator. `accepts k n` is what the `k`-th call of `send` or
-- `SSL_write` with `n` bytes returns, 0 for a result that is not positive; `key k` is the mask of
-- the `k`-th frame. A call takes no more bytes than it is given, and a key has four bytes.
pub record Network : Type 0 where
  pub accepts : ℕ → ℕ → ℕ
  pub key : ℕ → List ℕ
  pub accepts_bound : (k n : ℕ) → accepts k n ≤ n
  pub key_size : (k : ℕ) → length (key k) ≡ 4

-- The part of the client that sends. `calls` and `frames` count what was asked of the network,
-- `wire` is what it took, `sent` the items whose frame it took whole.
pub record Sender : Type 0 where
  pub connected : Bool
  pub queue : List Item
  pub calls : ℕ
  pub frames : ℕ
  pub wire : List ℕ
  pub sent : List Item

-- The body that `sendBinary` and `sendMessage` share, under the lock: a full queue drops the item.
unfoldable pub enqueue : List Item → Item → List Item
enqueue queue item = if leb max_send_queue (length queue) then queue else queue ++ item ∷ []

-- `is_open` is `state_.load () == OPEN`. A null pointer is the empty payload.
unfoldable pub send_binary : Bool → List Item → List ℕ → List Item
unfolding enqueue
send_binary is_open queue payload =
    if length payload == 0
    then queue
    else if not is_open
    then queue
    else enqueue queue (record { bytes = payload; is_binary = true })

unfoldable pub send_message : List Item → List ℕ → List Item
unfolding enqueue
send_message queue text =
    if length text == 0 then queue else enqueue queue (record { bytes = text; is_binary = false })

abbrev pub opcode_of : Item → ℕ
opcode_of item = if item.is_binary then 0x2 else 0x1

module _ (net : Network) where
  -- One accepted call of `send` on the rest of the frame.
  unfoldable pub put : Sender → List ℕ → ℕ → Sender
  put s rest n = record s { calls = s.calls + 1; wire = s.wire ++ take n rest }

  -- `while (offset < frame.size ())`, over the rest of the frame from `offset` on. The result says
  -- whether the rest is empty. Each round that goes on takes a byte at least, hence the fuel.
  unfoldable pub send_loop : ℕ → Sender → List ℕ → Sender × Bool
  send_loop zero s rest = (s, false)
  send_loop (suc fuel) s rest = elim (length rest == 0) [
    | true ↦ (s, true)
    | false ↦ elim (net.accepts s.calls (length rest)) [
      | zero ↦ (record s { calls = s.calls + 1 }, false)
      | suc n ↦ send_loop fuel (put s rest (suc n)) (drop (suc n) rest)
    ]
  ]

  unfoldable pub send_frame : Sender → ℕ → List ℕ → Sender × Bool
  send_frame s opcode payload =
      let frame = make_frame opcode (net.key s.frames) payload in
      if not s.connected
      then (s, false)
      else send_loop (suc (length frame)) (record s { frames = s.frames + 1 }) frame

  -- An item off the front of the queue: sent, dropped if it is empty, or put back at the end.
  unfoldable pub drain_item : Sender → Item → ℕ → Sender × ℕ
  drain_item s item retries =
      let (s', all) = send_frame s (opcode_of item) item.bytes in
      if length item.bytes == 0
      then (s, retries)
      else if not all
      then (record s' { queue = s'.queue ++ item ∷ [] }, retries + 1)
      else (record s' { sent = s'.sent ++ item ∷ [] }, 0)

  unfoldable pub drain_front : Sender → List Item → ℕ → Option (Sender × ℕ)
  drain_front s [] retries = none
  drain_front s (item ∷ queue) retries =
      if ltb retries (length (item ∷ queue))
      then some (drain_item (record s { queue = queue }) item retries)
      else none

  -- `while (!sendQueue_.empty () && retries < sendQueue_.size ())`. `none` is fuel that ran out.
  unfoldable pub drain_loop : ℕ → Sender → ℕ → Option Sender
  drain_loop zero s retries = none
  drain_loop (suc fuel) s retries = elim (drain_front s s.queue retries) [
    | none ↦ some s
    | some (s', retries') ↦ drain_loop fuel s' retries'
  ]

  -- A failure makes `retries` grow, anything else makes the queue shorter: at most a queue's
  -- length of rounds for each length that the queue goes through.
  unfoldable pub drain_send_queue : Sender → Option Sender
  drain_send_queue s = drain_loop (suc (length s.queue * length s.queue + length s.queue)) s 0
