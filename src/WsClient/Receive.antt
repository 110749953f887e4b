-- ===== src/WsClient/Receive.antt =====
-- ws_client.cpp: `processFrame`, which takes the frames off the receive buffer.
use mod_audio_stream.Prelude.{
  ℕ, zero, suc, ◌+◌, ◌*◌, ◌^◌, bit_and, bit_or, Bool, true, false, ◌&&◌, not, Option, none, some,
  List, [], ◌∷◌, ◌++◌, u64, ltb, ◌==◌, if◌then◌else◌, get_or, length, take, drop,
}
use mod_audio_stream.WsClient.Frame.{apply_mask}

-- `data[k]`; each read below stands behind a test of the buffer's size.
abbrev pub byte_at : List ℕ → ℕ → ℕ
byte_at buf k = get_or buf k 0

-- `for (int i = 0; i < 8; i++) N = (N << 8) | data[2 + i]`, with `left` rounds to go.
unfoldable pub read_length : ℕ → ℕ → List ℕ → ℕ → ℕ
read_length zero k buf n = n
read_length (suc left) k buf n =
    read_length left (k + 1) buf (bit_or (u64 (n * 2 ^ 8)) (byte_at buf k))

-- Header size and payload length; `none` where the header is not there yet.
unfoldable pub length_field : List ℕ → Option (ℕ × ℕ)
length_field buf =
    let n = bit_and (byte_at buf 1) 0x7F in
    if n == 126
    then (if ltb (length buf) 4
        then none
        else some (4, bit_or (byte_at buf 2 * 2 ^ 8) (byte_at buf 3)))
    else if n == 127
    then (if ltb (length buf) 10 then none else some (10, read_length 8 2 buf 0))
    else some (2, n)

-- Header size and mask key, behind a length field that ends at `header`.
unfoldable pub mask_field : List ℕ → ℕ → Option (ℕ × List ℕ)
mask_field buf header =
    if not (bit_and (byte_at buf 1) 0x80 == 0)
    then (if ltb (length buf) (header + 4)
        then none
        else some (header + 4, take 4 (drop header buf)))
    else some (header, 0 ∷ 0 ∷ 0 ∷ 0 ∷ [])

pub record Frame : Type 0 where
  pub fin : Bool
  pub opcode : ℕ
  pub payload : List ℕ
  pub size : ℕ

-- `need_more` is an early return. `overrun` is a payload that reaches past the buffer, though the
-- size test let it through: reading and unmasking it is undefined.
pub data Parsed : Type 0 where
  need_more overrun : Parsed
  got : Frame → Parsed

-- The payload is unmasked where bit 7 of the second byte is set.
unfoldable pub unmask : Bool → List ℕ → List ℕ → List ℕ
unmask bit_is_clear key payload = if bit_is_clear then payload else apply_mask key 0 payload

-- The payload in the buffer. `headerSize + (size_t) N` is a 64-bit sum.
unfoldable pub parse_payload : List ℕ → ℕ → ℕ → List ℕ → Parsed
parse_payload buf header n key =
    if ltb (length buf) (u64 (header + n))
    then need_more
    else if ltb (length buf) (header + n)
    then overrun
    else got (record {
      fin = not (bit_and (byte_at buf 0) 0x80 == 0);
      opcode = bit_and (byte_at buf 0) 0x0F;
      payload = unmask (bit_and (byte_at buf 1) 0x80 == 0) key (take n (drop header buf));
      size = header + n;
    })

unfoldable pub parse_mask : List ℕ → ℕ → ℕ → Parsed
parse_mask buf header n = elim (mask_field buf header) [
  | none ↦ need_more
  | some (header', key) ↦ parse_payload buf header' n key
]

unfoldable pub parse_length : List ℕ → Parsed
parse_length buf = elim (length_field buf) [
  | none ↦ need_more
  | some (header, n) ↦ parse_mask buf header n
]

-- One round of `processFrame` up to the unmasked frame.
unfoldable pub parse_frame : List ℕ → Parsed
parse_frame buf = if ltb (length buf) 2 then need_more else parse_length buf

pub data State : Type 0 where
  disconnected connecting opened closing closed : State

-- What `processFrame` uses of the client. The callbacks may be empty.
pub record Receiver : Type 0 where
  pub rxbuf : List ℕ
  pub state : State
  pub running : Bool
  pub on_message : Bool
  pub on_binary : Bool

-- Calls of `onMessage_` and `onBinary_`, and `sendFrame (0xA, payload)`.
pub data Event : Type 0 where
  message binary pong : List ℕ → Event

unfoldable pub frame_events : Receiver → Frame → List Event
frame_events r f =
    if f.opcode == 0x1 && f.fin
    then (if r.on_message then message f.payload ∷ [] else [])
    else if f.opcode == 0x2 && f.fin
    then (if r.on_binary then binary f.payload ∷ [] else [])
    else if f.opcode == 0x9
    then pong f.payload ∷ []
    else []

pub data Outcome : Type 0 where
  done : Receiver → List Event → Outcome
  overran out_of_fuel : Outcome

abbrev pub after_events : List Event → Outcome → Outcome
after_events es (done r es') = done r (es ++ es')
after_events es overran = overran
after_events es out_of_fuel = out_of_fuel

unfoldable pub erase_frame : Receiver → ℕ → Receiver
erase_frame r n = record r { rxbuf = drop n r.rxbuf }

-- A close frame stays in the buffer: the function returns before the erasure. Its payload, which
-- nothing reads any more, stays masked here, and is unmasked in place by the code.
unfoldable pub process_loop : ℕ → Receiver → Outcome
process_loop zero r = out_of_fuel
process_loop (suc fuel) r = elim (length r.rxbuf == 0) [
  | true ↦ done r []
  | false ↦ elim (parse_frame r.rxbuf) [
    | need_more ↦ done r []
    | overrun ↦ overran
    | got f ↦ elim (f.opcode == 0x8) [
      | true ↦ done (record r { state = closing; running = false }) []
      | false ↦ after_events (frame_events r f) (process_loop fuel (erase_frame r f.size))
    ]
  ]
]

-- Each round takes bytes off the buffer, so its length is fuel enough.
unfoldable pub process_frame : Receiver → Outcome
process_frame r = process_loop (suc (length r.rxbuf)) r
