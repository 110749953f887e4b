-- ===== src/WsClient/FrameRoundTrip.antt =====
-- `processFrame` reads back the frames that `sendFrame` builds.
use mod_audio_stream.Prelude.{
  ℕ, ◌+◌, ◌^◌, ◌≤◌, ◌<◌, bit_and, ◌≡◌, refl, true, false, some, List, ◌∷◌, ◌++◌, arith, ◌==◌, not,
  length, length-append, take, drop, ap, sym, ◌∙◌, append_assoc, append-nil,
}
use mod_audio_stream.Prelude.Slices.{take-append, drop-append}
use mod_audio_stream.WsClient.Frame.{length_bytes, apply_mask, make_frame}
use mod_audio_stream.WsClient.Receive.{
  byte_at, length_field, mask_field, unmask, Frame, got, parse_payload, parse_mask, parse_length,
  parse_frame,
}
use mod_audio_stream.WsClient.FrameBytes.{
  length-apply_mask, apply_mask_twice, marked, marked_nibble, marked_high, LengthField,
  length_field_lem,
}

drop_prefix : (pre s : List ℕ) (n : ℕ) → n ≡ length pre → drop n (pre ++ s) ≡ s
drop_prefix pre s n e = drop-append s 0 pre n (omega arith)

take_prefix : (pre s : List ℕ) (n : ℕ) → n ≡ length pre → take n (pre ++ s) ≡ pre
take_prefix pre s n e = take-append s 0 pre n (omega arith) ∙ append-nil pre

mask_field_present :
    (buf mask : List ℕ) (h : ℕ)
    → (bit_and (byte_at buf 1) 0x80 == 0) ≡ false
    → h + 4 ≤ length buf
    → take 4 (drop h buf) ≡ mask
    → mask_field buf h ≡ some (h + 4, mask)
unfolding mask_field
mask_field_present buf mask h bit enough e = ground arith

parse_payload_present :
    (buf key : List ℕ) (h n : ℕ)
    → h + n ≤ length buf
    → h + n < 2 ^ 64
    → parse_payload buf h n key
      ≡ got (record {
        fin = not (bit_and (byte_at buf 0) 0x80 == 0);
        opcode = bit_and (byte_at buf 0) 0x0F;
        payload = unmask (bit_and (byte_at buf 1) 0x80 == 0) key (take n (drop h buf));
        size = h + n;
      })
unfolding parse_payload
parse_payload_present buf key h n enough small = ground arith

-- The parts of a buffer that begins with a frame: header, key and masked payload.
module _ (op : ℕ) (mask payload rest : List ℕ) (op_fits : op < 16) (four : length mask ≡ 4)
    (fits : length payload < 2 ^ 63) where
  header : List ℕ
  header = (128 + op) ∷ length_bytes (length payload)

  masked : List ℕ
  masked = apply_mask mask 0 payload

  buffer : List ℕ
  buffer = header ++ (mask ++ (masked ++ rest))

  frame : Frame
  frame = record {
    fin = true;
    opcode = op;
    payload = payload;
    size = length header + 4 + length payload;
  }

  buffer_lem : make_frame op mask payload ++ rest ≡ buffer
  unfolding make_frame header masked buffer
  buffer_lem = rw (marked op (omega arith)) (simp append_assoc)

  masked_size : length masked ≡ length payload
  unfolding masked
  masked_size = length-apply_mask mask 0 payload

  size : length buffer ≡ length header + 4 + length payload + length rest
  unfolding buffer masked
  size = omega (
    arith,
    four,
    length-append header (mask ++ (masked ++ rest)),
    length-append mask (masked ++ rest),
    length-append masked rest,
    length-apply_mask mask 0 payload,
  )

  frame_size : length (make_frame op mask payload) ≡ length header + 4 + length payload
  unfolding make_frame header masked
  frame_size = omega (
    arith,
    four,
    length-append (length_bytes (length payload)) (mask ++ apply_mask mask 0 payload),
    length-append mask (apply_mask mask 0 payload),
    length-apply_mask mask 0 payload,
  )

  key_slice : take 4 (drop (length header) buffer) ≡ mask
  unfolding buffer
  key_slice =
      rw (drop_prefix header (mask ++ (masked ++ rest)) (length header) refl)
        (take_prefix mask (masked ++ rest) 4 (sym four))

  payload_slice : take (length payload) (drop (length header + 4) buffer) ≡ masked
  unfolding buffer
  payload_slice =
      rw
        (
          drop-append (mask ++ (masked ++ rest)) 4 header (length header + 4) refl,
          drop_prefix mask (masked ++ rest) 4 (sym four),
        )
        (take_prefix masked rest (length payload) (sym masked_size))

  field :
      LengthField
        (128 + op)
        (length payload)
        (length_bytes (length payload))
        (mask ++ (masked ++ rest))
  field = length_field_lem (128 + op) (length payload) (mask ++ (masked ++ rest)) (omega arith)

  header_size : length header ≡ 1 + length (length_bytes (length payload))
  unfolding header
  header_size = omega arith

  masked_bit : (bit_and (byte_at buffer 1) 0x80 == 0) ≡ false
  unfolding buffer header
  masked_bit = field.masked

  field_at : length_field buffer ≡ some (length header, length payload)
  unfolding buffer header
  field_at = field.field ∙ ap (λ (n : ℕ). some (n, length payload)) (sym header_size)

  through_length : parse_length buffer ≡ parse_mask buffer (length header) (length payload)
  unfolding parse_length
  through_length = rw (field_at, parse_length)

  through_mask :
      parse_mask buffer (length header) (length payload)
      ≡ parse_payload buffer (length header + 4) (length payload) mask
  unfolding parse_mask
  through_mask = rw (
    mask_field_present buffer mask (length header) masked_bit (omega (arith, size)) key_slice,
    parse_mask,
  )

  first_byte : byte_at buffer 0 ≡ 128 + op
  unfolding buffer header
  first_byte = refl

  through_payload : parse_payload buffer (length header + 4) (length payload) mask ≡ got frame
  unfolding frame unmask masked
  through_payload =
      parse_payload_present buffer mask (length header + 4) (length payload) (omega (arith, size))
        (omega (arith, header_size, field.few_bytes))
      ∙ ground (
        arith,
        masked_bit,
        payload_slice,
        apply_mask_twice mask 0 payload,
        first_byte,
        marked_nibble op,
        marked_high op,
      )

  through_size : parse_frame buffer ≡ parse_length buffer
  unfolding parse_frame
  through_size = ground (arith, size, header_size)

-- For an opcode of 4 bits, a key of 4 bytes and a payload shorter than 2^63, whatever bytes come
-- behind the frame: processFrame finds the frame that sendFrame built, final, with its opcode and
-- its payload unmasked, and takes exactly the frame's bytes off the buffer.
pub parse_frame-make_frame :
    (op : ℕ) (mask payload rest : List ℕ)
    → op < 16
    → length mask ≡ 4
    → length payload < 2 ^ 63
    → parse_frame (make_frame op mask payload ++ rest)
      ≡ got (record {
        fin = true;
        opcode = op;
        payload = payload;
        size = length (make_frame op mask payload);
      })
unfolding frame
parse_frame-make_frame op mask payload rest h four fits =
    rw (buffer_lem op mask payload rest h four fits, frame_size op mask payload rest h four fits)
      (through_size op mask payload rest h four fits
        ∙ through_length op mask payload rest h four fits
        ∙ through_mask op mask payload rest h four fits
        ∙ through_payload op mask payload rest h four fits)
