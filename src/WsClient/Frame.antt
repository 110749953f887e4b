-- ===== src/WsClient/Frame.antt =====
-- ws_client.cpp: the bytes of the frame that `sendFrame` builds.
use mod_audio_stream.Prelude.{
  ℕ, zero, suc, ◌+◌, ◌*◌, ◌/◌, ◌^◌, bit_and, bit_or, bit_xor, List, [], ◌∷◌, ◌++◌, u8, ltb, get_or,
  if◌then◌else◌, length,
}

-- `for (int i = n - 1; i >= 0; i--) frame.push_back ((len >> (i * 8)) & 0xFF)`.
unfoldable pub push_length : ℕ → ℕ → List ℕ
push_length zero len = []
push_length (suc i) len = bit_and (len / 2 ^ (i * 8)) 0xFF ∷ push_length i len

-- The first bytes of the frame, the length in its shortest form.
unfoldable pub length_bytes : ℕ → List ℕ
length_bytes len =
    if ltb len 126
    then u8 (bit_or 0x80 (u8 len)) ∷ []
    else if ltb len 65536
    then u8 (bit_or 0x80 126) ∷ push_length 2 len
    else u8 (bit_or 0x80 127) ∷ push_length 8 len

-- `data[i] ^ mask[i & 0x3]`, from index `i` on.
unfoldable pub apply_mask : List ℕ → ℕ → List ℕ → List ℕ
apply_mask mask i [] = []
apply_mask mask i (x ∷ data') =
    bit_xor x (get_or mask (bit_and i 0x3) 0) ∷ apply_mask mask (i + 1) data'

-- The whole frame. `mask` is the key of four random bytes.
unfoldable pub make_frame : ℕ → List ℕ → List ℕ → List ℕ
make_frame opcode mask payload =
    u8 (bit_or 0x80 opcode) ∷ (length_bytes (length payload) ++ (mask ++ apply_mask mask 0 payload))
