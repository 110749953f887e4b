-- ===== src/WsClient/FrameBytes.antt =====
-- The fields of a frame, as `sendFrame` writes them and as `processFrame` reads them.
use mod_audio_stream.Prelude.{
  ℕ, zero, suc, ◌+◌, ◌*◌, ◌/◌, ◌%◌, ◌^◌, ◌≤◌, ◌<◌, bit_and, bit_or, ◌≡◌, refl, ◌⊎◌, inl, inr, false,
  some, List, [], ◌∷◌, ◌++◌, arith, u8, u64, ◌==◌, get_or, length, length-append, bit_or_disjoint,
  bit_and_low, bit_xor_twice, high_bit, ap₂,
}
use mod_audio_stream.WsClient.Frame.{push_length, length_bytes, apply_mask}
use mod_audio_stream.WsClient.Receive.{byte_at, read_length, length_field}

pub length-push_length : (n len : ℕ) → length (push_length n len) ≡ n
unfolding push_length
length-push_length zero len = refl
length-push_length (suc n) len = omega (arith, length-push_length n len)

pub length-apply_mask :
    (mask : List ℕ) (i : ℕ) (s : List ℕ) → length (apply_mask mask i s) ≡ length s
unfolding apply_mask
length-apply_mask mask i [] = refl
length-apply_mask mask i (x ∷ s) = omega (arith, length-apply_mask mask (i + 1) s)

-- Masking is its own inverse.
pub apply_mask_twice :
    (mask : List ℕ) (i : ℕ) (s : List ℕ) → apply_mask mask i (apply_mask mask i s) ≡ s
unfolding apply_mask
apply_mask_twice mask i [] = refl
apply_mask_twice mask i (x ∷ s) =
    ap₂ ◌∷◌ (bit_xor_twice x (get_or mask (bit_and i 0x3) 0)) (apply_mask_twice mask (i + 1) s)

-- A byte with bit 7 set: what its masks read.
pub marked : (n : ℕ) → n < 128 → u8 (bit_or 0x80 n) ≡ 128 + n
marked n h = omega (arith, bit_or_disjoint 7 1 n h)

pub marked_low : (n : ℕ) → n < 128 → bit_and (128 + n) 0x7F ≡ n
marked_low n h = omega (arith, bit_and_low 7 (128 + n))

pub marked_nibble : (n : ℕ) → n < 16 → bit_and (128 + n) 0x0F ≡ n
marked_nibble n h = omega (arith, bit_and_low 4 (128 + n))

pub marked_high : (n : ℕ) → n < 128 → (bit_and (128 + n) 0x80 == 0) ≡ false
marked_high n h = ground (arith, high_bit (128 + n))

-- One round of reading a length.
shift_in : (n b m : ℕ) → n < 2 ^ 56 → b < 256 → m ≡ n * 256 + b → bit_or (u64 (n * 2 ^ 8)) b ≡ m
shift_in n b m hn hb e =
    let fits : u64 (n * 2 ^ 8) ≡ n * 2 ^ 8 = omega arith in
    rw fits (omega (arith, bit_or_disjoint 8 n b hb))

-- Eight bytes, most significant first.
pub read_length_eight :
    (len b0 b1 : ℕ) (s : List ℕ)
    → len < 2 ^ 64
    → read_length 8 2 (b0 ∷ b1 ∷ (push_length 8 len ++ s)) 0 ≡ len
unfolding read_length push_length
read_length_eight len b0 b1 s h =
    let digit = λ (i : ℕ). bit_and_low 8 (len / 2 ^ i) in
    rw
      (
        digit 56,
        digit 48,
        digit 40,
        digit 32,
        digit 24,
        digit 16,
        digit 8,
        digit 0,
        shift_in 0 (len / 2 ^ 56 % 256) (len / 2 ^ 56) (omega arith) (omega arith) (omega arith),
        shift_in (len / 2 ^ 56) (len / 2 ^ 48 % 256) (len / 2 ^ 48) (omega arith) (omega arith)
            (omega arith),
        shift_in (len / 2 ^ 48) (len / 2 ^ 40 % 256) (len / 2 ^ 40) (omega arith) (omega arith)
            (omega arith),
        shift_in (len / 2 ^ 40) (len / 2 ^ 32 % 256) (len / 2 ^ 32) (omega arith) (omega arith)
            (omega arith),
        shift_in (len / 2 ^ 32) (len / 2 ^ 24 % 256) (len / 2 ^ 24) (omega arith) (omega arith)
            (omega arith),
        shift_in (len / 2 ^ 24) (len / 2 ^ 16 % 256) (len / 2 ^ 16) (omega arith) (omega arith)
            (omega arith),
        shift_in (len / 2 ^ 16) (len / 2 ^ 8 % 256) (len / 2 ^ 8) (omega arith) (omega arith)
            (omega arith),
        shift_in (len / 2 ^ 8) (len / 2 ^ 0 % 256) len (omega arith) (omega arith) (omega arith),
      )
      refl

length_bytes-short : (len : ℕ) → len < 126 → length_bytes len ≡ (128 + len) ∷ []
unfolding length_bytes
length_bytes-short len h = ground (arith, marked len)

length_bytes-medium :
    (len : ℕ) → 126 ≤ len → len < 65536 → length_bytes len ≡ 254 ∷ push_length 2 len
unfolding length_bytes
length_bytes-medium len h h' = ground (arith, marked 126)

length_bytes-long : (len : ℕ) → 65536 ≤ len → length_bytes len ≡ 255 ∷ push_length 8 len
unfolding length_bytes
length_bytes-long len h = ground (arith, marked 127)

length_field-short :
    (op n : ℕ) (s : List ℕ) → n < 126 → length_field (op ∷ (128 + n) ∷ s) ≡ some (2, n)
unfolding length_field
length_field-short op n s h = ground (arith, marked_low n)

length_field-medium :
    (op len : ℕ) (s : List ℕ)
    → len < 65536
    → length_field (op ∷ 254 ∷ (push_length 2 len ++ s)) ≡ some (4, len)
unfolding length_field push_length
length_field-medium op len s h = ground (
  arith,
  marked_low 126,
  bit_and_low 8 (len / 2 ^ 8),
  bit_and_low 8 (len / 2 ^ 0),
  bit_or_disjoint 8 (len / 2 ^ 8 % 256) (len / 2 ^ 0 % 256),
)

length_field-long :
    (op len : ℕ) (s : List ℕ)
    → len < 2 ^ 64
    → length_field (op ∷ 255 ∷ (push_length 8 len ++ s)) ≡ some (10, len)
unfolding length_field
length_field-long op len s h = ground (
  arith,
  marked_low 127,
  length-append (push_length 8 len) s,
  length-push_length 8 len,
  read_length_eight len op 255 s,
)

-- What `sendFrame` writes as a length, `processFrame` reads; the mask bit is set.
pub record LengthField (op len : ℕ) (bytes s : List ℕ) : Type 0 where
  pub field : length_field (op ∷ (bytes ++ s)) ≡ some (1 + length bytes, len)
  pub masked : (bit_and (byte_at (op ∷ (bytes ++ s)) 1) 0x80 == 0) ≡ false
  pub some_bytes : 1 ≤ length bytes
  pub few_bytes : length bytes ≤ 9

length_field_cases : (len : ℕ) → (len < 126) ⊎ (((126 ≤ len) × (len < 65536)) ⊎ (65536 ≤ len))
length_field_cases len = ground arith

pub length_field_lem :
    (op len : ℕ) (s : List ℕ) → len < 2 ^ 64 → LengthField op len (length_bytes len) s
length_field_lem op len s h = elim (length_field_cases len) [
  | inl short ↦ rw (length_bytes-short len short) (record {
    field = length_field-short op len s short;
    masked = marked_high len (omega arith);
    some_bytes = omega arith;
    few_bytes = omega arith;
  })
  | inr (inl (lo, hi)) ↦
      let size = length-push_length 2 len in
      rw (length_bytes-medium len lo hi) (record {
        field = rw size (length_field-medium op len s hi);
        masked = marked_high 126 (omega arith);
        some_bytes = omega arith;
        few_bytes = omega (arith, size);
      })
  | inr (inr long) ↦
      let size = length-push_length 8 len in
      rw (length_bytes-long len long) (record {
        field = rw size (length_field-long op len s h);
        masked = marked_high 127 (omega arith);
        some_bytes = omega arith;
        few_bytes = omega (arith, size);
      })
]
