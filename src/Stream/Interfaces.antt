-- ===== src/Stream/Interfaces.antt =====
-- What the media callbacks use of FreeSWITCH and of the Speex resampler.
use mod_audio_stream.Prelude.{ℕ, ◌+◌, ◌*◌, ◌≤◌, ◌<◌, ◌≡◌, List, [], ◌++◌, length, take, drop}

-- A buffer of a fixed size, as `switch_buffer_create` makes it. `contents` is what the calls of
-- `switch_buffer_write` put in and those of `switch_buffer_read` have not taken out.
pub record Buffers : Type 1 where
  pub Buffer : Type 0
  pub capacity : Buffer → ℕ
  pub contents : Buffer → List ℕ
  pub inuse : Buffer → ℕ
  pub freespace : Buffer → ℕ
  pub write : Buffer → List ℕ → Buffer
  pub read : Buffer → ℕ → List ℕ × Buffer
  pub clear : Buffer → Buffer
  pub inuse_lem : (b : Buffer) → inuse b ≡ length (contents b)
  pub freespace_lem : (b : Buffer) → freespace b + length (contents b) ≡ capacity b
  pub write_contents :
      (b : Buffer) (data' : List ℕ)
      → length data' ≤ freespace b
      → contents (write b data') ≡ contents b ++ data'
  pub write_none :
      (b : Buffer) (data' : List ℕ)
      → freespace b < length data'
      → contents (write b data') ≡ contents b
  pub write_capacity : (b : Buffer) (data' : List ℕ) → capacity (write b data') ≡ capacity b
  pub read_bytes : (b : Buffer) (n : ℕ) → n ≤ inuse b → (read b n).0 ≡ take n (contents b)
  pub read_contents :
      (b : Buffer) (n : ℕ) → n ≤ inuse b → contents (read b n).1 ≡ drop n (contents b)
  pub read_capacity : (b : Buffer) (n : ℕ) → capacity (read b n).1 ≡ capacity b
  pub clear_contents : (b : Buffer) → contents (clear b) ≡ []
  pub clear_capacity : (b : Buffer) → capacity (clear b) ≡ capacity b

-- What a call of `speex_resampler_process_int` or `speex_resampler_process_interleaved_int` leaves.
pub record Resampled (Speex : Type 0) : Type 0 where
  pub speex : Speex
  pub out_len : ℕ
  pub bytes : List ℕ

-- `process s channels data in_len out_len`: it writes as many 16-bit samples for each channel as it
-- reports, and no more than `out_len`. `emitted` is all that a resampler has written.
pub record Resampler : Type 1 where
  pub Speex : Type 0
  pub emitted : Speex → List ℕ
  pub process : Speex → ℕ → List ℕ → ℕ → ℕ → Resampled Speex
  pub out_len_bound :
      (s : Speex) (channels : ℕ) (data' : List ℕ) (in_len out_len : ℕ)
      → (process s channels data' in_len out_len).out_len ≤ out_len
  pub bytes_size :
      (s : Speex) (channels : ℕ) (data' : List ℕ) (in_len out_len : ℕ)
      → length (process s channels data' in_len out_len).bytes
        ≡ (process s channels data' in_len out_len).out_len * (channels * 2)
  pub bytes_emitted :
      (s : Speex) (channels : ℕ) (data' : List ℕ) (in_len out_len : ℕ)
      → emitted (process s channels data' in_len out_len).speex
        ≡ emitted s ++ (process s channels data' in_len out_len).bytes
