-- ===== src/Stream/Simple.antt =====
-- A buffer and a resampler that do what the callbacks rely on: they show that it can be had.
use mod_audio_stream.Prelude.{
  ℕ, ◌+◌, ◌-◌, ◌*◌, ◌≤◌, ◌<◌, ◌≡◌, refl, List, [], ◌++◌, arith, leb, ◌==◌, ◌&&◌, if◌then◌else◌,
  length, length-append, append-nil, take, drop, length-drop, min,
}
use mod_audio_stream.Stream.Interfaces.{Buffers, Resampler, Resampled}

-- The bytes and the room behind them.
pub record Store : Type 0 where
  pub free : ℕ
  pub bytes : List ℕ

unfoldable pub write_store : Store → List ℕ → Store
write_store b data' =
    if leb (length data') b.free
    then record { free = b.free - length data'; bytes = b.bytes ++ data' }
    else b

abbrev pub read_store : Store → ℕ → List ℕ × Store
read_store b n =
    (take n b.bytes, record { free = b.free + min n (length b.bytes); bytes = drop n b.bytes })

pub write_fits :
    (b : Store) (data' : List ℕ)
    → length data' ≤ b.free
    → (write_store b data').bytes ≡ b.bytes ++ data'
unfolding write_store
write_fits b data' h = ground arith

pub write_full :
    (b : Store) (data' : List ℕ) → b.free < length data' → (write_store b data').bytes ≡ b.bytes
unfolding write_store
write_full b data' h = ground arith

pub write_size :
    (b : Store) (data' : List ℕ)
    → (write_store b data').free + length (write_store b data').bytes ≡ b.free + length b.bytes
unfolding write_store
write_size b data' = ground (arith, length-append b.bytes data')

pub read_size :
    (b : Store) (n : ℕ)
    → (read_store b n).1.free + length (read_store b n).1.bytes ≡ b.free + length b.bytes
read_size b n = omega (arith, length-drop n b.bytes)

abbrev pub simple_buffers : Buffers
simple_buffers = record {
  Buffer = Store;
  capacity = λ b. b.free + length b.bytes;
  contents = λ b. b.bytes;
  inuse = λ b. length b.bytes;
  freespace = λ b. b.free;
  write = write_store;
  read = read_store;
  clear = λ b. record { free = b.free + length b.bytes; bytes = [] };
  inuse_lem = λ b. refl;
  freespace_lem = λ b. refl;
  write_contents = write_fits;
  write_none = write_full;
  write_capacity = write_size;
  read_bytes = λ b n h. refl;
  read_contents = λ b n h. refl;
  read_capacity = read_size;
  clear_contents = λ b. refl;
  clear_capacity = λ b. omega arith;
}

-- A buffer of `n` bytes.
abbrev pub fresh : ℕ → Store
fresh n = record { free = n; bytes = [] }

-- The rates are equal: the samples pass if there is room for all, and none does else. The state is
-- all that passed.
unfoldable pub copy_samples : List ℕ → ℕ → List ℕ → ℕ → ℕ → Resampled (List ℕ)
copy_samples s channels data' in_len out_len =
    if leb in_len out_len && length data' == in_len * (channels * 2)
    then record { speex = s ++ data'; out_len = in_len; bytes = data' }
    else record { speex = s; out_len = 0; bytes = [] }

module _ (s : List ℕ) (channels : ℕ) (data' : List ℕ) (in_len out_len : ℕ) where
  pub copied_bound : (copy_samples s channels data' in_len out_len).out_len ≤ out_len
  unfolding copy_samples
  copied_bound = ground arith

  pub copied_size :
      length (copy_samples s channels data' in_len out_len).bytes
      ≡ (copy_samples s channels data' in_len out_len).out_len * (channels * 2)
  unfolding copy_samples
  copied_size = ground arith

  pub copied_emitted :
      (copy_samples s channels data' in_len out_len).speex
      ≡ s ++ (copy_samples s channels data' in_len out_len).bytes
  unfolding copy_samples
  copied_emitted = ground (arith, append-nil s)

abbrev pub simple_resampler : Resampler
simple_resampler = record {
  Speex = List ℕ;
  emitted = λ s. s;
  process = copy_samples;
  out_len_bound = copied_bound;
  bytes_size = copied_size;
  bytes_emitted = copied_emitted;
}
