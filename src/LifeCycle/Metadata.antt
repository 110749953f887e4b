-- ===== src/LifeCycle/Metadata.antt =====
-- audio_streamer_glue.cpp: `send_initial_metadata`, on the array that `stream_data_init` fills.
use mod_audio_stream.Prelude.{
  ℕ, zero, suc, ◌-◌, ◌≤◌, ◌<◌, ◌≡◌, refl, Option, none, some, List, [], ◌∷◌, ◌++◌, append-nil,
  arith, length, take, replicate, ◌==◌, if◌then◌else◌, bind_option,
}
use mod_audio_stream.Prelude.Slices.{take_all}
use mod_audio_stream.StreamUtils.CString.{IsCString}
use mod_audio_stream.LifeCycle.Init.{max_metadata_len, metadata_array}

-- The C string in an array; `none` where no terminator stands in it, so that `strlen` reads on
-- behind the array.
unfoldable pub read_string : List ℕ → Option (List ℕ)
read_string [] = none
read_string (c ∷ s) =
    let rest = bind_option (read_string s) (λ r. some (c ∷ r)) in if c == 0 then some [] else rest

-- The texts that are written, for a bug with user data.
unfoldable pub send_initial_metadata : List ℕ → Option (List (List ℕ))
unfolding read_string
send_initial_metadata array =
    bind_option (read_string array) (λ s. if length s == 0 then some [] else some (s ∷ []))

read_string-append : (s t : List ℕ) → IsCString s → read_string (s ++ 0 ∷ t) ≡ some s
unfolding read_string
read_string-append [] t h = refl
read_string-append (c ∷ s) t h = ground (arith, read_string-append s t h.1)

read_string_over : (n : ℕ) (s : List ℕ) → IsCString s → read_string (take n s) ≡ none
unfolding read_string
read_string_over zero s h = refl
read_string_over (suc n) [] h = refl
read_string_over (suc n) (c ∷ s) h = ground (arith, read_string_over n s h.1)

pred_suc : (k : ℕ) → suc k - 1 ≡ k
pred_suc k = omega arith

no_zeros : (n : ℕ) → 8192 ≤ n → replicate {A = ℕ} (8192 - n) 0 ≡ []
no_zeros n long = let e : 8192 - n ≡ 0 = omega arith in rw e refl

replicate-pos : (k : ℕ) → 0 < k → replicate {A = ℕ} k 0 ≡ 0 ∷ replicate (k - 1) 0
replicate-pos zero h = absurd (omega arith)
replicate-pos (suc k) h = rw (pred_suc k) refl

-- Metadata, a C string, of less than MAX_METADATA_LEN bytes is sent as it was given, and not at all
-- if it is empty; with MAX_METADATA_LEN bytes or more the array holds no terminator, and strlen
-- reads on behind it.
pub send_initial_metadata-metadata_array :
    (text : List ℕ)
    → IsCString text
    → (length text < max_metadata_len
        → send_initial_metadata (metadata_array (some text))
          ≡ some (if length text == 0 then [] else text ∷ []))
      × (max_metadata_len ≤ length text → send_initial_metadata (metadata_array (some text)) ≡ none)
unfolding send_initial_metadata metadata_array
send_initial_metadata-metadata_array text h = (
  (λ short.
      rw
        (
          take_all text 8192 (omega arith),
          replicate-pos (8192 - length text) (omega arith),
          read_string-append text (replicate (8192 - length text - 1) 0) h,
        )
        (ground arith)),
  (λ long.
      rw (no_zeros (length text) long, append-nil (take 8192 text), read_string_over 8192 text h)
        refl),
)
