-- ===== src/WsClient/QueueLaws.antt =====
-- What `sendBinary` and `sendMessage` do to the send queue.
use mod_audio_stream.Prelude.{
  ℕ, ◌≤◌, ◌<◌, ◌≡◌, ◌⊎◌, inl, inr, refl, Bool, true, false, not, ◌&&◌, List, [], ◌∷◌, ◌++◌, arith,
  ◌==◌, length, length-append, dec_lt, Bool-cases,
}
use mod_audio_stream.WsClient.Send.{max_send_queue, Item, enqueue, send_binary, send_message}

-- The queue keeps its bound. `item` went to its end if it was `accepted` and there was room; else
-- nothing changed, for one of these reasons.
abbrev pub Queued : List Item → Item → Bool → List Item → Type 0
Queued queue item accepted queue' =
    (length queue' ≤ max_send_queue)
    × (((accepted ≡ true) × (length queue < max_send_queue) × (queue' ≡ queue ++ item ∷ []))
        ⊎ (((accepted ≡ false) ⊎ (length queue ≡ max_send_queue)) × (queue' ≡ queue)))

enqueue-Queued :
    (queue : List Item) (item : Item) (accepted : Bool)
    → accepted ≡ true
    → length queue ≤ max_send_queue
    → Queued queue item accepted (enqueue queue item)
unfolding enqueue
enqueue-Queued queue item accepted g bound = elim (dec_lt (length queue) max_send_queue) [
  | yes room ↦
      let e : enqueue queue item ≡ queue ++ item ∷ [] = ground arith in
      rw e (omega (arith, length-append queue (item ∷ [])), inl (g, room, refl))
  | no full ↦
      let e : enqueue queue item ≡ queue = ground arith in
      rw e (bound, inr (inr (omega arith), refl))
]

module _ (queue : List Item) (text : List ℕ) (bound : length queue ≤ max_send_queue) where
  abbrev pub has_bytes : Bool
  has_bytes = not (length text == 0)

  -- For a queue within its bound of 1024 items: sendBinary keeps the bound, and it puts the bytes
  -- at the end of the queue as a binary exactly if there are bytes, the state is OPEN and there is
  -- room; else the queue stays as it was.
  send_binary-Queued :
      (is_open : Bool)
      → Queued queue
          (record { bytes = text; is_binary = true })
          (is_open && has_bytes)
          (send_binary is_open queue text)
  unfolding send_binary
  send_binary-Queued is_open =
      let item : Item = record { bytes = text; is_binary = true } in
      elim (Bool-cases (is_open && has_bytes)) [
        | inl given ↦
            let e : send_binary is_open queue text ≡ enqueue queue item = ground (arith, given) in
            rw e (enqueue-Queued queue item (is_open && has_bytes) given bound)
        | inr none_ ↦
            let e : send_binary is_open queue text ≡ queue = ground (arith, none_) in
            rw e (bound, inr (inl none_, refl))
      ]

  -- For a queue within its bound of 1024 items: sendMessage keeps the bound, and it puts the bytes
  -- at the end of the queue as a text exactly if there are bytes and there is room, whatever the
  -- state of the connection; else the queue stays as it was.
  send_message-Queued :
      Queued queue (record { bytes = text; is_binary = false }) has_bytes (send_message queue text)
  unfolding send_message
  send_message-Queued =
      let item : Item = record { bytes = text; is_binary = false } in
      elim (Bool-cases has_bytes) [
        | inl given ↦
            let e : send_message queue text ≡ enqueue queue item = ground (arith, given) in
            rw e (enqueue-Queued queue item has_bytes given bound)
        | inr none_ ↦
            let e : send_message queue text ≡ queue = ground (arith, none_) in
            rw e (bound, inr (inl none_, refl))
      ]

  -- For a queue within its bound of 1024 items: sendBinary and sendMessage keep the bound.
  -- sendBinary puts the bytes at the end as a binary exactly if there are bytes, the state is OPEN
  -- and there is room; sendMessage puts them there as a text exactly if there are bytes and there
  -- is room, whatever the state; else the queue stays as it was.
  pub send-Queued :
      (is_open : Bool)
      → Queued queue
          (record { bytes = text; is_binary = true })
          (is_open && has_bytes)
          (send_binary is_open queue text)
        × Queued queue
            (record { bytes = text; is_binary = false })
            has_bytes
            (send_message queue text)
  send-Queued is_open = (send_binary-Queued is_open, send_message-Queued)
