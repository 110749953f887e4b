-- ===== src/WsClient/PartialWrite.antt =====
-- What `drainSendQueue` does with an item whose frame the socket takes only in part.
use mod_audio_stream.Prelude.{
  ℕ, suc, ◌+◌, ◌*◌, ◌≤◌, ◌<◌, ◌≡◌, ◌≢◌, refl, ap, ◌∙◌, true, false, some, List, [], ◌∷◌, ◌++◌,
  arith, length, take, drop, length-drop,
}
use mod_audio_stream.Prelude.Slices.{take_all, drop_all}
use mod_audio_stream.WsClient.Frame.{make_frame}
use mod_audio_stream.WsClient.Send.{
  Item, Network, Sender, put, send_loop, send_frame, opcode_of, drain_item, drain_front, drain_loop,
  drain_send_queue,
}
use mod_audio_stream.WsClient.DrainLaws.{drain_loop-step, drain_loop-stop, drain_front-stop}
use mod_audio_stream.WsClient.SendLaws.{
  send_frame-open, send_loop-stop, send_loop-more, send_loop-done,
}

module _ (net : Network) (item : Item) where
  -- The frame that the item gets in state `s`.
  abbrev pub frame_in : Sender → List ℕ
  frame_in s = make_frame (opcode_of item) (net.key s.frames) item.bytes

  -- `s` with `item` alone in the queue after `n` bytes of its frame went out, and one call failed.
  abbrev pub torn : Sender → ℕ → Sender
  torn s n = record s {
    queue = item ∷ [];
    frames = s.frames + 1;
    calls = s.calls + 1 + 1;
    wire = s.wire ++ take n (frame_in s);
  }

  -- `s` after the whole frame of `item`, the last of the queue, went out in one call.
  abbrev pub whole : Sender → Sender
  whole s = record s {
    queue = [];
    frames = s.frames + 1;
    calls = s.calls + 1;
    wire = s.wire ++ frame_in s;
    sent = s.sent ++ item ∷ [];
  }

  drain_front-alone :
      (s : Sender)
      → drain_front net s (item ∷ []) 0 ≡ some (drain_item net (record s { queue = [] }) item 0)
  unfolding drain_front
  drain_front-alone s = ground arith

  drain_alone :
      (s s' : Sender) (r : ℕ)
      → s.queue ≡ item ∷ []
      → drain_item net (record s { queue = [] }) item 0 ≡ (s', r)
      → length s'.queue ≤ r
      → drain_send_queue net s ≡ some s'
  unfolding drain_send_queue
  drain_alone s s' r e out h =
      ap (λ (q : List Item). drain_loop net (suc (length q * length q + length q)) s 0) e
      ∙ drain_loop-step net 2 s 0 s' r
          (ap (λ q. drain_front net s q 0) e ∙ drain_front-alone s ∙ ap some out)
      ∙ drain_loop-stop net 1 s' r (drain_front-stop net s' s'.queue r h)

  send_loop-torn :
      (fuel : ℕ) (t : Sender) (rest : List ℕ) (n : ℕ)
      → suc n < length rest
      → net.accepts t.calls (length rest) ≡ suc n
      → net.accepts (t.calls + 1) (length (drop (suc n) rest)) ≡ 0
      → send_loop net (suc (suc fuel)) t rest
        ≡ (record t { calls = t.calls + 1 + 1; wire = t.wire ++ take (suc n) rest }, false)
  unfolding put
  send_loop-torn fuel t rest n h first second =
      send_loop-more net (suc fuel) t rest n (omega arith) first
      ∙ send_loop-stop net fuel (put net t rest (suc n)) (drop (suc n) rest)
          (omega (arith, length-drop (suc n) rest)) second

  send_loop-whole :
      (fuel : ℕ) (t : Sender) (b : ℕ) (rest : List ℕ)
      → net.accepts t.calls (suc (length rest)) ≡ suc (length rest)
      → send_loop net (suc (suc fuel)) t (b ∷ rest)
        ≡ (record t { calls = t.calls + 1; wire = t.wire ++ b ∷ rest }, true)
  unfolding put
  send_loop-whole fuel t b rest all =
      send_loop-more net (suc fuel) t (b ∷ rest) (length rest) (omega arith) all
      ∙ rw (drop_all rest (length rest) (omega arith), take_all rest (length rest) (omega arith))
          (send_loop-done net fuel (record t { calls = t.calls + 1; wire = t.wire ++ b ∷ rest }) []
            refl)

  module _ (s : Sender) (open_ : s.connected ≡ true) where
    send_torn :
        (n : ℕ)
        → suc n < length (frame_in s)
        → net.accepts s.calls (length (frame_in s)) ≡ suc n
        → net.accepts (s.calls + 1) (length (drop (suc n) (frame_in s))) ≡ 0
        → send_frame net s (opcode_of item) item.bytes ≡ (
          record s {
            frames = s.frames + 1;
            calls = s.calls + 1 + 1;
            wire = s.wire ++ take (suc n) (frame_in s);
          },
          false,
        )
    unfolding make_frame
    send_torn n h first second =
        send_frame-open net s (opcode_of item) item.bytes open_
        ∙ send_loop-torn _ (record s { frames = s.frames + 1 }) _ n h first second

    send_whole :
        net.accepts s.calls (length (frame_in s)) ≡ length (frame_in s)
        → send_frame net s (opcode_of item) item.bytes ≡ (
          record s { frames = s.frames + 1; calls = s.calls + 1; wire = s.wire ++ frame_in s },
          true,
        )
    unfolding make_frame
    send_whole all =
        send_frame-open net s (opcode_of item) item.bytes open_
        ∙ send_loop-whole _ (record s { frames = s.frames + 1 }) _ _ all

  drain_torn :
      (s : Sender) (n : ℕ)
      → s.connected ≡ true
      → length item.bytes ≢ 0
      → s.queue ≡ item ∷ []
      → suc n < length (frame_in s)
      → net.accepts s.calls (length (frame_in s)) ≡ suc n
      → net.accepts (s.calls + 1) (length (drop (suc n) (frame_in s))) ≡ 0
      → drain_send_queue net s ≡ some (torn s (suc n))
  unfolding drain_item
  drain_torn s n open_ full alone h first second =
      drain_alone s (torn s (suc n)) 1 alone
        (rw (send_torn (record s { queue = [] }) open_ n h first second) (ground arith))
        (omega arith)

  drain_whole :
      (s : Sender)
      → s.connected ≡ true
      → length item.bytes ≢ 0
      → s.queue ≡ item ∷ []
      → net.accepts s.calls (length (frame_in s)) ≡ length (frame_in s)
      → drain_send_queue net s ≡ some (whole s)
  unfolding drain_item
  drain_whole s open_ full alone all =
      drain_alone s (whole s) 0 alone
        (rw (send_whole (record s { queue = [] }) open_ all) (ground arith)) (omega arith)

  -- The only item of the queue is written in part, n + 1 bytes of its frame, and the socket then
  -- takes no more; the next drainSendQueue finds a socket that takes a whole frame at once. On the
  -- wire stand the first n + 1 bytes of the item's frame and then, where the peer still reads that
  -- frame's rest, a second frame of the item, whole; the item counts as sent.
  pub drain_send_queue-torn :
      (s : Sender) (n : ℕ)
      → s.connected ≡ true
      → length item.bytes ≢ 0
      → s.queue ≡ item ∷ []
      → suc n < length (frame_in s)
      → net.accepts s.calls (length (frame_in s)) ≡ suc n
      → net.accepts (s.calls + 1) (length (drop (suc n) (frame_in s))) ≡ 0
      → net.accepts (s.calls + 1 + 1) (length (frame_in (torn s (suc n))))
        ≡ length (frame_in (torn s (suc n)))
      → (s1 s2 : Sender) × (drain_send_queue net s ≡ some s1)
        × (drain_send_queue net s1 ≡ some s2)
        × (s2.wire ≡ (s.wire ++ take (suc n) (frame_in s)) ++ frame_in (torn s (suc n)))
        × (s2.queue ≡ [])
        × (s2.sent ≡ s.sent ++ item ∷ [])
  drain_send_queue-torn s n open_ full alone h first second all = (
    torn s (suc n),
    whole (torn s (suc n)),
    drain_torn s n open_ full alone h first second,
    drain_whole (torn s (suc n)) open_ full refl all,
    refl,
    refl,
    refl,
  )
