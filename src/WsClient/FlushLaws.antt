-- ===== src/WsClient/FlushLaws.antt =====
-- A network that takes all it is given: the queue goes out in order, and a peer reads it so.
use mod_audio_stream.Prelude.{
  ℕ, zero, suc, ◌+◌, ◌*◌, ◌<◌, ◌≡◌, ◌≢◌, refl, sym, ap, ◌∙◌, true, some, List, [], ◌∷◌, ◌++◌, arith,
  length, append_assoc, append-nil, dec_lt,
}
use mod_audio_stream.Prelude.Slices.{take_all, drop_all}
use mod_audio_stream.WsClient.Frame.{make_frame}
use mod_audio_stream.WsClient.Send.{
  Item, Network, Sender, put, send_loop, send_frame, opcode_of, drain_item, drain_front, drain_loop,
  drain_send_queue,
}
use mod_audio_stream.WsClient.SendLaws.{send_frame-open, send_loop-done, send_loop-more}
use mod_audio_stream.WsClient.DrainLaws.{live, drain_loop-stop, drain_loop-step}

module _ (net : Network) where
  -- The frames of items that have something to send, from the `k`-th key on.
  unfoldable pub frames_of : ℕ → List Item → List ℕ
  frames_of k [] = []
  frames_of k (i ∷ q) = make_frame (opcode_of i) (net.key k) i.bytes ++ frames_of (k + 1) q

  -- `s` after the frame of `item` went out.
  abbrev flushed : Sender → ℕ → List ℕ → Sender
  flushed s op payload = record s {
    frames = s.frames + 1;
    calls = s.calls + 1;
    wire = s.wire ++ make_frame op (net.key s.frames) payload;
  }

  -- `s'` is `s` after all that `queue` has to send went out.
  pub record Flushed (s : Sender) (queue : List Item) (s' : Sender) : Type 0 where
    pub none_left : s'.queue ≡ []
    pub sent : s'.sent ≡ s.sent ++ live queue
    pub wire : s'.wire ≡ s.wire ++ frames_of s.frames (live queue)

  module _ (takes_all : (k n : ℕ) → net.accepts k n ≡ n) where
    send_loop-all :
        (fuel : ℕ) (s : Sender) (b : ℕ) (rest : List ℕ)
        → send_loop net (suc (suc fuel)) s (b ∷ rest)
          ≡ (record s { calls = s.calls + 1; wire = s.wire ++ b ∷ rest }, true)
    unfolding put
    send_loop-all fuel s b rest =
        send_loop-more net (suc fuel) s (b ∷ rest) (length rest) (omega arith)
          (takes_all s.calls (suc (length rest)))
        ∙ rw (drop_all rest (length rest) (omega arith), take_all rest (length rest) (omega arith))
            (send_loop-done net fuel (record s { calls = s.calls + 1; wire = s.wire ++ b ∷ rest })
              [] refl)

    send_frame-all :
        (s : Sender) (op : ℕ) (payload : List ℕ)
        → s.connected ≡ true
        → send_frame net s op payload ≡ (flushed s op payload, true)
    unfolding make_frame
    send_frame-all s op payload open_ =
        send_frame-open net s op payload open_
        ∙ send_loop-all _ (record s { frames = s.frames + 1 }) _ _

    drain_item-all :
        (s : Sender) (item : Item) (r : ℕ)
        → s.connected ≡ true
        → length item.bytes ≢ 0
        → drain_item net s item r
          ≡ (record (flushed s (opcode_of item) item.bytes) { sent = s.sent ++ item ∷ [] }, 0)
    unfolding drain_item
    drain_item-all s item r open_ full =
        rw (send_frame-all s (opcode_of item) item.bytes open_) (ground arith)

    drain_item-skip :
        (s : Sender) (item : Item) (r : ℕ)
        → length item.bytes ≡ 0
        → drain_item net s item r ≡ (s, r)
    unfolding drain_item
    drain_item-skip s item r empty = ground arith

    drain_front-first :
        (s : Sender) (item : Item) (queue : List Item)
        → drain_front net s (item ∷ queue) 0
          ≡ some (drain_item net (record s { queue = queue }) item 0)
    unfolding drain_front
    drain_front-first s item queue = ground arith

    drain_front-on :
        (s s' : Sender) (item : Item) (queue : List Item)
        → s.queue ≡ item ∷ queue
        → drain_item net (record s { queue = queue }) item 0 ≡ (s', 0)
        → drain_front net s s.queue 0 ≡ some (s', 0)
    drain_front-on s s' item queue e out =
        ap (λ q. drain_front net s q 0) e ∙ drain_front-first s item queue ∙ ap some out

    Flushed-item :
        (s s' : Sender) (item : Item) (queue : List Item)
        → length item.bytes ≢ 0
        → let t = record s { queue = queue } in
          Flushed
            (record (flushed t (opcode_of item) item.bytes) { sent = s.sent ++ item ∷ [] })
            queue
            s'
          → Flushed s (item ∷ queue) s'
    unfolding live frames_of
    Flushed-item s s' item queue full f =
        let first : live (item ∷ queue) ≡ item ∷ live queue = ground arith in
        record {
          none_left = f.none_left;
          sent =
              f.sent ∙ append_assoc s.sent (item ∷ []) (live queue) ∙ ap (◌++◌ s.sent) (sym first);
          wire =
              f.wire
              ∙ append_assoc s.wire (make_frame (opcode_of item) (net.key s.frames) item.bytes)
                  (frames_of (s.frames + 1) (live queue))
              ∙ ap (λ q. s.wire ++ frames_of s.frames q) (sym first);
        }

    Flushed-skip :
        (s s' : Sender) (item : Item) (queue : List Item)
        → length item.bytes ≡ 0
        → Flushed (record s { queue = queue }) queue s'
        → Flushed s (item ∷ queue) s'
    unfolding live
    Flushed-skip s s' item queue empty f =
        let first : live (item ∷ queue) ≡ live queue = ground arith in
        record {
          none_left = f.none_left;
          sent = f.sent ∙ ap (◌++◌ s.sent) (sym first);
          wire = f.wire ∙ ap (λ q. s.wire ++ frames_of s.frames q) (sym first);
        }

    drain_loop-Flushed :
        (fuel : ℕ) (s : Sender) (queue : List Item)
        → s.connected ≡ true
        → s.queue ≡ queue
        → length queue < fuel
        → (s' : Sender) × (drain_loop net fuel s 0 ≡ some s') × Flushed s queue s'
    drain_loop-Flushed zero s queue open_ e h = absurd (omega arith)
    drain_loop-Flushed (suc fuel) s [] open_ e h = (
      s,
      drain_loop-stop net fuel s 0
          (ap (λ q. drain_front net s q 0) e ∙ (unfold drain_front in refl)),
      record {
        none_left = e;
        sent = unfold live in sym (append-nil s.sent);
        wire = unfold live in unfold frames_of in sym (append-nil s.wire);
      },
    )
    drain_loop-Flushed (suc fuel) s (item ∷ queue) open_ e h = elim (dec_lt 0 (length item.bytes)) [
      | yes full ↦
          let t = record s { queue = queue } in
          let s1 = record (flushed t (opcode_of item) item.bytes) { sent = s.sent ++ item ∷ [] } in
          let out = drain_item-all t item 0 open_ (omega (arith, full)) in
          let (s', ends, f) = drain_loop-Flushed fuel s1 queue open_ refl (omega arith) in
          (
            s',
            drain_loop-step net fuel s 0 s1 0 (drain_front-on s s1 item queue e out) ∙ ends,
            Flushed-item s s' item queue (omega (arith, full)) f,
          )
      | no empty ↦
          let t = record s { queue = queue } in
          let out = drain_item-skip t item 0 (omega (arith, empty)) in
          let (s', ends, f) = drain_loop-Flushed fuel t queue open_ refl (omega arith) in
          (
            s',
            drain_loop-step net fuel s 0 t 0 (drain_front-on s t item queue e out) ∙ ends,
            Flushed-skip s s' item queue (omega (arith, empty)) f,
          )
    ]

    -- While the socket is open and takes all it is given, drainSendQueue empties the queue, and
    -- puts the frames of the items that are not empty on the wire in the order of the queue.
    pub drain_send_queue_flushes :
        (s : Sender)
        → s.connected ≡ true
        → (s' : Sender) × (drain_send_queue net s ≡ some s')
          × (s'.queue ≡ [])
          × (s'.sent ≡ s.sent ++ live s.queue)
          × (s'.wire ≡ s.wire ++ frames_of s.frames (live s.queue))
    unfolding drain_send_queue
    drain_send_queue_flushes s open_ =
        let (s', ends, f) =
          drain_loop-Flushed (suc (length s.queue * length s.queue + length s.queue)) s s.queue
            open_ refl (omega arith) in
        (s', ends, f.none_left, f.sent, f.wire)
