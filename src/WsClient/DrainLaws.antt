-- ===== src/WsClient/DrainLaws.antt =====
-- `drainSendQueue` returns, and loses no item.
use mathlib.Core.List.{Perm, perm_append_singleton, perm-append_left_iff}
use mathlib.Core.List.Perm
use mod_audio_stream.Prelude.{
  ℕ, zero, suc, ◌+◌, ◌*◌, ◌≤◌, ◌<◌, ◌≡◌, ◌≢◌, ◌⊎◌, refl, ap, inl, inr, Option, none, some, List, [],
  ◌∷◌, ◌++◌, arith, ◌==◌, if◌then◌else◌, length, length-append, append_assoc, Bool-cases, dec_lt,
}
use mod_audio_stream.WsClient.Send.{
  Item, Network, Sender, send_frame, opcode_of, drain_item, drain_front, drain_loop,
  drain_send_queue,
}
use mod_audio_stream.WsClient.SendLaws.{send_frame-Wrote}

-- The items that have something to send.
unfoldable pub live : List Item → List Item
live [] = []
live (i ∷ q) = let rest = live q in if length i.bytes == 0 then rest else i ∷ rest

live-append : (p q : List Item) → live (p ++ q) ≡ live p ++ live q
unfolding live
live-append [] q = refl
live-append (i ∷ p) q = ground (arith, live-append p q)

module _ (net : Network) where
  send_frame-keeps :
      (s : Sender) (op : ℕ) (payload : List ℕ)
      → ((send_frame net s op payload).0.queue ≡ s.queue)
        × ((send_frame net s op payload).0.sent ≡ s.sent)
  send_frame-keeps s op payload = elim (Bool-cases s.connected) [
    | inl open_ ↦ let w = send_frame-Wrote net s op payload open_ in (w.queue, w.sent)
    | inr shut ↦ unfold send_frame in ground arith
  ]

  -- What became of the item: skipped, put back, or sent.
  abbrev Drained : Sender → Item → ℕ → Sender → ℕ → Type 0
  Drained s item r s' r' =
      ((length item.bytes ≡ 0) × (s'.queue ≡ s.queue) × (s'.sent ≡ s.sent) × (r' ≡ r))
      ⊎ (((length item.bytes ≢ 0)
            × (s'.queue ≡ s.queue ++ item ∷ [])
            × (s'.sent ≡ s.sent)
            × (r' ≡ r + 1))
          ⊎ ((length item.bytes ≢ 0)
              × (s'.queue ≡ s.queue)
              × (s'.sent ≡ s.sent ++ item ∷ [])
              × (r' ≡ 0)))

  drain_item-Drained :
      (s : Sender) (item : Item) (r : ℕ)
      → Drained s item r (drain_item net s item r).0 (drain_item net s item r).1
  unfolding drain_item
  drain_item-Drained s item r = ground (arith, send_frame-keeps s (opcode_of item) item.bytes)

  -- Every item with something to send is in the log or still in the queue.
  abbrev Kept : Sender → Sender → Type 0
  Kept s s' = Perm (s'.sent ++ live s'.queue) (s.sent ++ live s.queue)

  drain_front-Kept :
      (s : Sender) (item : Item) (queue : List Item) (r : ℕ) (s' : Sender) (r' : ℕ)
      → s.queue ≡ item ∷ queue
      → Drained (record s { queue = queue }) item r s' r'
      → Kept s s'
  unfolding live
  drain_front-Kept s item queue r s' r' e (inl (empty, q, sent, _)) =
      let skipped : live (item ∷ queue) ≡ live queue = ground arith in
      rw (sent, q, e, skipped) (Perm.refl _)
  drain_front-Kept s item queue r s' r' e (inr (inl (full, q, sent, _))) =
      let first : live (item ∷ queue) ≡ item ∷ live queue = ground arith in
      let last : live (queue ++ item ∷ []) ≡ live queue ++ item ∷ [] =
        ground (arith, live-append queue (item ∷ [])) in
      rw (sent, q, e, first, last)
        ((perm-append_left_iff s.sent).1 (perm_append_singleton item (live queue)))
  drain_front-Kept s item queue r s' r' e (inr (inr (full, q, sent, _))) =
      let first : live (item ∷ queue) ≡ item ∷ live queue = ground arith in
      rw (sent, q, e, first, append_assoc s.sent (item ∷ []) (live queue)) (Perm.refl _)

  module _ (fuel : ℕ) (s : Sender) (r : ℕ) where
    pub drain_loop-stop :
        drain_front net s s.queue r ≡ none → drain_loop net (suc fuel) s r ≡ some s
    unfolding drain_loop
    drain_loop-stop e = ground arith

    pub drain_loop-step :
        (s' : Sender) (r' : ℕ)
        → drain_front net s s.queue r ≡ some (s', r')
        → drain_loop net (suc fuel) s r ≡ drain_loop net fuel s' r'
    unfolding drain_loop
    drain_loop-step s' r' e = rw (e, drain_loop)

  -- A round took `s` to `s'`: nothing is lost, and the bound on the rounds left falls.
  record Round (s : Sender) (r : ℕ) (s' : Sender) (r' : ℕ) : Type 0 where
    kept : Kept s s'
    retries_bound : r' ≤ length s'.queue
    shorter : length s'.queue ≤ length s.queue
    falls :
        length s'.queue * length s'.queue + length s'.queue + r + 1
        ≤ length s.queue * length s.queue + length s.queue + r'

  Round_of_Drained :
      (s : Sender) (item : Item) (queue : List Item) (r : ℕ) (s' : Sender) (r' : ℕ)
      → s.queue ≡ item ∷ queue
      → r < length s.queue
      → Drained (record s { queue = queue }) item r s' r'
      → Round s r s' r'
  Round_of_Drained s item queue r s' r' e lt d = record {
    kept = drain_front-Kept s item queue r s' r' e d;
    retries_bound = ground (arith, d, ap length e, length-append queue (item ∷ []));
    shorter = ground (arith, d, ap length e, length-append queue (item ∷ []));
    falls = grind (arith, d, ap length e, length-append queue (item ∷ []));
  }

  -- The loop ends, and what it ends with.
  abbrev Ends : Sender → Option Sender → Type 0
  Ends s none = ⊥
  Ends s (some s') = Kept s s' × (length s'.queue ≤ length s.queue)

  Ends-round :
      (s : Sender) (r : ℕ) (s' : Sender) (r' : ℕ) (o : Option Sender)
      → Round s r s' r'
      → Ends s' o
      → Ends s o
  Ends-round s r s' r' none t h = h
  Ends-round s r s' r' (some u) t h = (Perm.trans h.0 t.kept, omega (arith, h.1, t.shorter))

  pub drain_front-stop :
      (s : Sender) (queue : List Item) (r : ℕ) → length queue ≤ r → drain_front net s queue r ≡ none
  unfolding drain_front
  drain_front-stop s [] r h = refl
  drain_front-stop s (item ∷ queue) r h = ground arith

  drain_front-Round :
      (s : Sender) (queue : List Item) (r : ℕ)
      → s.queue ≡ queue
      → r < length queue
      → (s' : Sender) × (r' : ℕ) × (drain_front net s queue r ≡ some (s', r')) × Round s r s' r'
  unfolding drain_front
  drain_front-Round s [] r e h = absurd (omega arith)
  drain_front-Round s (item ∷ queue) r e h =
      let t = record s { queue = queue } in
      let out = drain_item net t item r in
      (
        out.0,
        out.1,
        ground arith,
        Round_of_Drained s item queue r out.0 out.1 e (ground (arith, ap length e))
            (drain_item-Drained t item r),
      )

  drain_loop-Ends :
      (fuel : ℕ) (s : Sender) (r : ℕ)
      → r ≤ length s.queue
      → length s.queue * length s.queue + length s.queue < fuel + r
      → Ends s (drain_loop net fuel s r)
  drain_loop-Ends zero s r h more = absurd (grind arith)
  drain_loop-Ends (suc fuel) s r h more = elim (dec_lt r (length s.queue)) [
    | no stop ↦
        rw (drain_loop-stop fuel s r (drain_front-stop s s.queue r (omega arith)))
          (Perm.refl _, omega arith)
    | yes go ↦
        let (s', r', e, t) = drain_front-Round s s.queue r refl go in
        rw (drain_loop-step fuel s r s' r' e) (
          Ends-round s r s' r' _ t
            (drain_loop-Ends fuel s' r' t.retries_bound (omega (arith, t.falls))))
  ]

  Ends-some :
      (s : Sender) (o : Option Sender)
      → Ends s o
      → (s' : Sender) × (o ≡ some s') × Kept s s' × (length s'.queue ≤ length s.queue)
  Ends-some s none h = absurd h
  Ends-some s (some s') h = (s', refl, h.0, h.1)

  -- Whatever the network takes of the frames and the connection's state: drainSendQueue returns,
  -- the queue has not grown, and the items sent whole with those still queued are, up to their
  -- order and but for empty ones, those that were sent or queued before. None is lost or doubled.
  pub drain_send_queue_conserves :
      (s : Sender)
      → (s' : Sender) × (drain_send_queue net s ≡ some s')
        × Perm (s'.sent ++ live s'.queue) (s.sent ++ live s.queue)
        × (length s'.queue ≤ length s.queue)
  unfolding drain_send_queue
  drain_send_queue_conserves s = Ends-some s _ (
      drain_loop-Ends (suc (length s.queue * length s.queue + length s.queue)) s 0 (omega arith)
        (omega arith))
