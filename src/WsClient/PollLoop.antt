-- ===== src/WsClient/PollLoop.antt =====
-- The poll loop delivers what the bytes say, however they come and whatever else it does.
use mod_audio_stream.Prelude.{
  ℕ, ◌+◌, ◌^◌, ◌<◌, ◌≡◌, inl, inr, refl, sym, ap, ◌∙◌, subst, true, false, Option, none, some, List,
  [], ◌∷◌, ◌++◌, arith, ◌≤◌, length, length-append, append_assoc, All, Bool-cases,
}
use mod_audio_stream.WsClient.Receive.{after_events, process_frame}
use mod_audio_stream.WsClient.Reassembly.{feed, process_frame-append, Within, process_frame-Within}
use mod_audio_stream.WsClient.Send.{Network}
use mod_audio_stream.WsClient.Worker.{Turn, Worker, Flow, on_with, leave, turn, poll_loop}
use mod_audio_stream.WsClient.WorkerLaws.{
  bytes_in, stream, stays, Settled, Delivered, process_frame-Settled, Settled-Delivered, Turned,
  turn-Turned,
}

module _ (net : Network) where
  Delivered-trans :
      (w w1 w2 : Worker) (p q : List ℕ)
      → length w.receiver.rxbuf + length p + length q < 2 ^ 63
      → w1.receiver.running ≡ true
      → Delivered w w1 p
      → Delivered w1 w2 q
      → Delivered w w2 (p ++ q)
  Delivered-trans w w1 w2 p q small run d d' = record {
    events = d.events ++ d'.events;
    outcome =
        ap (λ b. process_frame (record w.receiver { rxbuf = b }))
          (sym (append_assoc w.receiver.rxbuf p q))
        ∙ process_frame-append (feed w.receiver p) w1.receiver d.events q d.outcome run
            (omega (arith, length-append w.receiver.rxbuf p))
        ∙ ap (after_events d.events) d'.outcome;
    log = d'.log ∙ ap (λ l. l ++ d'.events) d.log ∙ append_assoc w.delivered d.events d'.events;
  }

  -- What the loop comes to.
  abbrev Ends : Worker → List Turn → Option Worker → Type 0
  Ends w turns none = Unit {0}
  Ends w turns (some w') = w'.receiver.running ≡ true → Delivered w w' (stream turns)

  -- The loop behind a turn.
  abbrev behind : List Turn → Option Flow → Option Worker
  behind turns none = none
  behind turns (some (leave w)) = some w
  behind turns (some (on_with w)) = poll_loop net w turns

  poll_loop-behind :
      (w : Worker) (t : Turn) (turns : List Turn)
      → w.receiver.running ≡ true
      → poll_loop net w (t ∷ turns) ≡ behind turns (turn net w t)
  unfolding poll_loop
  poll_loop-behind w t turns e = rw e refl

  poll_loop-stopped :
      (w : Worker) (turns : List Turn) → w.receiver.running ≡ false → poll_loop net w turns ≡ some w
  unfolding poll_loop
  poll_loop-stopped w [] e = refl
  poll_loop-stopped w (t ∷ turns) e = rw e refl

  module _ (w : Worker) (t : Turn) (turns : List Turn)
      (small : length w.receiver.rxbuf + length (bytes_in t ++ stream turns) < 2 ^ 63) where
    abbrev Hypothesis : Type 0
    Hypothesis =
        (w' : Worker)
        → Settled w'.receiver
        → length w'.receiver.rxbuf + length (stream turns) < 2 ^ 63
        → Ends w' turns (poll_loop net w' turns)

    Ends-before :
        (w' : Worker) (o : Option Worker)
        → w'.receiver.running ≡ true
        → Delivered w w' (bytes_in t)
        → Ends w' turns o
        → Ends w (t ∷ turns) o
    Ends-before w' none run d h = tt
    Ends-before w' (some u) run d h = λ on.
        Delivered-trans w w' u (bytes_in t) (stream turns)
          (omega (arith, small, length-append (bytes_in t) (stream turns))) run d (h on)

    Ends-stopped :
        (w' : Worker) → w'.receiver.running ≡ false → Ends w (t ∷ turns) (poll_loop net w' turns)
    Ends-stopped w' e = rw (poll_loop-stopped w' turns e) (λ run. absurd cc)

    behind-Ends :
        (o : Option Flow)
        → Hypothesis
        → Turned net w (bytes_in t) o
        → Ends w (t ∷ turns) (behind turns o)
    behind-Ends none ih d = tt
    behind-Ends (some (leave w')) ih d = absurd d
    behind-Ends (some (on_with w')) ih (inr e) = Ends-stopped w' e
    behind-Ends (some (on_with w')) ih (inl d) = elim (Bool-cases w'.receiver.running) [
      | inr e ↦ Ends-stopped w' e
      | inl e ↦
          let size = length-append w.receiver.rxbuf (bytes_in t) in
          let more = length-append (bytes_in t) (stream turns) in
          let kept : length w'.receiver.rxbuf ≤ length (w.receiver.rxbuf ++ bytes_in t) =
            subst (Within (length (w.receiver.rxbuf ++ bytes_in t))) d.outcome
              (process_frame-Within (feed w.receiver (bytes_in t))) in
          let settled =
            process_frame-Settled (feed w.receiver (bytes_in t)) w'.receiver d.events d.outcome e
              (omega (arith, size, more, small)) in
          Ends-before w' (poll_loop net w' turns) e d
            (ih w' settled (omega (arith, size, more, kept, small)))
    ]

  poll_loop-Ends :
      (turns : List Turn) (w : Worker)
      → Settled w.receiver
      → length w.receiver.rxbuf + length (stream turns) < 2 ^ 63
      → All (λ t. stays t ≡ true) turns
      → Ends w turns (poll_loop net w turns)
  poll_loop-Ends [] w s small h = unfold poll_loop in λ run. Settled-Delivered net w s
  poll_loop-Ends (t ∷ turns) w s small h = elim (Bool-cases w.receiver.running) [
    | inr e ↦ rw (poll_loop-stopped w (t ∷ turns) e) (λ run. absurd cc)
    | inl e ↦ rw (poll_loop-behind w t turns e) (
        behind-Ends w t turns small (turn net w t)
          (λ w' s' small'. poll_loop-Ends turns w' s' small' h.1) (turn-Turned net w t s h.0))
  ]

  -- While the poll loop runs, without an error of poll or of a read and without the stream's end,
  -- and the client is still to run at the end: whatever the pieces in which the bytes come, and
  -- whatever is written, pinged and queued between them, the calls made are, in order, those of one
  -- processFrame over all the bytes behind those in the buffer, and it ends in the same state.
  -- Before the turns the buffer holds nothing that could be taken off, and with all the bytes it
  -- stays below 2^63.
  pub poll_loop-process_frame :
      (w w' : Worker) (turns : List Turn)
      → Settled w.receiver
      → length w.receiver.rxbuf + length (stream turns) < 2 ^ 63
      → All (λ t. stays t ≡ true) turns
      → poll_loop net w turns ≡ some w'
      → w'.receiver.running ≡ true
      → Delivered w w' (stream turns)
  poll_loop-process_frame w w' turns s small h e run =
      subst (Ends w turns) e (poll_loop-Ends turns w s small h) run
