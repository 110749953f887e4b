-- ===== src/WsClient/WorkerLaws.antt =====
-- What one turn of the poll loop does to the receive buffer and the log.
use mod_audio_stream.Prelude.{
  ℕ, ◌^◌, ◌<◌, ◌≡◌, ◌⊎◌, inl, inr, refl, sym, ap, ◌∙◌, Bool, true, false, Option, none, some, List,
  [], ◌∷◌, ◌++◌, arith, length, length-append, append-nil, bind_option, Bool-cases,
}
use mod_audio_stream.WsClient.Receive.{
  Receiver, Event, Outcome, done, overran, out_of_fuel, after_events, process_frame,
}
use mod_audio_stream.WsClient.Reassembly.{feed, process_frame-append}
use mod_audio_stream.WsClient.Send.{Network, Sender, drain_send_queue}
use mod_audio_stream.WsClient.Worker.{
  Read, bytes, end_of_stream, try_again, broken, Wakeup, Turn, interrupted, poll_failed, woken,
  queued, close_requested, Worker, Flow, on_with, leave, handled, receive, write_turn, read_turn,
  turn,
}

-- The bytes that a turn reads.
abbrev pub read_bytes : Option Read → List ℕ
read_bytes none = []
read_bytes (some (bytes new)) = new
read_bytes (some end_of_stream) = []
read_bytes (some try_again) = []
read_bytes (some broken) = []

abbrev pub bytes_in : Turn → List ℕ
bytes_in interrupted = []
bytes_in poll_failed = []
bytes_in (woken t) = read_bytes t.readable
bytes_in (queued item) = []
bytes_in close_requested = []

abbrev pub stream : List Turn → List ℕ
stream [] = []
stream (t ∷ turns) = bytes_in t ++ stream turns

-- The turn does not end the loop by an error or the stream's end.
abbrev reads_on : Option Read → Bool
reads_on none = true
reads_on (some (bytes new)) = true
reads_on (some end_of_stream) = false
reads_on (some try_again) = true
reads_on (some broken) = false

abbrev pub stays : Turn → Bool
stays interrupted = true
stays poll_failed = false
stays (woken t) = reads_on t.readable
stays (queued item) = true
stays close_requested = true

-- All that can be taken off the buffer was.
abbrev pub Settled : Receiver → Type 0
Settled r = process_frame r ≡ done r []

-- `w'` is `w` after `new` was processed.
pub record Delivered (w w' : Worker) (new : List ℕ) : Type 0 where
  pub events : List Event
  pub outcome : process_frame (feed w.receiver new) ≡ done w'.receiver events
  pub log : w'.delivered ≡ w.delivered ++ events

Delivered-nothing :
    (w w' : Worker)
    → Settled w.receiver
    → w'.receiver ≡ w.receiver
    → w'.delivered ≡ w.delivered
    → Delivered w w' []
Delivered-nothing w w' settled r d = record {
  events = [];
  outcome =
      ap (λ b. process_frame (record w.receiver { rxbuf = b })) (append-nil w.receiver.rxbuf)
      ∙ settled
      ∙ ap (λ z. done z []) (sym r);
  log = d ∙ sym (append-nil w.delivered);
}

nil_of_append {ℓ} : {A : Type ℓ} (p q : List A) → p ++ q ≡ p → q ≡ []
nil_of_append p [] e = refl
nil_of_append p (x ∷ q) e = absurd (omega (arith, ap length e, length-append p (x ∷ q)))

-- What `processFrame` left is settled, as long as the client runs.
module _ (r r' : Receiver) (es : List Event) where
  abbrev Cut : Outcome → Type 0
  Cut (done r1 fs) = done r' es ≡ done r1 (es ++ fs) → done r1 fs ≡ done r' []
  Cut overran = done r' es ≡ overran → overran ≡ done r' []
  Cut out_of_fuel = done r' es ≡ out_of_fuel → out_of_fuel ≡ done r' []

  cut : (o : Outcome) → done r' es ≡ after_events es o → o ≡ done r' []
  cut (done r1 fs) e =
      let same : r' ≡ r1 = cc in
      let none_ : fs ≡ [] = nil_of_append es fs (let f : es ≡ es ++ fs = cc in sym f) in
      rw (sym same, none_) refl
  cut overran e = absurd cc
  cut out_of_fuel e = absurd cc

  pub process_frame-Settled :
      process_frame r ≡ done r' es → r'.running ≡ true → length r.rxbuf < 2 ^ 63 → Settled r'
  process_frame-Settled e run small =
      let whole = process_frame-append r r' es [] e run (omega (arith, small)) in
      let same = ap (λ b. process_frame (record r { rxbuf = b })) (append-nil r.rxbuf) in
      let rest = ap (λ b. process_frame (record r' { rxbuf = b })) (append-nil r'.rxbuf) in
      sym rest ∙ cut _ (sym e ∙ sym same ∙ whole)

module _ (net : Network) where
  abbrev KeepsFlow : Worker → Option Flow → Type 0
  KeepsFlow w none = Unit {0}
  KeepsFlow w (some (on_with w')) = (w'.receiver ≡ w.receiver) × (w'.delivered ≡ w.delivered)
  KeepsFlow w (some (leave w')) = ⊥

  drained-KeepsFlow :
      (w : Worker) (o : Option Sender) (f : Sender → Sender)
      → KeepsFlow w (bind_option o (λ s. some (on_with (record w { sender = f s }))))
  drained-KeepsFlow w none f = tt
  drained-KeepsFlow w (some s) f = (refl, refl)

  write_turn-KeepsFlow : (t : Wakeup) (w : Worker) → KeepsFlow w (write_turn net t w)
  unfolding write_turn
  write_turn-KeepsFlow t w = elim (Bool-cases t.writable) [
    | inl e ↦ rw e (drained-KeepsFlow w (drain_send_queue net w.sender) _)
    | inr e ↦ rw e (refl, refl)
  ]

  abbrev Handled : Worker → List ℕ → Option Worker → Type 0
  Handled w new none = Unit {0}
  Handled w new (some w') = Delivered w w' new

  handled-Handled :
      (w : Worker) (new : List ℕ) (o : Outcome)
      → process_frame (feed w.receiver new) ≡ o
      → Handled w new (handled net w o)
  unfolding handled
  handled-Handled w new (done r es) e = record { events = es; outcome = e; log = refl }
  handled-Handled w new overran e = tt
  handled-Handled w new out_of_fuel e = tt

  -- The turn processed its bytes, or the client is not to run any more.
  abbrev pub Turned : Worker → List ℕ → Option Flow → Type 0
  Turned w new none = Unit {0}
  Turned w new (some (on_with w')) = Delivered w w' new ⊎ (w'.receiver.running ≡ false)
  Turned w new (some (leave w')) = ⊥

  Turned-write :
      (w w' : Worker) (new : List ℕ) (o : Option Flow)
      → Delivered w w' new
      → KeepsFlow w' o
      → Turned w new o
  Turned-write w w' new none d k = tt
  Turned-write w w' new (some (leave u)) d k = absurd k
  Turned-write w w' new (some (on_with u)) d k = inl (record {
    events = d.events;
    outcome = d.outcome ∙ ap (λ r. done r d.events) (sym k.0);
    log = k.1 ∙ d.log;
  })

  pub Settled-Delivered : (w : Worker) → Settled w.receiver → Delivered w w []
  Settled-Delivered w s = Delivered-nothing w w s refl refl

  received-Turned :
      (t : Wakeup) (w : Worker) (new : List ℕ) (o : Option Worker)
      → Handled w new o
      → Turned w new (bind_option o (write_turn net t))
  received-Turned t w new none h = tt
  received-Turned t w new (some w') h = Turned-write w w' new _ h (write_turn-KeepsFlow t w')

  read_turn-Turned :
      (t : Wakeup) (w : Worker) (r : Option Read)
      → Settled w.receiver
      → reads_on r ≡ true
      → Turned w (read_bytes r) (read_turn net t w r)
  unfolding read_turn receive
  read_turn-Turned t w none s h =
      Turned-write w w [] _ (Settled-Delivered w s) (write_turn-KeepsFlow t w)
  read_turn-Turned t w (some (bytes new)) s h =
      received-Turned t w new _ (handled-Handled w new _ refl)
  read_turn-Turned t w (some end_of_stream) s h = absurd cc
  read_turn-Turned t w (some try_again) s h =
      Turned-write w w [] _ (Settled-Delivered w s) (write_turn-KeepsFlow t w)
  read_turn-Turned t w (some broken) s h = absurd cc

  pub turn-Turned :
      (w : Worker) (t : Turn)
      → Settled w.receiver
      → stays t ≡ true
      → Turned w (bytes_in t) (turn net w t)
  unfolding turn
  turn-Turned w interrupted s h = inl (Settled-Delivered w s)
  turn-Turned w poll_failed s h = absurd cc
  turn-Turned w (woken t) s h = read_turn-Turned t w t.readable s h
  turn-Turned w (queued item) s h = inl (Delivered-nothing w _ s refl refl)
  turn-Turned w close_requested s h = inr refl
