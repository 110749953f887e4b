-- ===== src/WsClient/SendLaws.antt =====
-- What `sendFrame` leaves on the wire, and what `drainSendQueue` leaves in the queue.
use mod_audio_stream.Prelude.{
  ℕ, zero, suc, ◌+◌, ◌≤◌, ◌<◌, ◌≡◌, ◌↔◌, ◌⊎◌, refl, sym, ap, ◌∙◌, inl, inr, Bool, true, false, List,
  ◌++◌, arith, length, take, drop, length-drop, append_assoc, append-nil, dec_lt,
}
use mod_audio_stream.Prelude.Slices.{take-drop}
use mod_audio_stream.WsClient.Frame.{make_frame}
use mod_audio_stream.WsClient.Send.{Network, Sender, put, send_loop, send_frame}

-- `s'` is `s` after `n` bytes of `bytes` went out, all of them exactly if `all` is true.
pub record Wrote (s : Sender) (bytes : List ℕ) (s' : Sender) (all : Bool) : Type 0 where
  pub count : ℕ
  pub count_bound : count ≤ length bytes
  pub wire : s'.wire ≡ s.wire ++ take count bytes
  pub complete : (all ≡ true) ↔ (count ≡ length bytes)
  pub queue : s'.queue ≡ s.queue
  pub sent : s'.sent ≡ s.sent
  pub connected : s'.connected ≡ s.connected
  pub frames : s'.frames ≡ s.frames

ℕ-cases : (n : ℕ) → (n ≡ 0) ⊎ ((m : ℕ) × (n ≡ suc m))
ℕ-cases zero = inl refl
ℕ-cases (suc m) = inr (m, refl)

module _ (net : Network) where
  Wrote-put :
      (s : Sender) (rest : List ℕ) (n : ℕ) (s' : Sender) (all : Bool)
      → n ≤ length rest
      → Wrote (put net s rest n) (drop n rest) s' all
      → Wrote s rest s' all
  unfolding put
  Wrote-put s rest n s' all h w = record {
    count = n + w.count;
    count_bound = omega (arith, length-drop n rest, w.count_bound);
    wire =
        w.wire
        ∙ append_assoc s.wire (take n rest) (take w.count (drop n rest))
        ∙ ap (◌++◌ s.wire) (take-drop n w.count rest);
    complete = (
      λ e. omega (arith, w.complete.0 e, length-drop n rest),
      λ e. w.complete.1 (omega (arith, length-drop n rest)),
    );
    queue = w.queue;
    sent = w.sent;
    connected = w.connected;
    frames = w.frames;
  }

  Wrote-all : (s : Sender) (rest : List ℕ) → length rest ≡ 0 → Wrote s rest s true
  Wrote-all s rest e = record {
    count = 0;
    count_bound = omega arith;
    wire = sym (append-nil s.wire);
    complete = (λ z. sym e, λ z. refl);
    queue = refl;
    sent = refl;
    connected = refl;
    frames = refl;
  }

  Wrote-none :
      (s : Sender) (rest : List ℕ) (k : ℕ)
      → 0 < length rest
      → Wrote s rest (record s { calls = k }) false
  Wrote-none s rest k h = record {
    count = 0;
    count_bound = omega arith;
    wire = sym (append-nil s.wire);
    complete = (λ z. cc, λ z. absurd (omega arith));
    queue = refl;
    sent = refl;
    connected = refl;
    frames = refl;
  }

  module _ (fuel : ℕ) (s : Sender) (rest : List ℕ) where
    pub send_loop-done : length rest ≡ 0 → send_loop net (suc fuel) s rest ≡ (s, true)
    unfolding send_loop
    send_loop-done e = ground arith

    pub send_loop-stop :
        0 < length rest
        → net.accepts s.calls (length rest) ≡ 0
        → send_loop net (suc fuel) s rest ≡ (record s { calls = s.calls + 1 }, false)
    unfolding send_loop
    send_loop-stop h e = ground arith

    pub send_loop-more :
        (n : ℕ)
        → 0 < length rest
        → net.accepts s.calls (length rest) ≡ suc n
        → send_loop net (suc fuel) s rest
          ≡ send_loop net fuel (put net s rest (suc n)) (drop (suc n) rest)
    unfolding send_loop
    send_loop-more n h e = ground arith

  Wrote-loop :
      (fuel : ℕ) (s : Sender) (rest : List ℕ)
      → length rest < fuel
      → Wrote s rest (send_loop net fuel s rest).0 (send_loop net fuel s rest).1
  Wrote-loop zero s rest h = absurd (omega arith)
  Wrote-loop (suc fuel) s rest h = elim (dec_lt 0 (length rest)) [
    | no gone ↦
        let empty : length rest ≡ 0 = omega arith in
        rw (send_loop-done fuel s rest empty) (Wrote-all s rest empty)
    | yes left ↦ elim (ℕ-cases (net.accepts s.calls (length rest))) [
      | inl e ↦ rw (send_loop-stop fuel s rest left e) (Wrote-none s rest (s.calls + 1) left)
      | inr (n, e) ↦
          let bound = net.accepts_bound s.calls (length rest) in
          rw (send_loop-more fuel s rest n left e) (
            Wrote-put s rest (suc n) _ _ (omega arith) (
              Wrote-loop fuel (put net s rest (suc n)) (drop (suc n) rest)
                (omega (arith, length-drop (suc n) rest))))
    ]
  ]

  pub send_frame-open :
      (s : Sender) (opcode : ℕ) (payload : List ℕ)
      → s.connected ≡ true
      → let frame = make_frame opcode (net.key s.frames) payload in
        send_frame net s opcode payload
        ≡ send_loop net (suc (length frame)) (record s { frames = s.frames + 1 }) frame
  unfolding send_frame
  send_frame-open s opcode payload open_ = ground arith

  -- While the socket is open, sendFrame returns after writing a prefix of the frame to the wire,
  -- and answers true exactly when the prefix is the whole frame; queue and log stay as they are.
  pub send_frame-Wrote :
      (s : Sender) (opcode : ℕ) (payload : List ℕ)
      → s.connected ≡ true
      → Wrote
          (record s { frames = s.frames + 1 })
          (make_frame opcode (net.key s.frames) payload)
          (send_frame net s opcode payload).0
          (send_frame net s opcode payload).1
  send_frame-Wrote s opcode payload open_ =
      let frame = make_frame opcode (net.key s.frames) payload in
      rw (send_frame-open s opcode payload open_)
        (Wrote-loop (suc (length frame)) (record s { frames = s.frames + 1 }) frame (omega arith))
