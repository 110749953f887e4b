-- ===== src/WsClient/Reassembly.antt =====
-- `processFrame` over a stream that arrives in pieces.
use mod_audio_stream.Prelude.{
  ℕ, zero, suc, ◌+◌, ◌^◌, ◌<◌, ◌≡◌, ◌≢◌, ◌⊎◌, refl, inl, inr, true, false, List, [], ◌++◌, ◌≤◌,
  arith, ◌==◌, length, length-append, length-drop, ap, sym, subst, ◌∙◌, append_assoc, Bool-cases,
}
use mod_audio_stream.Prelude.Slices.{drop-append_left}
use mod_audio_stream.WsClient.Receive.{
  Frame, Parsed, need_more, overrun, got, parse_frame, Receiver, closing, Event, frame_events,
  Outcome, done, overran, out_of_fuel, after_events, erase_frame, process_loop, process_frame,
}
use mod_audio_stream.WsClient.ReceiveAppend.{InBuffer, parse_frame-InBuffer, parse_frame-append}

pub after_events_nil : (o : Outcome) → after_events [] o ≡ o
after_events_nil (done r es) = refl
after_events_nil overran = refl
after_events_nil out_of_fuel = refl

pub after_events_append :
    (es es' : List Event) (o : Outcome)
    → after_events (es ++ es') o ≡ after_events es (after_events es' o)
after_events_append es es' (done r fs) = ap (done r) (append_assoc es es' fs)
after_events_append es es' overran = refl
after_events_append es es' out_of_fuel = refl

-- The rounds of the loop, by what the buffer holds.
module _ (fuel : ℕ) (r : Receiver) where
  pub loop_wait : parse_frame r.rxbuf ≡ need_more → process_loop (suc fuel) r ≡ done r []
  unfolding process_loop
  loop_wait e = ground arith

  nonempty : (p : Parsed) → parse_frame r.rxbuf ≡ p → p ≢ need_more → (length r.rxbuf == 0) ≡ false
  unfolding parse_frame
  nonempty p e known = ground arith

  pub loop_overrun : parse_frame r.rxbuf ≡ overrun → process_loop (suc fuel) r ≡ overran
  unfolding process_loop
  loop_overrun e = ground (arith, nonempty overrun e (λ z. cc))

  module _ (f : Frame) (e : parse_frame r.rxbuf ≡ got f) where
    pub loop_close :
        (f.opcode == 0x8) ≡ true
        → process_loop (suc fuel) r ≡ done (record r { state = closing; running = false }) []
    unfolding process_loop
    loop_close c = ground (arith, nonempty (got f) e (λ z. cc))

    pub loop_frame :
        (f.opcode == 0x8) ≡ false
        → process_loop (suc fuel) r
          ≡ after_events (frame_events r f) (process_loop fuel (erase_frame r f.size))
    unfolding process_loop
    loop_frame c = ground (arith, nonempty (got f) e (λ z. cc))

pub Parsed-cases : (p : Parsed) → (p ≡ need_more) ⊎ ((p ≡ overrun) ⊎ ((f : Frame) × (p ≡ got f)))
Parsed-cases need_more = inl refl
Parsed-cases overrun = inr (inl refl)
Parsed-cases (got f) = inr (inr (f, refl))

pub erase_frame-shorter :
    (r : Receiver) (f : Frame)
    → parse_frame r.rxbuf ≡ got f
    → length (erase_frame r f.size).rxbuf < length r.rxbuf
unfolding erase_frame
erase_frame-shorter r f e =
    let inside = subst (InBuffer r.rxbuf) e (parse_frame-InBuffer r.rxbuf) in
    omega (arith, length-drop f.size r.rxbuf, inside)

-- Any fuel above the length of the buffer gives the same result.
loop_fuel :
    (m n : ℕ) (r : Receiver)
    → length r.rxbuf < m
    → length r.rxbuf < n
    → process_loop m r ≡ process_loop n r
loop_fuel zero n r hm hn = absurd (omega arith)
loop_fuel (suc m) zero r hm hn = absurd (omega arith)
loop_fuel (suc m) (suc n) r hm hn = elim (Parsed-cases (parse_frame r.rxbuf)) [
  | inl e ↦ rw (loop_wait m r e, loop_wait n r e)
  | inr (inl e) ↦ rw (loop_overrun m r e, loop_overrun n r e)
  | inr (inr (f, e)) ↦ elim (Bool-cases (f.opcode == 0x8)) [
    | inl c ↦ rw (loop_close m r f e c, loop_close n r f e c)
    | inr c ↦
        let less = erase_frame-shorter r f e in
        rw (loop_frame m r f e c, loop_frame n r f e c)
          (ap (after_events (frame_events r f))
            (loop_fuel m n (erase_frame r f.size) (omega arith) (omega arith)))
  ]
]

pub process_frame-got :
    (r : Receiver) (f : Frame)
    → parse_frame r.rxbuf ≡ got f
    → (f.opcode == 0x8) ≡ false
    → process_frame r ≡ after_events (frame_events r f) (process_frame (erase_frame r f.size))
unfolding process_frame
process_frame-got r f e c =
    let less = erase_frame-shorter r f e in
    loop_frame (length r.rxbuf) r f e c
    ∙ ap (after_events (frame_events r f))
        (loop_fuel (length r.rxbuf) _ (erase_frame r f.size) (omega arith) (omega arith))

-- What is left in the buffer is no longer than what was there.
abbrev pub Within : ℕ → Outcome → Type 0
Within n (done r es) = length r.rxbuf ≤ n
Within n overran = Unit {0}
Within n out_of_fuel = Unit {0}

Within-after_events :
    (m n : ℕ) (es : List Event) (o : Outcome) → m ≤ n → Within m o → Within n (after_events es o)
Within-after_events m n es (done r fs) h w = omega (arith, w)
Within-after_events m n es overran h w = tt
Within-after_events m n es out_of_fuel h w = tt

loop-Within : (n : ℕ) (r : Receiver) → Within (length r.rxbuf) (process_loop n r)
loop-Within zero r = unfold process_loop in tt
loop-Within (suc n) r = elim (Parsed-cases (parse_frame r.rxbuf)) [
  | inl e ↦ rw (loop_wait n r e) (omega arith)
  | inr (inl e) ↦ rw (loop_overrun n r e) tt
  | inr (inr (f, e)) ↦ elim (Bool-cases (f.opcode == 0x8)) [
    | inl c ↦ rw (loop_close n r f e c) (omega arith)
    | inr c ↦
        let less = erase_frame-shorter r f e in
        rw (loop_frame n r f e c) (
          Within-after_events (length (erase_frame r f.size).rxbuf) (length r.rxbuf)
            (frame_events r f) _ (omega arith) (loop-Within n (erase_frame r f.size)))
  ]
]

pub process_frame-Within : (r : Receiver) → Within (length r.rxbuf) (process_frame r)
unfolding process_frame
process_frame-Within r = loop-Within (suc (length r.rxbuf)) r

-- Bytes that arrive behind those in the buffer.
abbrev pub feed : Receiver → List ℕ → Receiver
feed r more = record r { rxbuf = r.rxbuf ++ more }

-- `loop` has waited for more bytes with `r'` left: go on with the new bytes.
module _ (more : List ℕ) where
  abbrev GoesOn : Receiver → Outcome → Type 0
  GoesOn r (done r' es) =
      r'.running ≡ true
      → process_frame (feed r more) ≡ after_events es (process_frame (feed r' more))
  GoesOn r overran = Unit {0}
  GoesOn r out_of_fuel = Unit {0}

  feed-frame :
      (r : Receiver) (f : Frame)
      → length (r.rxbuf ++ more) < 2 ^ 63
      → parse_frame r.rxbuf ≡ got f
      → (f.opcode == 0x8) ≡ false
      → process_frame (feed r more)
        ≡ after_events (frame_events r f) (process_frame (feed (erase_frame r f.size) more))
  unfolding erase_frame frame_events
  feed-frame r f small e c =
      let inside = subst (InBuffer r.rxbuf) e (parse_frame-InBuffer r.rxbuf) in
      let known : parse_frame r.rxbuf ≢ need_more = λ z. cc in
      process_frame-got (feed r more) f (parse_frame-append r.rxbuf more small known ∙ e) c
      ∙ ap
          (λ (b : List ℕ). after_events (frame_events r f) (process_frame (record r { rxbuf = b })))
          (drop-append_left r.rxbuf more f.size inside.1)

  GoesOn-after :
      (r r1 : Receiver) (es : List Event) (o : Outcome)
      → process_frame (feed r more) ≡ after_events es (process_frame (feed r1 more))
      → GoesOn r1 o
      → GoesOn r (after_events es o)
  GoesOn-after r r1 es (done r' fs) step h =
      λ run. step ∙ ap (after_events es) (h run) ∙ sym (after_events_append es fs _)
  GoesOn-after r r1 es overran step h = tt
  GoesOn-after r r1 es out_of_fuel step h = tt

  goes_on :
      (n : ℕ) (r : Receiver)
      → length r.rxbuf < n
      → length r.rxbuf + length more < 2 ^ 63
      → GoesOn r (process_loop n r)
  goes_on zero r h small = absurd (omega arith)
  goes_on (suc n) r h small = elim (Parsed-cases (parse_frame r.rxbuf)) [
    | inl e ↦ rw (loop_wait n r e) (λ run. sym (after_events_nil _))
    | inr (inl e) ↦ rw (loop_overrun n r e) tt
    | inr (inr (f, e)) ↦ elim (Bool-cases (f.opcode == 0x8)) [
      | inl c ↦ rw (loop_close n r f e c) (λ run. cc)
      | inr c ↦
          let less = erase_frame-shorter r f e in
          rw (loop_frame n r f e c) (
            GoesOn-after r (erase_frame r f.size) (frame_events r f) _
              (feed-frame r f (omega (arith, length-append r.rxbuf more)) e c)
              (goes_on n (erase_frame r f.size) (omega arith) (omega arith)))
    ]
  ]

-- If processFrame has handled what is in the buffer, without a close frame or an overrun, and more
-- bytes arrive then, the calls made are, in order, those that it makes when all the bytes are there
-- at once, and it ends in the same state. The buffer must stay below 2^63 bytes.
pub process_frame-append :
    (r r' : Receiver) (es : List Event) (more : List ℕ)
    → process_frame r ≡ done r' es
    → r'.running ≡ true
    → length r.rxbuf + length more < 2 ^ 63
    → process_frame (feed r more) ≡ after_events es (process_frame (feed r' more))
unfolding process_frame
process_frame-append r r' es more e run small =
    subst (GoesOn more r) e (goes_on more (suc (length r.rxbuf)) r (omega arith) small) run
