-- ===== src/WsClient/Closing.antt =====
-- How a connection of ws_client.cpp is started, and how it is closed.
use mod_audio_stream.Prelude.{
  ◌≡◌, ◌⊎◌, inl, inr, refl, sym, ap, ap₂, ◌&&◌, List, ℕ, ◌∙◌, true, false, none, some, ◌++◌, arith,
  append_assoc, subst, subst,
}
use mod_audio_stream.WsClient.Receive.{State, disconnected, connecting, opened, closing, closed}
use mod_audio_stream.WsClient.Connection.{
  Attempt, on_close, on_open, Client, connect, request_close, failed, up, set_up, close_code,
  tear_down, tell_close, Call, Action,
}
use mod_audio_stream.WsClient.CallbackLaws.{disconnects, when, call_back-After}
use mod_audio_stream.WsClient.SetUp.{still_set, IsReleased, succeeds, Open, Failed, Reached}
use mod_audio_stream.WsClient.ConnectionLaws.{set_up-Reached}

-- `connect` has started the thread.
abbrev pub started : Client → Client
started c = record c { state = connecting; running = true; thread_started = true; joinable = true }

connect-started :
    (c : Client) → c.state ≡ disconnected → c.joinable ≡ false → connect c ≡ some (started c)
unfolding connect
connect-started c idle fresh = ground (arith, idle, fresh)

connect-joinable : (c : Client) → c.state ≡ disconnected → c.joinable ≡ true → connect c ≡ none
unfolding connect
connect-joinable c idle busy = ground (arith, idle, busy)

request_close-busy :
    (c : Client)
    → (c.state ≡ connecting) ⊎ (c.state ≡ opened)
    → request_close c ≡ record c { state = closing; running = false }
unfolding request_close
request_close-busy c busy = ground (arith, busy)

module _ (does : Call → List Action) where
  module _ (a : Attempt) (c : Client) (free : IsReleased c) where
    set_up-Failed : (c' : Client) → set_up does a c ≡ failed c' → Failed does c c'
    set_up-Failed c' e =
        (subst (Reached does c (succeeds a c.use_tls)) e (set_up-Reached does a c free)).1

    set_up-Open : (c' : Client) → set_up does a c ≡ up c' → Open does c c'
    set_up-Open c' e =
        (subst (Reached does c (succeeds a c.use_tls)) e (set_up-Reached does a c free)).1

  -- The thread has ended: nothing is held, and `onClose_`, if it is set, got the code.
  pub record Ended (c d : Client) (code : ℕ) : Type 0 where
    pub state : d.state ≡ closed
    pub released : IsReleased d
    pub calls : d.calls ≡ c.calls ++ when c.close_set (on_close code)

  tear_down-Ended :
      (c : Client) (s : State)
      → c.socket ≡ true
      → c.state ≡ s
      → Ended c (tear_down does c) (close_code s)
  unfolding tear_down tell_close
  tear_down-Ended c s held e =
      let d : Client = record c { socket = false; ssl = false; context = false; state = closed } in
      let f = call_back-After does c.close_set (on_close (close_code c.state)) d in
      rw held (record {
        state = f.at_rest (inr refl);
        released = (f.socket, f.ssl, f.context);
        calls = f.calls ∙ ap (λ q. c.calls ++ when c.close_set (on_close (close_code q))) e;
      })

  -- A client that is disconnected, holds nothing and has no thread calls connect, no callback
  -- disconnects, and the set-up fails: the next connect assigns to a std::thread that is joinable,
  -- which ends the program.
  pub connect-set_up :
      (a : Attempt) (c c' : Client)
      → IsReleased c
      → c.state ≡ disconnected
      → c.joinable ≡ false
      → ((k : Call) → disconnects (does k) ≡ false)
      → set_up does a (started c) ≡ failed c'
      → (connect c ≡ some (started c)) × (connect c' ≡ none)
  connect-set_up a c c' free idle fresh quiet e =
      let f = set_up-Failed a (started c) free c' e in
      (connect-started c idle fresh, connect-joinable c' f.state (f.joinable quiet))

  -- The calls of a connection that is set up from `c` and ends with this code.
  abbrev pub whole_calls : Client → ℕ → List Call
  whole_calls c code =
      when c.open_set on_open
      ++ when (still_set does c.close_set c.open_set on_open) (on_close code)

  Ended-whole :
      (c d e : Client) (code : ℕ)
      → d.calls ≡ c.calls ++ when c.open_set on_open
      → d.close_set ≡ still_set does c.close_set c.open_set on_open
      → Ended d e code
      → e.calls ≡ c.calls ++ whole_calls c code
  Ended-whole c d e code calls closes ended =
      ended.calls
      ∙ ap₂ (λ l s. l ++ when s (on_close code)) calls closes
      ∙ append_assoc c.calls (when c.open_set on_open)
          (when (still_set does c.close_set c.open_set on_open) (on_close code))

  -- When disconnect comes while the connection is set up and the set-up then works, with an onOpen_
  -- that does not disconnect itself: the state is OPEN again, the poll loop is skipped, and the
  -- calls are onOpen_, if it is set, and then onClose_, if it is set and onOpen_ did not take it
  -- away, with code 1006, not the 1000 of a connection that was closed on request.
  pub set_up-request_close :
      (a : Attempt) (c c' : Client)
      → IsReleased c
      → c.state ≡ connecting
      → (c.open_set && disconnects (does on_open)) ≡ false
      → set_up does a (request_close c) ≡ up c'
      → (c'.running ≡ false)
        × (c'.state ≡ opened)
        × ((tear_down does c').calls ≡ c.calls ++ whole_calls c 1006)
  unfolding close_code
  set_up-request_close a c c' free busy quiet e =
      let f =
        set_up-Open a (record c { state = closing; running = false }) free c'
          (ap (set_up does a) (sym (request_close-busy c (inl busy))) ∙ e) in
      (
        f.running quiet,
        f.state quiet,
        Ended-whole c c' _ 1006 f.calls f.close_set
            (tear_down-Ended c' opened f.socket (f.state quiet)),
      )

  -- The connection set up from `c` has ended as `d`, and told so with this code.
  abbrev pub EndedWith : Client → ℕ → Client → Type 0
  EndedWith c code d = (d.state ≡ closed) × IsReleased d × (d.calls ≡ c.calls ++ whole_calls c code)
