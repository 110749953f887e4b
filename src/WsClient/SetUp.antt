-- ===== src/WsClient/SetUp.antt =====
-- What a set-up comes to, and how each of its steps comes to it.
use mod_audio_stream.Prelude.{
  ℕ, ◌≡◌, refl, ap, ap₂, ◌∙◌, inl, Bool, true, false, ◌&&◌, ◌||◌, not, List, ◌++◌, append_assoc,
}
use mod_audio_stream.WsClient.Receive.{disconnected, opened}
use mod_audio_stream.WsClient.Connection.{
  at_once, in_progress, refused, Attempt, Call, on_error, on_close, on_open, Action, Client, Stage,
  failed, up, call_back, fail, tell_close, abort, upgrade,
}
use mod_audio_stream.WsClient.CallbackLaws.{clears, disconnects, when, After, call_back-After}

-- Nothing is held of the system.
abbrev pub IsReleased : Client → Type 0
IsReleased c = (c.socket ≡ false) × (c.ssl ≡ false) × (c.context ≡ false)

unfoldable pub dialled : Attempt → Bool
dialled a = elim a.tcp [ at_once ↦ true | refused ↦ false | in_progress ↦ a.ready && a.clean ]

-- The attempt meets no failure: the specification of success.
unfoldable pub succeeds : Attempt → Bool → Bool
succeeds a use_tls =
    a.resolved
    && (a.has_socket
        && (dialled a && ((not use_tls || (a.has_context && a.tls_accepted)) && a.upgraded)))

-- What the callbacks do to the client.
module _ (does : Call → List Action) where
  -- `onClose_` is set behind a call of `k`, which is made if `b`.
  abbrev pub still_set : Bool → Bool → Call → Bool
  still_set s b k = s && not (b && clears (does k))

  -- The calls of a failed set-up.
  abbrev pub told : Client → ℕ → ℕ → List Call
  told c error close =
      when c.error_set (on_error error)
      ++ when (still_set c.close_set c.error_set (on_error error)) (on_close close)

  -- The set-up worked. The state and `running` are those that `onOpen_` leaves.
  pub record Open (c c' : Client) : Type 0 where
    pub socket : c'.socket ≡ true
    pub ssl : c'.ssl ≡ c.use_tls
    pub context : c'.context ≡ c.use_tls
    pub calls : c'.calls ≡ c.calls ++ when c.open_set on_open
    pub close_set : c'.close_set ≡ still_set c.close_set c.open_set on_open
    pub state : (c.open_set && disconnects (does on_open)) ≡ false → c'.state ≡ opened
    pub running : (c.open_set && disconnects (does on_open)) ≡ false → c'.running ≡ c.running
    pub joinable : (c.open_set && disconnects (does on_open)) ≡ false → c'.joinable ≡ c.joinable

  -- The set-up failed: nothing is held, and the error and the close were reported.
  pub record Failed (c c' : Client) : Type 0 where
    pub state : c'.state ≡ disconnected
    pub released : IsReleased c'
    pub error : ℕ
    pub close : ℕ
    pub calls : c'.calls ≡ c.calls ++ told c error close
    pub joinable : ((k : Call) → disconnects (does k) ≡ false) → c'.joinable ≡ c.joinable

  abbrev pub Reached : Client → Bool → Stage → Type 0
  Reached c ok (failed c') = (ok ≡ false) × Failed c c'
  Reached c ok (up c') = (ok ≡ true) × Open c c'

  -- `onClose_` behind `onError_`, and what `d` was made of between them.
  told_both :
      (c b d e : Client) (error close : ℕ)
      → After (does (on_error error)) c.error_set (on_error error) c b
      → d.calls ≡ b.calls
      → d.close_set ≡ b.close_set
      → After (does (on_close close)) d.close_set (on_close close) d e
      → e.calls ≡ c.calls ++ told c error close
  told_both c b d e error close f same set g =
      g.calls
      ∙ ap₂ (λ l s. l ++ when s (on_close close)) (same ∙ f.calls) (set ∙ f.close_set)
      ∙ append_assoc c.calls (when c.error_set (on_error error))
          (when (still_set c.close_set c.error_set (on_error error)) (on_close close))

  quiet : (b : Bool) (k : Call) → disconnects (does k) ≡ false → (b && disconnects (does k)) ≡ false
  quiet false k h = refl
  quiet true k h = h

  -- Every failure up to the TLS handshake.
  pub abort-Failed :
      (c d : Client) (error close : ℕ)
      → IsReleased d
      → d.calls ≡ c.calls
      → d.error_set ≡ c.error_set
      → d.close_set ≡ c.close_set
      → d.joinable ≡ c.joinable
      → Failed c (abort does d error close)
  unfolding abort fail tell_close
  abort-Failed c d error close free same errors closes thread =
      let d0 = record d { state = disconnected } in
      let f = call_back-After does d.error_set (on_error error) d0 in
      let b = call_back does d.error_set (on_error error) d0 in
      let g = call_back-After does b.close_set (on_close close) b in
      let resting : b.state ≡ disconnected = f.at_rest (inl refl) in
      record {
        state = g.at_rest (inl resting) ∙ resting;
        released = (
          g.socket ∙ (f.socket ∙ free.0),
          g.ssl ∙ (f.ssl ∙ free.1),
          g.context ∙ (f.context ∙ free.2),
        );
        error = error;
        close = close;
        calls =
            told_both d0 b b _ error close f refl refl g
            ∙ ap₂ (λ l t. l ++ t) same
                (ap₂
                  (λ e s.
                    when e (on_error error)
                    ++ when (still_set s e (on_error error)) (on_close close))
                  errors closes);
        joinable = λ h.
            g.joinable (quiet b.close_set (on_close close) (h (on_close close)))
            ∙ (f.joinable (quiet d.error_set (on_error error) (h (on_error error))) ∙ thread);
      }

  -- The upgrade, on the client with its socket and its TLS objects.
  module _ (a : Attempt) (c d : Client) (calls : d.calls ≡ c.calls)
      (errors : d.error_set ≡ c.error_set) (closes : d.close_set ≡ c.close_set)
      (opens : d.open_set ≡ c.open_set) (runs : d.running ≡ c.running)
      (thread : d.joinable ≡ c.joinable) where
    pub refused-Failed : a.upgraded ≡ false → Reached c false (upgrade does a d)
    unfolding upgrade fail tell_close
    refused-Failed refused_ =
        let f = call_back-After does d.error_set (on_error 6) d in
        let b = call_back does d.error_set (on_error 6) d in
        let b0 = record b { state = disconnected; socket = false; ssl = false; context = false } in
        let g = call_back-After does b0.close_set (on_close 1002) b0 in
        rw refused_ (
          refl,
          record {
            state = g.at_rest (inl refl);
            released = (g.socket, g.ssl, g.context);
            error = 6;
            close = 1002;
            calls =
                told_both d b b0 _ 6 1002 f refl refl g
                ∙ ap₂ (λ l t. l ++ t) calls
                    (ap₂
                      (λ e s.
                        when e (on_error 6) ++ when (still_set s e (on_error 6)) (on_close 1002))
                      errors closes);
            joinable = λ h.
                g.joinable (quiet b0.close_set (on_close 1002) (h (on_close 1002)))
                ∙ (f.joinable (quiet d.error_set (on_error 6) (h (on_error 6))) ∙ thread);
          },
        )

    pub upgraded-Open :
        a.upgraded ≡ true
        → d.socket ≡ true
        → d.ssl ≡ c.use_tls
        → d.context ≡ c.use_tls
        → Reached c true (upgrade does a d)
    unfolding upgrade
    upgraded-Open yes_ socket ssl context =
        let d0 = record d { state = opened } in
        let f = call_back-After does d.open_set on_open d0 in
        let on = λ (h : (c.open_set && disconnects (does on_open)) ≡ false).
          ap (λ o. o && disconnects (does on_open)) opens ∙ h in
        rw yes_ (
          refl,
          record {
            socket = f.socket ∙ socket;
            ssl = f.ssl ∙ ssl;
            context = f.context ∙ context;
            calls = f.calls ∙ ap₂ (λ l o. l ++ when o on_open) calls opens;
            close_set = f.close_set ∙ ap₂ (λ s o. still_set s o on_open) closes opens;
            state = λ h. f.state (on h);
            running = λ h. f.running (on h) ∙ runs;
            joinable = λ h. f.joinable (on h) ∙ thread;
          },
        )
