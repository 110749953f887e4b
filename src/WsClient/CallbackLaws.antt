-- ===== src/WsClient/CallbackLaws.antt =====
-- What a callback of the client leaves of the client that called it.
use mod_audio_stream.Prelude.{
  ◌≡◌, ◌⊎◌, refl, sym, subst, ◌∙◌, Bool, true, false, ◌&&◌, not, List, [], ◌∷◌, ◌++◌, arith,
  append-nil,
}
use mod_audio_stream.WsClient.Receive.{State, disconnected, closed}
use mod_audio_stream.WsClient.Connection.{
  Call, Action, clear_callbacks, disconnect_client, Client, request_close, release_thread, perform,
  call_back,
}

-- The actions take the callbacks away.
abbrev pub clears : List Action → Bool
clears [] = false
clears (clear_callbacks ∷ ks) = true
clears (disconnect_client ∷ ks) = clears ks

-- The actions disconnect.
abbrev pub disconnects : List Action → Bool
disconnects [] = false
disconnects (clear_callbacks ∷ ks) = disconnects ks
disconnects (disconnect_client ∷ ks) = true

abbrev pub IsAtRest : State → Type 0
IsAtRest s = (s ≡ disconnected) ⊎ (s ≡ closed)

-- What stays of `c` in `d`, where the actions are `ks`.
pub record Kept (ks : List Action) (c d : Client) : Type 0 where
  pub socket : d.socket ≡ c.socket
  pub ssl : d.ssl ≡ c.ssl
  pub context : d.context ≡ c.context
  pub calls : d.calls ≡ c.calls
  pub close_set : d.close_set ≡ (c.close_set && not (clears ks))
  pub at_rest : IsAtRest c.state → d.state ≡ c.state
  pub state : disconnects ks ≡ false → d.state ≡ c.state
  pub running : disconnects ks ≡ false → d.running ≡ c.running
  pub joinable : disconnects ks ≡ false → d.joinable ≡ c.joinable

disconnect-Kept : (c : Client) → Kept (disconnect_client ∷ []) c (release_thread (request_close c))
unfolding request_close release_thread
disconnect-Kept c = record {
  socket = ground arith;
  ssl = ground arith;
  context = ground arith;
  calls = ground arith;
  close_set = ground arith;
  at_rest = λ r. ground (arith, r);
  state = λ h. ground (arith, h);
  running = λ h. ground (arith, h);
  joinable = λ h. ground (arith, h);
}

-- One action, and then the others.
Kept-cleared :
    (ks : List Action) (c d : Client)
    → Kept ks (record c { error_set = false; close_set = false; open_set = false }) d
    → Kept (clear_callbacks ∷ ks) c d
Kept-cleared ks c d k = record {
  socket = k.socket;
  ssl = k.ssl;
  context = k.context;
  calls = k.calls;
  close_set = ground (arith, k.close_set);
  at_rest = k.at_rest;
  state = k.state;
  running = k.running;
  joinable = k.joinable;
}

Kept-disconnected :
    (ks : List Action) (c b d : Client)
    → Kept (disconnect_client ∷ []) c b
    → Kept ks b d
    → Kept (disconnect_client ∷ ks) c d
Kept-disconnected ks c b d g k = record {
  socket = k.socket ∙ g.socket;
  ssl = k.ssl ∙ g.ssl;
  context = k.context ∙ g.context;
  calls = k.calls ∙ g.calls;
  close_set = ground (arith, k.close_set, g.close_set);
  at_rest = λ r. k.at_rest (subst IsAtRest (sym (g.at_rest r)) r) ∙ g.at_rest r;
  state = λ h. absurd (ground (arith, h));
  running = λ h. absurd (ground (arith, h));
  joinable = λ h. absurd (ground (arith, h));
}

perform-Kept : (ks : List Action) (c : Client) → Kept ks c (perform ks c)
unfolding perform
perform-Kept [] c = record {
  socket = refl;
  ssl = refl;
  context = refl;
  calls = refl;
  close_set = ground arith;
  at_rest = λ r. refl;
  state = λ h. refl;
  running = λ h. refl;
  joinable = λ h. refl;
}
perform-Kept (clear_callbacks ∷ ks) c = Kept-cleared ks c _ (perform-Kept ks _)
perform-Kept (disconnect_client ∷ ks) c =
    Kept-disconnected ks c _ _ (disconnect-Kept c) (perform-Kept ks _)

abbrev pub when : Bool → Call → List Call
when false k = []
when true k = k ∷ []

-- What stays of `c` in `d` where callback `k` was called, if `b`, with these actions.
pub record After (ks : List Action) (b : Bool) (k : Call) (c d : Client) : Type 0 where
  pub socket : d.socket ≡ c.socket
  pub ssl : d.ssl ≡ c.ssl
  pub context : d.context ≡ c.context
  pub calls : d.calls ≡ c.calls ++ when b k
  pub close_set : d.close_set ≡ (c.close_set && not (b && clears ks))
  pub at_rest : IsAtRest c.state → d.state ≡ c.state
  pub state : (b && disconnects ks) ≡ false → d.state ≡ c.state
  pub running : (b && disconnects ks) ≡ false → d.running ≡ c.running
  pub joinable : (b && disconnects ks) ≡ false → d.joinable ≡ c.joinable

pub call_back-After :
    (does : Call → List Action) (b : Bool) (k : Call) (c : Client)
    → After (does k) b k c (call_back does b k c)
unfolding call_back
call_back-After does false k c = record {
  socket = refl;
  ssl = refl;
  context = refl;
  calls = sym (append-nil c.calls);
  close_set = ground arith;
  at_rest = λ r. refl;
  state = λ h. refl;
  running = λ h. refl;
  joinable = λ h. refl;
}
call_back-After does true k c =
    let p = perform-Kept (does k) (record c { calls = c.calls ++ k ∷ [] }) in
    record {
      socket = p.socket;
      ssl = p.ssl;
      context = p.context;
      calls = p.calls;
      close_set = p.close_set;
      at_rest = p.at_rest;
      state = p.state;
      running = p.running;
      joinable = p.joinable;
    }
