-- ===== src/WsClient/Connection.antt =====
-- ws_client.cpp: `connect`, `disconnect`, and `threadFunc` up to the poll loop and behind it.
use mod_audio_stream.Prelude.{
  ℕ, Bool, true, false, ◌&&◌, not, Option, none, some, List, [], ◌∷◌, ◌++◌, if◌then◌else◌,
}
use mod_audio_stream.WsClient.Receive.{State, disconnected, connecting, opened, closing, closed}

-- What `connect (2)` answers: 0, EINPROGRESS, or another error.
pub data TcpAnswer : Type 0 where
  at_once in_progress refused : TcpAnswer

-- What the system and OpenSSL answer while a connection is set up: `getaddrinfo` finds an address;
-- `socket` gives a descriptor; `connect`; `poll` says ready within ten seconds; SO_ERROR is 0;
-- `SSL_CTX_new` and `SSL_connect` succeed; `doHandshake` returns true.
pub record Attempt : Type 0 where
  pub resolved : Bool
  pub has_socket : Bool
  pub tcp : TcpAnswer
  pub ready : Bool
  pub clean : Bool
  pub has_context : Bool
  pub tls_accepted : Bool
  pub upgraded : Bool

-- Calls of `onError_`, `onClose_` and `onOpen_`, with their codes.
pub data Call : Type 0 where
  on_error on_close : ℕ → Call
  on_open : Call

-- What a callback does to the client before it returns: `markCleanedUp` takes the callbacks away,
-- `disconnect` is called in the client's own thread.
pub data Action : Type 0 where
  clear_callbacks disconnect_client : Action

-- The client's fields. `socket`, `ssl` and `context` say whether there is one, `joinable` whether
-- `thread_` stands for a thread, `error_set`, `close_set` and `open_set` whether `onError_`,
-- `onClose_` and `onOpen_` are set.
pub record Client : Type 0 where
  pub state : State
  pub running : Bool
  pub use_tls : Bool
  pub socket : Bool
  pub ssl : Bool
  pub context : Bool
  pub thread_started : Bool
  pub joinable : Bool
  pub error_set : Bool
  pub close_set : Bool
  pub open_set : Bool
  pub calls : List Call

-- `none` is the call of `std::terminate` by an assignment to a joinable `std::thread`.
unfoldable pub connect : Client → Option Client
connect c = elim c.state [
  | disconnected ↦
      if c.joinable
      then none
      else some
          (record c { state = connecting; running = true; thread_started = true; joinable = true })
  | connecting ↦ some c
  | opened ↦ some c
  | closing ↦ some c
  | closed ↦ some c
]

-- The first part of `disconnect`.
unfoldable pub request_close : Client → Client
request_close c = elim c.state [
  | disconnected ↦ c
  | closed ↦ c
  | connecting ↦ record c { state = closing; running = false }
  | opened ↦ record c { state = closing; running = false }
  | closing ↦ record c { state = closing; running = false }
]

-- The second part, after the join or the detach.
unfoldable pub release_thread : Client → Client
release_thread c =
    if c.thread_started && c.joinable
    then record c { thread_started = false; joinable = false }
    else c

-- What `threadFunc` does next: it has returned, or it goes on.
pub data Stage : Type 0 where
  failed up : Client → Stage

abbrev and_then : Stage → (Client → Stage) → Stage
and_then (failed c) f = failed c
and_then (up c) f = f c

-- `state_.exchange (CLOSED)` and the code that `onClose_` gets.
unfoldable pub close_code : State → ℕ
close_code disconnected = 1006
close_code connecting = 1006
close_code opened = 1006
close_code closing = 1000
close_code closed = 1006

-- A callback's own actions on the client.
unfoldable pub perform : List Action → Client → Client
unfolding request_close release_thread
perform [] c = c
perform (clear_callbacks ∷ ks) c =
    perform ks (record c { error_set = false; close_set = false; open_set = false })
perform (disconnect_client ∷ ks) c = perform ks (release_thread (request_close c))

module _ (does : Call → List Action) where
  -- `if (callback) callback (...)`, and what the callback does.
  unfoldable pub call_back : Bool → Call → Client → Client
  unfolding perform
  call_back is_set k c =
      if is_set then perform (does k) (record c { calls = c.calls ++ k ∷ [] }) else c

  unfoldable pub fail : ℕ → Client → Client
  unfolding call_back
  fail code c = call_back c.error_set (on_error code) c

  -- `if (onClose_) onClose_ (code, ...)`: the test stands behind what `fail` did.
  unfoldable pub tell_close : ℕ → Client → Client
  unfolding call_back
  tell_close code c = call_back c.close_set (on_close code) c

  -- `state_ = DISCONNECTED`, `fail (..., error)` and `onClose_ (close, ...)`.
  unfoldable pub abort : Client → ℕ → ℕ → Client
  unfolding fail tell_close
  abort c error close = tell_close close (fail error (record c { state = disconnected }))

  -- The address and the socket.
  unfoldable pub resolve : Attempt → Client → Stage
  unfolding abort
  resolve a c =
      if not a.resolved
      then failed (abort c 6 1006)
      else if not a.has_socket
      then failed (abort c 6 1006)
      else up (record c { socket = true })

  -- The TCP connection; each failure closes the socket.
  unfoldable pub dial : Attempt → Client → Stage
  unfolding abort
  dial a c =
      let gone = record c { socket = false } in
      elim a.tcp [
        | at_once ↦ up c
        | refused ↦ failed (abort gone 6 1006)
        | in_progress ↦
            if not a.ready
            then failed (abort gone 6 1006)
            else if not a.clean
            then failed (abort gone 6 1006)
            else up c
      ]

  -- The TLS handshake, for wss:// only.
  unfoldable pub secure : Attempt → Client → Stage
  unfolding abort
  secure a c =
      if not c.use_tls
      then up c
      else if not a.has_context
      then failed (abort (record c { socket = false }) 7 1006)
      else if not a.tls_accepted
      then failed (abort (record c { socket = false; ssl = false; context = false }) 8 1006)
      else up (record c { ssl = true; context = true })

  -- The HTTP upgrade. `doHandshake` has called `fail` where it returns false.
  unfoldable pub upgrade : Attempt → Client → Stage
  unfolding fail tell_close call_back
  upgrade a c =
      if not a.upgraded
      then failed (
          tell_close 1002 (record (fail 6 c) {
            state = disconnected;
            socket = false;
            ssl = false;
            context = false;
          }))
      else up (call_back c.open_set on_open (record c { state = opened }))

  -- `threadFunc` up to the poll loop.
  unfoldable pub set_up : Attempt → Client → Stage
  unfolding resolve dial secure upgrade
  set_up a c =
      and_then (resolve a c)
        λ c1. and_then (dial a c1) λ c2. and_then (secure a c2) λ c3. upgrade a c3

  -- `threadFunc` behind the poll loop.
  unfoldable pub tear_down : Client → Client
  unfolding close_code tell_close
  tear_down c =
      let code = close_code c.state in
      let d = if c.socket then record c { socket = false; ssl = false; context = false } else c in
      tell_close code (record d { state = closed })
