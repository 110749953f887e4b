-- ===== src/WsClient/ConnectionTests.antt =====
-- Connections of ws_client.cpp that are set up, and that fail, on concrete answers of the system.
use mod_audio_stream.Prelude.{ℕ, List, ◌≡◌, refl, true, false, none, some, [], ◌∷◌}
use mod_audio_stream.WsClient.Receive.{disconnected, opened, Receiver}
use mod_audio_stream.WsClient.Connection.{
  in_progress, Attempt, Call, on_error, on_close, on_open, Action, clear_callbacks,
  disconnect_client, Client, tell_close, connect, request_close, failed, up, abort, resolve, dial,
  secure, upgrade, set_up, tear_down,
}
use mod_audio_stream.WsClient.SetUp.{Reached, succeeds}
use mod_audio_stream.WsClient.ConnectionLaws.{set_up-Reached}
use mod_audio_stream.WsClient.Closing.{started, connect-set_up, set_up-request_close}

-- Callbacks that leave the client alone, and those of the glue: the one for errors ends in
-- `markCleanedUp` and `disconnect`.
abbrev none_does : Call → List Action
none_does k = []

abbrev glue_does : Call → List Action
glue_does (on_error code) = clear_callbacks ∷ disconnect_client ∷ []
glue_does (on_close code) = []
glue_does on_open = []

-- All goes well, over TLS.
abbrev good : Attempt
good = record {
  resolved = true;
  has_socket = true;
  tcp = in_progress;
  ready = true;
  clean = true;
  has_context = true;
  tls_accepted = true;
  upgraded = true;
}

-- The server does not answer in time.
abbrev late : Attempt
late = record good { ready = false }

abbrev new_client : Client
new_client = record {
  state = disconnected;
  running = false;
  use_tls = true;
  socket = false;
  ssl = false;
  context = false;
  thread_started = false;
  joinable = false;
  error_set = true;
  close_set = true;
  open_set = true;
  calls = [];
}

abbrev after_late : Client
after_late = record (started new_client) {
  state = disconnected;
  calls = on_error 6 ∷ on_close 1006 ∷ [];
}

abbrev online : Client
online = record (started new_client) {
  state = opened;
  socket = true;
  ssl = true;
  context = true;
  calls = on_open ∷ [];
}

late_fails : set_up none_does late (started new_client) ≡ failed after_late
unfolding set_up resolve dial secure upgrade abort tell_close
late_fails = refl

-- The glue has taken `onClose_` away before it is tested, and has given up the thread.
late_in_glue :
    set_up glue_does late (started new_client)
    ≡ failed (record new_client {
      running = true;
      error_set = false;
      close_set = false;
      open_set = false;
      calls = on_error 6 ∷ [];
    })
unfolding set_up resolve dial secure upgrade abort tell_close
late_in_glue = refl

good_opens_stopped :
    set_up none_does good (request_close (started new_client))
    ≡ up (record online { running = false })
unfolding set_up resolve dial secure upgrade request_close
good_opens_stopped = refl

set_up-Reached_example :
    Reached glue_does
      (started new_client)
      (succeeds late true)
      (set_up glue_does late (started new_client))
set_up-Reached_example = set_up-Reached glue_does late (started new_client) (refl, refl, refl)

connect-set_up_example :
    (connect new_client ≡ some (started new_client)) × (connect after_late ≡ none)
connect-set_up_example =
    connect-set_up none_does late new_client after_late (refl, refl, refl) refl refl (λ k. refl)
      late_fails

set_up-request_close_example :
    (false ≡ false)
    × (opened ≡ opened)
    × ((tear_down none_does (record online { running = false })).calls
        ≡ on_open ∷ on_close 1006 ∷ [])
set_up-request_close_example =
    set_up-request_close none_does good (started new_client) (record online { running = false })
      (refl, refl, refl) refl refl good_opens_stopped

abbrev key : List ℕ
key = 1 ∷ 2 ∷ 3 ∷ 4 ∷ []

abbrev receiver : Receiver
receiver = record {
  rxbuf = [];
  state = opened;
  running = true;
  on_message = true;
  on_binary = true;
}
