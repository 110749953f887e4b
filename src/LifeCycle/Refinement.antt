-- ===== src/LifeCycle/Refinement.antt =====
-- What a session promises to those who call it one after another, and that the statements of the
-- entry points keep the promise.
use mod_audio_stream.Prelude.{
  ℕ, suc, ◌≡◌, Bool, true, false, Option, none, some, List, [], ◌∷◌, ◌++◌,
}
use mod_audio_stream.LifeCycle.Store.{
  Pvt, Store, Call, Status, success, failed, write_text, disconnect,
}
use mod_audio_stream.LifeCycle.Threads.{Op, cleanup, send, Pc, called, done, Shared}
use mod_audio_stream.LifeCycle.Alone.{run}

-- What the server notices: a text, or the end.
pub data Effect : Type 0 where
  says : List ℕ → Effect
  leaves : Effect

-- The promise. While the session is live, a text is sent and a cleanup ends it, behind its own text
-- if it has one; from then on every call fails and nothing is noticed.
pub data Phase : Type 0 where
  live over : Phase

abbrev pub last_words : Option (List ℕ) → List Effect
last_words none = leaves ∷ []
last_words (some text) = says text ∷ leaves ∷ []

abbrev pub answer : Phase → Op → Status
answer live op = success
answer over op = failed

abbrev pub noticed : Phase → Op → List Effect
noticed live (send text) = says text ∷ []
noticed live (cleanup text closing) = last_words text
noticed over op = []

abbrev pub later : Phase → Op → Phase
later live (send text) = live
later live (cleanup text closing) = over
later over op = over

abbrev pub answers : Phase → List Op → List (Option Status)
answers ph [] = []
answers ph (op ∷ ops) = some (answer ph op) ∷ answers (later ph op) ops

abbrev pub effects : Phase → List Op → List Effect
effects ph [] = []
effects ph (op ∷ ops) = noticed ph op ++ effects (later ph op) ops

-- The effects among the calls of a log, whose last call is its first.
abbrev pub seen : List Call → List Effect
seen [] = []
seen (write_text text ∷ log) = seen log ++ says text ∷ []
seen (disconnect ∷ log) = seen log ++ leaves ∷ []
seen (_ ∷ log) = seen log

abbrev pub status_of : Pc → Option Status
status_of (done s) = some s
status_of _ = none

-- Thread `t` runs the first operation, statement by statement, the next thread the second, and so
-- on: the answers, none where a thread has not returned, and what is left.
unfoldable pub serve : ℕ → List Op → Shared → List (Option Status) × Shared
unfolding run
serve t [] sh = ([], sh)
serve t (op ∷ ops) sh =
    let r = run 8 t (called op) sh in
    let rest = serve (suc t) ops r.1 in (status_of r.0 ∷ rest.0, rest.1)

-- A session in use, and one that is detached.
abbrev pub live_store : Bool → Bool → Bool → Bool → List Call → Store
live_store close paus res play log = record {
  attached = true;
  user_data = some (record {
    cleanup_started = false;
    close_requested = close;
    audio_paused = paus;
    streamer = some true;
    mutex = true;
    resampler = res;
    playback_resampler = play;
  });
  log = log;
}

abbrev gone_store : Option Pvt → List Call → Store
gone_store u log = record { attached = false; user_data = u; log = log }

-- The answers are those promised, and the server notices what was promised behind what it had.
abbrev pub Keeps : Phase → List Op → List Call → List (Option Status) × Shared → Type 0
Keeps ph ops log r = (r.0 ≡ answers ph ops) × (seen r.1.store.log ≡ seen log ++ effects ph ops)
