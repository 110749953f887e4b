-- ===== src/LifeCycle/Safety.antt =====
-- What no interleaving of the threads can do.
use mod_audio_stream.Prelude.{ℕ, ◌≤◌, ◌≡◌, true, false, some, [], arith}
use mod_audio_stream.LifeCycle.Store.{Pvt, Store}
use mod_audio_stream.LifeCycle.Threads.{System, Reach, deletes, disconnects}
use mod_audio_stream.LifeCycle.Invariant.{holds, owns}
use mod_audio_stream.LifeCycle.Kept.{streamer_set, Reach-SharedInv}

-- From a session of which no cleanup was started, whatever number of threads run
-- stream_session_cleanup and stream_session_send_text and however their statements interleave: the
-- wrapper of the streamer is deleted at most once and the streamer disconnected at most once, the
-- wrapper is not deleted while pAudioStreamer is set, two threads are never both inside the mutex,
-- and two threads never both own what a cleanup took. Each thread runs one operation.
pub Reach-Once :
    {st : Store} {s : System} (p : Pvt)
    → st.user_data ≡ some p
    → p.cleanup_started ≡ false
    → st.log ≡ []
    → Reach st s
    → (deletes s.shared'.store ≤ 1)
      × (disconnects s.shared'.store ≤ 1)
      × (streamer_set s.shared'.store.user_data ≡ true → deletes s.shared'.store ≡ 0)
      × ((t u : ℕ) → holds (s.pcs t) ≡ true → holds (s.pcs u) ≡ true → t ≡ u)
      × ((t u : ℕ) → owns (s.pcs t) ≡ true → owns (s.pcs u) ≡ true → t ≡ u)
Reach-Once {s} p given fresh silent r =
    let inv = Reach-SharedInv p given fresh silent r in
    (
      inv.deleted_once,
      inv.dropped_once,
      (λ q. inv.undeleted (inv.open_flag q)),
      (λ t u q w. grind (arith, inv.exclusive t q, inv.exclusive u w)),
      inv.single,
    )
