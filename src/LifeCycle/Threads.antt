-- ===== src/LifeCycle/Threads.antt =====
-- Threads that take a session down or write to it at the same time: the statements of
-- `stream_session_cleanup` and `stream_session_send_text` as steps, interleaved in every order.
use mod_audio_stream.Prelude.{
  ℕ, zero, suc, ◌≡◌, Bool, true, false, Option, none, some, List, [], ◌∷◌, ◌==◌, if◌then◌else◌,
}
use mod_audio_stream.LifeCycle.Store.{
  Pvt, Store, Status, success, failed, Call, wrapper_delete, disconnect, lock, unlock, write_text,
  call,
}
use mod_audio_stream.LifeCycle.Handlers.{
  points, take_streamer, remove_bug, delete_wrapper, quit_streamer, destroy_user_data,
}

-- What a thread was asked to do: the text and `channelIsClosing`, or the text.
pub data Op : Type 0 where
  cleanup : Option (List ℕ) → Bool → Op
  send : List ℕ → Op

-- Where a thread stands. `found`: it has the bug and its user data and is to lock the mutex.
-- `inside`: it holds the mutex. `checked`: it has seen that no cleanup was started. `taken` to
-- `quit`: it has unlocked the mutex and owns what it took. `copied`: it has the `shared_ptr`'s
-- copy. `crashed`: it used a mutex that was destroyed.
pub data Pc : Type 0 where
  idle : Pc
  called : Op → Pc
  found : Op → Pc
  inside : Op → Pc
  checked : Option (List ℕ) → Bool → Pc
  taken : Option Bool → Option (List ℕ) → Bool → Pc
  removed : Option Bool → Option (List ℕ) → Pc
  released : Bool → Option (List ℕ) → Pc
  quit : Pc
  copied : Bool → List ℕ → Pc
  done : Status → Pc
  crashed : Pc

-- `holder`: the thread that holds the mutex.
pub record Shared : Type 0 where
  pub store : Store
  pub holder : Option ℕ

abbrev pub shared : Store → Option ℕ → Shared
shared st h = record { store = st; holder = h }

-- The private and the user data, read without the mutex.
unfoldable pub look_up : Op → Shared → Pc × Shared
look_up op sh =
    if sh.store.attached
    then elim sh.store.user_data [ none ↦ (done failed, sh) | some p ↦ (found op, sh) ]
    else (done failed, sh)

-- Locking waits (`none`) while another thread holds the mutex.
unfoldable pub acquire : ℕ → Op → Pvt → Shared → Option (Pc × Shared)
unfolding call
acquire t op p sh =
    if p.mutex
    then elim sh.holder [
      | none ↦ some (inside op, shared (call lock sh.store) (some t))
      | some u ↦ none
    ]
    else some (crashed, sh)

-- The statement under the mutex: the test of `cleanup_started`, or the copy and the unlock.
unfoldable pub check : Op → Pvt → Shared → Pc × Shared
unfolding call points
check (cleanup text closing) p sh =
    if p.cleanup_started
    then (done success, shared (call unlock sh.store) none)
    else (checked text closing, sh)
check (send text) p sh = (copied (points p.streamer) text, shared (call unlock sh.store) none)

unfoldable pub on_pvt : Shared → (Pvt → Option (Pc × Shared)) → Option (Pc × Shared)
on_pvt sh f = elim sh.store.user_data [ none ↦ none | some p ↦ f p ]

-- The next statement of thread `t`; `none` while it waits or has nothing to do.
unfoldable pub act : ℕ → Pc → Shared → Option (Pc × Shared)
unfolding look_up acquire check on_pvt call take_streamer remove_bug delete_wrapper points
    quit_streamer destroy_user_data
act t (called op) sh = some (look_up op sh)
act t (found op) sh = on_pvt sh (λ p. acquire t op p sh)
act t (inside op) sh = on_pvt sh (λ p. if p.mutex then some (check op p sh) else some (crashed, sh))
act t (checked text closing) sh = on_pvt sh (λ p.
    if p.mutex
    then some (taken p.streamer text closing, shared (take_streamer p sh.store) none)
    else some (crashed, sh))
act t (taken wrap text closing) sh =
    some (removed wrap text, shared (remove_bug closing sh.store) sh.holder)
act t (removed wrap text) sh =
    some (released (points wrap) text, shared (delete_wrapper wrap sh.store) sh.holder)
act t (released full text) sh = some (quit, shared (quit_streamer full text sh.store) sh.holder)
act t quit sh = some (done success, shared (destroy_user_data sh.store) sh.holder)
act t (copied true text) sh =
    some (done success, shared (call (write_text text) sh.store) sh.holder)
act t (copied false text) sh = some (done failed, sh)
act t idle sh = none
act t (done s) sh = none
act t crashed sh = none

unfoldable pub set_pc : ℕ → Pc → (ℕ → Pc) → ℕ → Pc
set_pc t pc pcs u = if u == t then pc else pcs u

pub record System : Type 0 where
  pub pcs : ℕ → Pc
  pub shared' : Shared

-- What can be reached from a store whose mutex is free and whose threads are idle, each thread
-- with one operation at most.
pub data Reach (st : Store) : System → Type 0 where
  start : Reach st (record { pcs = λ _. idle; shared' = shared st none })
  asked :
      {s : System} (t : ℕ) (op : Op)
      → Reach st s
      → s.pcs t ≡ idle
      → Reach st (record { pcs = set_pc t (called op) s.pcs; shared' = s.shared' })
  acted :
      {s : System} (t : ℕ) {pc : Pc} {sh : Shared}
      → Reach st s
      → act t (s.pcs t) s.shared' ≡ some (pc, sh)
      → Reach st (record { pcs = set_pc t pc s.pcs; shared' = sh })

abbrev pub is_delete : Call → Bool
is_delete wrapper_delete = true
is_delete _ = false

abbrev pub is_disconnect : Call → Bool
is_disconnect disconnect = true
is_disconnect _ = false

abbrev pub count_if : (Call → Bool) → List Call → ℕ
count_if test [] = zero
count_if test (c ∷ cs) = if test c then suc (count_if test cs) else count_if test cs

-- How often the wrapper was deleted, and the streamer disconnected.
abbrev pub deletes : Store → ℕ
deletes st = count_if is_delete st.log

abbrev pub disconnects : Store → ℕ
disconnects st = count_if is_disconnect st.log
