-- ===== src/LifeCycle/Race.antt =====
-- Two threads, one of which finds the bug before the other takes the session down.
use mod_audio_stream.Prelude.{
  ℕ, zero, suc, ◌≡◌, ◌≢◌, refl, sym, ap, ◌∙◌, subst, Bool, true, false, Option, none, some, List,
  arith, Option-cases, inl, inr,
}
use mod_audio_stream.LifeCycle.Store.{Pvt, Store, success, set_started, without_streamer, destroyed}
use mod_audio_stream.LifeCycle.Threads.{
  Op, cleanup, Pc, idle, called, found, done, crashed, set_pc, Shared, shared, look_up, acquire,
  on_pvt, act, System, Reach, start, asked, acted,
}
use mod_audio_stream.LifeCycle.Alone.{run, run-handle, handle}
use mod_audio_stream.LifeCycle.Released.{taken_down, session_cleanup-taken_down}

-- A reachable state, seen from two threads.
record Pair (st : Store) (t u : ℕ) (a b : Pc) (sh : Shared) : Type 0 where
  system : System
  reach : Reach st system
  first : system.pcs t ≡ a
  second : system.pcs u ≡ b
  now : system.shared' ≡ sh

module _ (n t : ℕ) (a : Pc) (sh : Shared) where
  run_stuck : act t a sh ≡ none → run (suc n) t a sh ≡ (a, sh)
  unfolding run
  run_stuck e = ground arith

  run_step :
      (next : Pc × Shared) → act t a sh ≡ some next → run (suc n) t a sh ≡ run n t next.0 next.1
  unfolding run
  run_step next e = ground arith

module _ {st : Store} {t u : ℕ} where
  swap : {a b : Pc} {sh : Shared} → Pair st t u a b sh → Pair st u t b a sh
  swap pair = record {
    system = pair.system;
    reach = pair.reach;
    first = pair.second;
    second = pair.first;
    now = pair.now;
  }

  module _ {b : Pc} (apart : t ≢ u) where
    ask : {sh : Shared} (op : Op) → Pair st t u idle b sh → Pair st t u (called op) b sh
    unfolding set_pc
    ask op pair = record {
      system = record { pcs = set_pc t (called op) pair.system.pcs; shared' = pair.system.shared' };
      reach = asked t op pair.reach pair.first;
      first = ground arith;
      second = grind (arith, pair.second);
      now = pair.now;
    }

    step :
        {a a' : Pc} {sh sh' : Shared}
        → Pair st t u a b sh
        → act t a sh ≡ some (a', sh')
        → Pair st t u a' b sh'
    unfolding set_pc
    step {a' = a'} {sh' = sh'} pair e = record {
      system = record { pcs = set_pc t a' pair.system.pcs; shared' = sh' };
      reach =
          acted t pair.reach
            (ap (λ pc. act t pc pair.system.shared') pair.first ∙ ap (act t _) pair.now ∙ e);
      first = ground arith;
      second = grind (arith, pair.second);
      now = refl;
    }

    -- The first thread goes on alone.
    go_on :
        (n : ℕ) {a : Pc} {sh : Shared}
        → Pair st t u a b sh
        → Pair st t u (run n t a sh).0 b (run n t a sh).1
    unfolding run
    go_on zero pair = pair
    go_on (suc n) {a} {sh} pair = elim (Option-cases (act t a sh)) [
      | inl e ↦ rw (run_stuck n t a sh e) pair
      | inr (next, e) ↦ rw (run_step n t a sh next e) (go_on n (step pair e))
    ]

-- From the start, the second thread looks the bug up; then the first takes the session down.
module _ (st : Store) (p : Pvt) (text : Option (List ℕ)) (closing : Bool) (op : Op)
    (there : st.attached ≡ true) (given : st.user_data ≡ some p) (fresh : p.cleanup_started ≡ false)
    (live : p.mutex ≡ true) {t u : ℕ} (apart : t ≢ u) where
  both_idle : Pair st u t idle idle (shared st none)
  both_idle = record {
    system = record { pcs = λ _. idle; shared' = shared st none };
    reach = start;
    first = refl;
    second = refl;
    now = refl;
  }

  finds : look_up op (shared st none) ≡ (found op, shared st none)
  unfolding look_up
  finds = ground arith

  one_found : Pair st u t (found op) idle (shared st none)
  unfolding act
  one_found = step (λ e. apart (sym e)) (ask (λ e. apart (sym e)) op both_idle) (ap some finds)

  taken_down_alone :
      run 8 t (called (cleanup text closing)) (shared st none)
      ≡ (done success, shared (taken_down p text closing st.log) none)
  unfolding handle
  taken_down_alone =
      run-handle t (cleanup text closing) st p given live
      ∙ ap (λ r. (done r.0, shared r.1 none))
          (session_cleanup-taken_down st p text closing there given fresh)

  one_done : Pair st t u (done success) (found op) (shared (taken_down p text closing st.log) none)
  one_done =
      subst (λ r. Pair st t u r.0 (found op) r.1) taken_down_alone
        (go_on apart 8 (ask apart (cleanup text closing) (swap one_found)))

  one_crashed : Pair st u t crashed (done success) (shared (taken_down p text closing st.log) none)
  unfolding act on_pvt acquire set_started without_streamer destroyed
  one_crashed = step (λ e. apart (sym e)) (swap one_done) refl

-- From an attached session of which no cleanup was started, with its mutex: a thread that has found
-- the bug, for a cleanup or a text, can be overtaken by another one's whole cleanup, and then locks
-- a mutex that was destroyed.
pub Reach-crashed :
    (st : Store) (p : Pvt) (text : Option (List ℕ)) (closing : Bool) (op : Op) {t u : ℕ}
    → t ≢ u
    → st.attached ≡ true
    → st.user_data ≡ some p
    → p.cleanup_started ≡ false
    → p.mutex ≡ true
    → (s : System) × Reach st s × (s.pcs t ≡ done success) × (s.pcs u ≡ crashed)
Reach-crashed st p text closing op apart there given fresh live =
    let pair = one_crashed st p text closing op there given fresh live apart in
    (pair.system, pair.reach, pair.second, pair.first)
