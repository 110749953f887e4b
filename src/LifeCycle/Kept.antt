-- ===== src/LifeCycle/Kept.antt =====
-- Every statement of every thread keeps the invariant.
use mod_audio_stream.Prelude.{
  ℕ, ◌≡◌, refl, ap, ◌∙◌, subst, Bool, true, false, Option, none, some, [], arith, Option-cases, inl,
  inr,
}
use mod_audio_stream.Prelude.Cases.{if_both}
use mod_audio_stream.LifeCycle.Store.{
  Pvt, Store, call, put_pvt, call_if, destroyed, destroy_tech_pvt,
}
use mod_audio_stream.LifeCycle.Handlers.{
  points, take_streamer, remove_bug, delete_wrapper, quit_streamer, write_last, destroy_user_data,
}
use mod_audio_stream.LifeCycle.Threads.{
  Op, cleanup, send, Pc, idle, called, found, inside, checked, taken, removed, released, quit,
  copied, done, crashed, set_pc, Shared, look_up, acquire, check, on_pvt, act, System, Reach, start,
  asked, acted, deletes, disconnects, count_if, is_delete, is_disconnect,
}
use mod_audio_stream.LifeCycle.Invariant.{
  Inv, checks-holds, early-owns, connected-owns, holds, owns, early, connected, Inv-quiet, Inv-take,
  Inv-delete, Inv-disconnect,
}

abbrev pub flag_of : Option Pvt → Bool
flag_of none = false
flag_of (some p) = p.cleanup_started

abbrev is_some : Option Bool → Bool
is_some none = false
is_some (some full) = true

-- `pAudioStreamer` is not null.
abbrev pub streamer_set : Option Pvt → Bool
streamer_set none = false
streamer_set (some p) = is_some p.streamer

abbrev pub SharedInv : (ℕ → Pc) → Shared → Type 0
SharedInv pcs sh =
    Inv pcs sh.holder (flag_of sh.store.user_data) (streamer_set sh.store.user_data)
      (deletes sh.store) (disconnects sh.store)

abbrev Next : (ℕ → Pc) → ℕ → Option (Pc × Shared) → Type 0
Next pcs t none = Unit
Next pcs t (some (pc, sh)) = SharedInv (set_pc t pc pcs) sh

-- `destroy_tech_pvt` leaves the flag and the streamer, and frees neither.
destroyed-flag : (st : Store) → flag_of (destroy_user_data st).user_data ≡ flag_of st.user_data
unfolding destroy_user_data destroy_tech_pvt call_if put_pvt destroyed
destroyed-flag st = ground arith

destroyed-streamer_set :
    (st : Store) → streamer_set (destroy_user_data st).user_data ≡ streamer_set st.user_data
unfolding destroy_user_data destroy_tech_pvt call_if put_pvt destroyed
destroyed-streamer_set st = ground arith

destroyed-deletes : (st : Store) → deletes (destroy_user_data st) ≡ deletes st
unfolding destroy_user_data destroy_tech_pvt call_if put_pvt destroyed call
destroyed-deletes st = ground arith

destroyed-disconnects : (st : Store) → disconnects (destroy_user_data st) ≡ disconnects st
unfolding destroy_user_data destroy_tech_pvt call_if put_pvt destroyed call
destroyed-disconnects st = ground arith

module _ (pcs : ℕ → Pc) (t : ℕ) where
  on_pvt-Next :
      (sh : Shared) (f : Pvt → Option (Pc × Shared))
      → ((p : Pvt) → sh.store.user_data ≡ some p → Next pcs t (f p))
      → Next pcs t (on_pvt sh f)
  unfolding on_pvt
  on_pvt-Next sh f next = elim (Option-cases sh.store.user_data) [
    | inl e ↦ rw e tt
    | inr (p, e) ↦ rw e (next p e)
  ]

  -- A thread that is outside of the lock and owns nothing; the mutex as it was.
  outside :
      (sh : Shared)
      → SharedInv pcs sh
      → (pc : Pc) → holds pc ≡ false
      → owns pc ≡ false
      → SharedInv (set_pc t pc pcs) sh
  outside sh inv pc out free =
      Inv-quiet inv t pc _ (λ q. ground arith) (λ u ne q. q) (λ q. grind (arith, checks-holds pc))
        (λ q. ground arith) (λ q. grind (arith, early-owns pc))
        (λ q. grind (arith, connected-owns pc))

  -- A thread that has unlocked the mutex.
  unlocked :
      {h : Option ℕ} {flag set : Bool} {d k : ℕ}
      → Inv pcs h flag set d k
      → (pc : Pc) → holds pc ≡ false
      → owns pc ≡ false
      → holds (pcs t) ≡ true
      → Inv (set_pc t pc pcs) none flag set d k
  unlocked inv pc out free was =
      Inv-quiet inv t pc none (λ q. ground arith) (λ u ne q. grind (arith, inv.exclusive t was))
        (λ q. grind (arith, checks-holds pc)) (λ q. ground arith)
        (λ q. grind (arith, early-owns pc)) (λ q. grind (arith, connected-owns pc))

  -- A thread behind the lock goes on; it owns no more than before.
  onward :
      {h : Option ℕ} {flag set : Bool} {d k : ℕ}
      → Inv pcs h flag set d k
      → (pc : Pc) → holds pc ≡ false
      → (owns pc ≡ true → owns (pcs t) ≡ true)
      → (early pc ≡ true → early (pcs t) ≡ true)
      → (connected pc ≡ true → connected (pcs t) ≡ true)
      → Inv (set_pc t pc pcs) h flag set d k
  onward inv pc out =
      Inv-quiet inv t pc _ (λ q. ground arith) (λ u ne q. q) (λ q. grind (arith, checks-holds pc))

  look_up-Next : (op : Op) (sh : Shared) → SharedInv pcs sh → Next pcs t (some (look_up op sh))
  unfolding look_up
  look_up-Next op sh inv =
      if_both (λ r. Next pcs t (some r)) sh.store.attached _ _
        (λ q. elim (Option-cases sh.store.user_data) [
          | inl e ↦ rw e (outside sh inv _ refl refl)
          | inr (p, e) ↦ rw e (outside sh inv _ refl refl)
        ])
        (λ q. outside sh inv _ refl refl)

  acquire-Next :
      (op : Op) (p : Pvt) (sh : Shared) → SharedInv pcs sh → Next pcs t (acquire t op p sh)
  unfolding acquire call
  acquire-Next op p sh inv =
      if_both (Next pcs t) p.mutex _ _
        (λ q. elim (Option-cases sh.holder) [
          | inl e ↦ rw e (
              Inv-quiet inv t _ (some t) (λ q. refl) (λ u ne r. ground arith) (λ q. ground arith)
                (λ q. ground arith) (λ q. ground arith) (λ q. ground arith))
          | inr (u, e) ↦ rw e tt
        ])
        (λ q. outside sh inv _ refl refl)

  check-Next :
      (op : Op) (p : Pvt) (sh : Shared)
      → holds (pcs t) ≡ true
      → sh.store.user_data ≡ some p
      → SharedInv pcs sh
      → Next pcs t (some (check op p sh))
  unfolding check call
  check-Next (send text) p sh was e inv = unlocked inv _ refl refl was
  check-Next (cleanup text closing) p sh was e inv =
      if_both (λ r. Next pcs t (some r)) p.cleanup_started _ _ (λ q. unlocked inv _ refl refl was)
        (λ q.
          Inv-quiet inv t _ _ (λ r. inv.exclusive t was) (λ u ne r. r) (λ r. ap flag_of e ∙ q)
            (λ q. ground arith) (λ q. ground arith) (λ q. ground arith))

  act-Next : (pc : Pc) (sh : Shared) → pcs t ≡ pc → SharedInv pcs sh → Next pcs t (act t pc sh)
  unfolding act look_up acquire check on_pvt call take_streamer remove_bug delete_wrapper points
      quit_streamer destroy_user_data
  act-Next (called op) sh e inv = look_up-Next op sh inv
  act-Next (found op) sh e inv = on_pvt-Next sh _ (λ p q. acquire-Next op p sh inv)
  act-Next (inside op) sh e inv = on_pvt-Next sh _ (λ p q.
      if_both (Next pcs t) p.mutex _ _ (λ r. check-Next op p sh (ground arith) q inv)
        (λ r. outside sh inv _ refl refl))
  act-Next (checked text closing) sh e inv = on_pvt-Next sh _ (λ p q.
      if_both (Next pcs t) p.mutex _ _
        (λ r. Inv-take inv t _ (ground arith) (ground arith) refl refl)
        (λ r. outside sh inv _ refl refl))
  act-Next (taken wrap text true) sh e inv =
      onward inv _ refl (λ q. ground arith) (λ q. ground arith) (λ q. ground arith)
  act-Next (taken wrap text false) sh e inv =
      onward inv _ refl (λ q. ground arith) (λ q. ground arith) (λ q. ground arith)
  act-Next (removed none text) sh e inv =
      onward inv _ refl (λ q. ground arith) (λ q. ground arith) (λ q. ground arith)
  act-Next (removed (some full) text) sh e inv =
      Inv-delete inv t _ (ground arith) (ground arith) refl refl refl
  act-Next (released true none) sh e inv =
      unfold write_last in Inv-disconnect inv t _ (ground arith) refl refl refl refl
  act-Next (released true (some text)) sh e inv =
      unfold write_last in Inv-disconnect inv t _ (ground arith) refl refl refl refl
  act-Next (released false text) sh e inv =
      onward inv _ refl (λ q. ground arith) (λ q. ground arith) (λ q. ground arith)
  act-Next quit sh e inv =
      rw
        (
          destroyed-flag sh.store,
          destroyed-streamer_set sh.store,
          destroyed-deletes sh.store,
          destroyed-disconnects sh.store,
        )
        (outside sh inv _ refl refl)
  act-Next (copied true text) sh e inv =
      onward inv _ refl (λ q. ground arith) (λ q. ground arith) (λ q. ground arith)
  act-Next (copied false text) sh e inv =
      onward inv _ refl (λ q. ground arith) (λ q. ground arith) (λ q. ground arith)
  act-Next idle sh e inv = tt
  act-Next (done s) sh e inv = tt
  act-Next crashed sh e inv = tt

pub Reach-SharedInv :
    {st : Store} {s : System} (p : Pvt)
    → st.user_data ≡ some p
    → p.cleanup_started ≡ false
    → st.log ≡ []
    → Reach st s
    → SharedInv s.pcs s.shared'
Reach-SharedInv {st} p e fresh silent start = record {
  exclusive = λ t q. ground arith;
  unseen = λ t q. ground arith;
  begun = λ t q. ground arith;
  single = λ t u q r. ground arith;
  kept = λ t q. ground arith;
  linked = λ t q. ground arith;
  undeleted = λ q. ap (count_if is_delete) silent;
  undropped = λ q. ap (count_if is_disconnect) silent;
  deleted_once = omega (arith, ap (count_if is_delete) silent);
  dropped_once = omega (arith, ap (count_if is_disconnect) silent);
  open_flag = λ q. ap flag_of e ∙ fresh;
}
Reach-SharedInv p e fresh silent (asked t op r idle_before) =
    let inv = Reach-SharedInv p e fresh silent r in
    Inv-quiet inv t _ _ (λ q. ground arith) (λ u ne q. q) (λ q. ground arith) (λ q. ground arith)
      (λ q. ground arith) (λ q. ground arith)
Reach-SharedInv p e fresh silent (acted {s} t r step) =
    subst (Next s.pcs t) step
      (act-Next s.pcs t (s.pcs t) s.shared' refl (Reach-SharedInv p e fresh silent r))
