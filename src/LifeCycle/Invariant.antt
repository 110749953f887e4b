-- ===== src/LifeCycle/Invariant.antt =====
-- What holds of the threads that work on one session, at every moment.
use mod_audio_stream.Prelude.{
  ℕ, suc, ◌≤◌, ◌≡◌, ◌≢◌, refl, Bool, true, false, Option, none, some, arith,
}
use mod_audio_stream.LifeCycle.Threads.{Pc, inside, checked, taken, removed, released, quit, set_pc}

-- Between lock and unlock; behind the test of `cleanup_started`; owner of what was taken; before
-- the wrapper is deleted; before the streamer is disconnected.
abbrev pub holds : Pc → Bool
holds (inside op) = true
holds (checked text closing) = true
holds _ = false

abbrev pub checks : Pc → Bool
checks (checked text closing) = true
checks _ = false

abbrev pub owns : Pc → Bool
owns (taken wrap text closing) = true
owns (removed wrap text) = true
owns (released full text) = true
owns quit = true
owns _ = false

abbrev pub early : Pc → Bool
early (taken wrap text closing) = true
early (removed wrap text) = true
early _ = false

abbrev pub connected : Pc → Bool
connected (taken wrap text closing) = true
connected (removed wrap text) = true
connected (released full text) = true
connected _ = false

-- The invariant, on the threads, the mutex's holder, `cleanup_started`, whether `pAudioStreamer`
-- is set, and how often the wrapper was deleted and the streamer disconnected.
pub record Inv (pcs : ℕ → Pc) (h : Option ℕ) (flag set : Bool) (d k : ℕ) : Type 0 where
  pub exclusive : (t : ℕ) → holds (pcs t) ≡ true → h ≡ some t
  pub unseen : (t : ℕ) → checks (pcs t) ≡ true → flag ≡ false
  pub begun : (t : ℕ) → owns (pcs t) ≡ true → flag ≡ true
  pub single : (t u : ℕ) → owns (pcs t) ≡ true → owns (pcs u) ≡ true → t ≡ u
  pub kept : (t : ℕ) → early (pcs t) ≡ true → d ≡ 0
  pub linked : (t : ℕ) → connected (pcs t) ≡ true → k ≡ 0
  pub undeleted : flag ≡ false → d ≡ 0
  pub undropped : flag ≡ false → k ≡ 0
  pub deleted_once : d ≤ 1
  pub dropped_once : k ≤ 1
  pub open_flag : set ≡ true → flag ≡ false

pub early-owns : (pc : Pc) → early pc ≡ true → owns pc ≡ true
early-owns pc e =
    elim pc as (λ k. early k ≡ true → owns k ≡ true) [
      | taken wrap text closing ↦ λ e. refl
      | removed wrap text ↦ λ e. refl
      | _ ↦ λ e. ground arith
    ]
      e

pub connected-owns : (pc : Pc) → connected pc ≡ true → owns pc ≡ true
connected-owns pc e =
    elim pc as (λ k. connected k ≡ true → owns k ≡ true) [
      | taken wrap text closing ↦ λ e. refl
      | removed wrap text ↦ λ e. refl
      | released full text ↦ λ e. refl
      | _ ↦ λ e. ground arith
    ]
      e

pub checks-holds : (pc : Pc) → checks pc ≡ true → holds pc ≡ true
checks-holds pc e =
    elim pc as (λ k. checks k ≡ true → holds k ≡ true) [
      | checked text closing ↦ λ e. refl
      | _ ↦ λ e. ground arith
    ]
      e

module _ (pcs : ℕ → Pc) (t : ℕ) (pc : Pc) where
  set_pc_at : (u : ℕ) → u ≡ t → set_pc t pc pcs u ≡ pc
  unfolding set_pc
  set_pc_at u e = ground arith

  set_pc_off : (u : ℕ) → u ≢ t → set_pc t pc pcs u ≡ pcs u
  unfolding set_pc
  set_pc_off u e = ground arith

module _ {pcs : ℕ → Pc} {h : Option ℕ} {flag set : Bool} {d k : ℕ} (inv : Inv pcs h flag set d k)
    (t : ℕ) (pc : Pc) where
  -- A step that touches neither the flag nor the streamer.
  pub Inv-quiet :
      (h' : Option ℕ)
      → (holds pc ≡ true → h' ≡ some t)
      → ((u : ℕ) → u ≢ t → h ≡ some u → h' ≡ some u)
      → (checks pc ≡ true → flag ≡ false)
      → (owns pc ≡ true → owns (pcs t) ≡ true)
      → (early pc ≡ true → early (pcs t) ≡ true)
      → (connected pc ≡ true → connected (pcs t) ≡ true)
      → Inv (set_pc t pc pcs) h' flag set d k
  unfolding set_pc
  Inv-quiet h' here there check own soon link = record {
    exclusive = λ u q. grind (arith, inv.exclusive u);
    unseen = λ u q. grind (arith, inv.unseen u);
    begun = λ u q. grind (arith, inv.begun u);
    single = λ u v q r. grind (arith, inv.single u v);
    kept = λ u q. grind (arith, inv.kept u);
    linked = λ u q. grind (arith, inv.linked u);
    undeleted = inv.undeleted;
    undropped = inv.undropped;
    deleted_once = inv.deleted_once;
    dropped_once = inv.dropped_once;
    open_flag = inv.open_flag;
  }

  -- The step that sets the flag and takes the streamer.
  pub Inv-take :
      checks (pcs t) ≡ true
      → holds (pcs t) ≡ true
      → holds pc ≡ false
      → checks pc ≡ false
      → Inv (set_pc t pc pcs) none true false d k
  unfolding set_pc
  Inv-take was in_lock out unchecked = record {
    exclusive = λ u q. grind (arith, inv.exclusive u, inv.exclusive t);
    unseen =
        λ u q. grind (arith, inv.unseen u, inv.exclusive u, inv.exclusive t, checks-holds (pcs u));
    begun = λ u q. refl;
    single = λ u v q r. grind (arith, inv.begun u, inv.begun v, inv.unseen t);
    kept = λ u q. inv.undeleted (inv.unseen t was);
    linked = λ u q. inv.undropped (inv.unseen t was);
    undeleted = λ q. ground arith;
    undropped = λ q. ground arith;
    deleted_once = inv.deleted_once;
    dropped_once = inv.dropped_once;
    open_flag = λ q. ground arith;
  }

  -- The step that deletes the wrapper, once.
  pub Inv-delete :
      early (pcs t) ≡ true
      → connected (pcs t) ≡ true
      → holds pc ≡ false
      → checks pc ≡ false
      → early pc ≡ false
      → Inv (set_pc t pc pcs) h flag set (suc d) k
  unfolding set_pc
  Inv-delete was link out unchecked late = record {
    exclusive = λ u q. grind (arith, inv.exclusive u);
    unseen = λ u q. grind (arith, inv.unseen u);
    begun = λ u q. inv.begun t (early-owns (pcs t) was);
    single = λ u v q r.
        grind (arith, inv.single u v, inv.single u t, inv.single v t, early-owns (pcs t));
    kept = λ u q. grind (arith, inv.single u t, early-owns (pcs t), early-owns (pcs u));
    linked = λ u q. inv.linked t link;
    undeleted = λ q. grind (arith, inv.begun t, early-owns (pcs t));
    undropped = inv.undropped;
    deleted_once = omega (arith, inv.kept t was);
    dropped_once = inv.dropped_once;
    open_flag = inv.open_flag;
  }

  -- The step that disconnects the streamer, once.
  pub Inv-disconnect :
      connected (pcs t) ≡ true
      → holds pc ≡ false
      → checks pc ≡ false
      → early pc ≡ false
      → connected pc ≡ false
      → Inv (set_pc t pc pcs) h flag set d (suc k)
  unfolding set_pc
  Inv-disconnect was out unchecked late unlinked = record {
    exclusive = λ u q. grind (arith, inv.exclusive u);
    unseen = λ u q. grind (arith, inv.unseen u);
    begun = λ u q. inv.begun t (connected-owns (pcs t) was);
    single = λ u v q r.
        grind (arith, inv.single u v, inv.single u t, inv.single v t, connected-owns (pcs t));
    kept = λ u q. grind (arith, inv.kept u);
    linked = λ u q. grind (arith, inv.single u t, connected-owns (pcs t), connected-owns (pcs u));
    undeleted = inv.undeleted;
    undropped = λ q. grind (arith, inv.begun t, connected-owns (pcs t));
    deleted_once = inv.deleted_once;
    dropped_once = omega (arith, inv.linked t was);
    open_flag = inv.open_flag;
  }
