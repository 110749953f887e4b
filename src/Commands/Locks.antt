-- ===== src/Commands/Locks.antt =====
-- The read lock on the session that a command works on.
use mod_audio_stream.Prelude.{
  ℕ, ◌≡◌, refl, subst, ◌&&◌, Option, none, some, List, [], ◌∷◌, codes, length, get_elem?, ltb,
  arith, bind_option,
}
use mod_audio_stream.Prelude.Cases.{IfAny, if_both, option_both}
use mod_audio_stream.StreamUtils.Numeral.{equal_strings}
use mod_audio_stream.Commands.Backend.{Backend}
use mod_audio_stream.Commands.Dispatch.{
  Locked, rwunlock, Exit, goto_done, fall_out, stop_branch, send_branch, start_checked,
  start_branch, branches, Reaction, finish, stream_function,
}

-- A branch that goes to `done` has unlocked the session, another one has not.
abbrev Balanced : {S : Type 0} → Exit S → Type 0
Balanced (goto_done l) = l.locks ≡ 0
Balanced (fall_out status l) = l.locks ≡ 1

abbrev pub Unlocked : {S : Type 0} → Reaction S → Type 0
Unlocked out = IfAny (λ l. l.locks ≡ 0) out.left

module _ {S D : Type 0} (b : Backend S D) (argv : List (List ℕ)) (l : Locked S)
    (one : l.locks ≡ 1) where
  unlock_one : (rwunlock l).locks ≡ 0
  unfolding rwunlock
  unlock_one = omega (arith, one)

  start_checked-Balanced :
      (uri mix : List ℕ) (rate metadata : Option (List ℕ))
      → Balanced (start_checked b uri mix rate metadata l)
  unfolding start_checked rwunlock
  start_checked-Balanced uri mix rate metadata = ground (arith, unlock_one)

  stop_branch-Balanced : IfAny Balanced (stop_branch b argv l)
  unfolding stop_branch
  stop_branch-Balanced = ground (arith, unlock_one)

  send_branch-Balanced : IfAny Balanced (send_branch b argv l)
  unfolding send_branch
  send_branch-Balanced = ground (arith, unlock_one)

  words-Balanced :
      (mix uri rate metadata : Option (List ℕ))
      → IfAny Balanced
          (bind_option mix (λ m. bind_option uri (λ u. some (start_checked b u m rate metadata l))))
  words-Balanced none uri rate metadata = tt
  words-Balanced (some m) none rate metadata = tt
  words-Balanced (some m) (some u) rate metadata = start_checked-Balanced u m rate metadata

  start_branch-Balanced : IfAny Balanced (start_branch b argv l)
  unfolding start_branch
  start_branch-Balanced = ground (
    arith,
    unlock_one,
    words-Balanced (get_elem? argv 3) (get_elem? argv 2) (get_elem? argv 4) (get_elem? argv 5),
  )

  branches-Balanced : (name : List ℕ) → IfAny Balanced (branches b name argv l)
  unfolding branches
  branches-Balanced name =
      ground (arith, stop_branch-Balanced, send_branch-Balanced, start_branch-Balanced)

finish-Unlocked : {S : Type 0} (flow : Exit S) → Balanced flow → Unlocked (finish flow)
unfolding finish rwunlock
finish-Unlocked (goto_done l) h = h
finish-Unlocked (fall_out status l) h = omega (arith, h)

finished-Unlocked :
    {S : Type 0} (m : Option (Exit S))
    → IfAny Balanced m
    → IfAny Unlocked (bind_option m (λ flow. some (finish flow)))
finished-Unlocked none h = tt
finished-Unlocked (some flow) h = finish-Unlocked flow h

abbrev found : {S : Type 0} → S → Locked S
found s = record { session = s; locks = 1 }

stream_function-IfAny :
    {S D : Type 0} (b : Backend S D) (locate : List ℕ → Option S) (argv : List (List ℕ))
    → IfAny Unlocked (stream_function b locate argv)
unfolding stream_function
stream_function-IfAny b locate [] = tt
stream_function-IfAny b locate (id ∷ []) = tt
stream_function-IfAny b locate (id ∷ name ∷ r) =
    if_both (IfAny Unlocked) (equal_strings name (codes "start") && ltb (length (id ∷ name ∷ r)) 4)
      _ _ (λ q. tt)
      (λ q.
        option_both (IfAny Unlocked) (locate id) _ _ (λ e. tt)
          (λ s e.
            finished-Unlocked (branches b name (id ∷ name ∷ r) (found s))
              (branches-Balanced b (id ∷ name ∷ r) (found s) refl name)))

-- Whatever the command and the answers of the glue, when stream_function returns it holds no read
-- lock on the session that it has located.
pub stream_function-Unlocked :
    {S D : Type 0} (b : Backend S D) (locate : List ℕ → Option S) (argv : List (List ℕ))
    {out : Reaction S}
    → stream_function b locate argv ≡ some out
    → Unlocked out
stream_function-Unlocked b locate argv e =
    subst (IfAny Unlocked) e (stream_function-IfAny b locate argv)
