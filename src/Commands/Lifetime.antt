-- ===== src/Commands/Lifetime.antt =====
-- A capture from its start to its stop.
use mod_audio_stream.Prelude.{
  ℕ, ◌≡◌, refl, sym, ap, ◌∙◌, subst, true, false, Option, some, List, [], ◌++◌, append-nil, arith,
  if◌then◌else◌, inl, inr, ◌⊎◌,
}
use mod_audio_stream.Prelude.Cases.{if_both, option_both}
use mod_audio_stream.Prelude.Ints.{ℤ}
use mod_audio_stream.LifeCycle.Store.{Store, Call, Status, success, failed}
use mod_audio_stream.LifeCycle.Handlers.{session_cleanup, session_destroy}
use mod_audio_stream.LifeCycle.Init.{Data, stream_session_init}
use mod_audio_stream.LifeCycle.InitCalls.{Released, stream_session_init_fresh}
use mod_audio_stream.LifeCycle.InitLaws.{stream_session_init-Released}
use mod_audio_stream.LifeCycle.Released.{session_cleanup-Released}
use mod_audio_stream.Commands.Backend.{Flags}
use mod_audio_stream.Commands.Capture.{do_stop, add_bug, init_and_add, start_capture}
use mod_audio_stream.Commands.Session.{Freeswitch, store_of, init_store, add_store, store_backend}

-- What a start that succeeds leaves: the bug and its user data, as the set-up made them.
record Running (host : Freeswitch) (uri : List ℕ) (sampling : ℤ) (metadata : Option (List ℕ))
    (st : Store) : Type 0 where
  rate : ℕ
  channels : ℕ
  data' : Data
  calls : List Call
  made :
      stream_session_init host.channel host.granted rate uri sampling channels metadata
      ≡ (some data', calls)
  there : st.attached ≡ true
  given : st.user_data ≡ some data'.pvt
  logged : st.log ≡ calls

status_of {ℓ κ} :
    {A : Type ℓ} (P : A → Type κ) (s : Status) (x y : A)
    → P x
    → P y
    → P (elim s [ success ↦ x | failed ↦ y ])
status_of P success x y p q = p
status_of P failed x y p q = q

Status-cases : (s : Status) → (s ≡ success) ⊎ (s ≡ failed)
Status-cases success = inl refl
Status-cases failed = inr refl

module _ (host : Freeswitch) (d : Data) (fl : Flags) (st : Store) where
  add_bug_success :
      host.bug_added ≡ success
      → add_bug (store_backend host) d fl st ≡ (success, store_of true (some d.pvt) st)
  unfolding add_bug add_store
  add_bug_success a = ground arith

  add_bug_failed :
      host.bug_added ≡ failed
      → add_bug (store_backend host) d fl st ≡ (failed, (session_destroy (some d.pvt) st).1)
  unfolding add_bug add_store
  add_bug_failed a = ground arith

module _ (host : Freeswitch) (uri : List ℕ) (sampling : ℤ) (metadata : Option (List ℕ))
    (flags : Flags) (st : Store) (silent : st.log ≡ []) where
  abbrev IfRunning : Status × Store → Type 0
  IfRunning r = r.0 ≡ success → Running host uri sampling metadata r.1

  add_bug-IfRunning :
      (rate channels : ℕ) (d : Data) (calls : List Call) (fl : Flags)
      → stream_session_init host.channel host.granted rate uri sampling channels metadata
        ≡ (some d, calls)
      → IfRunning (
          add_bug
            (store_backend host)
            d
            fl
            (record { attached = st.attached; user_data = st.user_data; log = calls ++ st.log }))
  add_bug-IfRunning rate channels d calls fl e = elim (Status-cases host.bug_added) [
    | inl a ↦ subst IfRunning (sym (add_bug_success host d fl _ a)) (λ r. record {
      rate = rate;
      channels = channels;
      data' = d;
      calls = calls;
      made = e;
      there = refl;
      given = refl;
      logged = rw (silent, append-nil calls) refl;
    })
    | inr f ↦ subst IfRunning (sym (add_bug_failed host d fl _ f)) (λ r. ground arith)
  ]

  init_and_add-IfRunning :
      (rate : ℕ) → IfRunning (init_and_add (store_backend host) flags uri sampling metadata rate st)
  unfolding init_and_add init_store
  init_and_add-IfRunning rate =
      let channels = if flags.stereo then 2 else 1 in
      let inited =
        stream_session_init host.channel host.granted rate uri sampling channels metadata in
      option_both IfRunning inited.0 _ _ (λ e r. ground arith)
        (λ d e. add_bug-IfRunning rate channels d inited.1 _ (ap (λ o. (o, inited.1)) e))

  start_capture-IfRunning :
      IfRunning (start_capture (store_backend host) flags uri sampling metadata st)
  unfolding start_capture
  start_capture-IfRunning =
      if_both IfRunning st.attached _ _ (λ q r. ground arith)
        (λ q.
          status_of IfRunning host.pre_answer _ _
            (option_both IfRunning host.read_codec _ _ (λ e r. ground arith)
              (λ rate e. init_and_add-IfRunning rate))
            (λ r. ground arith))

as_made :
    {host : Freeswitch} {uri : List ℕ} {sampling : ℤ} {metadata : Option (List ℕ)} {st : Store}
    (run : Running host uri sampling metadata st)
    → st ≡ record { attached = true; user_data = some run.data'.pvt; log = run.calls }
as_made {st = st} run =
    ap (λ a. record { attached = a; user_data = st.user_data; log = st.log }) run.there
    ∙ ap (λ u. record { attached = true; user_data = u; log = st.log }) run.given
    ∙ ap (λ l. record { attached = true; user_data = some run.data'.pvt; log = l }) run.logged

-- On a session where nothing was called yet, a start_capture that succeeds and then a stop, with or
-- without a text: the stop succeeds; the streamer was created, disconnected and deleted once, the
-- mutex made and destroyed once, each resampler that was made is destroyed; a second stop fails.
-- FreeSWITCH's answers are arbitrary.
pub start_capture-do_stop :
    (host : Freeswitch) (flags : Flags) (uri : List ℕ) (sampling : ℤ)
    (metadata text : Option (List ℕ)) (st : Store) {st' : Store}
    → st.log ≡ []
    → start_capture (store_backend host) flags uri sampling metadata st ≡ (success, st')
    → ((do_stop (store_backend host) text st').0 ≡ success)
      × Released (do_stop (store_backend host) text st').1.log
      × ((do_stop (store_backend host) text (do_stop (store_backend host) text st').1).0 ≡ failed)
unfolding do_stop
start_capture-do_stop host flags uri sampling metadata text st {st' = st'} silent e =
    let run : Running host uri sampling metadata st' =
      subst (IfRunning host uri sampling metadata flags st silent) e
        (start_capture-IfRunning host uri sampling metadata flags st silent) refl in
    let fresh = stream_session_init_fresh _ _ _ _ _ _ _ run.made in
    let down = session_cleanup-Released st' run.data'.pvt text false run.there run.given fresh in
    (
      ap (λ r. r.0) down.0,
      subst (λ s. Released (session_cleanup text false s).1.log) (sym (as_made run))
          (stream_session_init-Released _ _ _ _ _ _ _ text false run.made),
      ap (λ r. r.0) (down.1 text false),
    )
