-- ===== src/LifeCycle/InitCalls.antt =====
-- The calls that setting a session up makes, counted.
use mod_audio_stream.Prelude.{
  ℕ, ◌≡◌, refl, ap, subst, Bool, true, false, Option, none, some, List, [], ◌∷◌, arith,
  if◌then◌else◌, not,
}
use mod_audio_stream.Prelude.Ints.{ℤ}
use mod_audio_stream.Prelude.Cases.{if_both}
use mod_audio_stream.LifeCycle.Store.{
  Status, success, failed, Call, streamer_create, mutex_init, resampler_init, buffer_create,
  mutex_destroy, resampler_destroy,
}
use mod_audio_stream.LifeCycle.Threads.{count_if, is_delete, is_disconnect}
use mod_audio_stream.LifeCycle.Init.{
  Channel, Granted, Settings, Data, pvt_with, data_with, init_resampler, init_playback,
  stream_data_init, destroy_calls, stream_session_init, settings_of, same_rate,
}

abbrev pub is_create : Call → Bool
is_create streamer_create = true
is_create _ = false

abbrev pub is_mutex_init : Call → Bool
is_mutex_init mutex_init = true
is_mutex_init _ = false

abbrev pub is_mutex_destroy : Call → Bool
is_mutex_destroy mutex_destroy = true
is_mutex_destroy _ = false

abbrev pub is_resampler_init : Call → Bool
is_resampler_init resampler_init = true
is_resampler_init _ = false

abbrev pub is_resampler_destroy : Call → Bool
is_resampler_destroy resampler_destroy = true
is_resampler_destroy _ = false

-- The streamer was created once, and nobody disconnected or deleted it.
pub record Leaked (calls : List Call) : Type 0 where
  pub created : count_if is_create calls ≡ 1
  pub linked : count_if is_disconnect calls ≡ 0
  pub kept : count_if is_delete calls ≡ 0

-- Behind a set-up that worked: what was made is there, nothing of it is freed.
pub record SetUp (d : Data) (calls : List Call) : Type 0 where
  pub resampled : Bool
  pub given : d.pvt ≡ pvt_with resampled
  pub made : count_if is_create calls ≡ 1
  pub linked : count_if is_disconnect calls ≡ 0
  pub kept : count_if is_delete calls ≡ 0
  pub mutex_made : count_if is_mutex_init calls ≡ 1
  pub mutex_kept : count_if is_mutex_destroy calls ≡ 0
  pub resampler_made : count_if is_resampler_init calls ≡ (if resampled then 1 else 0)
  pub resampler_kept : count_if is_resampler_destroy calls ≡ 0

-- What was made for a session is given back, each thing as often as it was made.
pub record Released (calls : List Call) : Type 0 where
  pub created : count_if is_create calls ≡ 1
  pub disconnected : count_if is_disconnect calls ≡ 1
  pub deleted : count_if is_delete calls ≡ 1
  pub mutex_made : count_if is_mutex_init calls ≡ 1
  pub mutex_freed : count_if is_mutex_destroy calls ≡ 1
  pub resampler_freed : count_if is_resampler_destroy calls ≡ count_if is_resampler_init calls

abbrev pub IfFailed : Option Data × List Call → Type 0
IfFailed r = r.0 ≡ none → Leaked r.1

abbrev pub IfMade : Option Data × List Call → Type 0
IfMade (none, calls) = Unit
IfMade (some d, calls) = SetUp d calls

abbrev pub Ended : Status × Data → Type 0
Ended (failed, d) = Leaked (destroy_calls d.pvt d.calls)
Ended (success, d) = SetUp d d.calls

abbrev pub handed_on : Status × Data → Option Data × List Call
handed_on inited = elim inited.0 [
  | success ↦ (some inited.1, inited.1.calls)
  | failed ↦ (none, destroy_calls inited.1.pvt inited.1.calls)
]

pub Ended-IfFailed : (r : Status × Data) → Ended r → IfFailed (handed_on r)
Ended-IfFailed (failed, d) h e = h
Ended-IfFailed (success, d) h e = ground arith

Ended-IfMade : (r : Status × Data) → Ended r → IfMade (handed_on r)
Ended-IfMade (failed, d) h = tt
Ended-IfMade (success, d) h = h

module _ (ch : Channel) (granted : Granted) (set : Settings) (rate : ℕ) (uri : List ℕ) (desired : ℤ)
    (channels : ℕ) (metadata : Option (List ℕ)) where
  abbrev data_of : Bool → List Call → Data
  data_of = data_with ch set rate uri desired channels metadata

  -- A list of calls before the resampler: the streamer and the mutex are made.
  record Begun (calls : List Call) : Type 0 where
    made : count_if is_create calls ≡ 1
    linked : count_if is_disconnect calls ≡ 0
    kept : count_if is_delete calls ≡ 0
    mutex_made : count_if is_mutex_init calls ≡ 1
    mutex_kept : count_if is_mutex_destroy calls ≡ 0
    resampler_made : count_if is_resampler_init calls ≡ 0
    resampler_kept : count_if is_resampler_destroy calls ≡ 0

  failed-Ended : (calls : List Call) → Begun calls → Ended (failed, data_of false calls)
  unfolding data_with destroy_calls
  failed-Ended calls b = record { created = b.made; linked = b.linked; kept = b.kept }

  init_resampler-Ended :
      (calls : List Call) → Begun calls → Ended (init_resampler granted desired rate data_of calls)
  unfolding init_resampler data_with destroy_calls
  init_resampler-Ended calls b =
      if_both Ended (same_rate desired rate) _ _
        (λ q. record {
          resampled = false;
          given = refl;
          made = b.made;
          linked = b.linked;
          kept = b.kept;
          mutex_made = b.mutex_made;
          mutex_kept = b.mutex_kept;
          resampler_made = b.resampler_made;
          resampler_kept = b.resampler_kept;
        })
        (λ q.
          if_both Ended granted.resampler _ _
            (λ r. record {
              resampled = true;
              given = refl;
              made = b.made;
              linked = b.linked;
              kept = b.kept;
              mutex_made = b.mutex_made;
              mutex_kept = b.mutex_kept;
              resampler_made = omega (arith, b.resampler_made);
              resampler_kept = b.resampler_kept;
            })
            (λ r. record { created = b.made; linked = b.linked; kept = b.kept }))

  started_calls : (n : ℕ) → Begun (buffer_create n ∷ mutex_init ∷ streamer_create ∷ [])
  started_calls n = record {
    made = refl;
    linked = refl;
    kept = refl;
    mutex_made = refl;
    mutex_kept = refl;
    resampler_made = refl;
    resampler_kept = refl;
  }

  one_more : (n : ℕ) (calls : List Call) → Begun calls → Begun (buffer_create n ∷ calls)
  one_more n calls b = record {
    made = b.made;
    linked = b.linked;
    kept = b.kept;
    mutex_made = b.mutex_made;
    mutex_kept = b.mutex_kept;
    resampler_made = b.resampler_made;
    resampler_kept = b.resampler_kept;
  }

  pub stream_data_init-Ended :
      Ended (stream_data_init ch granted set rate uri desired channels metadata)
  unfolding stream_data_init init_playback
  stream_data_init-Ended =
      let b = started_calls _ in
      if_both Ended granted.sbuffer _ _
        (λ q.
          if_both Ended (not set.playback_enabled) _ _ (λ r. init_resampler-Ended _ b)
            (λ r.
              if_both Ended granted.playback_buffer _ _
                (λ t. init_resampler-Ended _ (one_more _ _ b))
                (λ t. failed-Ended _ (one_more _ _ b))))
        (λ q. failed-Ended _ b)

pub made-IfMade :
    (ch : Channel) (granted : Granted) (rate : ℕ) (uri : List ℕ) (desired : ℤ) (channels : ℕ)
    (metadata : Option (List ℕ))
    → IfMade (stream_session_init ch granted rate uri desired channels metadata)
unfolding stream_session_init
made-IfMade ch granted rate uri desired channels metadata =
    if_both IfMade (not granted.memory) _ _ (λ q. tt)
      (λ q.
        Ended-IfMade _
          (stream_data_init-Ended ch granted (settings_of ch) rate uri desired channels metadata))

-- The flag of the `private_t` that `memset` cleared.
pub stream_session_init_fresh :
    (ch : Channel) (granted : Granted) (rate : ℕ) (uri : List ℕ) (desired : ℤ) (channels : ℕ)
    (metadata : Option (List ℕ)) {d : Data} {calls : List Call}
    → stream_session_init ch granted rate uri desired channels metadata ≡ (some d, calls)
    → d.pvt.cleanup_started ≡ false
stream_session_init_fresh ch granted rate uri desired channels metadata {d} {calls} e =
    let set : SetUp d calls =
      subst IfMade e (made-IfMade ch granted rate uri desired channels metadata) in
    ap (λ p. p.cleanup_started) set.given
