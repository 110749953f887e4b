-- ===== src/WsClient/ConnectionLaws.antt =====
-- How a connection is set up.
use mod_audio_stream.Prelude.{◌≡◌, refl, sym, inl, Bool, true, false, List, subst, Bool-cases, inr}
use mod_audio_stream.WsClient.Connection.{
  TcpAnswer, at_once, in_progress, refused, Attempt, Call, Action, Client, resolve, dial, secure,
  upgrade, set_up,
}
use mod_audio_stream.WsClient.SetUp.{
  IsReleased, dialled, succeeds, Reached, abort-Failed, refused-Failed, upgraded-Open,
}

module _ (does : Call → List Action) where
  -- The outcome, by each of the answers in turn.
  module _ (c : Client) (free : IsReleased c) where
    abbrev Settled : Bool → Attempt → Type 0
    Settled tls a =
        let d = record c { use_tls = tls } in Reached does d (succeeds a tls) (set_up does a d)

    -- The upgrade, for one answer of `doHandshake` and the other.
    settle_upgrade :
        (tls ssl context : Bool) (a : Attempt)
        → ssl ≡ tls
        → context ≡ tls
        → let d = record c { use_tls = tls } in
          Reached does d a.upgraded
            (upgrade does a (record d { socket = true; ssl = ssl; context = context }))
    settle_upgrade tls ssl context a p q =
        let d : Client = record c { use_tls = tls } in
        let e : Client = record d { socket = true; ssl = ssl; context = context } in
        elim (Bool-cases a.upgraded) [
          | inl yes_ ↦
              subst (λ u. Reached does d u (upgrade does a e)) (sym yes_)
                (upgraded-Open does a d e refl refl refl refl refl refl yes_ refl p q)
          | inr no_ ↦
              subst (λ u. Reached does d u (upgrade does a e)) (sym no_)
                (refused-Failed does a d e refl refl refl refl refl refl no_)
        ]

    abbrev answers : Bool → Bool → TcpAnswer → Bool → Bool → Bool → Bool → Bool → Attempt
    answers r s t rd cl hc ta u = record {
      resolved = r;
      has_socket = s;
      tcp = t;
      ready = rd;
      clean = cl;
      has_context = hc;
      tls_accepted = ta;
      upgraded = u;
    }

    -- The client where a step fails: before the socket, with it closed, and behind TLS.
    abbrev bare : Bool → Client
    bare tls = record c { use_tls = tls }

    abbrev hung_up : Bool → Client
    hung_up tls = record c { use_tls = tls; socket = false }

    abbrev stripped : Bool → Client
    stripped tls = record c { use_tls = tls; socket = false; ssl = false; context = false }

    settle :
        (tls r s : Bool) (t : TcpAnswer) (rd cl hc ta u : Bool)
        → Settled tls (answers r s t rd cl hc ta u)
    unfolding set_up resolve dial secure succeeds dialled
    settle tls false s t rd cl hc ta u =
        (refl, abort-Failed does (bare tls) (bare tls) 6 1006 free refl refl refl refl)
    settle tls true false t rd cl hc ta u =
        (refl, abort-Failed does (bare tls) (bare tls) 6 1006 free refl refl refl refl)
    settle tls true true refused rd cl hc ta u = (
      refl,
      abort-Failed does (bare tls) (hung_up tls) 6 1006 (refl, free.1, free.2) refl refl refl refl,
    )
    settle tls true true in_progress false cl hc ta u = (
      refl,
      abort-Failed does (bare tls) (hung_up tls) 6 1006 (refl, free.1, free.2) refl refl refl refl,
    )
    settle tls true true in_progress true false hc ta u = (
      refl,
      abort-Failed does (bare tls) (hung_up tls) 6 1006 (refl, free.1, free.2) refl refl refl refl,
    )
    settle true true true at_once rd cl false ta u = (
      refl,
      abort-Failed does (bare true) (hung_up true) 7 1006 (refl, free.1, free.2) refl refl refl
          refl,
    )
    settle true true true at_once rd cl true false u = (
      refl,
      abort-Failed does (bare true) (stripped true) 8 1006 (refl, refl, refl) refl refl refl refl,
    )
    settle true true true at_once rd cl true true u =
        settle_upgrade true true true (answers true true at_once rd cl true true u) refl refl
    settle false true true at_once rd cl hc ta u =
        settle_upgrade false c.ssl c.context (answers true true at_once rd cl hc ta u) free.1 free.2
    settle true true true in_progress true true false ta u = (
      refl,
      abort-Failed does (bare true) (hung_up true) 7 1006 (refl, free.1, free.2) refl refl refl
          refl,
    )
    settle true true true in_progress true true true false u = (
      refl,
      abort-Failed does (bare true) (stripped true) 8 1006 (refl, refl, refl) refl refl refl refl,
    )
    settle true true true in_progress true true true true u =
        settle_upgrade true true true (answers true true in_progress true true true true u) refl
          refl
    settle false true true in_progress true true hc ta u =
        settle_upgrade false c.ssl c.context (answers true true in_progress true true hc ta u)
          free.1 free.2

  -- For a client that holds no socket and no TLS object, every run of the system's answers,
  -- whichever callbacks are set, and whatever they do in taking callbacks away and disconnecting:
  -- threadFunc reaches the poll loop exactly if no step of the connection fails. Then there is a
  -- socket, TLS objects exactly for wss://, onOpen_ was called once if it was set, and the state is
  -- OPEN unless onOpen_ disconnects. Else the state is DISCONNECTED, nothing is held, onError_ was
  -- called once if it was set, and then onClose_ once if it was set and onError_ did not take it
  -- away.
  pub set_up-Reached :
      (a : Attempt) (c : Client)
      → IsReleased c
      → Reached does c (succeeds a c.use_tls) (set_up does a c)
  set_up-Reached a c free =
      settle c free c.use_tls a.resolved a.has_socket a.tcp a.ready a.clean a.has_context
        a.tls_accepted a.upgraded
