-- ===== src/Relay/Stream/Restores.antt =====
-- src/tcp.rs: the IP set of a user before and after a connection.
use sspanel_ssr_rust_backend.Base.{
  ℕ, ◌≡◌, refl, ap, ◌∙◌, Option, none, some, List, [], bytes_key, nat_eq, inl, inr, Result, Error,
  ok, err, Result-cases,
}
use sspanel_ssr_rust_backend.Policy.{UserPolicy}
use sspanel_ssr_rust_backend.Ssr.Crypto.{Crypto}
use sspanel_ssr_rust_backend.Ssr.Session
use sspanel_ssr_rust_backend.Ssr.Session.{ServerSession}
use sspanel_ssr_rust_backend.Ssr.Address.{Address}
use sspanel_ssr_rust_backend.Relay.{World}
use sspanel_ssr_rust_backend.Relay.Tcp.{
  StreamContext, Read, Handshake, closed, pending, complete, handshake, Admitted, admit,
  release_guard, connect_target_checked,
}
use sspanel_ssr_rust_backend.Relay.Pump.{Input, Pump, Next, continues, finishes, aborts, rounds}
use sspanel_ssr_rust_backend.Relay.Stream.{
  Network, Ended, leave, after_relay, relay, serve, handle_stream,
}
use sspanel_ssr_rust_backend.Relay.Stream.Admission.{
  NoneIdle, Admits, release_guard_same, admit-Admits,
}

unfoldable Restored : World → World × Ended → Type 0
Restored w (w', none) = Unit {0}
Restored w (w', some r) = w'.conns ≡ w.conns

-- The end of a scope that has its guard.
leave-Restored :
    (context : StreamContext) (v w : World) (a : Admitted) (r : Result (Unit {0}))
    → (release_guard v a.guarded context.peer_ip).conns ≡ w.conns
    → Restored w (leave context v a r)
unfolding leave Restored
leave-Restored context v w a r h = h

after_relay-Restored :
    (context : StreamContext) (v w : World) (a : Admitted) (out : Pump × Next)
    → (release_guard v a.guarded context.peer_ip).conns ≡ w.conns
    → Restored w (after_relay context v a out)
unfolding after_relay Restored
after_relay-Restored context v w a (p, continues) h = tt
after_relay-Restored context v w a (p, finishes) h =
    let v' : World = record v { traffic = p.traffic } in
    leave-Restored context v' w a (ok tt)
      (release_guard_same v' v a.guarded context.peer_ip refl ∙ h)
after_relay-Restored context v w a (p, aborts e) h =
    let v' : World = record v { traffic = p.traffic } in
    leave-Restored context v' w a (err e)
      (release_guard_same v' v a.guarded context.peer_ip refl ∙ h)

module _ ⦃c : Crypto⦄ where
  started :
      (context : StreamContext) (v w : World) (a : Admitted) (p1 : Pump) (first : Next)
      (inputs : List Input)
      → (release_guard v a.guarded context.peer_ip).conns ≡ w.conns
      → Restored w (elim first [
        | continues ↦ after_relay context v a (rounds a.counter p1 inputs)
        | finishes ↦ leave context v a (ok tt)
        | aborts e ↦ leave context v a (err e)
      ])
  started context v w a p1 continues inputs h =
      after_relay-Restored context v w a (rounds a.counter p1 inputs) h
  started context v w a p1 finishes inputs h = leave-Restored context v w a (ok tt) h
  started context v w a p1 (aborts e) inputs h = leave-Restored context v w a (err e) h

  relay-Restored :
      (context : StreamContext) (v w : World) (net : Network) (a : Admitted)
      (session : ServerSession) (initial : List ℕ) (inputs : List Input)
      → (release_guard v a.guarded context.peer_ip).conns ≡ w.conns
      → Restored w (relay context v net a session initial inputs)
  unfolding relay
  relay-Restored context v w net a session initial inputs h = started context v w a _ _ inputs h

  module _ (context : StreamContext) (w : World) (net : Network) (target : Address)
      (initial : List ℕ) (session : ServerSession) (n : ℕ) (inputs : List Input) where
    abbrev reached : Option UserPolicy → Result net.stream
    reached policy =
        connect_target_checked net.connect_host net.connect net.lookup_host target policy
          context.enforcement

    serve_err :
        (v : World) (e : Error)
        → admit context w session initial n ≡ (v, err e)
        → serve context w net target initial session n inputs ≡ (v, some (err e))
    unfolding serve
    serve_err v e q = rw (q, serve) (ap (λ x. (x.0, some (err e))) q)

    serve_refused :
        (v : World)
        → admit context w session initial n ≡ (v, ok none)
        → serve context w net target initial session n inputs ≡ (v, some (ok tt))
    unfolding serve
    serve_refused v q = rw (q, serve) (ap (λ x. (x.0, some (ok tt))) q)

    serve_missed :
        (v : World) (a : Admitted) (e : Error)
        → admit context w session initial n ≡ (v, ok (some a))
        → reached a.policy ≡ err e
        → serve context w net target initial session n inputs ≡ leave context v a (err e)
    unfolding serve
    serve_missed v a e q r = rw (q, serve) (rw r (ap (λ x. leave context x.0 a (err e)) q))

    serve-reached :
        (v : World) (a : Admitted) (s : net.stream)
        → admit context w session initial n ≡ (v, ok (some a))
        → reached a.policy ≡ ok s
        → serve context w net target initial session n inputs
          ≡ relay context v net a session initial inputs
    unfolding serve
    serve-reached v a s q r =
        rw (q, serve) (rw r (ap (λ x. relay context x.0 net a session initial inputs) q))

    serve_by :
        (out : World × Result (Option Admitted))
        → admit context w session initial n ≡ out
        → Admits w context.peer_ip out
        → Restored w (serve context w net target initial session n inputs)
    unfolding Admits
    serve_by (v, err e) q h = rw (serve_err v e q) (unfold Restored in h)
    serve_by (v, ok none) q h = rw (serve_refused v q) (unfold Restored in h)
    serve_by (v, ok (some a)) q h = elim (Result-cases (reached a.policy)) [
      | inl (e, r) ↦ rw (serve_missed v a e q r) (leave-Restored context v w a (err e) h)
      | inr (s, r) ↦
          rw (serve-reached v a s q r) (relay-Restored context v w net a session initial inputs h)
    ]

    serve-Restored :
        NoneIdle w.conns.sets context.peer_ip
        → Restored w (serve context w net target initial session n inputs)
    serve-Restored h =
        serve_by (admit context w session initial n) refl
          (admit-Admits context w session initial n h)

  module _ (context : StreamContext) (w : World) (net : Network) (reads : List Read)
      (inputs : List Input) where
    abbrev opened : Result ServerSession
    opened =
        Session.new context.password context.tables.auth_users context.is_multi_user
          context.cipher_kind net.getrandom

    -- The branches that follow the handshake.
    abbrev after_handshake : Result Handshake → World × Ended
    after_handshake (err e) = (w, some (err e))
    after_handshake (ok closed) = (w, some (ok tt))
    after_handshake (ok (pending session app_buf n)) = (w, none)
    after_handshake (ok (complete target initial session n)) =
        serve context w net target initial session n inputs

    no_session :
        (e : Error) → opened ≡ err e → handle_stream context w net reads inputs ≡ (w, some (err e))
    unfolding handle_stream
    no_session e q = rw (q, handle_stream)

    handled :
        (s : ServerSession) (out : Result Handshake)
        → opened ≡ ok s
        → handshake s [] 0 reads ≡ out
        → handle_stream context w net reads inputs ≡ after_handshake out
    unfolding handle_stream
    handled s (err e) q r = rw (q, handle_stream) (rw r)
    handled s (ok closed) q r = rw (q, handle_stream) (rw r)
    handled s (ok (pending session app_buf n)) q r = rw (q, handle_stream) (rw r)
    handled s (ok (complete target initial session n)) q r = rw (q, handle_stream) (rw r)

    after_handshake-Restored :
        (out : Result Handshake)
        → NoneIdle w.conns.sets context.peer_ip
        → Restored w (after_handshake out)
    unfolding Restored
    after_handshake-Restored (err e) h = refl
    after_handshake-Restored (ok closed) h = refl
    after_handshake-Restored (ok (pending session app_buf n)) h = tt
    after_handshake-Restored (ok (complete target initial session n)) h =
        serve-Restored context w net target initial session n inputs h

    stream-Restored :
        NoneIdle w.conns.sets context.peer_ip
        → Restored w (handle_stream context w net reads inputs)
    stream-Restored h = elim (Result-cases opened) [
      | inl (e, q) ↦ rw (no_session e q) (unfold Restored in refl)
      | inr (s, q) ↦
          rw (handled s (handshake s [] 0 reads) q refl)
            (after_handshake-Restored (handshake s [] 0 reads) h)
    ]

  ended_at :
      (w : World) (out : World × Ended) (r : Result (Unit {0}))
      → Restored w out
      → out.1 ≡ some r
      → out.0.conns ≡ w.conns
  unfolding Restored
  ended_at w (v, none) r h e = cc
  ended_at w (v, some x) r h e = h

  -- A connection that ends, in whatever way, leaves the sets of client IPs as it found them: a slot
  -- that it took is given back after a refusal by the audit, a target that cannot or must not be
  -- reached, an error of a read or a write, a time-out or a regular end. It holds where no set
  -- counts the client's address without a connection, and while no other connection comes or goes.
  pub handle_stream_restores :
      (context : StreamContext) (w : World) (net : Network) (reads : List Read)
      (inputs : List Input) (r : Result (Unit {0}))
      → NoneIdle w.conns.sets context.peer_ip
      → (handle_stream context w net reads inputs).1 ≡ some r
      → (handle_stream context w net reads inputs).0.conns ≡ w.conns
  handle_stream_restores context w net reads inputs r h e =
      ended_at w (handle_stream context w net reads inputs) r
        (stream-Restored context w net reads inputs h) e
