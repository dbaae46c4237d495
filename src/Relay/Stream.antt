-- ===== src/Relay/Stream.antt =====
-- src/tcp.rs: `handle_stream`, from the first read of a connection to its end.
pub mod Slots
pub mod Admission
pub mod Restores
use sspanel_ssr_rust_backend.Base.{
  ℕ, Option, none, some, List, [], ◌∷◌, Result, Error, ok, err, if◌then◌else◌,
}
use sspanel_ssr_rust_backend.Text.{is_empty}
use sspanel_ssr_rust_backend.Net.{SocketAddr}
use sspanel_ssr_rust_backend.Traffic.{TrafficLedger}
use sspanel_ssr_rust_backend.Ssr.Crypto.{Crypto}
use sspanel_ssr_rust_backend.Ssr.Session
use sspanel_ssr_rust_backend.Ssr.Session.{ServerSession}
use sspanel_ssr_rust_backend.Ssr.Address.{Address}
use sspanel_ssr_rust_backend.Relay.{World}
use sspanel_ssr_rust_backend.Relay.Tcp.{
  StreamContext, Read, Handshake, closed, pending, complete, handshake, Admitted, admit,
  release_guard, connect_target_checked,
}
use sspanel_ssr_rust_backend.Relay.Pump.{
  Input, Pump, Next, continues, finishes, aborts, rounds, write_remote,
}

-- What the system answers over the life of a connection; `stream` stands for a connected socket.
pub record Network : Type 1 where
  pub stream : Type 0
  pub getrandom : ℕ → Option (List ℕ)
  pub connect_host : List ℕ → ℕ → Result stream
  pub connect : SocketAddr → Result stream
  pub lookup_host : List ℕ → ℕ → Result (List SocketAddr)
  pub initial_written : Result (Unit {0})

-- `none` while the connection goes on.
abbrev pub Ended : Type 0
Ended = Option (Result (Unit {0}))

-- The end of the scope: the guard is dropped.
unfoldable pub leave : StreamContext → World → Admitted → Result (Unit {0}) → World × Ended
leave context w a r = (release_guard w a.guarded context.peer_ip, some r)

-- What the last round of the relay loop leads to.
unfoldable pub after_relay : StreamContext → World → Admitted → Pump × Next → World × Ended
after_relay context w a (p, continues) = (record w { traffic = p.traffic }, none)
after_relay context w a (p, finishes) = leave context (record w { traffic = p.traffic }) a (ok tt)
after_relay context w a (p, aborts e) = leave context (record w { traffic = p.traffic }) a (err e)

module _ ⦃c : Crypto⦄ where
  -- From `remote.into_split` on.
  unfoldable pub relay :
      StreamContext
      → World
      → Network
      → Admitted
      → ServerSession
      → List ℕ
      → List Input
      → World × Ended
  relay context w net a session initial inputs =
      let p : Pump = record {
        session = session;
        traffic = w.traffic;
        to_remote = [];
        to_client = [];
      } in
      let (p1, first) =
        if is_empty initial then (p, continues) else write_remote p initial net.initial_written in
      elim first [
        | continues ↦ after_relay context w a (rounds a.counter p1 inputs)
        | finishes ↦ leave context w a (ok tt)
        | aborts e ↦ leave context w a (err e)
      ]

  -- From the end of the handshake on.
  unfoldable pub serve :
      StreamContext
      → World
      → Network
      → Address
      → List ℕ
      → ServerSession
      → ℕ
      → List Input
      → World × Ended
  serve context w net target initial session pre_auth_upload inputs =
      let (w1, admitted) = admit context w session initial pre_auth_upload in
      elim admitted [
        | err e ↦ (w1, some (err e))
        | ok none ↦ (w1, some (ok tt))
        | ok (some a) ↦
            elim (connect_target_checked net.connect_host net.connect net.lookup_host target
              a.policy context.enforcement) [
                | err e ↦ leave context w1 a (err e)
                | ok stream ↦ relay context w1 net a session initial inputs
              ]
      ]

  unfoldable pub handle_stream :
      StreamContext → World → Network → List Read → List Input → World × Ended
  handle_stream context w net reads inputs =
      elim (Session.new context.password context.tables.auth_users context.is_multi_user
        context.cipher_kind net.getrandom) [
          | err e ↦ (w, some (err e))
          | ok session ↦ elim (handshake session [] 0 reads) [
            | err e ↦ (w, some (err e))
            | ok closed ↦ (w, some (ok tt))
            | ok (pending session' app_buf n) ↦ (w, none)
            | ok (complete target initial session' n) ↦
                serve context w net target initial session' n inputs
          ]
        ]
