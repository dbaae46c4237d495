-- ===== src/Relay/Pump.antt =====
-- src/tcp.rs: the relay loop of a connection, in both directions.
use sspanel_ssr_rust_backend.Base.{
  ℕ, List, [], ◌∷◌, ◌++◌, length, if◌then◌else◌, Result, Error, ok, err,
}
use sspanel_ssr_rust_backend.Text.{is_empty}
use sspanel_ssr_rust_backend.Traffic.{TrafficLedger, record_upload, record_download}
use sspanel_ssr_rust_backend.Ssr.Crypto.{Crypto}
use sspanel_ssr_rust_backend.Ssr.Session.{ServerSession, decrypt, encrypt}
use sspanel_ssr_rust_backend.Relay.Tcp.{Read, chunk, fails}

-- What the `select!` of one round wakes up on. A read comes with the outcome of the write that
-- follows it, if one does.
pub data Input : Type 0 where
  idle_expires : Input
  from_client : (read : Read) (written : Result (Unit {0})) → Input
  from_remote : (read : Read) (written : Result (Unit {0})) → Input

-- `to_remote` and `to_client` are the bytes written so far.
pub record Pump : Type 0 where
  pub session : ServerSession
  pub traffic : TrafficLedger
  pub to_remote : List ℕ
  pub to_client : List ℕ

pub data Next : Type 0 where
  continues finishes : Next
  aborts : Error → Next

-- `write_all`, and `?` on its outcome.
unfoldable pub write_remote : Pump → List ℕ → Result (Unit {0}) → Pump × Next
write_remote p bytes (ok _) = (record p { to_remote = p.to_remote ++ bytes }, continues)
write_remote p bytes (err e) = (p, aborts e)

unfoldable pub write_client : Pump → List ℕ → Result (Unit {0}) → Pump × Next
write_client p bytes (ok _) = (record p { to_client = p.to_client ++ bytes }, continues)
write_client p bytes (err e) = (p, aborts e)

module _ ⦃c : Crypto⦄ where
  -- One round of the loop, with the counter of the connection.
  unfoldable pub round : ℕ → Pump → Input → Pump × Next
  unfolding write_remote write_client
  round counter p idle_expires = (p, aborts Error.idle_timeout)
  round counter p (from_client (fails e) written) = (p, aborts e)
  round counter p (from_client (chunk []) written) = (p, finishes)
  round counter p (from_client (chunk (byte ∷ bytes)) written) =
      let p1 = record p { traffic = record_upload p.traffic counter (length (byte ∷ bytes)) } in
      elim (decrypt p.session (byte ∷ bytes)) [
        | err e ↦ (p1, aborts e)
        | ok (session', plain) ↦
            let p2 = record p1 { session = session' } in
            if is_empty plain then (p2, continues) else write_remote p2 plain written
      ]
  round counter p (from_remote (fails e) written) = (p, aborts e)
  round counter p (from_remote (chunk []) written) = (p, finishes)
  round counter p (from_remote (chunk (byte ∷ bytes)) written) =
      elim (encrypt p.session (byte ∷ bytes)) [
        | err e ↦ (p, aborts e)
        | ok (session', wire) ↦
            write_client
              (record p {
                session = session';
                traffic = record_download p.traffic counter (length wire);
              })
              wire written
      ]

  -- The loop: it ends with a round that does not continue, or waits when the inputs end.
  unfoldable pub rounds : ℕ → Pump → List Input → Pump × Next
  rounds counter p [] = (p, continues)
  rounds counter p (i ∷ is) =
      let (p', next) = round counter p i in
      elim next [
        | continues ↦ rounds counter p' is
        | finishes ↦ (p', finishes)
        | aborts e ↦ (p', aborts e)
      ]
