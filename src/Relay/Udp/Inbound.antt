-- ===== src/Relay/Udp/Inbound.antt =====
-- src/udp.rs: `handle_inbound`, over all its branches.
use sspanel_ssr_rust_backend.Base.{
  ℕ, Option, none, some, List, [], ◌∷◌, ◌++◌, length, drop, ◌≡◌, refl, ◌⊎◌, inl, inr, nat_eq,
  Bool-cases, Option-cases, Result, Result-cases, Error, ok, err,
}
use sspanel_ssr_rust_backend.Base.Table
use sspanel_ssr_rust_backend.Net.{SocketAddr, show_ip}
use sspanel_ssr_rust_backend.Panel.{unwrap_or}
use sspanel_ssr_rust_backend.Traffic.{record_upload}
use sspanel_ssr_rust_backend.Audit.{scan_payload}
use sspanel_ssr_rust_backend.Ssr.Crypto.{Crypto}
use sspanel_ssr_rust_backend.Ssr.Udp.{udp_decrypt_packet}
use sspanel_ssr_rust_backend.Ssr.Address.{Address, parse}
use sspanel_ssr_rust_backend.Relay.{port_blocked}
use sspanel_ssr_rust_backend.Relay.Tcp.{counter_of}
use sspanel_ssr_rust_backend.Relay.Targets.{KeepsPort}
use sspanel_ssr_rust_backend.Relay.Udp.{
  ResponsePump, Listener, UdpDest, Sent, UdpState, Os, checked, handle_inbound, response_key_of,
}
use sspanel_ssr_rust_backend.Relay.Udp.Allowed.{MayReach, SendsAtMost, forward-SendsAtMost}

checked-SendsAtMost :
    (os : Os) (l : Listener) (s : UdpState) (peer : SocketAddr) (real_user_id : ℕ)
    (pump : ResponsePump) (target : Address) (payload : List ℕ)
    → KeepsPort os.lookup_host
    → SendsAtMost l.enforcement
        (Table.get real_user_id l.tables.policies)
        payload
        s.sent
        (checked os l s peer real_user_id pump target payload).0.sent
unfolding checked
checked-SendsAtMost os l s peer real_user_id pump target payload keeps =
    let policy = Table.get real_user_id l.tables.policies in
    elim (Bool-cases (port_blocked l.enforcement policy target.port)) [
      | inl blocked ↦ rw (blocked, checked) (unfold SendsAtMost in inl refl)
      | inr passes ↦
          let channel =
            (scan_payload l.rules s.world.channel real_user_id (show_ip peer.ip) payload).1 in
          rw (passes, checked)
            (forward-SendsAtMost os l (record s { world = record s.world { channel = channel } })
              peer real_user_id pump target payload keeps passes)
    ]

module _ ⦃c : Crypto⦄ where
  -- A datagram whose payload is that of a client's datagram, and whose target its user may reach.
  pub record Forwards (l : Listener) (datagram : List ℕ) (d : Sent UdpDest) : Type 0 where
    pub plain : List ℕ
    pub authenticated : Option ℕ
    pub target : Address
    pub consumed : ℕ
    pub decrypts :
        udp_decrypt_packet l.master_key l.tables.auth_users l.is_multi_user datagram l.cipher_kind
        ≡ ok (plain, authenticated)
    pub parses : parse plain ≡ ok (some (target, consumed))
    pub payload : d.payload ≡ drop consumed plain
    pub reaches :
        MayReach l.enforcement
          (Table.get (unwrap_or authenticated l.user_id) l.tables.policies)
          d.to

  module _ (os : Os) (l : Listener) (s : UdpState) (peer : SocketAddr) (datagram : List ℕ) where
    abbrev pub opened : Result (List ℕ × Option ℕ)
    opened =
        udp_decrypt_packet l.master_key l.tables.auth_users l.is_multi_user datagram l.cipher_kind

    -- The listener after the upload was counted.
    abbrev pub charged : ℕ → UdpState
    charged counters = record s {
      world = record s.world { traffic = record_upload s.world.traffic counters (length datagram) };
    }

    abbrev pub pump_for : Option ℕ → ℕ → ResponsePump
    pump_for authenticated counters = record {
      master_key = l.master_key;
      response_key = response_key_of l authenticated;
      counters = counters;
      peer = peer;
      cipher_kind = l.cipher_kind;
    }

    pub inbound_undecryptable :
        (e : Error) → opened ≡ err e → handle_inbound os l s peer datagram ≡ (s, err e)
    unfolding handle_inbound
    inbound_undecryptable e q = rw (q, handle_inbound)

    pub inbound_uncounted :
        (plain : List ℕ) (authenticated : Option ℕ)
        → opened ≡ ok (plain, authenticated)
        → counter_of l.tables (unwrap_or authenticated l.user_id) l.user_id ≡ none
        → handle_inbound os l s peer datagram ≡ (s, err Error.no_counter)
    unfolding handle_inbound
    inbound_uncounted plain authenticated q n = rw (q, handle_inbound) (rw n)

    -- The branches that follow the count.
    abbrev pub after_count :
        Result (Option (Address × ℕ)) → List ℕ → Option ℕ → ℕ → UdpState × Result (Unit {0})
    after_count (err e) plain authenticated counters = (charged counters, err e)
    after_count (ok none) plain authenticated counters =
        (charged counters, err Error.header_incomplete)
    after_count (ok (some (target, consumed))) plain authenticated counters =
        checked os l (charged counters) peer (unwrap_or authenticated l.user_id)
          (pump_for authenticated counters) target (drop consumed plain)

    pub inbound_counted :
        (plain : List ℕ) (authenticated : Option ℕ) (counters : ℕ)
        (found : Result (Option (Address × ℕ)))
        → opened ≡ ok (plain, authenticated)
        → counter_of l.tables (unwrap_or authenticated l.user_id) l.user_id ≡ some counters
        → parse plain ≡ found
        → handle_inbound os l s peer datagram ≡ after_count found plain authenticated counters
    unfolding handle_inbound
    inbound_counted plain authenticated counters (err e) q n r = rw (q, handle_inbound) (rw (n, r))
    inbound_counted plain authenticated counters (ok none) q n r =
        rw (q, handle_inbound) (rw (n, r))
    inbound_counted plain authenticated counters (ok (some found)) q n r =
        rw (q, handle_inbound) (rw (n, r))

    -- A datagram makes the listener send nothing, or one datagram more: the payload that follows the
    -- address header of what the client's datagram decrypts to, unchanged, to a target that the
    -- policy of the user that it authenticates as lets through, by its port, and by its address where
    -- the policy forbids any. It holds for a resolver whose answers carry the port asked for.
    pub handle_inbound-Forwards :
        KeepsPort os.lookup_host
        → ((handle_inbound os l s peer datagram).0.sent ≡ s.sent)
          ⊎ ((d : Sent UdpDest) × ((handle_inbound os l s peer datagram).0.sent
                ≡ s.sent ++ (d ∷ []))
              × Forwards l datagram d)
    unfolding SendsAtMost
    handle_inbound-Forwards keeps = elim (Result-cases opened) [
      | inl (e, q) ↦ rw (inbound_undecryptable e q) (inl refl)
      | inr ((plain, authenticated), q) ↦
          elim (Option-cases (counter_of l.tables (unwrap_or authenticated l.user_id) l.user_id)) [
            | inl n ↦ rw (inbound_uncounted plain authenticated q n) (inl refl)
            | inr (counters, n) ↦ elim (Result-cases (parse plain)) [
              | inl (e, r) ↦
                  rw (inbound_counted plain authenticated counters (err e) q n r) (inl refl)
              | inr (none, r) ↦
                  rw (inbound_counted plain authenticated counters (ok none) q n r) (inl refl)
              | inr (some (target, consumed), r) ↦
                  rw
                    (inbound_counted plain authenticated counters (ok (some (target, consumed))) q n
                      r)
                    (elim (checked-SendsAtMost os l (charged counters) peer
                      (unwrap_or authenticated l.user_id) (pump_for authenticated counters) target
                      (drop consumed plain) keeps) [
                        | inl same ↦ inl same
                        | inr (d, appended, payload, reaches) ↦ inr (
                          d,
                          appended,
                          record {
                            plain = plain;
                            authenticated = authenticated;
                            target = target;
                            consumed = consumed;
                            decrypts = q;
                            parses = r;
                            payload = payload;
                            reaches = reaches;
                          },
                        )
                      ])
            ]
          ]
    ]
