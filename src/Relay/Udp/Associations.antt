-- ===== src/Relay/Udp/Associations.antt =====
-- src/udp.rs: the associations that a listener keeps.
use sspanel_ssr_rust_backend.Base.{
  ℕ, none, some, List, [], ◌∷◌, ◌++◌, length, drop, ◌≡◌, ◌≤◌, refl, sym, ap, ◌∙◌, inl, inr, max,
  nat_eq, Bool-cases, Option-cases, Result-cases, ok, err,
}
use mathlib.Core.Path.{subst}
use sspanel_ssr_rust_backend.Base.Table
use sspanel_ssr_rust_backend.Base.Table.{IsMap}
use sspanel_ssr_rust_backend.Net.{SocketAddr, show_ip}
use sspanel_ssr_rust_backend.Panel.{unwrap_or}
use sspanel_ssr_rust_backend.Audit.{scan_payload}
use sspanel_ssr_rust_backend.State
use sspanel_ssr_rust_backend.State.{BoundedTtlMap, touch, expire, insert}
use sspanel_ssr_rust_backend.State.Bounded
use sspanel_ssr_rust_backend.State.Bounded.{
  Call, touch_at, insert_at, expire_at, call, run-new-IsBounded,
}
use sspanel_ssr_rust_backend.Ssr.Crypto.{Crypto}
use sspanel_ssr_rust_backend.Ssr.Address.{Address, parse}
use sspanel_ssr_rust_backend.UserTables.{UserTables}
use sspanel_ssr_rust_backend.Relay.{World, port_blocked}
use sspanel_ssr_rust_backend.Relay.Tcp.{counter_of}
use sspanel_ssr_rust_backend.Relay.Udp.{
  AssociationKey_eq, AssociationKey, Association, ResponsePump, Listener, UdpDest, UdpState, Os,
  outbound_for, deliver, forward, checked, handle_inbound, listen, resolve_udp_dest,
}
use sspanel_ssr_rust_backend.Relay.Udp.Allowed.{forward_unresolved, forward_resolved}
use sspanel_ssr_rust_backend.Relay.Udp.Inbound.{
  opened, charged, pump_for, inbound_undecryptable, inbound_uncounted, inbound_counted,
}

abbrev Associations : Type 0
Associations = BoundedTtlMap AssociationKey Association

-- A map that calls of its operations have made of another.
unfoldable Ran : Associations → Associations → Type 0
Ran m m' = (cs : List (Call AssociationKey Association)) × (m' ≡ Bounded.run m cs)

run-append :
    (m : Associations) (cs ds : List (Call AssociationKey Association))
    → Bounded.run m (cs ++ ds) ≡ Bounded.run (Bounded.run m cs) ds
unfolding Bounded.run
run-append m [] ds = refl
run-append m (c ∷ cs) ds = run-append (call m c) cs ds

Ran-refl : (m : Associations) → Ran m m
unfolding Ran Bounded.run
Ran-refl m = ([], refl)

Ran-trans : (m n o : Associations) → Ran m n → Ran n o → Ran m o
unfolding Ran
Ran-trans m n o (cs, p) (ds, q) =
    (cs ++ ds, q ∙ ap (λ x. Bounded.run x ds) p ∙ sym (run-append m cs ds))

deliver_keeps :
    (os : Os) (s : UdpState) (outbound : ℕ) (dest : UdpDest) (payload : List ℕ)
    → (deliver os s outbound dest payload).0.associations ≡ s.associations
unfolding deliver
deliver_keeps os s outbound dest payload = elim (Result-cases os.send_to) [
  | inl (e, q) ↦ rw (q, deliver)
  | inr (done, q) ↦ rw (q, deliver)
]

outbound_for-Ran :
    (os : Os) (s : UdpState) (key : AssociationKey) (pump : ResponsePump)
    → Ran s.associations (outbound_for os s key pump).0.associations
unfolding outbound_for Ran Bounded.run call
outbound_for-Ran os s key pump = elim (Option-cases (touch s.associations key os.now).1) [
  | inr (a, e) ↦ (touch_at key os.now ∷ [], rw (e, outbound_for))
  | inl e ↦ elim (Result-cases os.bind) [
    | inl (f, q) ↦ (touch_at key os.now ∷ [], rw (e, outbound_for) (rw q))
    | inr (socket, q) ↦ (
      touch_at key os.now ∷ insert_at key (record { outbound = socket; pump = pump }) os.now ∷ [],
      rw (e, outbound_for) (rw q),
    )
  ]
]

forward-Ran :
    (os : Os) (l : Listener) (s : UdpState) (peer : SocketAddr) (real_user_id : ℕ)
    (pump : ResponsePump) (target : Address) (payload : List ℕ)
    → Ran s.associations (forward os l s peer real_user_id pump target payload).0.associations
forward-Ran os l s peer real_user_id pump target payload =
    let key : AssociationKey = record { peer = peer; user_id = real_user_id } in
    let made = outbound_for-Ran os s key pump in
    elim (Result-cases
      (resolve_udp_dest os target (Table.get real_user_id l.tables.policies) l.enforcement)) [
        | inl (e, q) ↦
            rw (forward_unresolved os l s peer real_user_id pump target payload e q)
              (Ran-refl s.associations)
        | inr (dest, q) ↦ elim (Result-cases (outbound_for os s key pump).1) [
          | inl (e, r) ↦
              rw (forward_resolved os l s peer real_user_id pump target payload dest (err e) q r)
                made
          | inr (socket, r) ↦
              rw
                (forward_resolved os l s peer real_user_id pump target payload dest (ok socket) q r)
                (rw (deliver_keeps os (outbound_for os s key pump).0 socket dest payload) made)
        ]
      ]

checked-Ran :
    (os : Os) (l : Listener) (s : UdpState) (peer : SocketAddr) (real_user_id : ℕ)
    (pump : ResponsePump) (target : Address) (payload : List ℕ)
    → Ran s.associations (checked os l s peer real_user_id pump target payload).0.associations
unfolding checked
checked-Ran os l s peer real_user_id pump target payload =
    elim (Bool-cases
      (port_blocked l.enforcement (Table.get real_user_id l.tables.policies) target.port)) [
        | inl blocked ↦ rw (blocked, checked) (Ran-refl s.associations)
        | inr passes ↦
            let channel =
              (scan_payload l.rules s.world.channel real_user_id (show_ip peer.ip) payload).1 in
            rw (passes, checked)
              (forward-Ran os l (record s { world = record s.world { channel = channel } }) peer
                real_user_id pump target payload)
      ]

module _ ⦃c : Crypto⦄ where
  handle_inbound-Ran :
      (os : Os) (l : Listener) (s : UdpState) (peer : SocketAddr) (datagram : List ℕ)
      → Ran s.associations (handle_inbound os l s peer datagram).0.associations
  handle_inbound-Ran os l s peer datagram =
      let same = Ran-refl s.associations in
      elim (Result-cases (opened os l s peer datagram)) [
        | inl (e, q) ↦ rw (inbound_undecryptable os l s peer datagram e q) same
        | inr ((plain, auth), q) ↦
            elim (Option-cases (counter_of l.tables (unwrap_or auth l.user_id) l.user_id)) [
              | inl n ↦ rw (inbound_uncounted os l s peer datagram plain auth q n) same
              | inr (k, n) ↦ elim (Result-cases (parse plain)) [
                | inl (e, r) ↦
                    rw (inbound_counted os l s peer datagram plain auth k (err e) q n r) same
                | inr (none, r) ↦
                    rw (inbound_counted os l s peer datagram plain auth k (ok none) q n r) same
                | inr (some (target, consumed), r) ↦
                    rw
                      (inbound_counted os l s peer datagram plain auth k
                        (ok (some (target, consumed))) q n r)
                      (checked-Ran os l (charged os l s peer datagram k) peer
                        (unwrap_or auth l.user_id) (pump_for os l s peer datagram auth k) target
                        (drop consumed plain))
              ]
            ]
      ]

  listen-Ran :
      (l : Listener) (s : UdpState) (received : List (Os × UserTables × SocketAddr × List ℕ))
      → Ran s.associations (listen l s received).associations
  unfolding listen
  listen-Ran l s [] = Ran-refl s.associations
  listen-Ran l s ((os, tables, peer, datagram) ∷ received) =
      let l1 = record l { tables = tables } in
      let s1 = record s { associations = expire s.associations os.now } in
      let s2 = (handle_inbound os l1 s1 peer datagram).0 in
      let expired : Ran s.associations s1.associations =
        unfold Ran Bounded.run call in (expire_at os.now ∷ [], refl) in
      Ran-trans s.associations s1.associations (listen l s2 received).associations expired (
        Ran-trans s1.associations s2.associations (listen l s2 received).associations
          (handle_inbound-Ran os l1 s1 peer datagram) (listen-Ran l s2 received))

  -- A listener that starts without associations keeps at most `max(1, capacity)` of them, no two
  -- for the same peer and user, whatever it receives, at any times, and whatever the system answers.
  pub listen-bounded :
      (l : Listener) (world : World) (ttl capacity : ℕ)
      (received : List (Os × UserTables × SocketAddr × List ℕ))
      → let s : UdpState = record {
        world = world;
        associations = State.new ttl capacity;
        sent = [];
      } in
        (length (listen l s received).associations.entries ≤ max capacity 1)
        × IsMap (listen l s received).associations.entries
  unfolding Ran
  listen-bounded l world ttl capacity received =
      let s : UdpState = record {
        world = world;
        associations = State.new ttl capacity;
        sent = [];
      } in
      let (cs, same) = listen-Ran l s received in
      subst (λ m. (length m.entries ≤ max capacity 1) × IsMap m.entries) (sym same)
        (run-new-IsBounded ttl capacity cs)
