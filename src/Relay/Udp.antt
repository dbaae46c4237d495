-- ===== src/Relay/Udp.antt =====
-- src/udp.rs: the datagram relay, its associations and the pump of the responses.
pub mod Allowed
pub mod Inbound
pub mod Associations
use sspanel_ssr_rust_backend.Base.{
  ℕ, Bool, true, false, ◌&&◌, not, Option, none, some, List, [], ◌∷◌, ◌++◌, length, drop, ◌==◌, ◌≡◌,
  ◌↔◌, arith, if◌then◌else◌, nat_eq, Eq, Result, Error, ok, err, ◌>>=◌,
}
use sspanel_ssr_rust_backend.Base.Int.{ℤ}
use sspanel_ssr_rust_backend.Base.Table
use sspanel_ssr_rust_backend.Text.{is_empty}
use sspanel_ssr_rust_backend.Net.{SocketAddr, SocketAddr_beq, SocketAddr_eq, show_ip, show_socket}
use sspanel_ssr_rust_backend.Panel.{unwrap_or}
use sspanel_ssr_rust_backend.Policy.{EnforcementConfig, UserPolicy, ip_forbidden}
use sspanel_ssr_rust_backend.Traffic.{record_upload, record_download}
use sspanel_ssr_rust_backend.Audit.{CompiledRule, report_connect, scan_payload}
use sspanel_ssr_rust_backend.State
use sspanel_ssr_rust_backend.State.{BoundedTtlMap, expire, insert, touch}
use sspanel_ssr_rust_backend.UserTables.{UserTables}
use sspanel_ssr_rust_backend.Ssr.Crypto.{Crypto}
use sspanel_ssr_rust_backend.Ssr.Cipher.{CipherKind}
use sspanel_ssr_rust_backend.Ssr.Udp.{udp_decrypt_packet, udp_encrypt_packet}
use sspanel_ssr_rust_backend.Ssr.Address.{Address, parse, pack_socket_addr}
use sspanel_ssr_rust_backend.Relay.{World, port_blocked, ip_check}
use sspanel_ssr_rust_backend.Relay.Tcp.{counter_of}

pub record AssociationKey : Type 0 where
  pub peer : SocketAddr
  pub user_id : ℕ

abbrev pub AssociationKey_beq : AssociationKey → AssociationKey → Bool
AssociationKey_beq a b = SocketAddr_beq a.peer b.peer && a.user_id == b.user_id

pub AssociationKey_beq_iff : (a b : AssociationKey) → (AssociationKey_beq a b ≡ true) ↔ (a ≡ b)
AssociationKey_beq_iff a b = ground arith

instance abbrev pub AssociationKey_eq : Eq AssociationKey
AssociationKey_eq = record { beq = AssociationKey_beq; beq_iff = AssociationKey_beq_iff }

-- What the task of `spawn_response_pump` owns.
pub record ResponsePump : Type 0 where
  pub master_key : List ℕ
  pub response_key : List ℕ
  pub counters : ℕ
  pub peer : SocketAddr
  pub cipher_kind : CipherKind

-- A socket is its handle.
pub record Association : Type 0 where
  pub outbound : ℕ
  pub pump : ResponsePump

-- What a listener keeps; its tables are those of the current snapshot.
pub record Listener : Type 0 where
  pub user_id : ℕ
  pub master_key : List ℕ
  pub tables : UserTables
  pub enforcement : EnforcementConfig
  pub is_multi_user : ℤ
  pub cipher_kind : CipherKind
  pub rules : List CompiledRule

pub data UdpDest : Type 0 where
  addr : SocketAddr → UdpDest
  host_port : (host : List ℕ) (port : ℕ) → UdpDest

-- A datagram that a socket has sent.
pub record Sent {ℓ} (D : Type ℓ) : Type ℓ where
  pub from : ℕ
  pub to : D
  pub payload : List ℕ

pub record UdpState : Type 0 where
  pub world : World
  pub associations : BoundedTtlMap AssociationKey Association
  pub sent : List (Sent UdpDest)

-- What the system answers to the calls made for one datagram: the clock, read once, name resolution, the
-- binding of a socket, and `send_to`.
pub record Os : Type 0 where
  pub now : ℕ
  pub lookup_host : List ℕ → ℕ → Result (List SocketAddr)
  pub bind : Result ℕ
  pub send_to : Result (Unit {0})

unfoldable pub find_allowed : UserPolicy → List SocketAddr → Option SocketAddr
find_allowed p [] = none
find_allowed p (a ∷ others) =
    let rest = find_allowed p others in if not (ip_forbidden p a.ip) then some a else rest

unfoldable pub resolve_udp_dest :
    Os → Address → Option UserPolicy → EnforcementConfig → Result UdpDest
resolve_udp_dest os target policy enforcement =
    if not (ip_check enforcement policy)
    then ok (host_port target.host target.port)
    else elim policy [
      | none ↦ err Error.panicked
      | some p ↦ os.lookup_host target.host target.port >>= λ resolved.
          if is_empty resolved then err Error.not_resolved else elim (find_allowed p resolved) [
            | some a ↦ ok (addr a)
            | none ↦ err Error.only_forbidden
          ]
    ]

-- The key that the responses are authenticated with.
unfoldable pub response_key_of : Listener → Option ℕ → List ℕ
response_key_of l none = l.master_key
response_key_of l (some uid) = elim (Table.get uid l.tables.auth_users) [
  | some key ↦ key
  | none ↦ l.master_key
]

-- The socket of the association, which is made for a first datagram.
unfoldable pub outbound_for : Os → UdpState → AssociationKey → ResponsePump → UdpState × Result ℕ
outbound_for os s key pump =
    let (associations, found) = touch s.associations key os.now in
    elim found [
      | some a ↦ (record s { associations = associations }, ok a.outbound)
      | none ↦
          let channel =
            report_connect s.world.channel key.user_id (show_ip key.peer.ip)
              (show_socket key.peer) in
          let s1 = record s {
            associations = associations;
            world = record s.world { channel = channel };
          } in
          elim os.bind [
            | err e ↦ (s1, err e)
            | ok outbound ↦
                let made =
                  insert s1.associations key (record { outbound = outbound; pump = pump }) os.now in
                (record s1 { associations = made }, ok outbound)
          ]
    ]

-- `send_to`, and `?` on its outcome.
unfoldable pub deliver : Os → UdpState → ℕ → UdpDest → List ℕ → UdpState × Result (Unit {0})
deliver os s outbound dest payload = elim os.send_to [
  | err e ↦ (s, err e)
  | ok _ ↦ (
    record s { sent = s.sent ++ (record { from = outbound; to = dest; payload = payload } ∷ []) },
    ok tt,
  )
]

-- From the destination on.
unfoldable pub forward :
    Os
    → Listener
    → UdpState
    → SocketAddr
    → ℕ
    → ResponsePump
    → Address
    → List ℕ
    → UdpState × Result (Unit {0})
forward os l s peer real_user_id pump target payload =
    elim (resolve_udp_dest os target (Table.get real_user_id l.tables.policies) l.enforcement) [
      | err e ↦ (s, err e)
      | ok dest ↦
          let (s1, outbound) =
            outbound_for os s (record { peer = peer; user_id = real_user_id }) pump in
          elim outbound [ err e ↦ (s1, err e) | ok socket ↦ deliver os s1 socket dest payload ]
    ]

-- From the policy on: the port test and the scan come before.
unfoldable pub checked :
    Os
    → Listener
    → UdpState
    → SocketAddr
    → ℕ
    → ResponsePump
    → Address
    → List ℕ
    → UdpState × Result (Unit {0})
checked os l s peer real_user_id pump target payload =
    let ip = show_ip peer.ip in
    if port_blocked l.enforcement (Table.get real_user_id l.tables.policies) target.port
    then (s, err Error.port_is_forbidden)
    else let (_, channel) = scan_payload l.rules s.world.channel real_user_id ip payload in
      forward os l (record s { world = record s.world { channel = channel } }) peer real_user_id
        pump target payload

module _ ⦃c : Crypto⦄ where
  unfoldable pub handle_inbound :
      Os → Listener → UdpState → SocketAddr → List ℕ → UdpState × Result (Unit {0})
  handle_inbound os l s peer datagram =
      elim (udp_decrypt_packet l.master_key l.tables.auth_users l.is_multi_user datagram
        l.cipher_kind) [
          | err e ↦ (s, err e)
          | ok (plain, authenticated) ↦
              let real_user_id = unwrap_or authenticated l.user_id in
              elim (counter_of l.tables real_user_id l.user_id) [
                | none ↦ (s, err Error.no_counter)
                | some counters ↦
                    let traffic = record_upload s.world.traffic counters (length datagram) in
                    let s1 = record s { world = record s.world { traffic = traffic } } in
                    let pump : ResponsePump = record {
                      master_key = l.master_key;
                      response_key = response_key_of l authenticated;
                      counters = counters;
                      peer = peer;
                      cipher_kind = l.cipher_kind;
                    } in
                    elim (parse plain) [
                      | err e ↦ (s1, err e)
                      | ok none ↦ (s1, err Error.header_incomplete)
                      | ok (some (target, consumed)) ↦
                          checked os l s1 peer real_user_id pump target (drop consumed plain)
                    ]
              ]
        ]

  -- The loop of a listener over what it receives, with the snapshot of the tables that each datagram
  -- is handled with; an error drops the datagram.
  unfoldable pub listen :
      Listener → UdpState → List (Os × UserTables × SocketAddr × List ℕ) → UdpState
  listen l s [] = s
  listen l s ((os, tables, peer, datagram) ∷ received) =
      let s1 = record s { associations = expire s.associations os.now } in
      listen l (handle_inbound os (record l { tables = tables }) s1 peer datagram).0 received

  -- One datagram of a target, on its way to the client.
  unfoldable pub respond :
      ResponsePump
      → World
      → List (Sent SocketAddr)
      → SocketAddr
      → List ℕ
      → (ℕ → Option (List ℕ))
      → ℕ
      → Result (Unit {0})
      → World × List (Sent SocketAddr) × Bool
  respond pump w sent from bytes getrandom server_socket send_to =
      let header = pack_socket_addr from.ip from.port in
      elim (udp_encrypt_packet pump.master_key pump.response_key (header ++ bytes) pump.cipher_kind
        getrandom) [
          | err e ↦ (w, sent, true)
          | ok pkt ↦
              let w' = record w {
                traffic = record_download w.traffic pump.counters (length pkt);
              } in
              elim send_to [
                | err e ↦ (w', sent, false)
                | ok _ ↦ (
                  w',
                  sent ++ (record { from = server_socket; to = pump.peer; payload = pkt } ∷ []),
                  true,
                )
              ]
        ]
