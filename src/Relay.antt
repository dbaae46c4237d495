-- ===== src/Relay.antt =====
-- What src/tcp.rs and src/udp.rs share: the checks of a target, and the state behind the relays.
pub mod Targets
pub mod Tcp
pub mod Handshake
pub mod Pump
pub mod Stream
pub mod Transparent
pub mod Udp
use sspanel_ssr_rust_backend.Base.{
  ℕ, ◌&&◌, Bool, true, false, Option, none, some, List, [], ◌∷◌, nat_eq, if◌then◌else◌, not,
}
use sspanel_ssr_rust_backend.Base.Table
use sspanel_ssr_rust_backend.Base.Table.{Table}
use sspanel_ssr_rust_backend.Policy.{
  EnforcementConfig, UserPolicy, port_forbidden, ip_forbidden, has_forbidden_ip,
}
use sspanel_ssr_rust_backend.Net.{SocketAddr}
use sspanel_ssr_rust_backend.Traffic.{TrafficLedger}
use sspanel_ssr_rust_backend.Traffic.Conns.{ConnLedger}
use sspanel_ssr_rust_backend.Audit.{RelayEvent}

-- What the tasks share: the counters, the IP sets and the event channel.
pub record World : Type 0 where
  pub traffic : TrafficLedger
  pub conns : ConnLedger
  pub channel : List RelayEvent

-- The port test of both relays.
unfoldable pub port_blocked : EnforcementConfig → Option UserPolicy → ℕ → Bool
port_blocked enforcement policy port =
    enforcement.forbidden && (elim policy [ none ↦ false | some p ↦ port_forbidden p port ])

-- `enforcement.forbidden && policy.is_some_and(UserPolicy::has_forbidden_ip)`
unfoldable pub ip_check : EnforcementConfig → Option UserPolicy → Bool
ip_check enforcement policy =
    enforcement.forbidden && (elim policy [ none ↦ false | some p ↦ has_forbidden_ip p ])

-- `.filter(|addr| !policy.ip_forbidden(addr.ip()))`
unfoldable pub allowed_only : UserPolicy → List SocketAddr → List SocketAddr
allowed_only p [] = []
allowed_only p (addr ∷ addrs) =
    let rest = allowed_only p addrs in if not (ip_forbidden p addr.ip) then addr ∷ rest else rest
