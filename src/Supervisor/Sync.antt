-- ===== src/Supervisor/Sync.antt =====
-- src/runtime/supervisor.rs: a poll of the panel's users, and the listeners that it starts and stops.
pub mod Served
pub mod Wanted
pub mod Serving
pub mod Listening
pub mod Alike
pub mod Ledgers
pub mod Collect
pub mod Untouched
pub mod Tables
pub mod Ports
pub mod Restarts
use sspanel_ssr_rust_backend.Base.{
  ℕ, Bool, true, false, ◌&&◌, not, Option, none, some, List, [], ◌∷◌, ◌++◌, length, ltb, ◌==◌,
  if◌then◌else◌, nat_eq, bytes_eq, Result, Error, ok, err,
}
use sspanel_ssr_rust_backend.Base.Int.{ℤ, ℤ_beq, pos}
use sspanel_ssr_rust_backend.Base.Table
use sspanel_ssr_rust_backend.Base.Table.{Table}
use sspanel_ssr_rust_backend.Net.{IpAddr}
use sspanel_ssr_rust_backend.Float.{F64}
use sspanel_ssr_rust_backend.Config.{Config, NodeConfig}
use sspanel_ssr_rust_backend.Panel.{PanelUser, user_id}
use sspanel_ssr_rust_backend.Policy.{EnforcementConfig, needs_connection_policy}
use sspanel_ssr_rust_backend.Policy.Parse
use sspanel_ssr_rust_backend.Traffic
use sspanel_ssr_rust_backend.Traffic.{TrafficLedger, mem}
use sspanel_ssr_rust_backend.Traffic.Conns
use sspanel_ssr_rust_backend.Traffic.Conns.{ConnLedger}
use sspanel_ssr_rust_backend.Traffic.Speed
use sspanel_ssr_rust_backend.Traffic.Speed.{SpeedLedger}
use sspanel_ssr_rust_backend.UserTables.{UserTables, no_tables}
use sspanel_ssr_rust_backend.Ssr.Crypto.{Crypto}
use sspanel_ssr_rust_backend.Ssr.Profile
use sspanel_ssr_rust_backend.Ssr.Profile.{Profile}
use sspanel_ssr_rust_backend.Ssr.Udp.{derive_user_auth_key}
use sspanel_ssr_rust_backend.Supervisor.{LocalState, retain_live, listener_users}

pub record UserFingerprint : Type 0 where
  pub port : ℕ
  pub password : List ℕ
  pub profile : Profile
  pub is_multi_user : ℤ

abbrev pub Profile_beq : Profile → Profile → Bool
Profile_beq a b =
    bytes_eq a.method b.method
    && bytes_eq a.protocol b.protocol
    && bytes_eq a.obfs b.obfs
    && a.timeout_secs == b.timeout_secs

unfoldable pub fingerprint_eq : UserFingerprint → UserFingerprint → Bool
fingerprint_eq a b =
    a.port == b.port
    && bytes_eq a.password b.password
    && Profile_beq a.profile b.profile
    && ℤ_beq a.is_multi_user b.is_multi_user

-- A listener task is what it was spawned with.
pub record ListenerTask : Type 0 where
  pub listen_host : List ℕ
  pub user_id : ℕ
  pub fingerprint : UserFingerprint
  pub enforcement : EnforcementConfig

pub record ActiveUser : Type 0 where
  pub fingerprint : UserFingerprint
  pub tcp : Option ListenerTask
  pub udp : Option ListenerTask

-- The part of `BackendRuntime` that a poll changes, with the listeners that were stopped.
pub record BackendRuntime (F : Type 0) : Type 0 where
  pub traffic : TrafficLedger
  pub conns : ConnLedger
  pub speeds : SpeedLedger F
  pub active_users : Table ℕ ActiveUser
  pub local_state : LocalState
  pub user_tables : UserTables
  pub stopped : List ActiveUser

unfoldable pub enforcement_of : NodeConfig → EnforcementConfig
enforcement_of node = record {
  forbidden = node.enforce_forbidden;
  conn_limit_on = node.enforce_conn_limit;
  audit_block = node.audit_block;
  speed = node.enforce_speed;
}

-- The ledgers, the tables under construction and the live users.
pub record Collected (F : Type 0) : Type 0 where
  pub traffic : TrafficLedger
  pub conns : ConnLedger
  pub speeds : SpeedLedger F
  pub tables : UserTables
  pub live_user_ids : List ℕ

unfoldable pub stale_ports : Table ℕ ActiveUser → List ℕ → List ℕ
stale_ports [] live_ports = []
stale_ports ((port, active) ∷ m) live_ports =
    let rest = stale_ports m live_ports in if not (mem port live_ports) then port ∷ rest else rest

module _ {F : Type 0} where
  unfoldable pub fingerprint_of : PanelUser F → Profile → UserFingerprint
  fingerprint_of user profile = record {
    port = user.port;
    password = user.password;
    profile = profile;
    is_multi_user = user.is_multi_user;
  }

  -- The listeners that a row gets, by the switches of the node.
  unfoldable pub spawn : NodeConfig → PanelUser F → Profile → ActiveUser
  spawn node user profile =
      let task : ListenerTask = record {
        listen_host = node.listen_host;
        user_id = user_id user;
        fingerprint = fingerprint_of user profile;
        enforcement = enforcement_of node;
      } in
      record {
        fingerprint = fingerprint_of user profile;
        tcp = if node.tcp_enabled then some task else none;
        udp = if node.udp_enabled then some task else none;
      }

  -- `matches!(self.active_users.get(&user.port), Some(active) if active.fingerprint == fingerprint)`
  unfoldable pub is_running : Table ℕ ActiveUser → PanelUser F → Profile → Bool
  is_running active_users user profile = elim (Table.get user.port active_users) [
    | none ↦ false
    | some active ↦ fingerprint_eq active.fingerprint (fingerprint_of user profile)
  ]

  -- `self.active_users.remove(&port)`, and `stop` on what was there.
  unfoldable pub stop_port : BackendRuntime F → ℕ → BackendRuntime F
  stop_port rt port = elim (Table.get port rt.active_users) [
    | none ↦ rt
    | some active ↦ record rt {
      active_users = Table.remove port rt.active_users;
      stopped = rt.stopped ++ (active ∷ []);
    }
  ]

  unfoldable pub ensure_active_user :
      NodeConfig → BackendRuntime F → PanelUser F → Profile → BackendRuntime F
  ensure_active_user node rt user profile =
      let rt' = stop_port rt user.port in
      if is_running rt.active_users user profile then rt else record rt' {
        active_users = Table.insert user.port (spawn node user profile) rt'.active_users;
      }

  -- The loop over the listener users, with the live ports.
  unfoldable pub ensure_all :
      NodeConfig → BackendRuntime F → List ℕ → List (PanelUser F) → BackendRuntime F × List ℕ
  ensure_all node rt live_ports [] = (rt, live_ports)
  ensure_all node rt live_ports (user ∷ users) = elim (Profile.from_user user node) [
    | err e ↦ ensure_all node rt live_ports users
    | ok profile ↦
        ensure_all node (ensure_active_user node rt user profile) (user.port ∷ live_ports) users
  ]

  unfoldable pub stop_ports : BackendRuntime F → List ℕ → BackendRuntime F
  stop_ports rt [] = rt
  stop_ports rt (port ∷ ports) = stop_ports (stop_port rt port) ports

  -- From `self.traffic.remove_stale_users` on.
  unfoldable pub forget_stale : BackendRuntime F → List ℕ → BackendRuntime F
  forget_stale rt live_user_ids = record rt {
    traffic = Traffic.remove_stale_users rt.traffic live_user_ids;
    conns = Conns.remove_stale_users rt.conns live_user_ids;
    speeds = Speed.remove_stale_users rt.speeds live_user_ids;
    local_state = retain_live rt.local_state live_user_ids;
  }

  -- From the listener users on.
  unfoldable pub sync_listeners :
      NodeConfig → BackendRuntime F → List (PanelUser F) → BackendRuntime F
  sync_listeners node rt users =
      let (rt', live_ports) = ensure_all node rt [] (listener_users users) in
      stop_ports rt' (stale_ports rt'.active_users live_ports)

module _ {F : Type 0} ⦃c : Crypto⦄ ⦃f : F64 F⦄ where
  -- The body of the first loop; `parse_ip` is `IpAddr::from_str`.
  unfoldable pub collect_one :
      (List ℕ → Option IpAddr) → ℕ → Collected F → PanelUser F → Collected F
  collect_one parse_ip now s user =
      let id = user_id user in
      let policy = Parse.from_user parse_ip user in
      let (traffic, counter) = Traffic.ensure_user s.traffic id in
      let (conns, ips) = Conns.ensure_user s.conns id in
      let (speeds, limiter) = Speed.ensure_user s.speeds id policy.speed_limit_bps now in
      record {
        traffic = traffic;
        conns = conns;
        speeds = speeds;
        live_user_ids = id ∷ s.live_user_ids;
        tables = record {
          counters_by_user = Table.insert id counter s.tables.counters_by_user;
          conns_by_user = Table.insert id ips s.tables.conns_by_user;
          speeds_by_user = Table.insert id limiter s.tables.speeds_by_user;
          policies =
              if needs_connection_policy policy
              then Table.insert id policy s.tables.policies
              else s.tables.policies;
          auth_users =
              if ℤ_beq user.is_multi_user (pos 0)
              then Table.insert id (derive_user_auth_key user.password) s.tables.auth_users
              else s.tables.auth_users;
        };
      }

  unfoldable pub collect :
      (List ℕ → Option IpAddr) → ℕ → Collected F → List (PanelUser F) → Collected F
  collect parse_ip now s [] = s
  collect parse_ip now s (user ∷ users) =
      collect parse_ip now (collect_one parse_ip now s user) users

  -- Up to the publication of the tables.
  unfoldable pub publish :
      (List ℕ → Option IpAddr)
      → ℕ
      → BackendRuntime F
      → List (PanelUser F)
      → BackendRuntime F × List ℕ
  publish parse_ip now rt users =
      let s =
        collect parse_ip now
          (record {
            traffic = rt.traffic;
            conns = rt.conns;
            speeds = rt.speeds;
            tables = no_tables;
            live_user_ids = [];
          })
          users in
      (
        record rt {
          traffic = s.traffic;
          conns = s.conns;
          speeds = s.speeds;
          user_tables = s.tables;
        },
        s.live_user_ids,
      )

  -- `fetched` is the answer of the panel.
  unfoldable pub sync_users :
      Config
      → (List ℕ → Option IpAddr)
      → ℕ
      → Result (List (PanelUser F))
      → BackendRuntime F
      → BackendRuntime F × Result (Unit {0})
  sync_users config parse_ip now fetched rt = elim fetched [
    | err e ↦ (rt, err e)
    | ok users ↦
        let (rt1, live_user_ids) = publish parse_ip now rt users in
        if ltb config.limits.max_users (length users)
        then (rt, err Error.too_many_users)
        else (forget_stale (sync_listeners config.node rt1 users) live_user_ids, ok tt)
  ]
