-- ===== src/Supervisor/Sync/Serving.antt =====
-- src/runtime/supervisor.rs: the listeners that stand on the active ports.
use sspanel_ssr_rust_backend.Base.{
  ℕ, ◌≡◌, refl, sym, Bool, true, false, Option, none, some, List, [], ◌∷◌, inl, inr, arith, nat_eq,
  ◌==◌, Bool-cases, Result-cases, Option-cases, if◌then◌else◌,
}
use mathlib.Core.Path.{subst}
use sspanel_ssr_rust_backend.Base.Table
use sspanel_ssr_rust_backend.Base.Table.{Table, IsMap}
use sspanel_ssr_rust_backend.Config.{NodeConfig}
use sspanel_ssr_rust_backend.Panel.{PanelUser}
use sspanel_ssr_rust_backend.Ssr.Profile
use sspanel_ssr_rust_backend.Ssr.Profile.{Profile}
use sspanel_ssr_rust_backend.Supervisor.{listener_users}
use sspanel_ssr_rust_backend.Supervisor.Sync.{
  UserFingerprint, ListenerTask, ActiveUser, BackendRuntime, enforcement_of, fingerprint_of, spawn,
  is_running, stop_port, ensure_active_user, ensure_all, stale_ports, stop_ports, sync_listeners,
}
use sspanel_ssr_rust_backend.Supervisor.Sync.Served.{ensure_running, ensure_all_err, ensure_all_ok}

-- The task behind one of the two switches of the node: a task listens on the host of the node, for
-- the port, password, profile and mode of the fingerprint, with the enforcement of the node.
unfoldable pub IsListening : NodeConfig → UserFingerprint → Bool → Option ListenerTask → Type 0
IsListening node fingerprint true task =
    (t : ListenerTask) × (task ≡ some t)
    × (t.listen_host ≡ node.listen_host)
    × (t.fingerprint ≡ fingerprint)
    × (t.enforcement.forbidden ≡ node.enforce_forbidden)
    × (t.enforcement.conn_limit_on ≡ node.enforce_conn_limit)
    × (t.enforcement.audit_block ≡ node.audit_block)
    × (t.enforcement.speed ≡ node.enforce_speed)
IsListening node fingerprint false task = task ≡ none

abbrev pub IsServing : NodeConfig → ℕ → ActiveUser → Type 0
IsServing node port active =
    (active.fingerprint.port ≡ port)
    × IsListening node active.fingerprint node.tcp_enabled active.tcp
    × IsListening node active.fingerprint node.udp_enabled active.udp

-- Every active port has a TCP listener exactly if the node switches TCP on, and so for UDP.
abbrev pub AllServing : NodeConfig → Table ℕ ActiveUser → Type 0
AllServing node [] = Unit {0}
AllServing node ((port, active) ∷ m) = IsServing node port active × AllServing node m

insert-AllServing :
    (node : NodeConfig) (port : ℕ) (active : ActiveUser) (m : Table ℕ ActiveUser)
    → IsServing node port active
    → AllServing node m
    → AllServing node (Table.insert port active m)
unfolding Table.insert
insert-AllServing node port active [] h all = (h, tt)
insert-AllServing node port active ((j, a) ∷ m) h all = elim (Bool-cases (j == port)) [
  | inl same ↦
      let is : j ≡ port = ground arith in
      rw same (subst (λ i. IsServing node i active) (sym is) h, all.1)
  | inr other ↦ rw other (all.0, insert-AllServing node port active m h all.1)
]

remove-AllServing :
    (node : NodeConfig) (port : ℕ) (m : Table ℕ ActiveUser)
    → AllServing node m
    → AllServing node (Table.remove port m)
unfolding Table.remove
remove-AllServing node port [] all = tt
remove-AllServing node port ((j, a) ∷ m) all = elim (Bool-cases (j == port)) [
  | inl same ↦ rw same all.1
  | inr other ↦ rw other (all.0, remove-AllServing node port m all.1)
]

module _ {F : Type 0} where
  task_stands :
      (node : NodeConfig) (user : PanelUser F) (profile : Profile) (on : Bool) (id : ℕ)
      → IsListening node (fingerprint_of user profile) on (
          if on
          then some (record {
            listen_host = node.listen_host;
            user_id = id;
            fingerprint = fingerprint_of user profile;
            enforcement = enforcement_of node;
          })
          else none)
  unfolding IsListening enforcement_of
  task_stands node user profile true id = (_, refl, refl, refl, refl, refl, refl, refl)
  task_stands node user profile false id = refl

  spawn-IsServing :
      (node : NodeConfig) (user : PanelUser F) (profile : Profile)
      → IsServing node user.port (spawn node user profile)
  unfolding spawn fingerprint_of
  spawn-IsServing node user profile = (
    refl,
    task_stands node user profile node.tcp_enabled _,
    task_stands node user profile node.udp_enabled _,
  )

  -- What stopping one port does to the table.
  pub stop_port-none :
      (rt : BackendRuntime F) (port : ℕ)
      → Table.get port rt.active_users ≡ none
      → stop_port rt port ≡ rt
  unfolding stop_port
  stop_port-none rt port e = rw (e, stop_port)

  pub stop_port-some :
      (rt : BackendRuntime F) (port : ℕ) (active : ActiveUser)
      → Table.get port rt.active_users ≡ some active
      → (stop_port rt port).active_users ≡ Table.remove port rt.active_users
  unfolding stop_port
  stop_port-some rt port active e = rw (e, stop_port)

  pub ensure_starts :
      (node : NodeConfig) (rt : BackendRuntime F) (user : PanelUser F) (profile : Profile)
      → is_running rt.active_users user profile ≡ false
      → (ensure_active_user node rt user profile).active_users
        ≡ Table.insert user.port (spawn node user profile) (stop_port rt user.port).active_users
  unfolding ensure_active_user
  ensure_starts node rt user profile h = rw h

  stop_port-AllServing :
      (node : NodeConfig) (rt : BackendRuntime F) (port : ℕ)
      → AllServing node rt.active_users
      → AllServing node (stop_port rt port).active_users
  stop_port-AllServing node rt port h = elim (Option-cases (Table.get port rt.active_users)) [
    | inl e ↦ rw (stop_port-none rt port e) h
    | inr (active, e) ↦
        rw (stop_port-some rt port active e) (remove-AllServing node port rt.active_users h)
  ]

  ensure_active_user-AllServing :
      (node : NodeConfig) (rt : BackendRuntime F) (user : PanelUser F) (profile : Profile)
      → AllServing node rt.active_users
      → AllServing node (ensure_active_user node rt user profile).active_users
  ensure_active_user-AllServing node rt user profile h =
      elim (Bool-cases (is_running rt.active_users user profile)) [
        | inl runs ↦ rw (ensure_running node rt user profile runs) h
        | inr starts ↦ rw (ensure_starts node rt user profile starts) (
            insert-AllServing node user.port (spawn node user profile)
              (stop_port rt user.port).active_users (spawn-IsServing node user profile)
              (stop_port-AllServing node rt user.port h))
      ]

  ensure_all-AllServing :
      (node : NodeConfig) (rt : BackendRuntime F) (live : List ℕ) (users : List (PanelUser F))
      → AllServing node rt.active_users
      → AllServing node (ensure_all node rt live users).0.active_users
  ensure_all-AllServing node rt live [] h = unfold ensure_all in h
  ensure_all-AllServing node rt live (user ∷ users) h =
      elim (Result-cases (Profile.from_user user node)) [
        | inl (e, q) ↦
            rw (ensure_all_err node rt live user users e q)
              (ensure_all-AllServing node rt live users h)
        | inr (profile, q) ↦ rw (ensure_all_ok node rt live user users profile q) (
            ensure_all-AllServing node (ensure_active_user node rt user profile) (user.port ∷ live)
              users (ensure_active_user-AllServing node rt user profile h))
      ]

  stop_ports-AllServing :
      (node : NodeConfig) (rt : BackendRuntime F) (ports : List ℕ)
      → AllServing node rt.active_users
      → AllServing node (stop_ports rt ports).active_users
  unfolding stop_ports
  stop_ports-AllServing node rt [] h = h
  stop_ports-AllServing node rt (port ∷ ports) h =
      stop_ports-AllServing node (stop_port rt port) ports (stop_port-AllServing node rt port h)

  pub sync_listeners-AllServing :
      (node : NodeConfig) (rt : BackendRuntime F) (users : List (PanelUser F))
      → AllServing node rt.active_users
      → AllServing node (sync_listeners node rt users).active_users
  unfolding sync_listeners
  sync_listeners-AllServing node rt users h =
      let (rt1, live) = ensure_all node rt [] (listener_users users) in
      stop_ports-AllServing node rt1 (stale_ports rt1.active_users live)
        (ensure_all-AllServing node rt [] (listener_users users) h)
