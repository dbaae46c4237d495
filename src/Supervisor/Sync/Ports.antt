-- ===== src/Supervisor/Sync/Ports.antt =====
-- src/runtime/supervisor.rs: the listeners that a poll leaves on the ports.
use sspanel_ssr_rust_backend.Base.{
  ℕ, false, ◌&&◌, not, Option, none, some, List, [], ◌∷◌, ◌≡◌, ◌≤◌, refl, ap, ◌∙◌, inl, inr, arith,
  ltb, length, nat_eq, ◌==◌, Bool-cases, Result-cases, ok, if◌then◌else◌,
}
use sspanel_ssr_rust_backend.Base.Table
use sspanel_ssr_rust_backend.Base.Table.{Table, IsMap}
use sspanel_ssr_rust_backend.Net.{IpAddr}
use sspanel_ssr_rust_backend.Float.{F64}
use sspanel_ssr_rust_backend.Config.{Config, NodeConfig}
use sspanel_ssr_rust_backend.Panel.{PanelUser}
use sspanel_ssr_rust_backend.Traffic.{mem}
use sspanel_ssr_rust_backend.Ssr.Crypto.{Crypto}
use sspanel_ssr_rust_backend.Ssr.Profile
use sspanel_ssr_rust_backend.Ssr.Profile.{Profile}
use sspanel_ssr_rust_backend.Supervisor.{listener_users}
use sspanel_ssr_rust_backend.Supervisor.Sync.{
  ActiveUser, BackendRuntime, fingerprint_of, stop_port, ensure_active_user, ensure_all,
  stale_ports, stop_ports, forget_stale, sync_listeners, publish, sync_users,
}
use sspanel_ssr_rust_backend.Supervisor.Sync.Served.{ensure_all_err, ensure_all_ok, mem-ensure_all}
use sspanel_ssr_rust_backend.Supervisor.Sync.Wanted.{
  last_served, wanted, wanted_lem, mem-served, listener_of_err, listener_of_ok,
}
use sspanel_ssr_rust_backend.Supervisor.Sync.Serving.{AllServing, sync_listeners-AllServing}
use sspanel_ssr_rust_backend.Supervisor.Sync.Listening.{
  listening, listening-stop_port, stop_port-IsMap, ensure_active_user-IsMap,
  listening-ensure_active_user, contains-listening,
}

pub mem_none : (p : ℕ) → mem p [] ≡ false
unfolding mem
mem_none p = refl

mem-stale_ports :
    (m : Table ℕ ActiveUser) (live : List ℕ) (p : ℕ)
    → mem p (stale_ports m live) ≡ (Table.contains p m && not (mem p live))
unfolding stale_ports mem Table.contains
mem-stale_ports [] live p = refl
mem-stale_ports ((port, active) ∷ m) live p = elim (Bool-cases (port == p)) [
  | inl same ↦
      let is : port ≡ p = ground arith in
      ground (arith, mem-stale_ports m live p, ap (λ i. mem i live) is)
  | inr other ↦ ground (arith, mem-stale_ports m live p)
]

module _ {F : Type 0} where
  ensure_all-IsMap :
      (node : NodeConfig) (rt : BackendRuntime F) (live : List ℕ) (users : List (PanelUser F))
      → IsMap rt.active_users
      → IsMap (ensure_all node rt live users).0.active_users
  ensure_all-IsMap node rt live [] h = unfold ensure_all in h
  ensure_all-IsMap node rt live (user ∷ users) h =
      elim (Result-cases (Profile.from_user user node)) [
        | inl (e, q) ↦
            rw (ensure_all_err node rt live user users e q) (ensure_all-IsMap node rt live users h)
        | inr (profile, q) ↦ rw (ensure_all_ok node rt live user users profile q) (
            ensure_all-IsMap node (ensure_active_user node rt user profile) (user.port ∷ live) users
              (ensure_active_user-IsMap node rt user profile h))
      ]

  listening-ensure_all :
      (node : NodeConfig) (rt : BackendRuntime F) (live : List ℕ) (users : List (PanelUser F))
      (p : ℕ)
      → IsMap rt.active_users
      → listening p (ensure_all node rt live users).0.active_users
        ≡ elim (last_served node p users) [
          | some fingerprint ↦ some fingerprint
          | none ↦ listening p rt.active_users
        ]
  unfolding last_served fingerprint_of
  listening-ensure_all node rt live [] p h = unfold ensure_all in refl
  listening-ensure_all node rt live (user ∷ users) p h =
      elim (Result-cases (Profile.from_user user node)) [
        | inl (e, q) ↦ rw (ensure_all_err node rt live user users e q) (
            ground
              (arith, listening-ensure_all node rt live users p h, listener_of_err node user e q))
        | inr (profile, q) ↦
            let rt1 = ensure_active_user node rt user profile in
            rw (ensure_all_ok node rt live user users profile q) (
              ground (
                arith,
                listening-ensure_all node rt1 (user.port ∷ live) users p
                    (ensure_active_user-IsMap node rt user profile h),
                listening-ensure_active_user node rt user profile p h,
                listener_of_ok node user profile q,
              ))
      ]

  stop_ports-IsMap :
      (rt : BackendRuntime F) (ports : List ℕ)
      → IsMap rt.active_users
      → IsMap (stop_ports rt ports).active_users
  unfolding stop_ports
  stop_ports-IsMap rt [] h = h
  stop_ports-IsMap rt (port ∷ ports) h =
      stop_ports-IsMap (stop_port rt port) ports (stop_port-IsMap rt port h)

  listening-stop_ports :
      (rt : BackendRuntime F) (ports : List ℕ) (p : ℕ)
      → IsMap rt.active_users
      → listening p (stop_ports rt ports).active_users
        ≡ (if mem p ports then none else listening p rt.active_users)
  unfolding stop_ports mem
  listening-stop_ports rt [] p h = refl
  listening-stop_ports rt (port ∷ ports) p h = ground (
    arith,
    listening-stop_ports (stop_port rt port) ports p (stop_port-IsMap rt port h),
    listening-stop_port rt port p h,
  )

  sync_listeners-IsMap :
      (node : NodeConfig) (rt : BackendRuntime F) (users : List (PanelUser F))
      → IsMap rt.active_users
      → IsMap (sync_listeners node rt users).active_users
  unfolding sync_listeners
  sync_listeners-IsMap node rt users h =
      let (rt1, live) = ensure_all node rt [] (listener_users users) in
      stop_ports-IsMap rt1 (stale_ports rt1.active_users live)
        (ensure_all-IsMap node rt [] (listener_users users) h)

  pub listening-sync_listeners :
      (node : NodeConfig) (rt : BackendRuntime F) (users : List (PanelUser F)) (p : ℕ)
      → IsMap rt.active_users
      → listening p (sync_listeners node rt users).active_users ≡ wanted node users p
  unfolding sync_listeners
  listening-sync_listeners node rt users p h =
      let rows = listener_users users in
      let rt1 = (ensure_all node rt [] rows).0 in
      let live = (ensure_all node rt [] rows).1 in
      let stopped =
        listening-stop_ports rt1 (stale_ports rt1.active_users live) p
          (ensure_all-IsMap node rt [] rows h) in
      let step : listening p (sync_listeners node rt users).active_users ≡ last_served node p rows =
        ground (
          arith,
          stopped,
          mem-stale_ports rt1.active_users live p,
          contains-listening p rt1.active_users,
          listening-ensure_all node rt [] rows p h,
          mem-ensure_all node rt [] rows p,
          mem-served node rows p,
          mem_none p,
        ) in
      step ∙ wanted_lem node users p

-- A poll with at most `max_users` rows succeeds, and then every port has exactly the listener that
-- the rows ask for, whatever was open before: if some row is a carrier, that of the first carrier
-- row of the port, when the node serves its profile; otherwise that of the last row of the port that
-- the node serves; and no listener if there is no such row. The table of listeners has each port
-- once, and each entry has its TCP and UDP tasks as the node switches them on, for the port,
-- password, profile and mode of its fingerprint; both are assumed of the table before the poll.
pub sync_users_ports :
    {F : Type 0} ⦃c : Crypto⦄ ⦃f : F64 F⦄ (config : Config) (parse_ip : List ℕ → Option IpAddr)
    (now : ℕ) (users : List (PanelUser F)) (rt : BackendRuntime F) (p : ℕ)
    → IsMap rt.active_users
    → AllServing config.node rt.active_users
    → length users ≤ config.limits.max_users
    → let (rt', result) = sync_users config parse_ip now (ok users) rt in
      (result ≡ ok tt)
      × (listening p rt'.active_users ≡ wanted config.node users p)
      × IsMap rt'.active_users
      × AllServing config.node rt'.active_users
unfolding sync_users forget_stale publish
sync_users_ports config parse_ip now users rt p h serving few =
    let fits : ltb config.limits.max_users (length users) ≡ false = ground arith in
    let rt1 = (publish parse_ip now rt users).0 in
    rw fits (
      refl,
      listening-sync_listeners config.node rt1 users p h,
      sync_listeners-IsMap config.node rt1 users h,
      sync_listeners-AllServing config.node rt1 users serving,
    )
