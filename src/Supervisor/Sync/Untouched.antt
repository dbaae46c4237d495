-- ===== src/Supervisor/Sync/Untouched.antt =====
-- src/runtime/supervisor.rs: what starting and stopping listeners leaves alone.
use sspanel_ssr_rust_backend.Base.{
  ℕ, ◌≡◌, refl, ◌∙◌, List, [], ◌∷◌, nat_eq, Result-cases, Option-cases, Bool-cases, inl, inr,
}
use sspanel_ssr_rust_backend.Base.Table
use sspanel_ssr_rust_backend.Base.Table.{Table, IsMap}
use sspanel_ssr_rust_backend.Config.{NodeConfig}
use sspanel_ssr_rust_backend.Panel.{PanelUser}
use sspanel_ssr_rust_backend.UserTables.{UserTables}
use sspanel_ssr_rust_backend.Traffic.{TrafficLedger}
use sspanel_ssr_rust_backend.Traffic.Conns.{ConnLedger}
use sspanel_ssr_rust_backend.Traffic.Speed.{SpeedLedger}
use sspanel_ssr_rust_backend.Supervisor.{listener_users}
use sspanel_ssr_rust_backend.Ssr.Profile
use sspanel_ssr_rust_backend.Ssr.Profile.{Profile}
use sspanel_ssr_rust_backend.Supervisor.Sync.Served.{ensure_all_err, ensure_all_ok}
use sspanel_ssr_rust_backend.Supervisor.Sync.{
  BackendRuntime, is_running, stop_port, ensure_all, ensure_active_user, stop_ports, sync_listeners,
}

-- The listeners do not touch the ledgers and the tables.
module _ {F : Type 0} where
  abbrev pub rest_of : BackendRuntime F → TrafficLedger × ConnLedger × SpeedLedger F × UserTables
  rest_of rt = (rt.traffic, rt.conns, rt.speeds, rt.user_tables)

  rest_of-stop_port : (rt : BackendRuntime F) (port : ℕ) → rest_of (stop_port rt port) ≡ rest_of rt
  unfolding stop_port
  rest_of-stop_port rt port = elim (Option-cases (Table.get port rt.active_users)) [
    | inl e ↦ rw (e, stop_port)
    | inr (active, e) ↦ rw (e, stop_port)
  ]

  rest_of-ensure_active_user :
      (node : NodeConfig) (rt : BackendRuntime F) (user : PanelUser F) (profile : Profile)
      → rest_of (ensure_active_user node rt user profile) ≡ rest_of rt
  unfolding ensure_active_user
  rest_of-ensure_active_user node rt user profile =
      elim (Bool-cases (is_running rt.active_users user profile)) [
        | inl runs ↦ rw runs
        | inr starts ↦ rw starts (rest_of-stop_port rt user.port)
      ]

  rest_of-ensure_all :
      (node : NodeConfig) (rt : BackendRuntime F) (live : List ℕ) (users : List (PanelUser F))
      → rest_of (ensure_all node rt live users).0 ≡ rest_of rt
  rest_of-ensure_all node rt live [] = unfold ensure_all in refl
  rest_of-ensure_all node rt live (user ∷ users) =
      elim (Result-cases (Profile.from_user user node)) [
        | inl (e, q) ↦
            rw (ensure_all_err node rt live user users e q) (rest_of-ensure_all node rt live users)
        | inr (profile, q) ↦
            let rt1 = ensure_active_user node rt user profile in
            rw (ensure_all_ok node rt live user users profile q) (
              rest_of-ensure_all node rt1 (user.port ∷ live) users
              ∙ rest_of-ensure_active_user node rt user profile)
      ]

  rest_of-stop_ports :
      (rt : BackendRuntime F) (ports : List ℕ) → rest_of (stop_ports rt ports) ≡ rest_of rt
  unfolding stop_ports
  rest_of-stop_ports rt [] = refl
  rest_of-stop_ports rt (port ∷ ports) =
      rest_of-stop_ports (stop_port rt port) ports ∙ rest_of-stop_port rt port

  pub rest_of-sync_listeners :
      (node : NodeConfig) (rt : BackendRuntime F) (users : List (PanelUser F))
      → rest_of (sync_listeners node rt users) ≡ rest_of rt
  unfolding sync_listeners
  rest_of-sync_listeners node rt users =
      let rows = listener_users users in
      let rt1 = (ensure_all node rt [] rows).0 in
      rest_of-stop_ports rt1 _ ∙ rest_of-ensure_all node rt [] rows
