-- ===== src/Supervisor/Sync/Served.antt =====
-- src/runtime/supervisor.rs: the rows that get a listener, and the live ports.
use sspanel_ssr_rust_backend.Base.{
  ℕ, true, ◌||◌, List, [], ◌∷◌, ◌≡◌, ◌∙◌, inl, inr, arith, nat_eq, Result-cases, Error, ok, err,
}
use sspanel_ssr_rust_backend.Config.{NodeConfig}
use sspanel_ssr_rust_backend.Panel.{PanelUser}
use sspanel_ssr_rust_backend.Traffic.{mem}
use sspanel_ssr_rust_backend.Ssr.Profile
use sspanel_ssr_rust_backend.Ssr.Profile.{Profile}
use sspanel_ssr_rust_backend.Supervisor.Sync.{
  BackendRuntime, is_running, ensure_active_user, ensure_all,
}

module _ {F : Type 0} where
  -- The ports of the rows whose profile the node serves.
  unfoldable pub served : NodeConfig → List (PanelUser F) → List ℕ
  served node [] = []
  served node (user ∷ users) =
      let rest = served node users in
      elim (Profile.from_user user node) [ err e ↦ rest | ok profile ↦ user.port ∷ rest ]

  -- A listener that runs is left alone.
  pub ensure_running :
      (node : NodeConfig) (rt : BackendRuntime F) (user : PanelUser F) (profile : Profile)
      → is_running rt.active_users user profile ≡ true
      → ensure_active_user node rt user profile ≡ rt
  unfolding ensure_active_user
  ensure_running node rt user profile h = rw h

  pub ensure_all_err :
      (node : NodeConfig) (rt : BackendRuntime F) (live : List ℕ) (user : PanelUser F)
      (users : List (PanelUser F)) (e : Error)
      → Profile.from_user user node ≡ err e
      → ensure_all node rt live (user ∷ users) ≡ ensure_all node rt live users
  unfolding ensure_all
  ensure_all_err node rt live user users e q = rw (q, ensure_all)

  pub ensure_all_ok :
      (node : NodeConfig) (rt : BackendRuntime F) (live : List ℕ) (user : PanelUser F)
      (users : List (PanelUser F)) (profile : Profile)
      → Profile.from_user user node ≡ ok profile
      → ensure_all node rt live (user ∷ users)
        ≡ ensure_all node (ensure_active_user node rt user profile) (user.port ∷ live) users
  unfolding ensure_all
  ensure_all_ok node rt live user users profile q = rw (q, ensure_all)

  pub served_err :
      (node : NodeConfig) (user : PanelUser F) (users : List (PanelUser F)) (e : Error)
      → Profile.from_user user node ≡ err e
      → served node (user ∷ users) ≡ served node users
  unfolding served
  served_err node user users e q = rw (q, served)

  pub served_ok :
      (node : NodeConfig) (user : PanelUser F) (users : List (PanelUser F)) (profile : Profile)
      → Profile.from_user user node ≡ ok profile
      → served node (user ∷ users) ≡ user.port ∷ served node users
  unfolding served
  served_ok node user users profile q = rw (q, served)

  swap :
      (port : ℕ) (live : List ℕ) (users : List (PanelUser F)) (p : ℕ) (node : NodeConfig)
      → (mem p (port ∷ live) || mem p (served node users))
        ≡ (mem p live || mem p (port ∷ served node users))
  unfolding mem
  swap port live users p node = ground arith

  -- The live ports are the served ones.
  pub mem-ensure_all :
      (node : NodeConfig) (rt : BackendRuntime F) (live : List ℕ) (users : List (PanelUser F))
      (p : ℕ)
      → mem p (ensure_all node rt live users).1 ≡ (mem p live || mem p (served node users))
  mem-ensure_all node rt live [] p = unfold ensure_all served mem in ground arith
  mem-ensure_all node rt live (user ∷ users) p = elim (Result-cases (Profile.from_user user node)) [
    | inl (e, q) ↦
        rw (ensure_all_err node rt live user users e q, served_err node user users e q)
          (mem-ensure_all node rt live users p)
    | inr (profile, q) ↦
        rw (ensure_all_ok node rt live user users profile q, served_ok node user users profile q)
          (mem-ensure_all node (ensure_active_user node rt user profile) (user.port ∷ live) users p
            ∙ swap user.port live users p node)
  ]
