-- ===== src/Supervisor/Sync/Listening.antt =====
-- src/runtime/supervisor.rs: what starting and stopping a listener leave on each port.
use sspanel_ssr_rust_backend.Base.{
  ℕ, Bool, true, false, Option, none, some, ◌≡◌, refl, ap, ◌∙◌, inl, inr, arith, nat_eq, ◌==◌,
  Bool-cases, Option-cases, sym, if◌then◌else◌, bytes_eq_iff,
}
use sspanel_ssr_rust_backend.Base.Int.{ℤ_beq_iff}
use mathlib.Core.Path.{subst}
use sspanel_ssr_rust_backend.Base.Table
use sspanel_ssr_rust_backend.Base.Table.{Table, IsMap}
use sspanel_ssr_rust_backend.Config.{NodeConfig}
use sspanel_ssr_rust_backend.Panel.{PanelUser}
use sspanel_ssr_rust_backend.Ssr.Profile.{Profile}
use sspanel_ssr_rust_backend.Supervisor.Sync.{
  UserFingerprint, ActiveUser, BackendRuntime, fingerprint_eq, fingerprint_of, is_running, spawn,
  stop_port, ensure_active_user,
}
use sspanel_ssr_rust_backend.Supervisor.Sync.Served.{ensure_running}
use sspanel_ssr_rust_backend.Supervisor.Sync.Wanted.{is_wanted}
use sspanel_ssr_rust_backend.Supervisor.Sync.Serving.{stop_port-none, stop_port-some, ensure_starts}

not_both : (b : Bool) → b ≡ false → b ≡ true → ⊥
not_both b f t = cc

-- What the listener of a port listens with.
unfoldable pub listening : ℕ → Table ℕ ActiveUser → Option UserFingerprint
listening port m = elim (Table.get port m) [ none ↦ none | some active ↦ some active.fingerprint ]

pub contains-listening :
    (p : ℕ) (m : Table ℕ ActiveUser) → Table.contains p m ≡ is_wanted (listening p m)
unfolding listening
contains-listening p m = elim (Option-cases (Table.get p m)) [
  | inl e ↦ rw (e, listening, is_wanted) (Table.contains-get p m e)
  | inr (a, e) ↦ rw (e, listening, is_wanted) (Table.contains-some p a m e)
]

listening-remove :
    (k p : ℕ) (m : Table ℕ ActiveUser)
    → IsMap m
    → listening p (Table.remove k m) ≡ (if k == p then none else listening p m)
unfolding listening
listening-remove k p m h = ground (arith, Table.get-remove k p m h)

listening-insert :
    (k p : ℕ) (active : ActiveUser) (m : Table ℕ ActiveUser)
    → listening p (Table.insert k active m)
      ≡ (if k == p then some active.fingerprint else listening p m)
unfolding listening
listening-insert k p active m = ground (arith, Table.get-insert k p active m)

fingerprint_eq_self : (a : UserFingerprint) → fingerprint_eq a a ≡ true
unfolding fingerprint_eq
fingerprint_eq_self a = ground (
  arith,
  bytes_eq_iff a.password a.password,
  bytes_eq_iff a.profile.method a.profile.method,
  bytes_eq_iff a.profile.protocol a.profile.protocol,
  bytes_eq_iff a.profile.obfs a.profile.obfs,
  ℤ_beq_iff a.is_multi_user a.is_multi_user,
)

fingerprint_eq_sound : (a b : UserFingerprint) → fingerprint_eq a b ≡ true → a ≡ b
unfolding fingerprint_eq
fingerprint_eq_sound a b h = ground (
  arith,
  bytes_eq_iff a.password b.password,
  bytes_eq_iff a.profile.method b.profile.method,
  bytes_eq_iff a.profile.protocol b.profile.protocol,
  bytes_eq_iff a.profile.obfs b.profile.obfs,
  ℤ_beq_iff a.is_multi_user b.is_multi_user,
)

module _ {F : Type 0} where
  pub stop_port-IsMap :
      (rt : BackendRuntime F) (port : ℕ)
      → IsMap rt.active_users
      → IsMap (stop_port rt port).active_users
  stop_port-IsMap rt port h = elim (Option-cases (Table.get port rt.active_users)) [
    | inl e ↦ rw (stop_port-none rt port e) h
    | inr (active, e) ↦
        rw (stop_port-some rt port active e) (Table.remove-IsMap port rt.active_users h)
  ]

  pub listening-stop_port :
      (rt : BackendRuntime F) (port p : ℕ)
      → IsMap rt.active_users
      → listening p (stop_port rt port).active_users
        ≡ (if port == p then none else listening p rt.active_users)
  listening-stop_port rt port p h = elim (Option-cases (Table.get port rt.active_users)) [
    | inl e ↦ rw (stop_port-none rt port e) (unfold listening in ground arith)
    | inr (active, e) ↦
        rw (stop_port-some rt port active e) (listening-remove port p rt.active_users h)
  ]

  pub running_listening :
      (active : Table ℕ ActiveUser) (user : PanelUser F) (profile : Profile)
      → is_running active user profile ≡ true
      → listening user.port active ≡ some (fingerprint_of user profile)
  unfolding is_running listening
  running_listening active user profile h = elim (Option-cases (Table.get user.port active)) [
    | inl e ↦
        let step : is_running active user profile ≡ false = rw (e, is_running) in
        absurd (not_both (is_running active user profile) step h)
    | inr (a, e) ↦
        let step : is_running active user profile
            ≡ fingerprint_eq a.fingerprint (fingerprint_of user profile) =
          rw (e, is_running) in
        rw (e, listening) (ap some (fingerprint_eq_sound a.fingerprint _ (sym step ∙ h)))
  ]

  pub ensure_active_user-IsMap :
      (node : NodeConfig) (rt : BackendRuntime F) (user : PanelUser F) (profile : Profile)
      → IsMap rt.active_users
      → IsMap (ensure_active_user node rt user profile).active_users
  ensure_active_user-IsMap node rt user profile h =
      elim (Bool-cases (is_running rt.active_users user profile)) [
        | inl runs ↦ rw (ensure_running node rt user profile runs) h
        | inr starts ↦ rw (ensure_starts node rt user profile starts) (
            Table.insert-IsMap user.port (spawn node user profile)
              (stop_port rt user.port).active_users (stop_port-IsMap rt user.port h))
      ]

  spawn_fingerprint :
      (node : NodeConfig) (user : PanelUser F) (profile : Profile)
      → (spawn node user profile).fingerprint ≡ fingerprint_of user profile
  unfolding spawn
  spawn_fingerprint node user profile = refl

  pub listening-ensure_active_user :
      (node : NodeConfig) (rt : BackendRuntime F) (user : PanelUser F) (profile : Profile) (p : ℕ)
      → IsMap rt.active_users
      → listening p (ensure_active_user node rt user profile).active_users ≡ (
          if user.port == p
          then some (fingerprint_of user profile)
          else listening p rt.active_users)
  listening-ensure_active_user node rt user profile p h =
      elim (Bool-cases (is_running rt.active_users user profile)) [
        | inl runs ↦
            rw (ensure_running node rt user profile runs) (elim (Bool-cases (user.port == p)) [
              | inl same ↦
                  let is : user.port ≡ p = ground arith in
                  rw same (
                    subst (λ i. listening i rt.active_users ≡ some (fingerprint_of user profile)) is
                      (running_listening rt.active_users user profile runs))
              | inr other ↦ rw other
            ])
        | inr starts ↦ rw (ensure_starts node rt user profile starts) (
            ground (
              arith,
              listening-insert user.port p (spawn node user profile)
                  (stop_port rt user.port).active_users,
              spawn_fingerprint node user profile,
              listening-stop_port rt user.port p h,
            ))
      ]

  pub listening_running :
      (active : Table ℕ ActiveUser) (user : PanelUser F) (profile : Profile)
      → listening user.port active ≡ some (fingerprint_of user profile)
      → is_running active user profile ≡ true
  unfolding is_running listening
  listening_running active user profile h = elim (Option-cases (Table.get user.port active)) [
    | inl e ↦ absurd (ground (arith, h, e))
    | inr (a, e) ↦
        let is : a.fingerprint ≡ fingerprint_of user profile = ground (arith, h, e) in
        let step : is_running active user profile
            ≡ fingerprint_eq a.fingerprint (fingerprint_of user profile) =
          rw (e, is_running) in
        step ∙ (rw is (fingerprint_eq_self (fingerprint_of user profile)))
  ]
