-- ===== src/Supervisor/Sync/Restarts.antt =====
-- src/runtime/supervisor.rs: the listeners that a poll leaves alone, and the polls that fail.
use sspanel_ssr_rust_backend.Base.{
  ℕ, Bool, true, false, Option, List, [], ◌∷◌, ◌≡◌, ◌≤◌, refl, sym, ap, ◌∙◌, some, nat_eq, inl, inr,
  arith, ltb, length, nat_eq, Bool-cases, Result-cases, Result, Error, ok, err,
}
use sspanel_ssr_rust_backend.Base.Table
use sspanel_ssr_rust_backend.Base.Table.{Table, IsMap}
use sspanel_ssr_rust_backend.Net.{IpAddr}
use sspanel_ssr_rust_backend.Float.{F64}
use sspanel_ssr_rust_backend.Config.{Config, NodeConfig}
use sspanel_ssr_rust_backend.Panel.{PanelUser}
use sspanel_ssr_rust_backend.Traffic.{mem}
use sspanel_ssr_rust_backend.Ssr.Crypto.{Crypto}
use sspanel_ssr_rust_backend.Ssr.Profile
use sspanel_ssr_rust_backend.Ssr.Profile.{Profile}
use sspanel_ssr_rust_backend.Supervisor.{listener_users}
use sspanel_ssr_rust_backend.Supervisor.Carriers.{rows_of}
use sspanel_ssr_rust_backend.Supervisor.Sync.Served.{
  ensure_running, ensure_all_err, ensure_all_ok, mem-ensure_all,
}
use sspanel_ssr_rust_backend.Supervisor.Sync.Wanted.{
  listener_of, listener_of_ok, last_served, last_served-absent, wanted, wanted_lem, mem-served,
}
use sspanel_ssr_rust_backend.Supervisor.Sync.Listening.{
  listening, contains-listening, listening_running,
}
use sspanel_ssr_rust_backend.Supervisor.Sync.Ports.{listening-sync_listeners}
use sspanel_ssr_rust_backend.Supervisor.Sync.Alike.{
  KeepListeners, wanted-KeepListeners, rows_of-KeepListeners,
}
use sspanel_ssr_rust_backend.Supervisor.Sync.{
  UserFingerprint, fingerprint_of, ActiveUser, BackendRuntime, is_running, ensure_all, stale_ports,
  stop_ports, forget_stale, sync_listeners, publish, sync_users,
}

module _ {F : Type 0} where
  -- Whether a row has its listener, if the node serves it.
  unfoldable pub is_settled : NodeConfig → Table ℕ ActiveUser → PanelUser F → Bool
  is_settled node active user = elim (Profile.from_user user node) [
    | err e ↦ true
    | ok profile ↦ is_running active user profile
  ]

  -- Every served row has the listener that it wants.
  unfoldable pub AllRunning : NodeConfig → Table ℕ ActiveUser → List (PanelUser F) → Type 0
  AllRunning node active [] = Unit {0}
  AllRunning node active (user ∷ users) =
      (is_settled node active user ≡ true) × AllRunning node active users

  running_here :
      (node : NodeConfig) (active : Table ℕ ActiveUser) (user : PanelUser F) (profile : Profile)
      → Profile.from_user user node ≡ ok profile
      → is_settled node active user ≡ true
      → is_running active user profile ≡ true
  unfolding is_settled
  running_here node active user profile q h =
      let step : is_settled node active user ≡ is_running active user profile =
        rw (q, is_settled) in
      sym step ∙ h

  ensure_all_kept :
      (node : NodeConfig) (rt : BackendRuntime F) (live : List ℕ) (users : List (PanelUser F))
      → AllRunning node rt.active_users users
      → (ensure_all node rt live users).0 ≡ rt
  unfolding AllRunning
  ensure_all_kept node rt live [] h = unfold ensure_all in refl
  ensure_all_kept node rt live (user ∷ users) h =
      elim (Result-cases (Profile.from_user user node)) [
        | inl (e, q) ↦
            rw (ensure_all_err node rt live user users e q) (ensure_all_kept node rt live users h.1)
        | inr (profile, q) ↦
            rw
              (
                ensure_all_ok node rt live user users profile q,
                ensure_running node rt user profile
                    (running_here node rt.active_users user profile q h.0),
              )
              (ensure_all_kept node rt (user.port ∷ live) users h.1)
      ]

no_stale :
    (m : Table ℕ ActiveUser) (live : List ℕ)
    → ((p : ℕ) → Table.contains p m ≡ true → mem p live ≡ true)
    → stale_ports m live ≡ []
unfolding stale_ports Table.contains
no_stale [] live h = refl
no_stale ((port, active) ∷ m) live h =
    let here : mem port live ≡ true = h port (ground arith) in
    let rest : (p : ℕ) → Table.contains p m ≡ true → mem p live ≡ true =
      λ p there. h p (ground arith) in
    ground (arith, here, no_stale m live rest)

module _ {F : Type 0} where
  -- A row that is alone on its port is settled if the port has the listener that it wants.
  settled_one :
      (node : NodeConfig) (active : Table ℕ ActiveUser) (user : PanelUser F)
      → ((w : UserFingerprint)
          → listener_of node user ≡ some w
          → listening user.port active ≡ some w)
      → is_settled node active user ≡ true
  unfolding is_settled fingerprint_of
  settled_one node active user h = elim (Result-cases (Profile.from_user user node)) [
    | inl (e, q) ↦ rw (q, is_settled)
    | inr (profile, q) ↦
        rw (q, is_settled)
          (listening_running active user profile (h _ (listener_of_ok node user profile q)))
  ]

  settled_all :
      (node : NodeConfig) (active : Table ℕ ActiveUser) (users : List (PanelUser F))
      → ((p : ℕ) → rows_of p users ≤ 1)
      → ((p : ℕ) (w : UserFingerprint)
          → last_served node p users ≡ some w
          → listening p active ≡ some w)
      → AllRunning node active users
  unfolding AllRunning rows_of last_served
  settled_all node active [] sole h = tt
  settled_all node active (user ∷ users) sole h =
      let alone : rows_of user.port users ≡ 0 = ground (arith, sole user.port) in
      let none_later = last_served-absent node user.port users alone in
      let rest : (p : ℕ) → rows_of p users ≤ 1 = λ p. ground (arith, sole p) in
      (
        settled_one node active user (λ w q. h user.port w (ground (arith, none_later, q))),
        settled_all node active users rest (λ p w q. h p w (ground (arith, q))),
      )

  stop_none : (rt : BackendRuntime F) → stop_ports rt [] ≡ rt
  unfolding stop_ports
  stop_none rt = refl

  sync_listeners_kept :
      (node : NodeConfig) (rt : BackendRuntime F) (users : List (PanelUser F))
      → ((p : ℕ) → listening p rt.active_users ≡ wanted node users p)
      → ((p : ℕ) → rows_of p (listener_users users) ≤ 1)
      → sync_listeners node rt users ≡ rt
  unfolding sync_listeners
  sync_listeners_kept node rt users same sole =
      let rows = listener_users users in
      let live = (ensure_all node rt [] rows).1 in
      let settled =
        settled_all node rt.active_users rows sole
          (λ p w q. same p ∙ sym (wanted_lem node users p) ∙ q) in
      let kept = ensure_all_kept node rt [] rows settled in
      let none_stale = no_stale rt.active_users live (λ p there. ground (
        arith,
        there,
        contains-listening p rt.active_users,
        same p,
        wanted_lem node users p,
        mem-served node rows p,
        mem-ensure_all node rt [] rows p,
      )) in
      rw (kept, none_stale) (stop_none rt)

clash : (r : Result (Unit {0})) (e : Error) → r ≡ ok tt → r ≡ err e → ⊥
clash r e done failed = cc

module _ {F : Type 0} ⦃c : Crypto⦄ ⦃f : F64 F⦄ (config : Config) (parse_ip : List ℕ → Option IpAddr)
    (now : ℕ) where
  -- A poll that succeeds is followed by another one that succeeds, with the listeners untouched in
  -- between; its rows ask for the same listeners as those of the first: either some row is a
  -- carrier, and the carrier rows agree one by one in port, password, method, protocol, obfs and
  -- mode; or all rows do, each on a port of its own. Then the second poll stops no listener and
  -- starts none, whatever else changed in the rows: ids, caps, limits, forbidden lists, and with
  -- carriers all the rows of other users.
  pub sync_users_kept :
      (later : ℕ) (users users' : List (PanelUser F)) (rt between : BackendRuntime F)
      → IsMap rt.active_users
      → length users ≤ config.limits.max_users
      → length users' ≤ config.limits.max_users
      → KeepListeners users users'
      → between.active_users ≡ (sync_users config parse_ip now (ok users) rt).0.active_users
      → let second = (sync_users config parse_ip later (ok users') between).0 in
        (second.active_users ≡ between.active_users) × (second.stopped ≡ between.stopped)
  unfolding sync_users forget_stale publish
  sync_users_kept later users users' rt between h few few' keep after =
      let node = config.node in
      let fits : ltb config.limits.max_users (length users) ≡ false = ground arith in
      let fits' : ltb config.limits.max_users (length users') ≡ false = ground arith in
      let opened : between.active_users
          ≡ (sync_listeners node (publish parse_ip now rt users).0 users).active_users =
        after ∙ (rw fits) in
      let rt2 = (publish parse_ip later between users').0 in
      let same : (p : ℕ) → listening p rt2.active_users ≡ wanted node users' p = λ p.
        ap (listening p) opened
        ∙ listening-sync_listeners node (publish parse_ip now rt users).0 users p h
        ∙ wanted-KeepListeners node users users' p keep in
      let kept =
        sync_listeners_kept node rt2 users' same (λ p. rows_of-KeepListeners users users' p keep) in
      rw (fits', kept) (refl, refl)

  -- A poll that fails, by the panel's answer or by too many rows, leaves everything as it was: the
  -- ledgers, the published tables, the listeners and the maps.
  pub sync_users_fails :
      (fetched : Result (List (PanelUser F))) (rt : BackendRuntime F) (e : Error)
      → (sync_users config parse_ip now fetched rt).1 ≡ err e
      → (sync_users config parse_ip now fetched rt).0 ≡ rt
  unfolding sync_users
  sync_users_fails (err x) rt e failed = refl
  sync_users_fails (ok users) rt e failed =
      elim (Bool-cases (ltb config.limits.max_users (length users))) [
        | inl many ↦ rw many
        | inr fits ↦
            let done : (sync_users config parse_ip now (ok users) rt).1 ≡ ok tt = rw fits in
            absurd (clash (sync_users config parse_ip now (ok users) rt).1 e done failed)
      ]
