-- ===== src/Supervisor/Sync/Wanted.antt =====
-- src/runtime/supervisor.rs: the listener that each port should have, read off the panel's rows.
use sspanel_ssr_rust_backend.Base.{
  ℕ, ◌≤◌, ◌≡◌, refl, ◌∙◌, ap, Bool, true, false, not, ◌||◌, ◌&&◌, Option, none, some, List, [], ◌∷◌,
  inl, inr, arith, nat_eq, ◌==◌, if◌then◌else◌, Bool-cases, Result-cases, err, ok, Error,
}
use sspanel_ssr_rust_backend.Base.Int.{ℤ_beq, pos}
use sspanel_ssr_rust_backend.Config.{NodeConfig}
use sspanel_ssr_rust_backend.Panel.{PanelUser}
use sspanel_ssr_rust_backend.Traffic.{mem}
use sspanel_ssr_rust_backend.Ssr.Profile
use sspanel_ssr_rust_backend.Ssr.Profile.{Profile}
use sspanel_ssr_rust_backend.Supervisor.{merge_carrier_users, any_multi, only_multi, listener_users}
use sspanel_ssr_rust_backend.Supervisor.Carriers.{first_row, rows_of, first_row-merge_carrier_users}
use sspanel_ssr_rust_backend.Supervisor.Sync.{UserFingerprint}
use sspanel_ssr_rust_backend.Supervisor.Sync.Served.{served}

abbrev pub is_wanted : Option UserFingerprint → Bool
is_wanted none = false
is_wanted (some _) = true

module _ {F : Type 0} where
  unfoldable pub is_carrier : PanelUser F → Bool
  is_carrier user = not (ℤ_beq user.is_multi_user (pos 0))

  unfoldable pub has_carrier : List (PanelUser F) → Bool
  has_carrier [] = false
  has_carrier (user ∷ users) = is_carrier user || has_carrier users

  -- The first carrier row of a port.
  unfoldable pub first_carrier : ℕ → List (PanelUser F) → Option (PanelUser F)
  first_carrier port [] = none
  first_carrier port (user ∷ users) =
      if is_carrier user && user.port == port then some user else first_carrier port users

  -- What the listener of a row listens with, if the node serves the row.
  unfoldable pub listener_of : NodeConfig → PanelUser F → Option UserFingerprint
  listener_of node user = elim (Profile.from_user user node) [
    | err e ↦ none
    | ok profile ↦ some (record {
      port = user.port;
      password = user.password;
      profile = profile;
      is_multi_user = user.is_multi_user;
    })
  ]

  -- The last row of a port that the node serves.
  unfoldable pub last_served : NodeConfig → ℕ → List (PanelUser F) → Option UserFingerprint
  last_served node port [] = none
  last_served node port (user ∷ users) = elim (last_served node port users) [
    | some later ↦ some later
    | none ↦ if user.port == port then listener_of node user else none
  ]

  -- If some row is a carrier, the first carrier of the port has the listener, when the node serves
  -- it; otherwise the last row of the port that the node serves.
  unfoldable pub wanted : NodeConfig → List (PanelUser F) → ℕ → Option UserFingerprint
  wanted node users port =
      if has_carrier users
      then elim (first_carrier port users) [ none ↦ none | some user ↦ listener_of node user ]
      else last_served node port users

  pub listener_of_err :
      (node : NodeConfig) (user : PanelUser F) (e : Error)
      → Profile.from_user user node ≡ err e
      → listener_of node user ≡ none
  unfolding listener_of
  listener_of_err node user e q = rw (q, listener_of)

  pub listener_of_ok :
      (node : NodeConfig) (user : PanelUser F) (profile : Profile)
      → Profile.from_user user node ≡ ok profile
      → listener_of node user
        ≡ some (record {
          port = user.port;
          password = user.password;
          profile = profile;
          is_multi_user = user.is_multi_user;
        })
  unfolding listener_of
  listener_of_ok node user profile q = rw (q, listener_of)

  pub last_served-absent :
      (node : NodeConfig) (port : ℕ) (users : List (PanelUser F))
      → rows_of port users ≡ 0
      → last_served node port users ≡ none
  unfolding last_served rows_of
  last_served-absent node port [] h = refl
  last_served-absent node port (user ∷ users) h = ground (arith, last_served-absent node port users)

  first_row-absent :
      (port : ℕ) (users : List (PanelUser F)) → rows_of port users ≡ 0 → first_row port users ≡ none
  unfolding first_row rows_of
  first_row-absent port [] h = refl
  first_row-absent port (user ∷ users) h = ground (arith, first_row-absent port users)

  last_served_other :
      (node : NodeConfig) (port : ℕ) (user : PanelUser F) (users : List (PanelUser F))
      → (user.port == port) ≡ false
      → last_served node port (user ∷ users) ≡ last_served node port users
  unfolding last_served
  last_served_other node port user users h = ground arith

  -- With one row at most for the port, the last served row is the first row.
  last_served-first_row :
      (node : NodeConfig) (port : ℕ) (users : List (PanelUser F))
      → rows_of port users ≤ 1
      → last_served node port users
        ≡ elim (first_row port users) [ none ↦ none | some user ↦ listener_of node user ]
  unfolding last_served rows_of first_row
  last_served-first_row node port [] h = refl
  last_served-first_row node port (user ∷ users) h = elim (Bool-cases (user.port == port)) [
    | inl here ↦
        let rest : last_served node port users ≡ none =
          last_served-absent node port users (ground arith) in
        rw rest (rw here)
    | inr other ↦
        let tail = last_served-first_row node port users (ground arith) in
        last_served_other node port user users other ∙ (rw other tail)
  ]

  first_row-only_multi :
      (port : ℕ) (users : List (PanelUser F))
      → first_row port (only_multi true users) ≡ first_carrier port users
  unfolding only_multi first_row first_carrier is_carrier
  first_row-only_multi port [] = refl
  first_row-only_multi port (user ∷ users) = ground (arith, first_row-only_multi port users)

  pub only_multi_none :
      (users : List (PanelUser F)) → has_carrier users ≡ false → only_multi false users ≡ users
  unfolding only_multi has_carrier is_carrier
  only_multi_none [] h = refl
  only_multi_none (user ∷ users) h = ground (arith, only_multi_none users)

  pub any_multi-has_carrier : (users : List (PanelUser F)) → any_multi users ≡ has_carrier users
  unfolding any_multi has_carrier is_carrier
  any_multi-has_carrier [] = refl
  any_multi-has_carrier (user ∷ users) = ground (arith, any_multi-has_carrier users)

  -- The listener users want the listeners that `wanted` names.
  pub wanted_lem :
      (node : NodeConfig) (users : List (PanelUser F)) (port : ℕ)
      → last_served node port (listener_users users) ≡ wanted node users port
  unfolding listener_users wanted
  wanted_lem node users port = elim (Bool-cases (has_carrier users)) [
    | inl multi ↦
        let rows = only_multi true users in
        let (first, few) = first_row-merge_carrier_users rows port in
        rw (any_multi-has_carrier users, multi)
          (last_served-first_row node port (merge_carrier_users rows) few
            ∙ ap (λ o. elim o [ none ↦ none | some user ↦ listener_of node user ])
                (first ∙ first_row-only_multi port users))
    | inr single ↦ rw (any_multi-has_carrier users, single, only_multi_none users single)
  ]

  -- The served ports are those with a last served row.
  pub mem-served :
      (node : NodeConfig) (users : List (PanelUser F)) (port : ℕ)
      → mem port (served node users) ≡ is_wanted (last_served node port users)
  unfolding served mem last_served
  mem-served node [] port = refl
  mem-served node (user ∷ users) port = elim (Result-cases (Profile.from_user user node)) [
    | inl (e, q) ↦ ground (arith, q, mem-served node users port, listener_of_err node user e q)
    | inr (profile, q) ↦
        ground (arith, q, mem-served node users port, listener_of_ok node user profile q)
  ]
