-- ===== src/Supervisor/Sync/Collect.antt =====
-- src/runtime/supervisor.rs: the tables that the first loop of a poll fills.
use sspanel_ssr_rust_backend.Base.{
  ℕ, ◌≡◌, refl, ◌∙◌, Bool, false, not, ◌||◌, ◌&&◌, Option, none, some, List, [], ◌∷◌, arith, nat_eq,
  ◌==◌, if◌then◌else◌, length, ltb,
}
use mathlib.Core.Path.{subst}
use sspanel_ssr_rust_backend.Text.{is_empty}
use sspanel_ssr_rust_backend.Base.Int.{ℤ_beq, pos}
use sspanel_ssr_rust_backend.Base.Table
use sspanel_ssr_rust_backend.Base.Table.{Table, IsMap}
use sspanel_ssr_rust_backend.Net.{IpAddr}
use sspanel_ssr_rust_backend.Float.{F64}
use sspanel_ssr_rust_backend.Panel.{PanelUser, user_id}
use sspanel_ssr_rust_backend.Policy.{UserPolicy, needs_connection_policy}
use sspanel_ssr_rust_backend.Policy.Parse
use sspanel_ssr_rust_backend.UserTables.{UserTables}
use sspanel_ssr_rust_backend.Ssr.Crypto.{Crypto}
use sspanel_ssr_rust_backend.Ssr.Udp.{derive_user_auth_key}
use sspanel_ssr_rust_backend.Supervisor.Sync.{Collected, collect_one, collect}

-- A limit of IPs, a forbidden block or a forbidden port.
unfoldable pub is_restricted : UserPolicy → Bool
is_restricted p =
    ltb 0 p.conn_limit || ltb 0 (length p.forbidden_ips) || ltb 0 (length p.forbidden_ports)

abbrev pub or_before {ℓ} : {A : Type ℓ} → Option A → Option A → Option A
or_before none before = before
or_before (some a) before = some a

module _ {F : Type 0} where
  unfoldable pub is_listed : ℕ → List (PanelUser F) → Bool
  is_listed id [] = false
  is_listed id (user ∷ users) = user_id user == id || is_listed id users

  module _ ⦃f : F64 F⦄ where
    -- The policy of the last row of a user that restricts the user's connections.
    unfoldable pub last_policy :
        (List ℕ → Option IpAddr) → ℕ → List (PanelUser F) → Option UserPolicy
    last_policy parse_ip id [] = none
    last_policy parse_ip id (user ∷ users) =
        let policy = Parse.from_user parse_ip user in
        elim (last_policy parse_ip id users) [
          | some later ↦ some later
          | none ↦ if user_id user == id && is_restricted policy then some policy else none
        ]

  module _ ⦃c : Crypto⦄ where
    -- The key of the last row of a user that is no carrier.
    unfoldable pub last_key : ℕ → List (PanelUser F) → Option (List ℕ)
    last_key id [] = none
    last_key id (user ∷ users) = elim (last_key id users) [
      | some later ↦ some later
      | none ↦
          if user_id user == id && ℤ_beq user.is_multi_user (pos 0)
          then some (derive_user_auth_key user.password)
          else none
    ]

is_empty-length {ℓ} : {A : Type ℓ} (xs : List A) → not (is_empty xs) ≡ ltb 0 (length xs)
unfolding is_empty
is_empty-length [] = refl
is_empty-length (x ∷ xs) = ground arith

restricted_lem : (p : UserPolicy) → needs_connection_policy p ≡ is_restricted p
unfolding needs_connection_policy is_restricted
restricted_lem p = rw (is_empty-length p.forbidden_ips, is_empty-length p.forbidden_ports)

-- A user has a counter, a set of IPs and a limiter in the tables.
abbrev pub HasLedgers : UserTables → ℕ → Bool → Type 0
HasLedgers tables id here =
    (Table.contains id tables.counters_by_user ≡ here)
    × (Table.contains id tables.conns_by_user ≡ here)
    × (Table.contains id tables.speeds_by_user ≡ here)

grow :
    (k id v : ℕ) (m : Table ℕ ℕ) (here : Bool)
    → Table.contains id m ≡ here
    → Table.contains id (Table.insert k v m) ≡ (k == id || here)
grow k id v m here h = Table.contains-insert k id v m ∙ (rw h)

pub or_nothing {ℓ} : {A : Type ℓ} (o : Option A) → or_before o none ≡ o
or_nothing none = refl
or_nothing (some a) = refl

pub or_false : (b : Bool) → (b || false) ≡ b
or_false b = ground arith

or_later : (a b here : Bool) → (b || (a || here)) ≡ ((a || b) || here)
or_later a b here = ground arith

module _ {F : Type 0} ⦃c : Crypto⦄ ⦃f : F64 F⦄ (parse_ip : List ℕ → Option IpAddr) (now : ℕ) where
  get-collect_one_policies :
      (s : Collected F) (user : PanelUser F) (id : ℕ)
      → Table.get id (collect_one parse_ip now s user).tables.policies ≡ (
          if user_id user == id && is_restricted (Parse.from_user parse_ip user)
          then some (Parse.from_user parse_ip user)
          else Table.get id s.tables.policies)
  unfolding collect_one
  get-collect_one_policies s user id =
      let policy = Parse.from_user parse_ip user in
      ground
        (arith, restricted_lem policy, Table.get-insert (user_id user) id policy s.tables.policies)

  get-collect_one_keys :
      (s : Collected F) (user : PanelUser F) (id : ℕ)
      → Table.get id (collect_one parse_ip now s user).tables.auth_users ≡ (
          if user_id user == id && ℤ_beq user.is_multi_user (pos 0)
          then some (derive_user_auth_key user.password)
          else Table.get id s.tables.auth_users)
  unfolding collect_one
  get-collect_one_keys s user id = ground (
    arith,
    Table.get-insert (user_id user) id (derive_user_auth_key user.password) s.tables.auth_users,
  )

  pub get-collect_policies :
      (s : Collected F) (users : List (PanelUser F)) (id : ℕ)
      → Table.get id (collect parse_ip now s users).tables.policies
        ≡ or_before (last_policy parse_ip id users) (Table.get id s.tables.policies)
  unfolding collect last_policy
  get-collect_policies s [] id = refl
  get-collect_policies s (user ∷ users) id = ground (
    arith,
    get-collect_policies (collect_one parse_ip now s user) users id,
    get-collect_one_policies s user id,
  )

  pub get-collect_keys :
      (s : Collected F) (users : List (PanelUser F)) (id : ℕ)
      → Table.get id (collect parse_ip now s users).tables.auth_users
        ≡ or_before (last_key id users) (Table.get id s.tables.auth_users)
  unfolding collect last_key
  get-collect_keys s [] id = refl
  get-collect_keys s (user ∷ users) id = ground (
    arith,
    get-collect_keys (collect_one parse_ip now s user) users id,
    get-collect_one_keys s user id,
  )

  collect_one-HasLedgers :
      (s : Collected F) (user : PanelUser F) (id : ℕ) (here : Bool)
      → HasLedgers s.tables id here
      → HasLedgers (collect_one parse_ip now s user).tables id (user_id user == id || here)
  unfolding collect_one
  collect_one-HasLedgers s user id here (counters, conns, speeds) =
      let k = user_id user in
      (
        grow k id _ s.tables.counters_by_user here counters,
        grow k id _ s.tables.conns_by_user here conns,
        grow k id _ s.tables.speeds_by_user here speeds,
      )

  pub collect-HasLedgers :
      (s : Collected F) (users : List (PanelUser F)) (id : ℕ) (here : Bool)
      → HasLedgers s.tables id here
      → HasLedgers (collect parse_ip now s users).tables id (is_listed id users || here)
  unfolding collect is_listed
  collect-HasLedgers s [] id here h = h
  collect-HasLedgers s (user ∷ users) id here h =
      subst (HasLedgers (collect parse_ip now s (user ∷ users)).tables id)
        (or_later (user_id user == id) (is_listed id users) here)
        (collect-HasLedgers (collect_one parse_ip now s user) users id (user_id user == id || here)
          (collect_one-HasLedgers s user id here h))
