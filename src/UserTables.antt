-- ===== src/UserTables.antt =====
-- src/user_tables.rs: the snapshot of the per-user tables that listeners read.
use sspanel_ssr_rust_backend.Base.{ℕ, List, []}
use sspanel_ssr_rust_backend.Base.Table.{Table}
use sspanel_ssr_rust_backend.Policy.{UserPolicy}

-- An `Arc` to a shared counter, IP set or limiter is its index in its store.
pub record UserTables : Type 0 where
  pub auth_users : Table ℕ (List ℕ)
  pub counters_by_user : Table ℕ ℕ
  pub conns_by_user : Table ℕ ℕ
  pub speeds_by_user : Table ℕ ℕ
  pub policies : Table ℕ UserPolicy

-- `UserTables::default()`
abbrev pub no_tables : UserTables
no_tables = record {
  auth_users = [];
  counters_by_user = [];
  conns_by_user = [];
  speeds_by_user = [];
  policies = [];
}
