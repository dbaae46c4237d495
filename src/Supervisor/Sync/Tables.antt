-- ===== src/Supervisor/Sync/Tables.antt =====
-- src/runtime/supervisor.rs: the tables that a poll publishes, read off the panel's rows.
use sspanel_ssr_rust_backend.Base.{
  ℕ, ◌≤◌, ◌≡◌, refl, ◌∙◌, false, Option, List, [], arith, nat_eq, length, ltb, ok, ap,
}
use mathlib.Core.Path.{subst}
use sspanel_ssr_rust_backend.Base.Table
use sspanel_ssr_rust_backend.Base.Table.{Table, IsMap}
use sspanel_ssr_rust_backend.Net.{IpAddr}
use sspanel_ssr_rust_backend.Float.{F64}
use sspanel_ssr_rust_backend.Config.{Config}
use sspanel_ssr_rust_backend.Panel.{PanelUser}
use sspanel_ssr_rust_backend.UserTables.{no_tables}
use sspanel_ssr_rust_backend.Ssr.Crypto.{Crypto}
use sspanel_ssr_rust_backend.Traffic
use sspanel_ssr_rust_backend.Traffic.{TrafficLedger, mem}
use sspanel_ssr_rust_backend.Traffic.Conns
use sspanel_ssr_rust_backend.Traffic.Conns.{ConnLedger}
use sspanel_ssr_rust_backend.Traffic.Speed
use sspanel_ssr_rust_backend.Traffic.Speed.{SpeedLedger}
use sspanel_ssr_rust_backend.Supervisor.Sync.Ledgers.{Follows, collect-AllFollow, retain-Follows}
use sspanel_ssr_rust_backend.Supervisor.Sync.{
  BackendRuntime, Collected, collect, publish, forget_stale, sync_users,
}
use sspanel_ssr_rust_backend.Supervisor.Sync.Untouched.{rest_of-sync_listeners}
use sspanel_ssr_rust_backend.Supervisor.Sync.Collect.{
  last_policy, last_key, is_listed, HasLedgers, or_nothing, or_false, get-collect_policies,
  get-collect_keys, collect-HasLedgers,
}

module _ {F : Type 0} ⦃c : Crypto⦄ ⦃f : F64 F⦄ (parse_ip : List ℕ → Option IpAddr) (now : ℕ) where
  publish_tables :
      (rt : BackendRuntime F) (users : List (PanelUser F)) (id : ℕ)
      → let tables = (publish parse_ip now rt users).0.user_tables in
        (Table.get id tables.policies ≡ last_policy parse_ip id users)
        × (Table.get id tables.auth_users ≡ last_key id users)
        × HasLedgers tables id (is_listed id users)
  unfolding publish Table.get Table.contains
  publish_tables rt users id =
      let start : Collected F = record {
        traffic = rt.traffic;
        conns = rt.conns;
        speeds = rt.speeds;
        tables = no_tables;
        live_user_ids = [];
      } in
      (
        get-collect_policies parse_ip now start users id
            ∙ or_nothing (last_policy parse_ip id users),
        get-collect_keys parse_ip now start users id ∙ or_nothing (last_key id users),
        subst (HasLedgers (collect parse_ip now start users).tables id)
            (or_false (is_listed id users))
            (collect-HasLedgers parse_ip now start users id false (refl, refl, refl)),
      )

  publish-Follows :
      (rt : BackendRuntime F) (users : List (PanelUser F))
      → IsMap rt.traffic.counters
      → IsMap rt.conns.state
      → IsMap rt.speeds.state
      → let (rt', live) = publish parse_ip now rt users in
        Follows live rt'.user_tables.counters_by_user rt'.traffic.counters
        × Follows live rt'.user_tables.conns_by_user rt'.conns.state
        × Follows live rt'.user_tables.speeds_by_user rt'.speeds.state
  unfolding publish Table.get mem
  publish-Follows rt users counters conns speeds =
      collect-AllFollow parse_ip now
        (record {
          traffic = rt.traffic;
          conns = rt.conns;
          speeds = rt.speeds;
          tables = no_tables;
          live_user_ids = [];
        })
        users ((counters, λ id. refl), (conns, λ id. refl), (speeds, λ id. refl))

-- After a poll with at most `max_users` rows, the published tables hold, for every user id: as
-- policy that of the last row of the user that sets a limit of IPs, a forbidden block or a forbidden
-- port, and none if no row does; as key for datagrams the one of the password of the user's last row
-- that is no carrier, and none if there is no such row; a counter, a set of IPs and a limiter
-- exactly if some row is the user's, and these are the ones in the ledgers, which hold no other user
-- any more. The keys of the ledgers are distinct before the poll.
pub sync_users_tables :
    {F : Type 0} ⦃c : Crypto⦄ ⦃f : F64 F⦄ (config : Config) (parse_ip : List ℕ → Option IpAddr)
    (now : ℕ) (users : List (PanelUser F)) (rt : BackendRuntime F) (id : ℕ)
    → length users ≤ config.limits.max_users
    → IsMap rt.traffic.counters
    → IsMap rt.conns.state
    → IsMap rt.speeds.state
    → let rt' = (sync_users config parse_ip now (ok users) rt).0 in
      let tables = rt'.user_tables in
      (Table.get id tables.policies ≡ last_policy parse_ip id users)
      × (Table.get id tables.auth_users ≡ last_key id users)
      × HasLedgers tables id (is_listed id users)
      × (Table.get id tables.counters_by_user ≡ Table.get id rt'.traffic.counters)
      × (Table.get id tables.conns_by_user ≡ Table.get id rt'.conns.state)
      × (Table.get id tables.speeds_by_user ≡ Table.get id rt'.speeds.state)
unfolding sync_users forget_stale Traffic.remove_stale_users Conns.remove_stale_users
    Speed.remove_stale_users
sync_users_tables config parse_ip now users rt id few counters conns speeds =
    let fits : ltb config.limits.max_users (length users) ≡ false = ground arith in
    let (rt1, live) = publish parse_ip now rt users in
    let kept = rest_of-sync_listeners config.node rt1 users in
    let (c, i, l) = publish-Follows parse_ip now rt users counters conns speeds in
    let (policies, keys, ledgers) = publish_tables parse_ip now rt users id in
    rw (fits, ap (λ r. r.0) kept, ap (λ r. r.1) kept, ap (λ r. r.2) kept, ap (λ r. r.3) kept)
      (
        policies,
        keys,
        ledgers,
        retain-Follows live rt1.user_tables.counters_by_user rt1.traffic.counters id c,
        retain-Follows live rt1.user_tables.conns_by_user rt1.conns.state id i,
        retain-Follows live rt1.user_tables.speeds_by_user rt1.speeds.state id l,
      )
