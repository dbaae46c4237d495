-- ===== src/Supervisor/Sync/Ledgers.antt =====
-- src/runtime/supervisor.rs, src/traffic.rs: the published tables and the ledgers behind them.
use sspanel_ssr_rust_backend.Base.{
  ℕ, ◌≡◌, Option, none, some, List, [], ◌∷◌, arith, nat_eq, ◌==◌, if◌then◌else◌, Option-cases, inl,
  inr,
}
use sspanel_ssr_rust_backend.Base.Table
use sspanel_ssr_rust_backend.Base.Table.{Table, IsMap}
use sspanel_ssr_rust_backend.Net.{IpAddr}
use sspanel_ssr_rust_backend.Float.{F64}
use sspanel_ssr_rust_backend.Panel.{PanelUser, user_id}
use sspanel_ssr_rust_backend.Policy.Parse
use sspanel_ssr_rust_backend.Traffic
use sspanel_ssr_rust_backend.Traffic.{TrafficLedger, mem}
use sspanel_ssr_rust_backend.Traffic.Conns
use sspanel_ssr_rust_backend.Traffic.Conns.{ConnLedger}
use sspanel_ssr_rust_backend.Traffic.Speed
use sspanel_ssr_rust_backend.Traffic.Speed.{SpeedLedger}
use sspanel_ssr_rust_backend.Ssr.Crypto.{Crypto}
use sspanel_ssr_rust_backend.State.Lookup.{get-retain}
use sspanel_ssr_rust_backend.Supervisor.Sync.{Collected, collect_one, collect}

-- The table that `ensure_user` leaves, of the table before and of the reference that it returns.
abbrev pub Ensures : ℕ → ℕ → Table ℕ ℕ → Table ℕ ℕ → Type 0
Ensures user_id ref before after =
    IsMap after
    × ((id : ℕ) → Table.get id after ≡ (if user_id == id then some ref else Table.get id before))

found-Ensures : (k ref : ℕ) (m : Table ℕ ℕ) → IsMap m → Table.get k m ≡ some ref → Ensures k ref m m
unfolding Table.get
found-Ensures k ref m h found = (h, λ id. ground (arith, found))

added-Ensures : (k ref : ℕ) (m : Table ℕ ℕ) → IsMap m → Ensures k ref m (Table.insert k ref m)
added-Ensures k ref m h = (Table.insert-IsMap k ref m h, λ id. Table.get-insert k id ref m)

traffic-Ensures :
    (s : TrafficLedger) (k : ℕ)
    → IsMap s.counters
    → Ensures k (Traffic.ensure_user s k).1 s.counters (Traffic.ensure_user s k).0.counters
unfolding Traffic.ensure_user
traffic-Ensures s k h = elim (Option-cases (Table.get k s.counters)) [
  | inl absent ↦ rw (absent, Traffic.ensure_user) (added-Ensures k _ s.counters h)
  | inr (ref, found) ↦ rw (found, Traffic.ensure_user) (found-Ensures k ref s.counters h found)
]

conns-Ensures :
    (s : ConnLedger) (k : ℕ)
    → IsMap s.state
    → Ensures k (Conns.ensure_user s k).1 s.state (Conns.ensure_user s k).0.state
unfolding Conns.ensure_user
conns-Ensures s k h = elim (Option-cases (Table.get k s.state)) [
  | inl absent ↦ rw (absent, Conns.ensure_user) (added-Ensures k _ s.state h)
  | inr (ref, found) ↦ rw (found, Conns.ensure_user) (found-Ensures k ref s.state h found)
]

speeds-Ensures :
    {F : Type 0} ⦃f : F64 F⦄ (s : SpeedLedger F) (k rate now : ℕ)
    → IsMap s.state
    → Ensures k (Speed.ensure_user s k rate now).1 s.state (Speed.ensure_user s k rate now).0.state
unfolding Speed.ensure_user
speeds-Ensures s k rate now h = elim (Option-cases (Table.get k s.state)) [
  | inl absent ↦ rw (absent, Speed.ensure_user) (added-Ensures k _ s.state h)
  | inr (ref, found) ↦ rw (found, Speed.ensure_user) (found-Ensures k ref s.state h found)
]

-- A published table holds the references of the ledger for the users collected so far, and no more.
abbrev pub Follows : List ℕ → Table ℕ ℕ → Table ℕ ℕ → Type 0
Follows live published ledger =
    IsMap ledger
    × ((id : ℕ) → Table.get id published ≡ (if mem id live then Table.get id ledger else none))

insert-Follows :
    (k ref : ℕ) (live : List ℕ) (published ledger after : Table ℕ ℕ)
    → Follows live published ledger
    → Ensures k ref ledger after
    → Follows (k ∷ live) (Table.insert k ref published) after
unfolding mem
insert-Follows k ref live published ledger after (h, same) (h', step) =
    (h', λ id. ground (arith, Table.get-insert k id ref published, same id, step id))

pub retain-Follows :
    (live : List ℕ) (published ledger : Table ℕ ℕ) (id : ℕ)
    → Follows live published ledger
    → Table.get id published ≡ Table.get id (Table.retain (λ user_id _. mem user_id live) ledger)
retain-Follows live published ledger id (h, same) =
    ground (arith, same id, get-retain (λ user_id _. mem user_id live) id ledger h)

module _ {F : Type 0} where
  abbrev pub AllFollow : Collected F → Type 0
  AllFollow s =
      Follows s.live_user_ids s.tables.counters_by_user s.traffic.counters
      × Follows s.live_user_ids s.tables.conns_by_user s.conns.state
      × Follows s.live_user_ids s.tables.speeds_by_user s.speeds.state

module _ {F : Type 0} ⦃c : Crypto⦄ ⦃f : F64 F⦄ (parse_ip : List ℕ → Option IpAddr) (now : ℕ) where
  collect_one-AllFollow :
      (s : Collected F) (user : PanelUser F)
      → AllFollow s
      → AllFollow (collect_one parse_ip now s user)
  unfolding collect_one
  collect_one-AllFollow s user (counters, conns, speeds) =
      let k = user_id user in
      let rate = (Parse.from_user parse_ip user).speed_limit_bps in
      (
        insert-Follows k _ s.live_user_ids _ s.traffic.counters _ counters
            (traffic-Ensures s.traffic k counters.0),
        insert-Follows k _ s.live_user_ids _ s.conns.state _ conns
            (conns-Ensures s.conns k conns.0),
        insert-Follows k _ s.live_user_ids _ s.speeds.state _ speeds
            (speeds-Ensures s.speeds k rate now speeds.0),
      )

  pub collect-AllFollow :
      (s : Collected F) (users : List (PanelUser F))
      → AllFollow s
      → AllFollow (collect parse_ip now s users)
  unfolding collect
  collect-AllFollow s [] h = h
  collect-AllFollow s (user ∷ users) h =
      collect-AllFollow (collect_one parse_ip now s user) users (collect_one-AllFollow s user h)
