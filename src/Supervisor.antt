-- ===== src/Supervisor.antt =====
-- src/runtime/supervisor.rs: reports to the panel, audit events and the choice of the listeners.
pub mod Reports
pub mod Carriers
pub mod Sync
use sspanel_ssr_rust_backend.Base.{
  ℕ, Bool, true, false, ◌&&◌, ◌||◌, not, Option, none, some, List, [], ◌∷◌, map, ◌==◌,
  if◌then◌else◌, nat_eq, bytes_eq, bytes_key, pair_eq, Result, Error, ok, err,
}
use sspanel_ssr_rust_backend.Base.Int.{ℤ_beq, pos}
use sspanel_ssr_rust_backend.Base.Table
use sspanel_ssr_rust_backend.Base.Table.{Table}
use sspanel_ssr_rust_backend.Text.{is_empty}
use sspanel_ssr_rust_backend.State
use sspanel_ssr_rust_backend.State.{BoundedTtlMap}
use sspanel_ssr_rust_backend.Traffic.{
  TrafficLedger, TrafficDelta, pending_deltas, mark_reported, mem,
}
use sspanel_ssr_rust_backend.Panel.{PanelUser, AliveIpReport, DetectLogReport, report}
use sspanel_ssr_rust_backend.Audit.{RelayEvent, connect, detect}

-- Keys with the fields in the source's order: user and IP, user and rule and IP, user and peer.
abbrev pub AliveIpKey : Type 0
AliveIpKey = ℕ × List ℕ

abbrev pub DetectLogKey : Type 0
DetectLogKey = ℕ × (ℕ × List ℕ)

abbrev pub SessionKey : Type 0
SessionKey = ℕ × List ℕ

-- The bounded maps of `BackendRuntime`.
pub record LocalState : Type 0 where
  pub sessions : BoundedTtlMap SessionKey (Unit {0})
  pub alive_ips : BoundedTtlMap AliveIpKey (Unit {0})
  pub detect_logs : BoundedTtlMap DetectLogKey DetectLogReport

unfoldable pub record_event : LocalState → RelayEvent → ℕ → LocalState
record_event s (connect user_id ip peer) now = record s {
  sessions = State.insert s.sessions (user_id, peer) tt now;
  alive_ips = State.insert s.alive_ips (user_id, ip) tt now;
}
record_event s (detect user_id list_id ip) now = record s {
  detect_logs =
      State.insert s.detect_logs (user_id, (list_id, ip))
        (record { detect_user_id = user_id; list_id = list_id }) now;
}

unfoldable pub expire_local_state : LocalState → ℕ → LocalState
expire_local_state s now = record {
  sessions = State.expire s.sessions now;
  alive_ips = State.expire s.alive_ips now;
  detect_logs = State.expire s.detect_logs now;
}

-- The three `retain`s at the end of `sync_users`.
unfoldable pub retain_live : LocalState → List ℕ → LocalState
retain_live s live_user_ids = record {
  sessions = State.retain (λ key _. mem key.0 live_user_ids) s.sessions;
  alive_ips = State.retain (λ key _. mem key.0 live_user_ids) s.alive_ips;
  detect_logs = State.retain (λ key _. mem key.0 live_user_ids) s.detect_logs;
}

abbrev pub alive_report : AliveIpKey → AliveIpReport
alive_report (user_id, ip) = record { user_id = user_id; ip = ip }

-- The requests to the panel are the two parameters.
unfoldable pub report_auxiliary_state :
    LocalState
    → (List AliveIpReport → Result (Unit {0}))
    → (List DetectLogReport → Result (Unit {0}))
    → LocalState × Result (Unit {0})
unfolding report
report_auxiliary_state s post_alive_ips post_detect_logs =
    elim (report post_alive_ips (map alive_report (State.keys s.alive_ips))) [
      | err e ↦ (s, err e)
      | ok _ ↦
          let s' = record s { alive_ips = State.retain (λ _ _. false) s.alive_ips } in
          let detect_logs = State.values s.detect_logs in
          if is_empty detect_logs then (s', ok tt) else elim (report post_detect_logs detect_logs) [
            | err e ↦ (s', err e)
            | ok _ ↦ (record s' { detect_logs = State.retain (λ _ _. false) s.detect_logs }, ok tt)
          ]
    ]

-- One step: nothing is counted while the request is awaited.
unfoldable pub report_traffic :
    TrafficLedger → (List TrafficDelta → Result (Unit {0})) → TrafficLedger × Result (Unit {0})
unfolding report
report_traffic s post =
    let deltas = pending_deltas s in
    if is_empty deltas
    then (s, ok tt)
    else elim (report post deltas) [ err e ↦ (s, err e) | ok _ ↦ (mark_reported s deltas, ok tt) ]

-- `==` on an optional string.
unfoldable pub option_eq : Option (List ℕ) → Option (List ℕ) → Bool
option_eq none none = true
option_eq (some a) (some b) = bytes_eq a b
option_eq _ _ = false

module _ {F : Type 0} where
  unfoldable pub carrier_config_matches : PanelUser F → PanelUser F → Bool
  unfolding option_eq
  carrier_config_matches a b =
      a.port == b.port
      && bytes_eq a.password b.password
      && option_eq a.method b.method
      && option_eq a.protocol b.protocol
      && option_eq a.protocol_param b.protocol_param
      && option_eq a.obfs b.obfs
      && option_eq a.obfs_param b.obfs_param
      && ℤ_beq a.is_multi_user b.is_multi_user

  -- The loop of `merge_carrier_users`; both arms for an existing row only log.
  unfoldable pub merge_rows : Table ℕ (PanelUser F) → List (PanelUser F) → Table ℕ (PanelUser F)
  unfolding carrier_config_matches
  merge_rows by_port [] = by_port
  merge_rows by_port (user ∷ users) =
      merge_rows
        (elim (Table.get user.port by_port) [
          | some existing ↦ if carrier_config_matches existing user then by_port else by_port
          | none ↦ Table.insert user.port user by_port
        ])
        users

  unfoldable pub merge_carrier_users : List (PanelUser F) → List (PanelUser F)
  unfolding merge_rows
  merge_carrier_users users = map (λ row. row.1) (merge_rows [] users)

  -- The rows that `sync_users` opens a listener for.
  unfoldable pub any_multi : List (PanelUser F) → Bool
  any_multi [] = false
  any_multi (user ∷ users) = not (ℤ_beq user.is_multi_user (pos 0)) || any_multi users

  unfoldable pub only_multi : Bool → List (PanelUser F) → List (PanelUser F)
  only_multi keep [] = []
  only_multi keep (user ∷ users) =
      let rest = only_multi keep users in
      if ℤ_beq user.is_multi_user (pos 0)
      then (if keep then rest else user ∷ rest)
      else if keep
      then user ∷ rest
      else rest

  unfoldable pub listener_users : List (PanelUser F) → List (PanelUser F)
  unfolding any_multi only_multi
  listener_users users =
      if any_multi users
      then merge_carrier_users (only_multi true users)
      else only_multi false users
