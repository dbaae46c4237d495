-- ===== src/Traffic.antt =====
-- src/traffic.rs: the traffic ledger and the sets of client IPs.
pub mod Ledger
pub mod Reports
pub mod Guards
pub mod Conns
pub mod Speed
use sspanel_ssr_rust_backend.Base.{
  ℕ, zero, suc, ◌+◌, ◌-◌, ◌%◌, ◌^◌, Bool, true, false, ◌&&◌, ◌||◌, Option, none, some, List, [],
  ◌∷◌, ◌++◌, length, set, ltb, leb, ◌==◌, if◌then◌else◌, nat_eq, bytes_key,
}
use sspanel_ssr_rust_backend.Base.Table
use sspanel_ssr_rust_backend.Base.Table.{Table}

-- `UserCounters`, and `CounterSnapshot`, which has the same two numbers.
pub record Counters : Type 0 where
  pub upload : ℕ
  pub download : ℕ

abbrev pub no_counters : Counters
no_counters = record { upload = 0; download = 0 }

-- `Arc<UserCounters>` is an index into `cells`: a connection keeps its counter after the ledger has
-- dropped the user, and a new row of that user gets a new counter.
pub record TrafficLedger : Type 0 where
  pub cells : List Counters
  pub counters : Table ℕ ℕ
  pub checkpoints : Table ℕ Counters

pub record TrafficDelta : Type 0 where
  pub user_id : ℕ
  pub upload : ℕ
  pub download : ℕ
  pub checkpoint : Counters

-- `snapshot` of the counter behind a reference.
unfoldable pub snapshot : List Counters → ℕ → Counters
snapshot [] ref = no_counters
snapshot (c ∷ cs) zero = c
snapshot (c ∷ cs) (suc ref) = snapshot cs ref

-- `fetch_add` wraps at 2 ^ 64.
abbrev pub fetch_add : ℕ → ℕ → ℕ
fetch_add a b = (a + b) % 2 ^ 64

unfoldable pub record_upload : TrafficLedger → ℕ → ℕ → TrafficLedger
record_upload s ref bytes =
    let c = snapshot s.cells ref in
    record s { cells = set s.cells ref (record c { upload = fetch_add c.upload bytes }) }

unfoldable pub record_download : TrafficLedger → ℕ → ℕ → TrafficLedger
record_download s ref bytes =
    let c = snapshot s.cells ref in
    record s { cells = set s.cells ref (record c { download = fetch_add c.download bytes }) }

-- `self.checkpoints.entry(user_id).or_default()`
abbrev pub or_default : Table ℕ Counters → ℕ → Table ℕ Counters
or_default m user_id = if Table.contains user_id m then m else Table.insert user_id no_counters m

unfoldable pub ensure_user : TrafficLedger → ℕ → TrafficLedger × ℕ
ensure_user s user_id = elim (Table.get user_id s.counters) [
  | some ref ↦ (s, ref)
  | none ↦
      let ref = length s.cells in
      (
        record s {
          cells = s.cells ++ (no_counters ∷ []);
          counters = Table.insert user_id ref s.counters;
          checkpoints = or_default s.checkpoints user_id;
        },
        ref,
      )
]

unfoldable pub mem : ℕ → List ℕ → Bool
mem a [] = false
mem a (x ∷ xs) = x == a || mem a xs

unfoldable pub remove_stale_users : TrafficLedger → List ℕ → TrafficLedger
unfolding mem
remove_stale_users s live_user_ids = record s {
  counters = Table.retain (λ user_id _. mem user_id live_user_ids) s.counters;
  checkpoints = Table.retain (λ user_id _. mem user_id live_user_ids) s.checkpoints;
}

-- `state.checkpoints.get(user_id).copied().unwrap_or_default()`
unfoldable pub checkpoint_of : TrafficLedger → ℕ → Counters
checkpoint_of s user_id = elim (Table.get user_id s.checkpoints) [ none ↦ no_counters | some c ↦ c ]

-- The body of the loop of `pending_deltas`, for one user.
unfoldable pub delta_of : TrafficLedger → ℕ → ℕ → TrafficDelta
delta_of s user_id ref =
    let current = snapshot s.cells ref in
    let checkpoint = checkpoint_of s user_id in
    record {
      user_id = user_id;
      upload = current.upload - checkpoint.upload;
      download = current.download - checkpoint.download;
      checkpoint = current;
    }

unfoldable pub deltas_from : TrafficLedger → Table ℕ ℕ → List TrafficDelta
deltas_from s [] = []
deltas_from s ((user_id, ref) ∷ m) =
    let delta = delta_of s user_id ref in
    let rest = deltas_from s m in
    if ltb 0 delta.upload || ltb 0 delta.download then delta ∷ rest else rest

unfoldable pub pending_deltas : TrafficLedger → List TrafficDelta
unfolding deltas_from
pending_deltas s = deltas_from s s.counters

unfoldable pub mark_one : TrafficLedger → TrafficDelta → TrafficLedger
mark_one s delta = record s {
  checkpoints =
      if Table.contains delta.user_id s.counters
      then Table.insert delta.user_id delta.checkpoint s.checkpoints
      else s.checkpoints;
}

unfoldable pub mark_reported : TrafficLedger → List TrafficDelta → TrafficLedger
unfolding mark_one
mark_reported s [] = s
mark_reported s (delta ∷ deltas) = mark_reported (mark_one s delta) deltas

-- `UserIpSet`: the connections from each client IP.
abbrev pub UserIpSet : Type 0
UserIpSet = Table (List ℕ) ℕ

-- `ConnGuard::acquire`; `none` is a refusal.
unfoldable pub acquire : UserIpSet → List ℕ → ℕ → Option UserIpSet
acquire ips ip limit = elim (Table.get ip ips) [
  | some count ↦ some (Table.insert ip (count + 1) ips)
  | none ↦ if ltb 0 limit && leb limit (length ips) then none else some (Table.insert ip 1 ips)
]

-- `Drop for ConnGuard`
unfoldable pub release : UserIpSet → List ℕ → UserIpSet
release ips ip = elim (Table.get ip ips) [
  | none ↦ ips
  | some count ↦
      if count - 1 == 0
      then Table.remove ip (Table.insert ip (count - 1) ips)
      else Table.insert ip (count - 1) ips
]
