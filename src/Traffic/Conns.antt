-- ===== src/Traffic/Conns.antt =====
-- src/traffic.rs: `ConnLedger`, the live IP set of each user.
use sspanel_ssr_rust_backend.Base.{ℕ, none, some, List, [], ◌∷◌, ◌++◌, length, nat_eq}
use sspanel_ssr_rust_backend.Base.Table
use sspanel_ssr_rust_backend.Base.Table.{Table}
use sspanel_ssr_rust_backend.Traffic.{UserIpSet, mem}

-- `Arc<UserIpSet>` is an index into `sets`, which outlives the ledger's entry.
pub record ConnLedger : Type 0 where
  pub sets : List UserIpSet
  pub state : Table ℕ ℕ

unfoldable pub ensure_user : ConnLedger → ℕ → ConnLedger × ℕ
ensure_user s user_id = elim (Table.get user_id s.state) [
  | some ref ↦ (s, ref)
  | none ↦
      let ref = length s.sets in
      (record { sets = s.sets ++ ([] ∷ []); state = Table.insert user_id ref s.state }, ref)
]

unfoldable pub remove_stale_users : ConnLedger → List ℕ → ConnLedger
unfolding mem
remove_stale_users s live_user_ids = record s {
  state = Table.retain (λ user_id _. mem user_id live_user_ids) s.state;
}
