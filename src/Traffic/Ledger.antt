-- ===== src/Traffic/Ledger.antt =====
-- src/traffic.rs: bytes counted on the counters of a ledger.
use sspanel_ssr_rust_backend.Base.{
  ℕ, zero, suc, ◌+◌, ◌-◌, ◌^◌, ◌<◌, ◌≡◌, refl, ◌∙◌, List, [], ◌∷◌, arith, length, length-set, set,
  ◌==◌, if◌then◌else◌, nat_eq,
}
use sspanel_ssr_rust_backend.Traffic.{
  Counters, TrafficLedger, TrafficDelta, snapshot, record_upload, record_download, checkpoint_of,
  fetch_add,
}

pub data Way : Type 0 where
  up down : Way

abbrev pub total : Way → Counters → ℕ
total up c = c.upload
total down c = c.download

abbrev pub amount : Way → TrafficDelta → ℕ
amount up d = d.upload
amount down d = d.download

-- Bytes that a connection counts on its counter.
pub data Traffic : Type 0 where
  uploaded : ℕ → ℕ → Traffic
  downloaded : ℕ → ℕ → Traffic

unfoldable pub count_one : TrafficLedger → Traffic → TrafficLedger
count_one s (uploaded ref bytes) = record_upload s ref bytes
count_one s (downloaded ref bytes) = record_download s ref bytes

unfoldable pub count_all : TrafficLedger → List Traffic → TrafficLedger
unfolding count_one
count_all s [] = s
count_all s (t ∷ ts) = count_all (count_one s t) ts

unfoldable pub counted_one : Way → ℕ → Traffic → ℕ
counted_one up ref (uploaded r bytes) = if r == ref then bytes else 0
counted_one down ref (downloaded r bytes) = if r == ref then bytes else 0
counted_one _ ref _ = 0

-- The bytes counted on one counter in one direction.
unfoldable pub counted : Way → ℕ → List Traffic → ℕ
unfolding counted_one
counted way ref [] = 0
counted way ref (t ∷ ts) = counted_one way ref t + counted way ref ts

-- What a report says of one user in one direction.
unfoldable pub reported : Way → ℕ → List TrafficDelta → ℕ
reported way user_id [] = 0
reported way user_id (d ∷ ds) =
    (if d.user_id == user_id then amount way d else 0) + reported way user_id ds

-- What is counted and not yet behind the checkpoint.
unfoldable pub pending : Way → TrafficLedger → ℕ → ℕ → ℕ
pending way s user_id ref = total way (snapshot s.cells ref) - total way (checkpoint_of s user_id)

snapshot-set :
    (cells : List Counters) (i ref : ℕ) (c : Counters)
    → ref < length cells
    → snapshot (set cells i c) ref ≡ (if i == ref then c else snapshot cells ref)
unfolding snapshot
snapshot-set [] i ref c h = absurd (omega arith)
snapshot-set (x ∷ xs) zero zero c h = refl
snapshot-set (x ∷ xs) zero (suc ref) c h = ground arith
snapshot-set (x ∷ xs) (suc i) zero c h = ground arith
snapshot-set (x ∷ xs) (suc i) (suc ref) c h = ground (arith, snapshot-set xs i ref c)

pub count_one_keeps :
    (s : TrafficLedger) (t : Traffic)
    → ((count_one s t).counters ≡ s.counters)
      × ((count_one s t).checkpoints ≡ s.checkpoints)
      × (length (count_one s t).cells ≡ length s.cells)
unfolding count_one record_upload record_download
count_one_keeps s (uploaded r n) = (refl, refl, length-set s.cells r _)
count_one_keeps s (downloaded r n) = (refl, refl, length-set s.cells r _)

pub count_all_keeps :
    (s : TrafficLedger) (ts : List Traffic)
    → ((count_all s ts).counters ≡ s.counters)
      × ((count_all s ts).checkpoints ≡ s.checkpoints)
      × (length (count_all s ts).cells ≡ length s.cells)
unfolding count_all
count_all_keeps s [] = (refl, refl, refl)
count_all_keeps s (t ∷ ts) =
    let (a, b, d) = count_all_keeps (count_one s t) ts in
    let (a', b', d') = count_one_keeps s t in (a ∙ a', b ∙ b', d ∙ d')

total-count_one :
    (way : Way) (s : TrafficLedger) (t : Traffic) (ref : ℕ)
    → ref < length s.cells
    → total way (snapshot s.cells ref) + counted_one way ref t < 2 ^ 64
    → total way (snapshot (count_one s t).cells ref)
      ≡ total way (snapshot s.cells ref) + counted_one way ref t
unfolding count_one record_upload record_download counted_one
total-count_one up s (uploaded r n) ref h k =
    let c = snapshot s.cells r in
    ground (arith, snapshot-set s.cells r ref (record c { upload = fetch_add c.upload n }) h)
total-count_one up s (downloaded r n) ref h k =
    let c = snapshot s.cells r in
    ground (arith, snapshot-set s.cells r ref (record c { download = fetch_add c.download n }) h)
total-count_one down s (uploaded r n) ref h k =
    let c = snapshot s.cells r in
    ground (arith, snapshot-set s.cells r ref (record c { upload = fetch_add c.upload n }) h)
total-count_one down s (downloaded r n) ref h k =
    let c = snapshot s.cells r in
    ground (arith, snapshot-set s.cells r ref (record c { download = fetch_add c.download n }) h)

-- Without an overflow of the counter, it grows by what is counted on it.
pub total-count_all :
    (way : Way) (s : TrafficLedger) (ts : List Traffic) (ref : ℕ)
    → ref < length s.cells
    → total way (snapshot s.cells ref) + counted way ref ts < 2 ^ 64
    → total way (snapshot (count_all s ts).cells ref)
      ≡ total way (snapshot s.cells ref) + counted way ref ts
unfolding count_all counted
total-count_all way s [] ref h k = omega arith
total-count_all way s (t ∷ ts) ref h k =
    let one = total-count_one way s t ref h (omega arith) in
    let kept = (count_one_keeps s t).2 in
    omega (arith, one, kept, total-count_all way (count_one s t) ts ref (omega arith) (omega arith))
