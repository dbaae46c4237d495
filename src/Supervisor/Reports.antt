-- ===== src/Supervisor/Reports.antt =====
-- src/runtime/supervisor.rs: rounds of `report_traffic`, some of which the panel refuses.
use sspanel_ssr_rust_backend.Base.{
  ℕ, ◌+◌, ◌^◌, ◌≤◌, ◌<◌, ◌≡◌, refl, sym, ◌∙◌, ap, Bool, true, false, some, List, [], ◌∷◌, arith,
  length, if◌then◌else◌, nat_eq, Result, Error, ok, err,
}
use mathlib.Core.Path.{subst}
use sspanel_ssr_rust_backend.Base.Table
use sspanel_ssr_rust_backend.Base.Table.{Table, IsMap}
use sspanel_ssr_rust_backend.Text.{is_empty}
use sspanel_ssr_rust_backend.Traffic.{
  TrafficLedger, TrafficDelta, snapshot, checkpoint_of, pending_deltas, mark_reported,
}
use sspanel_ssr_rust_backend.Traffic.Ledger.{
  Way, total, Traffic, count_all, counted, reported, pending, count_all_keeps, total-count_all,
}
use sspanel_ssr_rust_backend.Traffic.Reports.{report_lem, cells-mark_reported, checkpoint_lem}
use sspanel_ssr_rust_backend.Panel.{report}
use sspanel_ssr_rust_backend.Supervisor.{report_traffic}

-- One round: the traffic since the last report, and whether the panel takes the report.
pub record Round : Type 0 where
  pub traffic : List Traffic
  pub accepted : Bool

unfoldable pub answer : Bool → List TrafficDelta → Result (Unit {0})
answer true deltas = ok tt
answer false deltas = err Error.external

unfoldable pub run : TrafficLedger → List Round → TrafficLedger
run s [] = s
run s (r ∷ rs) = run (report_traffic (count_all s r.traffic) (answer r.accepted)).0 rs

-- What the panel has taken for a user over the rounds.
unfoldable pub taken : Way → ℕ → TrafficLedger → List Round → ℕ
taken way user_id s [] = 0
taken way user_id s (r ∷ rs) =
    let s1 = count_all s r.traffic in
    (if r.accepted then reported way user_id (pending_deltas s1) else 0)
    + taken way user_id (report_traffic s1 (answer r.accepted)).0 rs

unfoldable pub counted_rounds : Way → ℕ → List Round → ℕ
counted_rounds way ref [] = 0
counted_rounds way ref (r ∷ rs) = counted way ref r.traffic + counted_rounds way ref rs

-- The user is in the ledger, once, with the counter `ref`, and its checkpoint is not ahead.
pub record IsTracked (way : Way) (s : TrafficLedger) (user_id ref : ℕ) : Type 0 where
  pub distinct : IsMap s.counters
  pub row : Table.get user_id s.counters ≡ some ref
  pub inside : ref < length s.cells
  pub behind : total way (checkpoint_of s user_id) ≤ total way (snapshot s.cells ref)

outcome :
    (s : TrafficLedger) (accepted : Bool) (deltas : List TrafficDelta)
    → let after : TrafficLedger × Result (Unit {0}) =
        if is_empty deltas then (s, ok tt) else elim (report (answer accepted) deltas) [
          | err e ↦ (s, err e)
          | ok _ ↦ (mark_reported s deltas, ok tt)
        ] in
      after.0 ≡ (if accepted then mark_reported s deltas else s)
unfolding report answer is_empty mark_reported
outcome s true [] = refl
outcome s false [] = refl
outcome s true (d ∷ ds) = refl
outcome s false (d ∷ ds) = refl

-- A refused report changes nothing, and a taken one advances the checkpoints.
report_traffic_outcome :
    (s : TrafficLedger) (accepted : Bool)
    → (report_traffic s (answer accepted)).0
      ≡ (if accepted then mark_reported s (pending_deltas s) else s)
unfolding report_traffic
report_traffic_outcome s accepted = outcome s accepted (pending_deltas s)

module _ (way : Way) (user_id ref : ℕ) where
  IsTracked-count_all :
      (s : TrafficLedger) (ts : List Traffic)
      → IsTracked way s user_id ref
      → total way (snapshot s.cells ref) + counted way ref ts < 2 ^ 64
      → IsTracked way (count_all s ts) user_id ref
  IsTracked-count_all s ts h small =
      let (rows, marks, size) = count_all_keeps s ts in
      let grown = total-count_all way s ts ref h.inside small in
      let same = ap (total way) (checkpoint_lem s (count_all s ts) user_id marks) in
      record {
        distinct = subst IsMap (sym rows) h.distinct;
        row = ap (Table.get user_id) rows ∙ h.row;
        inside = omega (arith, size, h.inside);
        behind = omega (arith, grown, same, h.behind);
      }

  IsTracked-mark_reported :
      (s : TrafficLedger)
      → IsTracked way s user_id ref
      → IsTracked way (mark_reported s (pending_deltas s)) user_id ref
  IsTracked-mark_reported s h =
      let (cells, rows) = cells-mark_reported s (pending_deltas s) in
      let (_, _, marked) = report_lem way s user_id ref h.distinct h.row h.behind in
      let same = ap (λ cs. total way (snapshot cs ref)) cells in
      record {
        distinct = subst IsMap (sym rows) h.distinct;
        row = ap (Table.get user_id) rows ∙ h.row;
        inside = omega (arith, ap length cells, h.inside);
        behind = omega (arith, marked, same);
      }

  pending-count_all :
      (s : TrafficLedger) (ts : List Traffic)
      → IsTracked way s user_id ref
      → total way (snapshot s.cells ref) + counted way ref ts < 2 ^ 64
      → pending way (count_all s ts) user_id ref ≡ pending way s user_id ref + counted way ref ts
  pending-count_all s ts h small =
      let (rows, marks, size) = count_all_keeps s ts in
      let grown = total-count_all way s ts ref h.inside small in
      let same = ap (total way) (checkpoint_lem s (count_all s ts) user_id marks) in
      unfold pending in omega (arith, grown, same, h.behind)

  -- One round: the user stays tracked, the counter grows, and what is taken is no longer pending.
  round :
      (s : TrafficLedger) (ts : List Traffic) (accepted : Bool)
      → IsTracked way s user_id ref
      → total way (snapshot s.cells ref) + counted way ref ts < 2 ^ 64
      → let s1 = count_all s ts in
        let after = (report_traffic s1 (answer accepted)).0 in
        IsTracked way after user_id ref
        × (total way (snapshot after.cells ref)
            ≡ total way (snapshot s.cells ref) + counted way ref ts)
        × ((if accepted then reported way user_id (pending_deltas s1) else 0)
              + pending way after user_id ref
            ≡ pending way s user_id ref + counted way ref ts)
  round s ts true h small =
      let s1 = count_all s ts in
      let h1 = IsTracked-count_all s ts h small in
      let grown = total-count_all way s ts ref h.inside small in
      let more = pending-count_all s ts h small in
      let (none_left, said, _) = report_lem way s1 user_id ref h1.distinct h1.row h1.behind in
      let same =
        ap (λ cs. total way (snapshot cs ref)) (cells-mark_reported s1 (pending_deltas s1)).0 in
      rw (report_traffic_outcome s1 true) (
        IsTracked-mark_reported s1 h1,
        omega (arith, same, grown),
        omega (arith, none_left, said, more),
      )
  round s ts false h small = rw (report_traffic_outcome (count_all s ts) false) (
    IsTracked-count_all s ts h small,
    total-count_all way s ts ref h.inside small,
    omega (arith, pending-count_all s ts h small),
  )

  -- Over any rounds, taken and refused in any order, what the panel has taken for the user together
  -- with what is still pending is what was pending at the start together with what was counted: in
  -- each direction every byte is reported once, and a refused report is made up for by the next
  -- one. The conditions: the ledger tracks the user, and the counter does not reach 2 ^ 64.
  pub taken-run :
      (s : TrafficLedger) (rounds : List Round)
      → IsTracked way s user_id ref
      → total way (snapshot s.cells ref) + counted_rounds way ref rounds < 2 ^ 64
      → taken way user_id s rounds + pending way (run s rounds) user_id ref
        ≡ pending way s user_id ref + counted_rounds way ref rounds
  unfolding taken run counted_rounds
  taken-run s [] h small = omega arith
  taken-run s (r ∷ rs) h small =
      let s1 = count_all s r.traffic in
      let after = (report_traffic s1 (answer r.accepted)).0 in
      let step = round s r.traffic r.accepted h (omega arith) in
      omega (arith, step, taken-run after rs step.0 (omega (arith, step)))
