-- ===== src/Traffic/Reports.antt =====
-- src/traffic.rs: reports against checkpoints, and what they leave pending.
use sspanel_ssr_rust_backend.Base.{
  ℕ, ◌+◌, ◌^◌, ◌≤◌, ◌<◌, ◌≡◌, refl, sym, ◌∙◌, ap, true, false, ◌&&◌, ◌||◌, some, List, [], ◌∷◌,
  arith, length, ltb, ◌==◌, if◌then◌else◌, nat_eq, Bool-cases, inl, inr, ◌⊎◌,
}
use mathlib.Core.Path.{subst}
use sspanel_ssr_rust_backend.Base.Table
use sspanel_ssr_rust_backend.Base.Table.{Table, IsMap}
use sspanel_ssr_rust_backend.Traffic.{
  TrafficLedger, TrafficDelta, snapshot, checkpoint_of, delta_of, deltas_from, pending_deltas,
  mark_one, mark_reported,
}
use sspanel_ssr_rust_backend.Traffic.Ledger.{
  Way, up, down, total, amount, Traffic, count_all, counted, reported, pending, count_all_keeps,
  total-count_all,
}

-- The list of deltas with a user in front, by whether anything is pending.
deltas_from_cases :
    (s : TrafficLedger) (m : Table ℕ ℕ) (j r : ℕ)
    → ((deltas_from s ((j, r) ∷ m) ≡ delta_of s j r ∷ deltas_from s m))
      ⊎ ((deltas_from s ((j, r) ∷ m) ≡ deltas_from s m)
          × (pending up s j r ≡ 0)
          × (pending down s j r ≡ 0))
deltas_from_cases s m j r =
    elim (Bool-cases (ltb 0 (delta_of s j r).upload || ltb 0 (delta_of s j r).download)) [
      | inl some' ↦ inl (unfold deltas_from in rw some')
      | inr none' ↦ inr (
        unfold deltas_from in rw none',
        unfold pending delta_of in ground arith,
        unfold pending delta_of in ground arith,
      )
    ]

amount-delta_of :
    (way : Way) (s : TrafficLedger) (j r : ℕ) → amount way (delta_of s j r) ≡ pending way s j r
unfolding delta_of pending
amount-delta_of up s j r = refl
amount-delta_of down s j r = refl

delta_of_user :
    (s : TrafficLedger) (j r : ℕ)
    → ((delta_of s j r).user_id ≡ j) × ((delta_of s j r).checkpoint ≡ snapshot s.cells r)
unfolding delta_of
delta_of_user s j r = (refl, refl)

pending_none :
    (way : Way) (s : TrafficLedger) (j r : ℕ)
    → pending up s j r ≡ 0
    → pending down s j r ≡ 0
    → pending way s j r ≡ 0
pending_none up s j r h k = h
pending_none down s j r h k = k

-- A skipped counter is at or behind its checkpoint.
pending_order :
    (way : Way) (s : TrafficLedger) (j r : ℕ)
    → pending up s j r ≡ 0
    → pending down s j r ≡ 0
    → total way (snapshot s.cells r) ≤ total way (checkpoint_of s j)
unfolding pending
pending_order up s j r h k = omega arith
pending_order down s j r h k = omega arith

get_cons_cases :
    (j r : ℕ) (m : Table ℕ ℕ) (user_id ref : ℕ)
    → Table.get user_id ((j, r) ∷ m) ≡ some ref
    → ((j ≡ user_id) × (r ≡ ref)) ⊎ (((j == user_id) ≡ false) × (Table.get user_id m ≡ some ref))
unfolding Table.get
get_cons_cases j r m user_id ref h = ground arith

module _ (way : Way) (s : TrafficLedger) where
  reported_absent :
      (m : Table ℕ ℕ) (user_id : ℕ)
      → Table.contains user_id m ≡ false
      → reported way user_id (deltas_from s m) ≡ 0
  unfolding Table.contains reported deltas_from delta_of
  reported_absent [] user_id h = refl
  reported_absent ((j, r) ∷ m) user_id h = ground (arith, reported_absent m user_id)

  reported_cons :
      (j r : ℕ) (m : Table ℕ ℕ) (user_id : ℕ)
      → reported way user_id (deltas_from s ((j, r) ∷ m))
        ≡ (if j == user_id then pending way s j r else 0) + reported way user_id (deltas_from s m)
  reported_cons j r m user_id = elim (deltas_from_cases s m j r) [
    | inl kept ↦
        rw kept (unfold reported in ground (arith, delta_of_user s j r, amount-delta_of way s j r))
    | inr (skipped, no_up, no_down) ↦
        rw skipped (ground (arith, pending_none way s j r no_up no_down))
  ]

  reported_present :
      (m : Table ℕ ℕ) (user_id ref : ℕ)
      → IsMap m
      → Table.get user_id m ≡ some ref
      → reported way user_id (deltas_from s m) ≡ pending way s user_id ref
  unfolding Table.get
  reported_present [] user_id ref d h = cc
  reported_present ((j, r) ∷ m) user_id ref d h = ground (
    arith,
    reported_cons j r m user_id,
    reported_absent m user_id,
    reported_present m user_id ref d.1,
    Table.contains-some user_id ref m,
  )

checkpoint-mark_one :
    (s : TrafficLedger) (d : TrafficDelta) (user_id : ℕ)
    → checkpoint_of (mark_one s d) user_id ≡ (
        if Table.contains d.user_id s.counters && d.user_id == user_id
        then d.checkpoint
        else checkpoint_of s user_id)
unfolding checkpoint_of mark_one
checkpoint-mark_one s d user_id =
    ground (arith, Table.get-insert d.user_id user_id d.checkpoint s.checkpoints)

-- A report with a user in front, by whether the user is in the report.
mark_reported_cases :
    (s s' : TrafficLedger) (m : Table ℕ ℕ) (j r : ℕ)
    → (mark_reported s' (deltas_from s ((j, r) ∷ m))
        ≡ mark_reported (mark_one s' (delta_of s j r)) (deltas_from s m))
      ⊎ ((mark_reported s' (deltas_from s ((j, r) ∷ m)) ≡ mark_reported s' (deltas_from s m))
          × (pending up s j r ≡ 0)
          × (pending down s j r ≡ 0))
mark_reported_cases s s' m j r = elim (deltas_from_cases s m j r) [
  | inl kept ↦ inl (rw kept (unfold mark_reported in refl))
  | inr (skipped, no_up, no_down) ↦ inr (rw skipped refl, no_up, no_down)
]

mark_one_counters : (s : TrafficLedger) (d : TrafficDelta) → (mark_one s d).counters ≡ s.counters
unfolding mark_one
mark_one_counters s d = refl

module _ (s : TrafficLedger) where
  mark_reported_absent :
      (s' : TrafficLedger) (m : Table ℕ ℕ) (user_id : ℕ)
      → Table.contains user_id m ≡ false
      → checkpoint_of (mark_reported s' (deltas_from s m)) user_id ≡ checkpoint_of s' user_id
  unfolding Table.contains
  mark_reported_absent s' [] user_id h = unfold deltas_from mark_reported in refl
  mark_reported_absent s' ((j, r) ∷ m) user_id h = elim (mark_reported_cases s s' m j r) [
    | inl kept ↦ ground (
      arith,
      kept,
      checkpoint-mark_one s' (delta_of s j r) user_id,
      delta_of_user s j r,
      mark_reported_absent (mark_one s' (delta_of s j r)) m user_id,
    )
    | inr (skipped, _, _) ↦ ground (arith, skipped, mark_reported_absent s' m user_id)
  ]

  mark_reported_first :
      (way : Way) (s' : TrafficLedger) (m : Table ℕ ℕ) (user_id ref : ℕ)
      → Table.contains user_id m ≡ false
      → Table.contains user_id s'.counters ≡ true
      → checkpoint_of s' user_id ≡ checkpoint_of s user_id
      → total way (checkpoint_of s user_id) ≤ total way (snapshot s.cells ref)
      → total way (checkpoint_of (mark_reported s' (deltas_from s ((user_id, ref) ∷ m))) user_id)
        ≡ total way (snapshot s.cells ref)
  mark_reported_first way s' m user_id ref fresh c same le =
      elim (mark_reported_cases s s' m user_id ref) [
        | inl kept ↦
            ap (λ o. total way (checkpoint_of o user_id)) kept
            ∙ ap (total way)
                (mark_reported_absent (mark_one s' (delta_of s user_id ref)) m user_id fresh)
            ∙ ap (total way) (
                ground (
                  arith,
                  checkpoint-mark_one s' (delta_of s user_id ref) user_id,
                  delta_of_user s user_id ref,
                ))
        | inr (skipped, no_up, no_down) ↦
            ap (λ o. total way (checkpoint_of o user_id)) skipped
            ∙ ap (total way) (mark_reported_absent s' m user_id fresh ∙ same)
            ∙ omega (arith, pending_order way s user_id ref no_up no_down, le)
      ]

  -- After a report the checkpoint of a user in it is the snapshot that the report was made from.
  mark_reported_present :
      (way : Way) (s' : TrafficLedger) (m : Table ℕ ℕ) (user_id ref : ℕ)
      → IsMap m
      → Table.get user_id m ≡ some ref
      → Table.contains user_id s'.counters ≡ true
      → checkpoint_of s' user_id ≡ checkpoint_of s user_id
      → total way (checkpoint_of s user_id) ≤ total way (snapshot s.cells ref)
      → total way (checkpoint_of (mark_reported s' (deltas_from s m)) user_id)
        ≡ total way (snapshot s.cells ref)
  mark_reported_present way s' [] user_id ref d h c same le = unfold Table.get in cc
  mark_reported_present way s' ((j, r) ∷ m) user_id ref d h c same le =
      elim (get_cons_cases j r m user_id ref h) [
        | inl (at, is) ↦
            subst
              (λ i.
                total way (checkpoint_of (mark_reported s' (deltas_from s ((i, r) ∷ m))) user_id)
                ≡ total way (snapshot s.cells ref))
              (sym at)
              (subst
                (λ i.
                  total way
                    (checkpoint_of (mark_reported s' (deltas_from s ((user_id, i) ∷ m))) user_id)
                  ≡ total way (snapshot s.cells ref))
                (sym is)
                (mark_reported_first way s' m user_id ref
                  (subst (λ i. Table.contains i m ≡ false) at d.0) c same le))
        | inr (other, later) ↦ elim (mark_reported_cases s s' m j r) [
          | inl kept ↦
              ap (λ o. total way (checkpoint_of o user_id)) kept
              ∙ mark_reported_present way (mark_one s' (delta_of s j r)) m user_id ref d.1 later
                  (ap (Table.contains user_id) (mark_one_counters s' (delta_of s j r)) ∙ c)
                  (ground
                    (arith, checkpoint-mark_one s' (delta_of s j r) user_id, delta_of_user s j r))
                  le
          | inr (skipped, _, _) ↦
              ap (λ o. total way (checkpoint_of o user_id)) skipped
              ∙ mark_reported_present way s' m user_id ref d.1 later c same le
        ]
      ]

pub cells-mark_reported :
    (s : TrafficLedger) (ds : List TrafficDelta)
    → ((mark_reported s ds).cells ≡ s.cells) × ((mark_reported s ds).counters ≡ s.counters)
unfolding mark_reported mark_one
cells-mark_reported s [] = (refl, refl)
cells-mark_reported s (d ∷ ds) = cells-mark_reported (mark_one s d) ds

pub checkpoint_lem :
    (s s' : TrafficLedger) (user_id : ℕ)
    → s'.checkpoints ≡ s.checkpoints
    → checkpoint_of s' user_id ≡ checkpoint_of s user_id
unfolding checkpoint_of
checkpoint_lem s s' user_id h = rw h refl

-- A report says of a user in the ledger what is pending, and leaves nothing pending.
pub report_lem :
    (way : Way) (s : TrafficLedger) (user_id ref : ℕ)
    → IsMap s.counters
    → Table.get user_id s.counters ≡ some ref
    → total way (checkpoint_of s user_id) ≤ total way (snapshot s.cells ref)
    → (pending way (mark_reported s (pending_deltas s)) user_id ref ≡ 0)
      × (reported way user_id (pending_deltas s) ≡ pending way s user_id ref)
      × (total way (checkpoint_of (mark_reported s (pending_deltas s)) user_id)
          ≡ total way (snapshot s.cells ref))
unfolding pending_deltas
report_lem way s user_id ref distinct has le =
    let marked =
      mark_reported_present s way s s.counters user_id ref distinct has
        (Table.contains-some user_id ref s.counters has) refl le in
    let kept =
      ap (λ cells. total way (snapshot cells ref))
        (cells-mark_reported s (deltas_from s s.counters)).0 in
    (
      unfold pending in omega (arith, marked, kept),
      reported_present way s s.counters user_id ref distinct has,
      marked,
    )

-- Bytes are counted, then a report is made and marked. In each direction the report says of the
-- user exactly what was pending before together with what was counted since, and nothing is
-- pending after it: no byte is lost and none is reported twice. The conditions: the user is in the
-- ledger, once, with the counter `ref`, the checkpoint is not ahead of the counter, and the counter
-- does not reach 2 ^ 64.
pub mark_reported-pending_deltas :
    (way : Way) (s : TrafficLedger) (traffic : List Traffic) (user_id ref : ℕ)
    → IsMap s.counters
    → Table.get user_id s.counters ≡ some ref
    → ref < length s.cells
    → total way (checkpoint_of s user_id) ≤ total way (snapshot s.cells ref)
    → total way (snapshot s.cells ref) + counted way ref traffic < 2 ^ 64
    → let s1 = count_all s traffic in
      let deltas = pending_deltas s1 in
      (pending way (mark_reported s1 deltas) user_id ref ≡ 0)
      × (reported way user_id deltas ≡ pending way s user_id ref + counted way ref traffic)
mark_reported-pending_deltas way s traffic user_id ref distinct has inside le small =
    let (rows, marks, _) = count_all_keeps s traffic in
    let grown = total-count_all way s traffic ref inside small in
    let same = ap (total way) (checkpoint_lem s (count_all s traffic) user_id marks) in
    let (after, said, _) =
      report_lem way (count_all s traffic) user_id ref (subst IsMap (sym rows) distinct)
        (ap (Table.get user_id) rows ∙ has) (omega (arith, grown, same, le)) in
    (after, said ∙ (unfold pending in omega (arith, grown, same, le)))
