-- ===== src/Traffic/Guards.antt =====
-- src/traffic.rs: the guards that hold an IP, and the set of IPs in any sequence of connections.
use sspanel_ssr_rust_backend.Base.{
  ℕ, zero, suc, ◌+◌, ◌-◌, ◌≤◌, ◌<◌, ◌≡◌, refl, ◌∙◌, true, Option, none, some, List, [], ◌∷◌, arith,
  length, ltb, ◌==◌, if◌then◌else◌, bytes_key, bytes_eq, bytes_eq_iff, Option-cases, inl, inr,
  Bool-cases, ltb→lt, beq_self, ◌↔◌, ◌⊎◌, dec_lt,
}
use sspanel_ssr_rust_backend.Base.Table
use sspanel_ssr_rust_backend.Base.Table.{Table, IsMap}
use sspanel_ssr_rust_backend.Traffic.{UserIpSet, acquire, release}

-- The guards alive, as the IPs that they hold.
unfoldable pub live_from : List ℕ → List (List ℕ) → ℕ
live_from ip [] = 0
live_from ip (g ∷ gs) = if bytes_eq g ip then suc (live_from ip gs) else live_from ip gs

-- A guard is dropped: one occurrence of its IP goes.
unfoldable pub drop_guard : List ℕ → List (List ℕ) → List (List ℕ)
drop_guard ip [] = []
drop_guard ip (g ∷ gs) = if bytes_eq g ip then gs else g ∷ drop_guard ip gs

pub data Event : Type 0 where
  connect : List ℕ → Event
  disconnect : List ℕ → Event

pub record Tracker : Type 0 where
  pub ips : UserIpSet
  pub guards : List (List ℕ)

-- A connection tries for a guard; a guard that exists is dropped. There is no other access.
unfoldable pub step : ℕ → Tracker → Event → Tracker
step limit t (connect ip) = elim (acquire t.ips ip limit) [
  | none ↦ t
  | some ips ↦ record { ips = ips; guards = ip ∷ t.guards }
]
step limit t (disconnect ip) =
    if ltb 0 (live_from ip t.guards)
    then record { ips = release t.ips ip; guards = drop_guard ip t.guards }
    else t

unfoldable pub run : ℕ → Tracker → List Event → Tracker
run limit t [] = t
run limit t (e ∷ es) = run limit (step limit t e) es

abbrev pub refcount : ℕ → Option ℕ
refcount zero = none
refcount (suc n) = some (suc n)

-- The set holds exactly the IPs of the guards alive, each with their number.
pub record Agrees (limit : ℕ) (t : Tracker) : Type 0 where
  pub distinct : IsMap t.ips
  pub counted : (ip : List ℕ) → Table.get ip t.ips ≡ refcount (live_from ip t.guards)
  pub capped : 0 < limit → length t.ips ≤ limit

live_from-drop_guard :
    (ip j : List ℕ) (gs : List (List ℕ))
    → 0 < live_from ip gs
    → live_from j (drop_guard ip gs) + (if bytes_eq ip j then 1 else 0) ≡ live_from j gs
unfolding live_from drop_guard
live_from-drop_guard ip j [] h = absurd (omega arith)
live_from-drop_guard ip j (g ∷ gs) h =
    ground
      (arith, bytes_eq_iff g ip, bytes_eq_iff g j, bytes_eq_iff ip j, live_from-drop_guard ip j gs)

acquire-Agrees :
    (limit : ℕ) (t : Tracker) (ip : List ℕ) (ips : UserIpSet)
    → Agrees limit t
    → acquire t.ips ip limit ≡ some ips
    → Agrees limit (record { ips = ips; guards = ip ∷ t.guards })
unfolding acquire
acquire-Agrees limit t ip ips h e = elim (Option-cases (Table.get ip t.ips)) [
  | inl new ↦
      let made : ips ≡ Table.insert ip 1 t.ips = ground arith in
      rw made (record {
        distinct = Table.insert-IsMap ip 1 t.ips h.distinct;
        counted = λ j.
            unfold live_from in
            ground
              (arith, Table.get-insert ip j 1 t.ips, h.counted j, h.counted ip, bytes_eq_iff ip j);
        capped = λ pos.
            ground (
              arith,
              h.capped pos,
              Table.length-insert ip 1 t.ips,
              Table.contains-get ip t.ips new,
            );
      })
  | inr (count, old) ↦
      let made : ips ≡ Table.insert ip (count + 1) t.ips = ground arith in
      rw made (record {
        distinct = Table.insert-IsMap ip (count + 1) t.ips h.distinct;
        counted = λ j.
            unfold live_from in
            ground (
              arith,
              Table.get-insert ip j (count + 1) t.ips,
              h.counted j,
              h.counted ip,
              bytes_eq_iff ip j,
            );
        capped = λ pos. ground (
          arith,
          h.capped pos,
          Table.length-insert ip (count + 1) t.ips,
          Table.contains-some ip count t.ips old,
        );
      })
]

release-Agrees :
    (limit : ℕ) (t : Tracker) (ip : List ℕ)
    → Agrees limit t
    → 0 < live_from ip t.guards
    → Agrees limit (record { ips = release t.ips ip; guards = drop_guard ip t.guards })
unfolding release
release-Agrees limit t ip h alive = elim (Option-cases (Table.get ip t.ips)) [
  | inl new ↦ absurd (ground (arith, h.counted ip))
  | inr (count, old) ↦
      let inserted = Table.insert ip (count - 1) t.ips in
      let d = Table.insert-IsMap ip (count - 1) t.ips h.distinct in
      let same : length inserted ≡ length t.ips =
        Table.length-insert ip (count - 1) t.ips ∙ rw (Table.contains-some ip count t.ips old) in
      let present : Table.contains ip inserted ≡ true =
        Table.contains-some ip (count - 1) inserted
          (Table.get-insert ip ip (count - 1) t.ips ∙ rw (beq_self ip)) in
      elim (Bool-cases (count - 1 == 0)) [
        | inl last ↦
            rw (old, last, release)
              (record {
                distinct = Table.remove-IsMap ip inserted d;
                counted = λ j. ground (
                  arith,
                  Table.get-remove ip j inserted d,
                  Table.get-insert ip j (count - 1) t.ips,
                  h.counted j,
                  h.counted ip,
                  bytes_eq_iff ip j,
                  live_from-drop_guard ip j t.guards alive,
                );
                capped = λ pos.
                    omega (arith, h.capped pos, Table.length-remove ip inserted present, same);
              })
        | inr more ↦
            rw (old, more, release)
              (record {
                distinct = d;
                counted = λ j. ground (
                  arith,
                  Table.get-insert ip j (count - 1) t.ips,
                  h.counted j,
                  h.counted ip,
                  bytes_eq_iff ip j,
                  live_from-drop_guard ip j t.guards alive,
                );
                capped = λ pos. omega (arith, h.capped pos, same);
              })
      ]
]

step-Agrees : (limit : ℕ) (t : Tracker) (e : Event) → Agrees limit t → Agrees limit (step limit t e)
step-Agrees limit t (connect ip) h = elim (Option-cases (acquire t.ips ip limit)) [
  | inl refused ↦ unfold step in rw (refused, step) h
  | inr (ips, granted) ↦ unfold step in rw (granted, step) (acquire-Agrees limit t ip ips h granted)
]
step-Agrees limit t (disconnect ip) h = elim (Bool-cases (ltb 0 (live_from ip t.guards))) [
  | inl alive ↦ unfold step in rw (alive, step) (release-Agrees limit t ip h (ltb→lt _ _ alive))
  | inr gone ↦ unfold step in rw (gone, step) h
]

run-Agrees :
    (limit : ℕ) (t : Tracker) (es : List Event) → Agrees limit t → Agrees limit (run limit t es)
unfolding run
run-Agrees limit t [] h = h
run-Agrees limit t (e ∷ es) h = run-Agrees limit (step limit t e) es (step-Agrees limit t e h)

abbrev pub idle : Tracker
idle = record { ips = []; guards = [] }

run-idle-Agrees : (limit : ℕ) (es : List Event) → Agrees limit (run limit idle es)
run-idle-Agrees limit es = run-Agrees limit idle es (record {
  distinct = tt;
  counted = λ ip. unfold Table.get live_from in refl;
  capped = λ pos. omega arith;
})

-- After any sequence of connections and disconnections under one limit: no IP stands in the set
-- twice; each IP stands in it with the number of its guards alive, and not at all when it has none;
-- and unless the limit is 0 there are at most that many distinct IPs.
pub run-idle_counted :
    (limit : ℕ) (es : List Event) (ip : List ℕ)
    → let t = run limit idle es in
      IsMap t.ips
      × (Table.get ip t.ips ≡ refcount (live_from ip t.guards))
      × ((limit ≡ 0) ⊎ (length t.ips ≤ limit))
run-idle_counted limit es ip =
    let h = run-idle-Agrees limit es in
    (
      h.distinct,
      h.counted ip,
      elim (dec_lt 0 limit) [
        | yes some_limit ↦ inr (h.capped some_limit)
        | no off ↦ inl (omega arith)
      ],
    )

-- In every state a connection from an IP that has one already is admitted, and one from a new IP
-- is refused exactly when there is a limit and it is reached.
pub acquire_refused_iff :
    (limit : ℕ) (ips : UserIpSet) (ip : List ℕ)
    → (acquire ips ip limit ≡ none)
      ↔ ((Table.get ip ips ≡ none) × (0 < limit) × (limit ≤ length ips))
unfolding acquire
acquire_refused_iff limit ips ip =
    (λ h. (ground arith, ground arith, ground arith), λ h. ground arith)
