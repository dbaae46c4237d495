-- ===== src/State.antt =====
-- src/runtime/state.rs: a map bounded in size, whose entries expire.
pub mod Bounded
pub mod Lookup
use sspanel_ssr_rust_backend.Base.{
  ℕ, suc, ◌-◌, Bool, true, ◌&&◌, not, Option, none, some, List, [], ◌∷◌, length, ltb, leb, max,
  if◌then◌else◌, Eq, map,
}
use sspanel_ssr_rust_backend.Base.Table
use sspanel_ssr_rust_backend.Base.Table.{Table}

-- An `Instant` is a number; `duration_since` gives 0 for a later instant, as `-` does.
pub record Entry {κ} (V : Type κ) : Type κ where
  pub value : V
  pub last_seen : ℕ

pub record BoundedTtlMap {ℓ κ} (K : Type ℓ) (V : Type κ) : Type (ℓ ⊔ κ) where
  pub ttl : ℕ
  pub capacity : ℕ
  pub entries : Table K (Entry V)

abbrev pub is_live {κ} : {V : Type κ} → ℕ → ℕ → Entry V → Bool
is_live now ttl e = ltb (now - e.last_seen) ttl

module _ {ℓ κ} {K : Type ℓ} {V : Type κ} where
  unfoldable pub new : ℕ → ℕ → BoundedTtlMap K V
  new ttl capacity = record { ttl = ttl; capacity = max capacity 1; entries = [] }

  unfoldable pub evict_expired : BoundedTtlMap K V → ℕ → BoundedTtlMap K V
  evict_expired m now = record m { entries = Table.retain (λ _ e. is_live now m.ttl e) m.entries }

  -- `min_by_key`: the first entry of the least `last_seen`, starting from a candidate.
  unfoldable pub oldest_from : K × ℕ → Table K (Entry V) → K × ℕ
  oldest_from best [] = best
  oldest_from (k, t) ((j, e) ∷ m) =
      oldest_from (if ltb e.last_seen t then (j, e.last_seen) else (k, t)) m

  unfoldable pub oldest : Table K (Entry V) → Option K
  unfolding oldest_from
  oldest [] = none
  oldest ((k, e) ∷ m) = some (oldest_from (k, e.last_seen) m).0

  unfoldable pub expire : BoundedTtlMap K V → ℕ → BoundedTtlMap K V
  expire m now = evict_expired m now

  unfoldable pub retain : (K → V → Bool) → BoundedTtlMap K V → BoundedTtlMap K V
  retain keep m = record m { entries = Table.retain (λ k e. keep k e.value) m.entries }

  unfoldable pub len : BoundedTtlMap K V → ℕ
  len m = length m.entries

  unfoldable pub values : BoundedTtlMap K V → List V
  values m = map (λ p. p.1.value) m.entries

  unfoldable pub keys : BoundedTtlMap K V → List K
  keys m = map (λ p. p.0) m.entries

module _ {ℓ κ} {K : Type ℓ} {V : Type κ} ⦃e : Eq K⦄ where
  unfoldable pub evict_oldest : BoundedTtlMap K V → BoundedTtlMap K V
  evict_oldest m = elim (oldest m.entries) [
    | none ↦ m
    | some k ↦ record m { entries = Table.remove k m.entries }
  ]

  -- `self.map.insert(key, Entry { value, last_seen: now })`
  abbrev pub store : BoundedTtlMap K V → K → V → ℕ → BoundedTtlMap K V
  store m key value now = record m {
    entries = Table.insert key (record { value = value; last_seen = now }) m.entries;
  }

  unfoldable pub insert : BoundedTtlMap K V → K → V → ℕ → BoundedTtlMap K V
  insert m key value now =
      let m' = evict_expired m now in
      let full = not (Table.contains key m'.entries) && leb m'.capacity (length m'.entries) in
      store (if full then evict_oldest m' else m') key value now

  unfoldable pub touch : BoundedTtlMap K V → K → ℕ → BoundedTtlMap K V × Option V
  touch m key now = elim (Table.get key m.entries) [
    | none ↦ (m, none)
    | some entry ↦ (store m key entry.value now, some entry.value)
  ]

  unfoldable pub touch_or_insert_with : BoundedTtlMap K V → K → V → ℕ → BoundedTtlMap K V
  touch_or_insert_with m key value now = elim (Table.get key m.entries) [
    | some entry ↦ store m key entry.value now
    | none ↦
        let m' = evict_expired m now in
        store (if leb m'.capacity (length m'.entries) then evict_oldest m' else m') key value now
  ]
