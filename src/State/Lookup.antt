-- ===== src/State/Lookup.antt =====
-- src/runtime/state.rs: what a key finds after each operation, and which entry eviction takes.
use sspanel_ssr_rust_backend.Base.{
  ℕ, ◌≤◌, ◌<◌, ◌≡◌, refl, sym, ◌∙◌, Bool, true, false, Option, none, some, [], ◌∷◌, arith, length,
  ltb, if◌then◌else◌, Eq, Bool-cases, inl, inr, beq_self, ◌↔◌, ◌+◌,
}
use mathlib.Core.Path.{subst}
use sspanel_ssr_rust_backend.Base.Table
use sspanel_ssr_rust_backend.Base.Table.{Table, IsMap}
use sspanel_ssr_rust_backend.State.{
  Entry, BoundedTtlMap, evict_expired, oldest_from, oldest, evict_oldest, insert, is_live,
}

module _ {ℓ κ} {K : Type ℓ} {V : Type κ} where
  -- No entry of a map was seen before `t`.
  abbrev pub NoneBefore : ℕ → Table K (Entry V) → Type 0
  NoneBefore t [] = Unit {0}
  NoneBefore t ((k, entry) ∷ m) = (t ≤ entry.last_seen) × NoneBefore t m

  NoneBefore-mono : (s t : ℕ) (m : Table K (Entry V)) → s ≤ t → NoneBefore t m → NoneBefore s m
  NoneBefore-mono s t [] h p = tt
  NoneBefore-mono s t ((k, entry) ∷ m) h p = (omega arith, NoneBefore-mono s t m h p.1)

  oldest_from_older :
      (k : K) (t : ℕ) (j : K) (entry : Entry V) (m : Table K (Entry V))
      → ltb entry.last_seen t ≡ true
      → oldest_from (k, t) ((j, entry) ∷ m) ≡ oldest_from (j, entry.last_seen) m
  unfolding oldest_from
  oldest_from_older k t j entry m h = rw h

  oldest_from_newer :
      (k : K) (t : ℕ) (j : K) (entry : Entry V) (m : Table K (Entry V))
      → ltb entry.last_seen t ≡ false
      → oldest_from (k, t) ((j, entry) ∷ m) ≡ oldest_from (k, t) m
  unfolding oldest_from
  oldest_from_newer k t j entry m h = rw h

  oldest_from-NoneBefore :
      (k : K) (t : ℕ) (m : Table K (Entry V))
      → ((oldest_from (k, t) m).1 ≤ t) × NoneBefore (oldest_from (k, t) m).1 m
  unfolding oldest_from
  oldest_from-NoneBefore k t [] = (omega arith, tt)
  oldest_from-NoneBefore k t ((j, entry) ∷ m) = elim (Bool-cases (ltb entry.last_seen t)) [
    | inl older ↦
        let (le, all) = oldest_from-NoneBefore j entry.last_seen m in
        subst (λ r. (r.1 ≤ t) × NoneBefore r.1 ((j, entry) ∷ m))
          (sym (oldest_from_older k t j entry m older)) (ground arith, (le, all))
    | inr newer ↦
        let (le, all) = oldest_from-NoneBefore k t m in
        subst (λ r. (r.1 ≤ t) × NoneBefore r.1 ((j, entry) ∷ m))
          (sym (oldest_from_newer k t j entry m newer)) (le, (ground arith, all))
  ]

module _ {ℓ κ} {K : Type ℓ} {V : Type κ} ⦃e : Eq K⦄ where
  pub get-retain :
      (keep : K → V → Bool) (k : K) (m : Table K V)
      → IsMap m
      → Table.get k (Table.retain keep m)
        ≡ elim (Table.get k m) [ none ↦ none | some v ↦ if keep k v then some v else none ]
  unfolding Table.get Table.retain
  get-retain keep k [] h = refl
  get-retain keep k ((j, v) ∷ m) h = ground (
    arith,
    e.beq_iff j k,
    get-retain keep k m h.1,
    Table.get_absent j m h.0,
    Table.get_absent k m,
  )

is_live_iff {κ} :
    {V : Type κ} (now ttl : ℕ) (entry : Entry V)
    → (is_live now ttl entry ≡ true) ↔ ((now < entry.last_seen + ttl) × (0 < ttl))
is_live_iff now ttl entry = (λ h. ground arith, λ h. ground arith)

kept_iff {κ} :
    {V : Type κ} (now ttl : ℕ) (o : Option (Entry V)) (entry : Entry V)
    → ((elim o [ none ↦ none | some x ↦ if is_live now ttl x then some x else none ]) ≡ some entry)
      ↔ ((o ≡ some entry) × (now < entry.last_seen + ttl) × (0 < ttl))
kept_iff now ttl none entry = (λ h. ground arith, λ h. ground arith)
kept_iff now ttl (some x) entry =
    (λ h. ground (arith, is_live_iff now ttl x), λ h. ground (arith, is_live_iff now ttl entry))

module _ {ℓ κ} {K : Type ℓ} {V : Type κ} ⦃e : Eq K⦄ where
  -- After an expiry a key finds an entry exactly if it found that entry before and less than `ttl`
  -- has passed since the entry was last seen; of a positive `ttl`, none has passed since a later
  -- instant, and a `ttl` of 0 keeps nothing. The keys of the map are distinct.
  pub get-evict_expired :
      (k : K) (m : BoundedTtlMap K V) (now : ℕ) (entry : Entry V)
      → IsMap m.entries
      → (Table.get k (evict_expired m now).entries ≡ some entry)
        ↔ ((Table.get k m.entries ≡ some entry) × (now < entry.last_seen + m.ttl) × (0 < m.ttl))
  unfolding evict_expired
  get-evict_expired k m now entry h =
      rw (get-retain (λ _ x. is_live now m.ttl x) k m.entries h)
        (kept_iff now m.ttl (Table.get k m.entries) entry)

  -- The key and the time of `oldest_from` are those of an entry of the map.
  abbrev StandsAt : Table K (Entry V) → K × ℕ → Type κ
  StandsAt whole (k, t) =
      (entry : Entry V) × (Table.get k whole ≡ some entry) × (entry.last_seen ≡ t)

  oldest_from-StandsAt :
      (k : K) (t : ℕ) (m whole : Table K (Entry V))
      → IsMap m
      → StandsAt whole (k, t)
      → ((j : K) (entry : Entry V) → Table.get j m ≡ some entry → Table.get j whole ≡ some entry)
      → StandsAt whole (oldest_from (k, t) m)
  oldest_from-StandsAt k t [] whole d h inside = unfold oldest_from in h
  oldest_from-StandsAt k t ((j, entry) ∷ m) whole d h inside =
      let here : Table.get j whole ≡ some entry =
        inside j entry (unfold Table.get in rw (beq_self j)) in
      let rest : (i : K) (x : Entry V) → Table.get i m ≡ some x → Table.get i whole ≡ some x =
        λ i x hi.
          inside i x
            (unfold Table.get in ground (arith, e.beq_iff j i, Table.get_absent j m d.0)) in
      elim (Bool-cases (ltb entry.last_seen t)) [
        | inl older ↦
            subst (StandsAt whole) (sym (oldest_from_older k t j entry m older))
              (oldest_from-StandsAt j entry.last_seen m whole d.1 (entry, here, refl) rest)
        | inr newer ↦
            subst (StandsAt whole) (sym (oldest_from_newer k t j entry m newer))
              (oldest_from-StandsAt k t m whole d.1 h rest)
      ]

  evict_oldest-some :
      (m : BoundedTtlMap K V) (k : K)
      → oldest m.entries ≡ some k
      → (evict_oldest m).entries ≡ Table.remove k m.entries
  unfolding evict_oldest
  evict_oldest-some m k h = rw (h, evict_oldest)

  evict_oldest_from :
      (m : BoundedTtlMap K V) (l : Table K (Entry V))
      → l ≡ m.entries
      → IsMap l
      → 0 < length l
      → (k : K) × (entry : Entry V) × (Table.get k m.entries ≡ some entry)
        × NoneBefore entry.last_seen m.entries
        × ((evict_oldest m).entries ≡ Table.remove k m.entries)
  evict_oldest_from m [] p d h = absurd (omega arith)
  evict_oldest_from m ((j, x) ∷ l) p d h =
      let r = oldest_from (j, x.last_seen) l in
      let whole : Table K (Entry V) = (j, x) ∷ l in
      let here : Table.get j whole ≡ some x = unfold Table.get in rw (beq_self j) in
      let inside : (i : K) (y : Entry V) → Table.get i l ≡ some y → Table.get i whole ≡ some y =
        λ i y hi. unfold Table.get in ground (arith, e.beq_iff j i, Table.get_absent j l d.0) in
      let (entry, found, at) =
        oldest_from-StandsAt j x.last_seen l whole d.1 (x, here, refl) inside in
      let (le, all) = oldest_from-NoneBefore j x.last_seen l in
      let least : NoneBefore r.1 whole = (le, all) in
      let named : oldest whole ≡ some r.0 = unfold oldest in refl in
      (
        r.0,
        entry,
        rw (← p) found,
        rw (← p) (subst (λ t. NoneBefore t whole) (sym at) least),
        evict_oldest-some m r.0 (rw (← p) named),
      )

  -- Eviction from a map that is not empty removes one key, and no entry of the map was seen before
  -- the entry of that key.
  pub evict_oldest_least :
      (m : BoundedTtlMap K V)
      → IsMap m.entries
      → 0 < length m.entries
      → (k : K) × (entry : Entry V) × (Table.get k m.entries ≡ some entry)
        × NoneBefore entry.last_seen m.entries
        × ((evict_oldest m).entries ≡ Table.remove k m.entries)
  evict_oldest_least m d h = evict_oldest_from m m.entries refl d h

  -- The value that was inserted is found.
  pub get-insert_self :
      (k : K) (value : V) (m : BoundedTtlMap K V) (now : ℕ)
      → Table.get k (insert m k value now).entries
        ≡ some (record { value = value; last_seen = now })
  unfolding insert
  get-insert_self k value m now =
      Table.get-insert k k (record { value = value; last_seen = now }) _ ∙ (rw (beq_self k))
