-- ===== src/State/Bounded.antt =====
-- src/runtime/state.rs: size and keys of the map over any sequence of calls.
use sspanel_ssr_rust_backend.Base.{
  ℕ, ◌≤◌, ◌<◌, ◌≡◌, refl, ◌∙◌, Bool, true, ◌&&◌, not, none, some, List, [], ◌∷◌, arith, length, ltb,
  leb, max, Eq, Bool-cases, Option-cases, inl, inr, beq_self, ◌⊎◌,
}
use mathlib.Core.Path.{subst}
use sspanel_ssr_rust_backend.Base.Table
use sspanel_ssr_rust_backend.Base.Table.{Table, IsMap}
use sspanel_ssr_rust_backend.State.{
  Entry, BoundedTtlMap, new, evict_expired, oldest_from, oldest, evict_oldest, store, insert, touch,
  touch_or_insert_with, expire, retain, is_live,
}

module _ {ℓ κ} {K : Type ℓ} {V : Type κ} ⦃e : Eq K⦄ where
  pub record IsBounded (m : BoundedTtlMap K V) : Type 0 where
    pub positive : 0 < m.capacity
    pub bounded : length m.entries ≤ m.capacity
    pub distinct : IsMap m.entries

  -- The key that `evict_oldest` removes is a key of the map.
  contains-oldest_from :
      (k : K) (t : ℕ) (m : Table K (Entry V)) (whole : Table K (Entry V))
      → Table.contains k whole ≡ true
      → ((j : K) → Table.contains j m ≡ true → Table.contains j whole ≡ true)
      → Table.contains (oldest_from (k, t) m).0 whole ≡ true
  unfolding oldest_from Table.contains
  contains-oldest_from k t [] whole h inside = h
  contains-oldest_from k t ((j, entry) ∷ m) whole h inside =
      let j_in : Table.contains j whole ≡ true = inside j (rw (beq_self j)) in
      let rest_in : (i : K) → Table.contains i m ≡ true → Table.contains i whole ≡ true =
        λ i hi. inside i (ground arith) in
      elim (Bool-cases (ltb entry.last_seen t)) [
        | inl older ↦ rw older (contains-oldest_from j entry.last_seen m whole j_in rest_in)
        | inr newer ↦ rw newer (contains-oldest_from k t m whole h rest_in)
      ]

  contains-oldest : (k : K) (m : Table K (Entry V)) → oldest m ≡ some k → Table.contains k m ≡ true
  unfolding oldest
  contains-oldest k [] h = cc
  contains-oldest k ((j, entry) ∷ m) h =
      let here : Table.contains j ((j, entry) ∷ m) ≡ true =
        unfold Table.contains in rw (beq_self j) in
      let inside : (i : K) → Table.contains i m ≡ true → Table.contains i ((j, entry) ∷ m) ≡ true =
        λ i hi. unfold Table.contains in ground arith in
      let found : (oldest_from (j, entry.last_seen) m).0 ≡ k = cc in
      subst (λ i. Table.contains i ((j, entry) ∷ m) ≡ true) found
        (contains-oldest_from j entry.last_seen m ((j, entry) ∷ m) here inside)

  oldest-none : (m : Table K (Entry V)) → oldest m ≡ none → m ≡ []
  unfolding oldest
  oldest-none [] h = refl
  oldest-none ((j, entry) ∷ m) h = cc

  pub evict_expired-IsBounded :
      (m : BoundedTtlMap K V) (now : ℕ) → IsBounded m → IsBounded (evict_expired m now)
  unfolding evict_expired
  evict_expired-IsBounded m now h = record {
    positive = h.positive;
    bounded = omega (arith, Table.length-retain (λ _ e. is_live now m.ttl e) m.entries, h.bounded);
    distinct = Table.retain-IsMap (λ _ e. is_live now m.ttl e) m.entries h.distinct;
  }

  -- Eviction makes room for one entry.
  evict_oldest-IsBounded :
      (m : BoundedTtlMap K V)
      → IsBounded m
      → IsBounded (evict_oldest m)
        × (length (evict_oldest m).entries < m.capacity)
        × ((evict_oldest m).capacity ≡ m.capacity)
  evict_oldest-IsBounded m h = elim (Option-cases (oldest m.entries)) [
    | inl e ↦
        unfold evict_oldest in
        rw (e, evict_oldest) (h, rw (oldest-none m.entries e) h.positive, refl)
    | inr (k, e) ↦
        unfold evict_oldest in
        let shorter = Table.length-remove k m.entries (contains-oldest k m.entries e) in
        rw (e, evict_oldest)
          (
            record {
              positive = h.positive;
              bounded = omega (arith, shorter, h.bounded);
              distinct = Table.remove-IsMap k m.entries h.distinct;
            },
            omega (arith, shorter, h.bounded),
            refl,
          )
  ]

  -- A store into a map with room for it.
  store-IsBounded :
      (m : BoundedTtlMap K V) (key : K) (value : V) (now : ℕ)
      → IsBounded m
      → (Table.contains key m.entries ≡ true) ⊎ (length m.entries < m.capacity)
      → IsBounded (store m key value now)
  store-IsBounded m key value now h room = record {
    positive = h.positive;
    bounded = ground (
      arith,
      Table.length-insert key (record { value = value; last_seen = now }) m.entries,
      h.bounded,
    );
    distinct = Table.insert-IsMap key _ m.entries h.distinct;
  }

  pub insert-IsBounded :
      (m : BoundedTtlMap K V) (key : K) (value : V) (now : ℕ)
      → IsBounded m
      → IsBounded (insert m key value now)
  insert-IsBounded m key value now h =
      let m' = evict_expired m now in
      let h' = evict_expired-IsBounded m now h in
      elim (Bool-cases
        (not (Table.contains key m'.entries) && leb m'.capacity (length m'.entries))) [
          | inl full ↦
              unfold insert in
              let (ok', room, _) = evict_oldest-IsBounded m' h' in
              rw (full, insert)
                (store-IsBounded (evict_oldest m') key value now ok'
                  (inr (omega (arith, room, evict_oldest-IsBounded m' h'))))
          | inr free ↦
              unfold insert in
              rw (free, insert) (store-IsBounded m' key value now h' (ground arith))
        ]

  pub touch-IsBounded :
      (m : BoundedTtlMap K V) (key : K) (now : ℕ) → IsBounded m → IsBounded (touch m key now).0
  touch-IsBounded m key now h = elim (Option-cases (Table.get key m.entries)) [
    | inl e ↦ unfold touch in rw (e, touch) h
    | inr (entry, e) ↦
        unfold touch in
        rw (e, touch)
          (store-IsBounded m key entry.value now h
            (inl (Table.contains-some key entry m.entries e)))
  ]

  pub touch_or_insert_with-IsBounded :
      (m : BoundedTtlMap K V) (key : K) (value : V) (now : ℕ)
      → IsBounded m
      → IsBounded (touch_or_insert_with m key value now)
  touch_or_insert_with-IsBounded m key value now h = elim (Option-cases (Table.get key m.entries)) [
    | inr (entry, e) ↦
        unfold touch_or_insert_with in
        rw (e, touch_or_insert_with)
          (store-IsBounded m key entry.value now h
            (inl (Table.contains-some key entry m.entries e)))
    | inl e ↦
        unfold touch_or_insert_with in
        let m' = evict_expired m now in
        let h' = evict_expired-IsBounded m now h in
        elim (Bool-cases (leb m'.capacity (length m'.entries))) [
          | inl full ↦
              let (ok', room, _) = evict_oldest-IsBounded m' h' in
              rw (e, touch_or_insert_with, full)
                (store-IsBounded (evict_oldest m') key value now ok'
                  (inr (omega (arith, evict_oldest-IsBounded m' h'))))
          | inr free ↦
              rw (e, touch_or_insert_with, free)
                (store-IsBounded m' key value now h' (inr (ground arith)))
        ]
  ]

  pub retain-IsBounded :
      (keep : K → V → Bool) (m : BoundedTtlMap K V) → IsBounded m → IsBounded (retain keep m)
  unfolding retain
  retain-IsBounded keep m h = record {
    positive = h.positive;
    bounded = omega (arith, Table.length-retain (λ k e. keep k e.value) m.entries, h.bounded);
    distinct = Table.retain-IsMap (λ k e. keep k e.value) m.entries h.distinct;
  }

-- A call on the map, at its time.
pub data Call {ℓ κ} (K : Type ℓ) (V : Type κ) : Type (ℓ ⊔ κ) where
  insert_at : K → V → ℕ → Call K V
  touch_at : K → ℕ → Call K V
  touch_or_insert_at : K → V → ℕ → Call K V
  expire_at : ℕ → Call K V
  retain_by : (K → V → Bool) → Call K V

module _ {ℓ κ} {K : Type ℓ} {V : Type κ} ⦃e : Eq K⦄ where
  unfoldable pub call : BoundedTtlMap K V → Call K V → BoundedTtlMap K V
  call m (insert_at key value now) = insert m key value now
  call m (touch_at key now) = (touch m key now).0
  call m (touch_or_insert_at key value now) = touch_or_insert_with m key value now
  call m (expire_at now) = expire m now
  call m (retain_by keep) = retain keep m

  unfoldable pub run : BoundedTtlMap K V → List (Call K V) → BoundedTtlMap K V
  run m [] = m
  run m (c ∷ cs) = run (call m c) cs

  call-IsBounded : (m : BoundedTtlMap K V) (c : Call K V) → IsBounded m → IsBounded (call m c)
  unfolding call expire
  call-IsBounded m (insert_at key value now) h = insert-IsBounded m key value now h
  call-IsBounded m (touch_at key now) h = touch-IsBounded m key now h
  call-IsBounded m (touch_or_insert_at key value now) h =
      touch_or_insert_with-IsBounded m key value now h
  call-IsBounded m (expire_at now) h = evict_expired-IsBounded m now h
  call-IsBounded m (retain_by keep) h = retain-IsBounded keep m h

  run-IsBounded :
      (m : BoundedTtlMap K V) (cs : List (Call K V)) → IsBounded m → IsBounded (run m cs)
  unfolding run
  run-IsBounded m [] h = h
  run-IsBounded m (c ∷ cs) h = run-IsBounded (call m c) cs (call-IsBounded m c h)

  call-capacity : (m : BoundedTtlMap K V) (c : Call K V) → (call m c).capacity ≡ m.capacity
  unfolding call insert touch touch_or_insert_with expire retain evict_expired evict_oldest
  call-capacity m (insert_at key value now) = ground arith
  call-capacity m (touch_at key now) = ground arith
  call-capacity m (touch_or_insert_at key value now) = ground arith
  call-capacity m (expire_at now) = refl
  call-capacity m (retain_by keep) = refl

  run-capacity : (m : BoundedTtlMap K V) (cs : List (Call K V)) → (run m cs).capacity ≡ m.capacity
  unfolding run
  run-capacity m [] = refl
  run-capacity m (c ∷ cs) = run-capacity (call m c) cs ∙ call-capacity m c

  -- After any sequence of calls on a new map, at any times, there are at most `max(1, capacity)`
  -- entries, and no key has two.
  pub run-new-IsBounded :
      (ttl capacity : ℕ) (cs : List (Call K V))
      → (length (run (new {V = V} ttl capacity) cs).entries ≤ max capacity 1)
        × IsMap (run (new {V = V} ttl capacity) cs).entries
  run-new-IsBounded ttl capacity cs =
      let m = new {K = K} {V = V} ttl capacity in
      let fresh : IsBounded m =
        unfold new in record { positive = omega arith; bounded = omega arith; distinct = tt } in
      let h = run-IsBounded m cs fresh in
      let kept : (run m cs).capacity ≡ max capacity 1 =
        run-capacity m cs ∙ (unfold new in refl {A = ℕ}) in
      (omega (arith, h.bounded, kept), h.distinct)
