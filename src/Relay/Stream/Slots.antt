-- ===== src/Relay/Stream/Slots.antt =====
-- src/tcp.rs and src/traffic.rs: the slot of a connection in its user's IP set.
use sspanel_ssr_rust_backend.Base.{
  ℕ, zero, suc, ◌+◌, ◌-◌, ◌<◌, ◌≡◌, ◌≢◌, refl, sym, ap, ◌∙◌, false, ◌&&◌, none, some, List, [], ◌∷◌,
  length, set, get_or, ltb, leb, ◌==◌, if◌then◌else◌, bytes_key, Eq, beq_self, arith, Option-cases,
  inl, inr,
}
use sspanel_ssr_rust_backend.Base.Table
use sspanel_ssr_rust_backend.Base.Table.{Table}
use sspanel_ssr_rust_backend.Traffic.{UserIpSet, acquire, release}

module _ {ℓ κ} {K : Type ℓ} {V : Type κ} ⦃e : Eq K⦄ where
  insert_twice :
      (k : K) (v w : V) (m : Table K V) → Table.insert k v (Table.insert k w m) ≡ Table.insert k v m
  unfolding Table.insert
  insert_twice k v w [] = ground (arith, e.beq_iff k k)
  insert_twice k v w ((j, u) ∷ m) = ground (arith, insert_twice k v w m)

  insert_same : (k : K) (v : V) (m : Table K V) → Table.get k m ≡ some v → Table.insert k v m ≡ m
  unfolding Table.insert Table.get
  insert_same k v [] h = cc
  insert_same k v ((j, u) ∷ m) h = ground (arith, insert_same k v m)

  remove-insert :
      (k : K) (v : V) (m : Table K V)
      → Table.get k m ≡ none
      → Table.remove k (Table.insert k v m) ≡ m
  unfolding Table.insert Table.get Table.remove
  remove-insert k v [] h = ground (arith, e.beq_iff k k)
  remove-insert k v ((j, u) ∷ m) h = ground (arith, remove-insert k v m)

-- The two ways in and the two ways out.
acquire_known :
    (ips : UserIpSet) (ip : List ℕ) (limit count : ℕ)
    → Table.get ip ips ≡ some count
    → acquire ips ip limit ≡ some (Table.insert ip (count + 1) ips)
unfolding acquire
acquire_known ips ip limit count q = rw (q, acquire)

acquire_new :
    (ips ips' : UserIpSet) (ip : List ℕ) (limit : ℕ)
    → Table.get ip ips ≡ none
    → acquire ips ip limit ≡ some ips'
    → ips' ≡ Table.insert ip 1 ips
acquire_new ips ips' ip limit q taken =
    let step : acquire ips ip limit
        ≡ (if ltb 0 limit && leb limit (length ips) then none else some (Table.insert ip 1 ips)) =
      unfold acquire in rw (q, acquire) in
    ground (arith, sym step ∙ taken)

release_more :
    (ips : UserIpSet) (ip : List ℕ) (count : ℕ)
    → Table.get ip ips ≡ some (count + 1)
    → 0 < count
    → release ips ip ≡ Table.insert ip count ips
unfolding release
release_more ips ip count q h =
    let same : count + 1 - 1 ≡ count = omega arith in
    let more : (count == 0) ≡ false = ground arith in rw (q, release) (rw (same, more))

release_last :
    (ips : UserIpSet) (ip : List ℕ)
    → Table.get ip ips ≡ some 1
    → release ips ip ≡ Table.remove ip (Table.insert ip 0 ips)
unfolding release
release_last ips ip q = rw (q, release)

get-insert_self :
    (ip : List ℕ) (n : ℕ) (ips : UserIpSet) → Table.get ip (Table.insert ip n ips) ≡ some n
get-insert_self ip n ips = Table.get-insert ip ip n ips ∙ (rw (beq_self ip))

set_of : (a b : UserIpSet) → some a ≡ some b → a ≡ b
set_of a b e = cc

not_zero :
    (count : ℕ) (ips : UserIpSet) (ip : List ℕ)
    → Table.get ip ips ≢ some 0
    → Table.get ip ips ≡ some count
    → 0 < count
not_zero zero ips ip positive q = absurd (positive q)
not_zero (suc count) ips ip positive q = omega arith

-- A guard gives back what it took.
pub release-acquire :
    (ips ips' : UserIpSet) (ip : List ℕ) (limit : ℕ)
    → Table.get ip ips ≢ some 0
    → acquire ips ip limit ≡ some ips'
    → release ips' ip ≡ ips
release-acquire ips ips' ip limit positive taken = elim (Option-cases (Table.get ip ips)) [
  | inl q ↦
      let is : ips' ≡ Table.insert ip 1 ips = acquire_new ips ips' ip limit q taken in
      ap (λ m. release m ip) is
      ∙ release_last (Table.insert ip 1 ips) ip (get-insert_self ip 1 ips)
      ∙ ap (Table.remove ip) (insert_twice ip 0 1 ips)
      ∙ remove-insert ip 0 ips q
  | inr (count, q) ↦
      let is : Table.insert ip (count + 1) ips ≡ ips' =
        set_of _ _ (sym (acquire_known ips ip limit count q) ∙ taken) in
      ap (λ m. release m ip) (sym is)
      ∙ release_more (Table.insert ip (count + 1) ips) ip count (get-insert_self ip (count + 1) ips)
          (not_zero count ips ip positive q)
      ∙ insert_twice ip count (count + 1) ips
      ∙ insert_same ip count ips q
]

pub set_restores :
    (sets : List UserIpSet) (ref : ℕ) (ips' : UserIpSet) (ip : List ℕ)
    → release ips' ip ≡ get_or sets ref []
    → set (set sets ref ips') ref (release (get_or (set sets ref ips') ref []) ip) ≡ sets
set_restores [] ref ips' ip h = refl
set_restores (x ∷ xs) zero ips' ip h = ap (λ y. y ∷ xs) h
set_restores (x ∷ xs) (suc ref) ips' ip h = ap (λ l. x ∷ l) (set_restores xs ref ips' ip h)
