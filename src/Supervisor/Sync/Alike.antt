-- ===== src/Supervisor/Sync/Alike.antt =====
-- src/runtime/supervisor.rs: rows of two polls that ask for the same listeners.
use sspanel_ssr_rust_backend.Base.{
  ℕ, ◌≤◌, ◌≡◌, refl, sym, ◌∙◌, ap, true, false, Option, none, some, List, [], ◌∷◌, inl, inr, arith,
  nat_eq, if◌then◌else◌, Bool-cases, ◌⊎◌,
}
use sspanel_ssr_rust_backend.Config.{NodeConfig}
use sspanel_ssr_rust_backend.Panel.{PanelUser}
use sspanel_ssr_rust_backend.Ssr.Profile
use sspanel_ssr_rust_backend.Supervisor.{listener_users, only_multi}
use sspanel_ssr_rust_backend.Supervisor.Carriers.{first_row, rows_of, first_row-merge_carrier_users}
use sspanel_ssr_rust_backend.Supervisor.Sync.{UserFingerprint}
use sspanel_ssr_rust_backend.Supervisor.Sync.Wanted.{
  is_carrier, has_carrier, first_carrier, listener_of, last_served, wanted, any_multi-has_carrier,
  only_multi_none,
}

module _ {F : Type 0} where
  -- Two rows with the same listener; the user ids, the speed cap, the limit of IPs, the forbidden
  -- blocks and ports, the parameters and `enable` may differ.
  unfoldable pub SameListener : PanelUser F → PanelUser F → Type 0
  SameListener a b =
      (a.port ≡ b.port)
      × (a.password ≡ b.password)
      × (a.method ≡ b.method)
      × (a.protocol ≡ b.protocol)
      × (a.obfs ≡ b.obfs)
      × (a.is_multi_user ≡ b.is_multi_user)

  unfoldable pub AllSame : List (PanelUser F) → List (PanelUser F) → Type 0
  AllSame [] [] = Unit {0}
  AllSame [] (b ∷ bs) = ⊥
  AllSame (a ∷ us) [] = ⊥
  AllSame (a ∷ us) (b ∷ bs) = SameListener a b × AllSame us bs

  unfoldable pub carriers : List (PanelUser F) → List (PanelUser F)
  carriers [] = []
  carriers (user ∷ users) = if is_carrier user then user ∷ carriers users else carriers users

  -- No two rows have the same port.
  unfoldable pub HasDistinctPorts : List (PanelUser F) → Type 0
  HasDistinctPorts [] = Unit {0}
  HasDistinctPorts (user ∷ users) = (rows_of user.port users ≡ 0) × HasDistinctPorts users

  -- Either some row is a carrier, and the carrier rows agree one by one, whatever the other rows
  -- are; or all rows agree one by one, each on a port of its own.
  abbrev pub KeepListeners : List (PanelUser F) → List (PanelUser F) → Type 0
  KeepListeners users users' =
      ((has_carrier users ≡ true) × AllSame (carriers users) (carriers users'))
      ⊎ (AllSame users users' × HasDistinctPorts users')

  listener_of-SameListener :
      (node : NodeConfig) (a b : PanelUser F)
      → SameListener a b
      → listener_of node a ≡ listener_of node b
  unfolding listener_of SameListener Profile.from_user
  listener_of-SameListener node a b (port, password, method, protocol, obfs, multi) =
      rw (port, password, method, protocol, obfs, multi)

  is_carrier-SameListener : (a b : PanelUser F) → SameListener a b → is_carrier a ≡ is_carrier b
  unfolding is_carrier SameListener
  is_carrier-SameListener a b (port, password, method, protocol, obfs, multi) = rw multi

  has_carrier-AllSame :
      (us vs : List (PanelUser F)) → AllSame us vs → has_carrier us ≡ has_carrier vs
  unfolding has_carrier AllSame
  has_carrier-AllSame [] [] h = refl
  has_carrier-AllSame [] (v ∷ vs) h = absurd h
  has_carrier-AllSame (u ∷ us) [] h = absurd h
  has_carrier-AllSame (u ∷ us) (v ∷ vs) (same, rest) =
      ground (arith, is_carrier-SameListener u v same, has_carrier-AllSame us vs rest)

  has_carrier-carriers :
      (users : List (PanelUser F)) → has_carrier (carriers users) ≡ has_carrier users
  unfolding has_carrier carriers
  has_carrier-carriers [] = refl
  has_carrier-carriers (user ∷ users) = ground (arith, has_carrier-carriers users)

  carriers-AllSame :
      (us vs : List (PanelUser F)) → AllSame us vs → AllSame (carriers us) (carriers vs)
  unfolding carriers AllSame
  carriers-AllSame [] [] h = tt
  carriers-AllSame [] (v ∷ vs) h = absurd h
  carriers-AllSame (u ∷ us) [] h = absurd h
  carriers-AllSame (u ∷ us) (v ∷ vs) (same, rest) =
      let carrier = is_carrier-SameListener u v same in
      elim (Bool-cases (is_carrier v)) [
        | inl on ↦ rw (carrier, on) (same, carriers-AllSame us vs rest)
        | inr off ↦ rw (carrier, off) (carriers-AllSame us vs rest)
      ]

  first_row-carriers :
      (port : ℕ) (users : List (PanelUser F))
      → first_row port (carriers users) ≡ first_carrier port users
  unfolding carriers first_row first_carrier
  first_row-carriers port [] = refl
  first_row-carriers port (user ∷ users) = ground (arith, first_row-carriers port users)

  abbrev listener_at : NodeConfig → Option (PanelUser F) → Option UserFingerprint
  listener_at node none = none
  listener_at node (some user) = listener_of node user

  first_row-AllSame :
      (node : NodeConfig) (port : ℕ) (us vs : List (PanelUser F))
      → AllSame us vs
      → listener_at node (first_row port us) ≡ listener_at node (first_row port vs)
  unfolding first_row AllSame SameListener
  first_row-AllSame node port [] [] h = refl
  first_row-AllSame node port [] (v ∷ vs) h = absurd h
  first_row-AllSame node port (u ∷ us) [] h = absurd h
  first_row-AllSame node port (u ∷ us) (v ∷ vs) (same, rest) = ground (
    arith,
    same.0,
    listener_of-SameListener node u v same,
    first_row-AllSame node port us vs rest,
  )

  last_served-AllSame :
      (node : NodeConfig) (port : ℕ) (us vs : List (PanelUser F))
      → AllSame us vs
      → last_served node port us ≡ last_served node port vs
  unfolding last_served AllSame SameListener
  last_served-AllSame node port [] [] h = refl
  last_served-AllSame node port [] (v ∷ vs) h = absurd h
  last_served-AllSame node port (u ∷ us) [] h = absurd h
  last_served-AllSame node port (u ∷ us) (v ∷ vs) (same, rest) = ground (
    arith,
    same.0,
    listener_of-SameListener node u v same,
    last_served-AllSame node port us vs rest,
  )

  wanted-carriers :
      (node : NodeConfig) (users users' : List (PanelUser F)) (port : ℕ)
      → has_carrier users ≡ true
      → AllSame (carriers users) (carriers users')
      → wanted node users port ≡ wanted node users' port
  unfolding wanted
  wanted-carriers node users users' port h same =
      let h' : has_carrier users' ≡ true =
        sym (has_carrier-carriers users')
        ∙ sym (has_carrier-AllSame (carriers users) (carriers users') same)
        ∙ has_carrier-carriers users
        ∙ h in
      let firsts = first_row-AllSame node port (carriers users) (carriers users') same in
      rw (h, h')
        (ap (listener_at node) (sym (first_row-carriers port users))
          ∙ firsts
          ∙ ap (listener_at node) (first_row-carriers port users'))

  wanted_rows :
      (node : NodeConfig) (users users' : List (PanelUser F)) (port : ℕ)
      → AllSame users users'
      → wanted node users port ≡ wanted node users' port
  unfolding wanted
  wanted_rows node users users' port same = elim (Bool-cases (has_carrier users)) [
    | inl multi ↦ wanted-carriers node users users' port multi (carriers-AllSame users users' same)
    | inr single ↦
        let single' : has_carrier users' ≡ false =
          sym (has_carrier-AllSame users users' same) ∙ single in
        rw (single, single') (last_served-AllSame node port users users' same)
  ]

  -- Both polls want the same listeners.
  pub wanted-KeepListeners :
      (node : NodeConfig) (users users' : List (PanelUser F)) (port : ℕ)
      → KeepListeners users users'
      → wanted node users port ≡ wanted node users' port
  wanted-KeepListeners node users users' port (inl (multi, same)) =
      wanted-carriers node users users' port multi same
  wanted-KeepListeners node users users' port (inr (same, distinct)) =
      wanted_rows node users users' port same

  rows_of-HasDistinctPorts :
      (users : List (PanelUser F)) (port : ℕ) → HasDistinctPorts users → rows_of port users ≤ 1
  unfolding rows_of HasDistinctPorts
  rows_of-HasDistinctPorts [] port h = omega arith
  rows_of-HasDistinctPorts (user ∷ users) port (alone, rest) =
      ground (arith, rows_of-HasDistinctPorts users port rest, ap (λ i. rows_of i users), alone)

  carrier_rows :
      (users : List (PanelUser F)) (port : ℕ)
      → has_carrier users ≡ true
      → rows_of port (listener_users users) ≤ 1
  unfolding listener_users
  carrier_rows users port multi =
      rw (any_multi-has_carrier users, multi)
        (first_row-merge_carrier_users (only_multi true users) port).1

  -- The second poll opens at most one listener for a port.
  pub rows_of-KeepListeners :
      (users users' : List (PanelUser F)) (port : ℕ)
      → KeepListeners users users'
      → rows_of port (listener_users users') ≤ 1
  unfolding listener_users
  rows_of-KeepListeners users users' port (inl (multi, same)) = carrier_rows users' port (
      sym (has_carrier-carriers users')
      ∙ sym (has_carrier-AllSame (carriers users) (carriers users') same)
      ∙ has_carrier-carriers users
      ∙ multi)
  rows_of-KeepListeners users users' port (inr (same, distinct)) =
      elim (Bool-cases (has_carrier users')) [
        | inl multi ↦ carrier_rows users' port multi
        | inr single ↦
            rw (any_multi-has_carrier users', single, only_multi_none users' single)
              (rows_of-HasDistinctPorts users' port distinct)
      ]
