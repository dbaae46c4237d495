-- ===== src/Supervisor/Carriers.antt =====
-- src/runtime/supervisor.rs: the carrier rows that share a port.
use sspanel_ssr_rust_backend.Base.{
  ℕ, ◌+◌, ◌≤◌, ◌≡◌, refl, ◌∙◌, false, Option, none, some, List, [], ◌∷◌, map, ◌==◌, if◌then◌else◌,
  nat_eq, arith,
}
use sspanel_ssr_rust_backend.Base.Table
use sspanel_ssr_rust_backend.Base.Table.{Table, IsMap}
use sspanel_ssr_rust_backend.Panel.{PanelUser}
use sspanel_ssr_rust_backend.Supervisor.{merge_rows, merge_carrier_users, carrier_config_matches}

module _ {F : Type 0} where
  -- The first row of a port.
  unfoldable pub first_row : ℕ → List (PanelUser F) → Option (PanelUser F)
  first_row port [] = none
  first_row port (user ∷ users) = if user.port == port then some user else first_row port users

  unfoldable pub rows_of : ℕ → List (PanelUser F) → ℕ
  rows_of port [] = 0
  rows_of port (user ∷ users) = (if user.port == port then 1 else 0) + rows_of port users

  abbrev or_else : Option (PanelUser F) → Option (PanelUser F) → Option (PanelUser F)
  or_else none b = b
  or_else (some a) b = some a

  -- Each row stands under its port.
  abbrev IsKeyed : Table ℕ (PanelUser F) → Type 0
  IsKeyed [] = Unit {0}
  IsKeyed ((port, user) ∷ m) = (user.port ≡ port) × IsKeyed m

  insert-IsKeyed :
      (user : PanelUser F) (m : Table ℕ (PanelUser F))
      → IsKeyed m
      → IsKeyed (Table.insert user.port user m)
  unfolding Table.insert
  insert-IsKeyed user [] h = (refl, tt)
  insert-IsKeyed user ((port, u) ∷ m) h = ground (arith, insert-IsKeyed user m h.1)

  -- One step of the loop.
  unfoldable merge_row : Table ℕ (PanelUser F) → PanelUser F → Table ℕ (PanelUser F)
  merge_row m user = elim (Table.get user.port m) [
    | some existing ↦ if carrier_config_matches existing user then m else m
    | none ↦ Table.insert user.port user m
  ]

  merge_rows_step :
      (m : Table ℕ (PanelUser F)) (user : PanelUser F) (users : List (PanelUser F))
      → merge_rows m (user ∷ users) ≡ merge_rows (merge_row m user) users
  unfolding merge_rows merge_row
  merge_rows_step m user users = refl

  merge_row-IsKeyed :
      (m : Table ℕ (PanelUser F)) (user : PanelUser F)
      → IsMap m
      → IsKeyed m
      → IsMap (merge_row m user) × IsKeyed (merge_row m user)
  unfolding merge_row
  merge_row-IsKeyed m user d h =
      ground (arith, insert-IsKeyed user m h, Table.insert-IsMap user.port user m d)

  get-merge_row :
      (m : Table ℕ (PanelUser F)) (user : PanelUser F) (port : ℕ)
      → Table.get port (merge_row m user)
        ≡ or_else (Table.get port m) (if user.port == port then some user else none)
  unfolding merge_row
  get-merge_row m user port = ground (arith, Table.get-insert user.port port user m)

  merge_rows_lem :
      (m : Table ℕ (PanelUser F)) (users : List (PanelUser F))
      → IsMap m
      → IsKeyed m
      → IsMap (merge_rows m users) × IsKeyed (merge_rows m users)
  merge_rows_lem m [] d h = unfold merge_rows in (d, h)
  merge_rows_lem m (user ∷ users) d h =
      let (d', h') = merge_row-IsKeyed m user d h in
      rw (merge_rows_step m user users) (merge_rows_lem (merge_row m user) users d' h')

  get-merge_rows :
      (m : Table ℕ (PanelUser F)) (users : List (PanelUser F)) (port : ℕ)
      → Table.get port (merge_rows m users) ≡ or_else (Table.get port m) (first_row port users)
  unfolding first_row
  get-merge_rows m [] port = unfold merge_rows in ground arith
  get-merge_rows m (user ∷ users) port = ground (
    arith,
    merge_rows_step m user users,
    get-merge_rows (merge_row m user) users port,
    get-merge_row m user port,
  )

  first_row-map :
      (m : Table ℕ (PanelUser F)) (port : ℕ)
      → IsKeyed m
      → first_row port (map (λ row. row.1) m) ≡ Table.get port m
  unfolding first_row Table.get
  first_row-map [] port h = refl
  first_row-map ((p, user) ∷ m) port h = ground (arith, first_row-map m port h.1)

  rows_of-absent :
      (m : Table ℕ (PanelUser F)) (port : ℕ)
      → IsKeyed m
      → Table.contains port m ≡ false
      → rows_of port (map (λ row. row.1) m) ≡ 0
  unfolding rows_of Table.contains
  rows_of-absent [] port h e = refl
  rows_of-absent ((p, user) ∷ m) port h e = ground (arith, rows_of-absent m port h.1)

  rows_of-map :
      (m : Table ℕ (PanelUser F)) (port : ℕ)
      → IsMap m
      → IsKeyed m
      → rows_of port (map (λ row. row.1) m) ≤ 1
  unfolding rows_of
  rows_of-map [] port d h = omega arith
  rows_of-map ((p, user) ∷ m) port d h =
      ground (arith, rows_of-absent m port h.1, rows_of-map m port d.1 h.1)

  -- After the merge each port has at most one row, and it is the first row that the panel listed
  -- for the port; no port is lost.
  pub first_row-merge_carrier_users :
      (users : List (PanelUser F)) (port : ℕ)
      → (first_row port (merge_carrier_users users) ≡ first_row port users)
        × (rows_of port (merge_carrier_users users) ≤ 1)
  unfolding merge_carrier_users
  first_row-merge_carrier_users users port =
      let (distinct, keyed) = merge_rows_lem [] users tt tt in
      (
        first_row-map (merge_rows [] users) port keyed
            ∙ get-merge_rows [] users port
            ∙ (unfold Table.get in refl),
        rows_of-map (merge_rows [] users) port distinct keyed,
      )
