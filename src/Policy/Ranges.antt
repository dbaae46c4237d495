-- ===== src/Policy/Ranges.antt =====
-- src/policy.rs: the bounds that the checks on addresses and ports rely on.
use sspanel_ssr_rust_backend.Base.{
  ℕ, ◌+◌, ◌-◌, ◌*◌, ◌^◌, ◌≤◌, ◌<◌, ◌≡◌, sym, ◌∙◌, Option, none, some, List, [], ◌∷◌, All, arith,
  Option-cases, inl, inr,
}
use mathlib.Core.Path.{subst}
use sspanel_ssr_rust_backend.Base.Int.{ℤ, pos, negsuc}
use sspanel_ssr_rust_backend.Text.{trim}
use sspanel_ssr_rust_backend.Net.{IpAddr}
use sspanel_ssr_rust_backend.Float.{F64}
use sspanel_ssr_rust_backend.Panel.{PanelUser, unwrap_or}
use sspanel_ssr_rust_backend.Policy.{Cidr, PortRange}
use sspanel_ssr_rust_backend.Policy.Parse.{
  split_once, split, parse_digits, parse_unsigned, u16_max, width, with_prefix, parse_block,
  parse_cidr, ordered, parse_ports, parse_port_range, parse_item, parse_items, parse_list, as_limit,
  from_user, split_prefix,
}

-- A prefix within the width of its address, so that `32 - prefix` and `128 - prefix` do not wrap.
unfoldable pub IsBlock : Cidr → Type 0
IsBlock c = c.prefix ≤ width c.base

-- A range in order, of ports that are `u16`.
unfoldable pub IsRange : PortRange → Type 0
IsRange r = (r.start ≤ r.end) × (r.end ≤ u16_max)

parse_digits_bound :
    (bound n m : ℕ) (bs : List ℕ) → n ≤ bound → parse_digits bound n bs ≡ some m → m ≤ bound
unfolding parse_digits
parse_digits_bound bound n m [] h q = ground arith
parse_digits_bound bound n m (b ∷ bs) h q =
    ground (arith, parse_digits_bound bound (n * 10 + (b - b'0')) m bs)

parse_unsigned_bound : (bound m : ℕ) (bs : List ℕ) → parse_unsigned bound bs ≡ some m → m ≤ bound
unfolding parse_unsigned
parse_unsigned_bound bound m [] q = cc
parse_unsigned_bound bound m (b ∷ []) q = ground (arith, parse_digits_bound bound 0 m (b ∷ []))
parse_unsigned_bound bound m (b ∷ d ∷ ds) q =
    ground (arith, parse_digits_bound bound 0 m (d ∷ ds), parse_digits_bound bound 0 m (b ∷ d ∷ ds))

with_prefix-IsBlock :
    (base : IpAddr) (text : Option (List ℕ)) (c : Cidr) → with_prefix base text ≡ some c → IsBlock c
unfolding with_prefix IsBlock
with_prefix-IsBlock base none c q = ground arith
with_prefix-IsBlock base (some text) c q = ground arith

no_block : {A : Type 0} (a : A) → none ≡ some a → ⊥
no_block a e = cc

parse_block-IsBlock :
    (parse_ip : List ℕ → Option IpAddr) (text : List ℕ) (c : Cidr)
    → parse_block parse_ip text ≡ some c
    → IsBlock c
unfolding parse_block
parse_block-IsBlock parse_ip text c q =
    elim (Option-cases (parse_ip (trim (split_prefix text).0))) [
      | inl e ↦
          let step : parse_block parse_ip text ≡ none = rw (e, parse_block) in
          absurd (no_block c (sym step ∙ q))
      | inr (base, e) ↦
          let step : parse_block parse_ip text ≡ with_prefix base (split_prefix text).1 =
            rw (e, parse_block) in
          with_prefix-IsBlock base (split_prefix text).1 c (sym step ∙ q)
    ]

parse_cidr-IsBlock :
    (parse_ip : List ℕ → Option IpAddr) (text : List ℕ) (c : Cidr)
    → parse_cidr parse_ip text ≡ some c
    → IsBlock c
unfolding parse_cidr
parse_cidr-IsBlock parse_ip text c q = ground (arith, parse_block-IsBlock parse_ip (trim text) c)

ordered-IsRange : (a b : ℕ) → a ≤ u16_max → b ≤ u16_max → IsRange (ordered a b)
unfolding ordered IsRange
ordered-IsRange a b ha hb = ground arith

range_of : (a b : PortRange) → some a ≡ some b → a ≡ b
range_of a b e = cc

parse_ports-IsRange : (text : List ℕ) (r : PortRange) → parse_ports text ≡ some r → IsRange r
unfolding parse_ports
parse_ports-IsRange text r q = elim (Option-cases (split_once b'-' text)) [
  | inl e ↦ elim (Option-cases (parse_unsigned u16_max text)) [
    | inl n ↦ ground (arith, e, n)
    | inr (p, n) ↦
        let bound = parse_unsigned_bound u16_max p text n in
        unfold IsRange in ground (arith, e, n, bound)
  ]
  | inr ((a, b), e) ↦ elim (Option-cases (parse_unsigned u16_max (trim a))) [
    | inl n ↦
        let step : parse_ports text ≡ none = rw (e, parse_ports) (rw n) in
        absurd (no_block r (sym step ∙ q))
    | inr (start, n) ↦ elim (Option-cases (parse_unsigned u16_max (trim b))) [
      | inl m ↦
          let step : parse_ports text ≡ none = rw (e, parse_ports) (rw (n, m)) in
          absurd (no_block r (sym step ∙ q))
      | inr (end, m) ↦
          let step : parse_ports text ≡ some (ordered start end) =
            rw (e, parse_ports) (rw (n, m)) in
          subst IsRange (range_of (ordered start end) r (sym step ∙ q)) (
            ordered-IsRange start end (parse_unsigned_bound u16_max start (trim a) n)
              (parse_unsigned_bound u16_max end (trim b) m))
    ]
  ]
]

parse_port_range-IsRange :
    (text : List ℕ) (r : PortRange) → parse_port_range text ≡ some r → IsRange r
unfolding parse_port_range
parse_port_range-IsRange text r q = ground (arith, parse_ports-IsRange (trim text) r)

module _ {ℓ κ} {A : Type ℓ} (P : A → Type κ) (parse : List ℕ → Option A)
    (holds : (text : List ℕ) (a : A) → parse text ≡ some a → P a) where
  parse_item_holds : (text : List ℕ) (a : A) → parse_item parse text ≡ some a → P a
  unfolding parse_item
  parse_item_holds text a q = ground (arith, holds (trim text) a)

  parse_items-All : (items : List (List ℕ)) → All P (parse_items parse items)
  unfolding parse_items
  parse_items-All [] = tt
  parse_items-All (item ∷ items) = elim (Option-cases (parse_item parse item)) [
    | inl e ↦
        let step : parse_items parse (item ∷ items) ≡ parse_items parse items =
          rw (e, parse_items) in
        subst (All P) (sym step) (parse_items-All items)
    | inr (a, e) ↦
        let step : parse_items parse (item ∷ items) ≡ a ∷ parse_items parse items =
          rw (e, parse_items) in
        subst (All P) (sym step) (parse_item_holds item a e, parse_items-All items)
  ]

  parse_list-All : (raw : Option (List ℕ)) → All P (parse_list parse raw)
  unfolding parse_list
  parse_list-All none = tt
  parse_list-All (some raw) = parse_items-All ((split b',' raw).0 ∷ (split b',' raw).1)

as_limit_bound : (n : ℤ) → as_limit n < 2 ^ 32
unfolding as_limit
as_limit_bound (pos n) = omega arith
as_limit_bound (negsuc n) = omega arith

module _ {F : Type 0} ⦃f : F64 F⦄ where
  -- Whatever a row of the panel says, and whatever the address parser of the standard library
  -- accepts, the policy that is made of it has address blocks whose prefix is within the width of
  -- their address, so that no mask shifts by a negative number, port ranges in order, of ports
  -- below 2^16, and a limit of connections below 2^32.
  pub from_user-bounded :
      (parse_ip : List ℕ → Option IpAddr) (user : PanelUser F)
      → All IsBlock (from_user parse_ip user).forbidden_ips
        × All IsRange (from_user parse_ip user).forbidden_ports
        × ((from_user parse_ip user).conn_limit < 2 ^ 32)
  unfolding from_user
  from_user-bounded parse_ip user = (
    parse_list-All IsBlock (parse_cidr parse_ip) (parse_cidr-IsBlock parse_ip) user.forbidden_ip,
    parse_list-All IsRange parse_port_range parse_port_range-IsRange user.forbidden_port,
    as_limit_bound (unwrap_or user.node_connector (pos 0)),
  )
