-- ===== src/Policy/Parse.antt =====
-- src/policy.rs: the policy of a row of the panel, and the lists that it holds as text.
use sspanel_ssr_rust_backend.Base.{
  ℕ, ◌+◌, ◌-◌, ◌*◌, ◌%◌, ◌^◌, ◌&&◌, Option, none, some, List, [], ◌∷◌, ltb, leb, ◌==◌,
  if◌then◌else◌,
}
use sspanel_ssr_rust_backend.Base.Int.{ℤ, pos, negsuc}
use sspanel_ssr_rust_backend.Text.{is_empty, trim}
use sspanel_ssr_rust_backend.Net.{IpAddr, v4, v6}
use sspanel_ssr_rust_backend.Float.{F64}
use sspanel_ssr_rust_backend.Panel.{PanelUser, unwrap_or}
use sspanel_ssr_rust_backend.Policy.{Cidr, PortRange, UserPolicy}

-- `str::split_once`
unfoldable pub split_once : ℕ → List ℕ → Option (List ℕ × List ℕ)
split_once sep [] = none
split_once sep (b ∷ bs) =
    let rest = split_once sep bs in
    if b == sep then some ([], bs) else elim rest [ none ↦ none | some (a, c) ↦ some (b ∷ a, c) ]

-- `str::split`, as the first piece and the others.
unfoldable pub split : ℕ → List ℕ → List ℕ × List (List ℕ)
split sep [] = ([], [])
split sep (b ∷ bs) =
    let (piece, pieces) = split sep bs in
    if b == sep then ([], piece ∷ pieces) else (b ∷ piece, pieces)

-- The digits of `from_str`, onto the number so far, which must not exceed `bound`.
unfoldable pub parse_digits : ℕ → ℕ → List ℕ → Option ℕ
parse_digits bound n [] = some n
parse_digits bound n (b ∷ bs) =
    let n' = n * 10 + (b - b'0') in
    let rest = parse_digits bound n' bs in
    if leb b'0' b && leb b b'9' && leb n' bound then rest else none

-- `u8::from_str` and `u16::from_str`, for the greatest number of the type.
unfoldable pub parse_unsigned : ℕ → List ℕ → Option ℕ
parse_unsigned bound [] = none
parse_unsigned bound (b ∷ []) = if b == b'+' then none else parse_digits bound 0 (b ∷ [])
parse_unsigned bound (b ∷ d ∷ ds) =
    if b == b'+' then parse_digits bound 0 (d ∷ ds) else parse_digits bound 0 (b ∷ d ∷ ds)

abbrev pub u8_max : ℕ
u8_max = 255

abbrev pub u16_max : ℕ
u16_max = 65535

-- `if base.is_ipv4() { 32 } else { 128 }`
unfoldable pub width : IpAddr → ℕ
width (v4 w) = 32
width (v6 w) = 128

-- From the prefix on.
unfoldable pub with_prefix : IpAddr → Option (List ℕ) → Option Cidr
with_prefix base none = some (record { base = base; prefix = width base })
with_prefix base (some text) = elim (parse_unsigned u8_max (trim text)) [
  | none ↦ none
  | some n ↦ if ltb (width base) n then none else some (record { base = base; prefix = n })
]

-- `match text.split_once('/')`
unfoldable pub split_prefix : List ℕ → List ℕ × Option (List ℕ)
split_prefix text = elim (split_once b'/' text) [ some (a, p) ↦ (a, some p) | none ↦ (text, none) ]

-- From `split_once` on; `parse_ip` is `IpAddr::from_str`.
unfoldable pub parse_block : (List ℕ → Option IpAddr) → List ℕ → Option Cidr
parse_block parse_ip text =
    let (addr_part, prefix_part) = split_prefix text in
    elim (parse_ip (trim addr_part)) [ none ↦ none | some base ↦ with_prefix base prefix_part ]

-- `Cidr::parse`
unfoldable pub parse_cidr : (List ℕ → Option IpAddr) → List ℕ → Option Cidr
parse_cidr parse_ip text = let t = trim text in if is_empty t then none else parse_block parse_ip t

-- `if start <= end { (start, end) } else { (end, start) }`
unfoldable pub ordered : ℕ → ℕ → PortRange
ordered a b = if leb a b then record { start = a; end = b } else record { start = b; end = a }

-- From `split_once` on.
unfoldable pub parse_ports : List ℕ → Option PortRange
parse_ports text = elim (split_once b'-' text) [
  | some (a, b) ↦ elim (parse_unsigned u16_max (trim a)) [
    | none ↦ none
    | some start ↦ elim (parse_unsigned u16_max (trim b)) [
      | none ↦ none
      | some end ↦ some (ordered start end)
    ]
  ]
  | none ↦ elim (parse_unsigned u16_max text) [
    | none ↦ none
    | some p ↦ some (record { start = p; end = p })
  ]
]

-- `PortRange::parse`
unfoldable pub parse_port_range : List ℕ → Option PortRange
parse_port_range text = let t = trim text in if is_empty t then none else parse_ports t

module _ {ℓ} {A : Type ℓ} (parse : List ℕ → Option A) where
  -- The closure of `filter_map`.
  unfoldable pub parse_item : List ℕ → Option A
  parse_item item = let t = trim item in if is_empty t then none else parse t

  unfoldable pub parse_items : List (List ℕ) → List A
  parse_items [] = []
  parse_items (item ∷ items) = elim (parse_item item) [
    | none ↦ parse_items items
    | some a ↦ a ∷ parse_items items
  ]

  unfoldable pub parse_list : Option (List ℕ) → List A
  parse_list none = []
  parse_list (some raw) = let (piece, pieces) = split b',' raw in parse_items (piece ∷ pieces)

-- `.max(0) as u32`
unfoldable pub as_limit : ℤ → ℕ
as_limit (pos n) = n % 2 ^ 32
as_limit (negsuc n) = 0

module _ {F : Type 0} ⦃f : F64 F⦄ where
  unfoldable pub speed_limit : Option F → ℕ
  speed_limit mbits =
      let k = f.of_u64 1024 in
      f.to_u64 (
        f.div (f.mul (f.mul (f.fmax (unwrap_or mbits (f.of_u64 0)) (f.of_u64 0)) k) k) (f.of_u64 8))

  unfoldable pub from_user : (List ℕ → Option IpAddr) → PanelUser F → UserPolicy
  from_user parse_ip user = record {
    speed_limit_bps = speed_limit user.node_speedlimit;
    conn_limit = as_limit (unwrap_or user.node_connector (pos 0));
    forbidden_ips = parse_list (parse_cidr parse_ip) user.forbidden_ip;
    forbidden_ports = parse_list parse_port_range user.forbidden_port;
  }
