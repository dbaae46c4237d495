-- ===== src/Policy.antt =====
-- src/policy.rs: the controls on what a user may reach.
pub mod Laws
pub mod Parse
pub mod Ranges
use sspanel_ssr_rust_backend.Base.{
  ℕ, ◌-◌, ◌*◌, ◌%◌, ◌^◌, Bool, true, false, ◌&&◌, ◌||◌, not, none, some, List, [], ◌∷◌, ltb, leb,
  ◌==◌, if◌then◌else◌, bit_and,
}
use sspanel_ssr_rust_backend.Text.{is_empty}
use sspanel_ssr_rust_backend.Net.{IpAddr, v4, v6, to_ipv4_mapped, to_ipv6_mapped}

pub record EnforcementConfig : Type 0 where
  pub forbidden : Bool
  pub conn_limit_on : Bool
  pub audit_block : Bool
  pub speed : Bool

pub record Cidr : Type 0 where
  pub base : IpAddr
  pub prefix : ℕ

-- `u32::MAX << (32 - prefix)`: a shift keeps the lowest 32 bits.
unfoldable pub v4_in : ℕ → ℕ → ℕ → Bool
v4_in base ip prefix =
    let mask = (2 ^ 32 - 1) * 2 ^ (32 - prefix) % 2 ^ 32 in
    if prefix == 0 then true else bit_and base mask == bit_and ip mask

unfoldable pub v6_in : ℕ → ℕ → ℕ → Bool
v6_in base ip prefix =
    let mask = (2 ^ 128 - 1) * 2 ^ (128 - prefix) % 2 ^ 128 in
    if prefix == 0 then true else bit_and base mask == bit_and ip mask

-- `Cidr::contains`
unfoldable pub contains_by : IpAddr → IpAddr → ℕ → Bool
contains_by (v4 base) (v4 ip) prefix = v4_in base ip prefix
contains_by (v6 base) (v6 ip) prefix = v6_in base ip prefix
contains_by (v4 base) (v6 ip) prefix = elim (to_ipv4_mapped ip) [
  | some ip4 ↦ v4_in base ip4 prefix
  | none ↦ false
]
contains_by (v6 base) (v4 ip) prefix = v6_in base (to_ipv6_mapped ip) prefix

unfoldable pub contains : Cidr → IpAddr → Bool
unfolding contains_by
contains cidr ip = contains_by cidr.base ip cidr.prefix

pub record PortRange : Type 0 where
  pub start : ℕ
  pub end : ℕ

-- `PortRange::contains`
unfoldable pub in_range : PortRange → ℕ → Bool
in_range range port = leb range.start port && leb port range.end

pub record UserPolicy : Type 0 where
  pub speed_limit_bps : ℕ
  pub conn_limit : ℕ
  pub forbidden_ips : List Cidr
  pub forbidden_ports : List PortRange

unfoldable pub is_unrestricted : UserPolicy → Bool
is_unrestricted p =
    p.speed_limit_bps == 0
    && p.conn_limit == 0
    && is_empty p.forbidden_ips
    && is_empty p.forbidden_ports

unfoldable pub needs_connection_policy : UserPolicy → Bool
needs_connection_policy p =
    ltb 0 p.conn_limit || not (is_empty p.forbidden_ips) || not (is_empty p.forbidden_ports)

-- `iter().any(..)`
unfoldable pub any {ℓ} : {A : Type ℓ} → (A → Bool) → List A → Bool
any p [] = false
any p (x ∷ xs) = p x || any p xs

unfoldable pub port_forbidden : UserPolicy → ℕ → Bool
port_forbidden p port = any (λ r. in_range r port) p.forbidden_ports

unfoldable pub ip_forbidden : UserPolicy → IpAddr → Bool
ip_forbidden p ip = any (λ c. contains c ip) p.forbidden_ips

unfoldable pub has_forbidden_ip : UserPolicy → Bool
has_forbidden_ip p = not (is_empty p.forbidden_ips)
