-- ===== src/Ssr/Address/Parse.antt =====
-- src/ssr/address.rs: what `parse` reads.
use sspanel_ssr_rust_backend.Base.{
  ℕ, zero, suc, ◌+◌, ◌*◌, ◌/◌, ◌%◌, ◌^◌, ◌≤◌, ◌<◌, ◌≡◌, refl, ◌∙◌, ap, true, some, List, [], ◌∷◌,
  ◌++◌, arith, length, length-append, slice, slice-append, slice_middle, get_or, get_or-append,
  Error, ok, err, append_assoc,
}
use native.Mathlib.Nat.{pow-suc}
use sspanel_ssr_rust_backend.Base.Bytes.{from_u16_be, u16_be_bytes, from_u16_be-u16_be_bytes}
use sspanel_ssr_rust_backend.Net.{
  IpAddr, v4, v6, show_ip, show_v6, is_utf8, be_bytes, from_be, from_be_onto,
}
use sspanel_ssr_rust_backend.Ssr.Address.{
  Address, parse_ipv4, parse_domain, parse_ipv6, atyp, parse, pack_socket_addr,
}

-- A header that was parsed lies in the buffer, and more bytes behind it do not change it.
pub parse-append_some :
    (buf more : List ℕ) (a : Address) (n : ℕ)
    → parse buf ≡ ok (some (a, n))
    → (n ≤ length buf) × (parse (buf ++ more) ≡ ok (some (a, n)))
unfolding parse parse_ipv4 parse_domain parse_ipv6
parse-append_some [] more a n e = absurd (ground arith)
parse-append_some (x ∷ xs) more a n e =
    let buf = x ∷ xs in
    ground (
      arith,
      length-append buf more,
      slice-append buf more 1 5,
      slice-append buf more 5 7,
      get_or-append buf more 1 0,
      slice-append buf more 2 (2 + get_or buf 1 0),
      slice-append buf more (2 + get_or buf 1 0) (2 + get_or buf 1 0 + 2),
      slice-append buf more 1 17,
      slice-append buf more 17 19,
    )

-- A buffer that `parse` refuses is refused with the same error when more bytes follow.
pub parse-append_err :
    (buf more : List ℕ) (x : Error) → parse buf ≡ err x → parse (buf ++ more) ≡ err x
unfolding parse parse_ipv4 parse_domain parse_ipv6
parse-append_err [] more x e = absurd (ground arith)
parse-append_err (y ∷ ys) more x e =
    let buf = y ∷ ys in
    ground (
      arith,
      length-append buf more,
      get_or-append buf more 1 0,
      slice-append buf more 2 (2 + get_or buf 1 0),
    )

length-be_bytes : (n w : ℕ) → length (be_bytes n w) ≡ n
unfolding be_bytes
length-be_bytes zero w = refl
length-be_bytes (suc n) w =
    omega (arith, length-append (be_bytes n (w / 256)) (w % 256 ∷ []), length-be_bytes n (w / 256))

from_be_onto-append :
    (acc : ℕ) (xs : List ℕ) (b : ℕ)
    → from_be_onto acc (xs ++ (b ∷ [])) ≡ from_be_onto acc xs * 256 + b
unfolding from_be_onto
from_be_onto-append acc [] b = refl
from_be_onto-append acc (x ∷ xs) b = from_be_onto-append (acc * 256 + x) xs b

-- `from_be_bytes` undoes `to_be_bytes`.
from_be-be_bytes : (n w : ℕ) → w < 256 ^ n → from_be (be_bytes n w) ≡ w
unfolding be_bytes from_be
from_be-be_bytes zero w h = omega arith
from_be-be_bytes (suc n) w h =
    from_be_onto-append 0 (be_bytes n (w / 256)) (w % 256)
    ∙ rw (from_be-be_bytes n (w / 256) (omega (arith, pow-suc 256 n))) (omega arith)

length-u16_be_bytes : (n : ℕ) → length (u16_be_bytes n) ≡ 2
unfolding u16_be_bytes
length-u16_be_bytes n = refl

-- The fields of a header: address bytes, then the port, then the payload.
module _ (kind n w port : ℕ) (payload : List ℕ) where
  abbrev header : List ℕ
  header = kind ∷ (be_bytes n w ++ u16_be_bytes port) ++ payload

  split_header : header ≡ (kind ∷ []) ++ (be_bytes n w ++ (u16_be_bytes port ++ payload))
  split_header = ap (◌∷◌ kind) (append_assoc (be_bytes n w) (u16_be_bytes port) payload)

  length-header : length header ≡ n + 3 + length payload
  length-header = omega (
    arith,
    length-append (be_bytes n w ++ u16_be_bytes port) payload,
    length-append (be_bytes n w) (u16_be_bytes port),
    length-be_bytes n w,
    length-u16_be_bytes port,
  )

  header_address : slice header 1 (n + 1) ≡ be_bytes n w
  header_address = rw split_header (
      slice_middle (kind ∷ []) (be_bytes n w) (u16_be_bytes port ++ payload) 1 (n + 1) refl
        (omega (arith, length-be_bytes n w)))

  header_port : slice header (n + 1) (n + 3) ≡ u16_be_bytes port
  header_port =
      ap (λ l. slice l (n + 1) (n + 3)) split_header
      ∙ slice_middle (kind ∷ be_bytes n w) (u16_be_bytes port) payload (n + 1) (n + 3)
          (omega (arith, length-be_bytes n w)) (omega (arith, length-u16_be_bytes port))

parse_v4 :
    (ip port : ℕ) (payload : List ℕ)
    → ip < 2 ^ 32
    → port < 65536
    → parse (pack_socket_addr (v4 ip) port ++ payload)
      ≡ ok (some (record { host = show_ip (v4 ip); port = port }, 7))
unfolding parse pack_socket_addr atyp parse_ipv4 show_ip
parse_v4 ip port payload h k = ground (
  arith,
  length-header 1 4 ip port payload,
  header_address 1 4 ip port payload,
  header_port 1 4 ip port payload,
  from_be-be_bytes 4 ip h,
  from_u16_be-u16_be_bytes port k,
)

parse_ipv6_fields :
    (buf : List ℕ) (ip port : ℕ)
    → 19 ≤ length buf
    → from_be (slice buf 1 17) ≡ ip
    → from_u16_be (slice buf 17 19) ≡ port
    → parse_ipv6 buf ≡ ok (some (record { host = show_v6 ip; port = port }, 19))
unfolding parse_ipv6
parse_ipv6_fields buf ip port h a p = ground arith

parse_v6 :
    (ip port : ℕ) (payload : List ℕ)
    → ip < 2 ^ 128
    → port < 65536
    → parse (pack_socket_addr (v6 ip) port ++ payload)
      ≡ ok (some (record { host = show_v6 ip; port = port }, 19))
unfolding parse pack_socket_addr atyp
parse_v6 ip port payload h k =
    parse_ipv6_fields (header 4 16 ip port payload) ip port
      (omega (arith, length-header 4 16 ip port payload))
      (ap from_be (header_address 4 16 ip port payload) ∙ from_be-be_bytes 16 ip h)
      (ap from_u16_be (header_port 4 16 ip port payload) ∙ from_u16_be-u16_be_bytes port k)

length-pack_v4 : (ip port : ℕ) → 7 ≡ length (pack_socket_addr (v4 ip) port)
unfolding pack_socket_addr
length-pack_v4 ip port = omega (
  arith,
  length-append (be_bytes 4 ip) (u16_be_bytes port),
  length-be_bytes 4 ip,
  length-u16_be_bytes port,
)

length-pack_v6 : (ip port : ℕ) → 19 ≡ length (pack_socket_addr (v6 ip) port)
unfolding pack_socket_addr
length-pack_v6 ip port = omega (
  arith,
  length-append (be_bytes 16 ip) (u16_be_bytes port),
  length-be_bytes 16 ip,
  length-u16_be_bytes port,
)

-- An address in the range of its family.
abbrev pub IsIp : IpAddr → Type 0
IsIp (v4 ip) = ip < 2 ^ 32
IsIp (v6 ip) = ip < 2 ^ 128

-- The header that `pack_socket_addr` builds for an address of either family and a port is parsed as
-- that address, printed, and that port, whatever payload follows; the payload starts where `parse`
-- says.
pub parse-pack_socket_addr :
    (ip : IpAddr) (port : ℕ) (payload : List ℕ)
    → IsIp ip
    → port < 65536
    → parse (pack_socket_addr ip port ++ payload)
      ≡ ok (some (record { host = show_ip ip; port = port }, length (pack_socket_addr ip port)))
unfolding show_ip
parse-pack_socket_addr (v4 ip) port payload h k =
    rw (← length-pack_v4 ip port) (parse_v4 ip port payload h k)
parse-pack_socket_addr (v6 ip) port payload h k =
    rw (← length-pack_v6 ip port) (parse_v6 ip port payload h k)

-- A domain header: a length byte, the host in UTF-8, and the port.
unfoldable pub domain_header : List ℕ → ℕ → List ℕ
domain_header host port = 0x03 ∷ length host ∷ (host ++ u16_be_bytes port)

-- A domain header with a host in UTF-8 is parsed as that host and the port, whatever payload follows.
-- The port is below 65536; the payload starts behind the host's 4 bytes of framing.
pub parse-domain_header :
    (host : List ℕ) (port : ℕ) (payload : List ℕ)
    → is_utf8 host ≡ true
    → port < 65536
    → parse (domain_header host port ++ payload)
      ≡ ok (some (record { host = host; port = port }, length host + 4))
unfolding parse domain_header atyp parse_domain
parse-domain_header host port payload h k =
    let n = length host in
    let head : List ℕ = 0x03 ∷ n ∷ [] in
    let p = u16_be_bytes port in
    let split : (0x03 ∷ n ∷ (host ++ p)) ++ payload ≡ head ++ (host ++ (p ++ payload)) =
      ap (λ l. 0x03 ∷ n ∷ l) (append_assoc host p payload) in
    let host_at : slice ((0x03 ∷ n ∷ (host ++ p)) ++ payload) 2 (2 + n) ≡ host =
      rw split (slice_middle head host (p ++ payload) 2 (2 + n) refl refl) in
    let port_at : slice ((0x03 ∷ n ∷ (host ++ p)) ++ payload) (2 + n) (2 + n + 2) ≡ p = rw split (
      slice_middle (head ++ host) p payload (2 + n) (2 + n + 2) (omega arith)
        (omega (arith, length-u16_be_bytes port))) in
    ground (
      arith,
      host_at,
      port_at,
      length-append (host ++ p) payload,
      length-append host p,
      length-u16_be_bytes port,
      from_u16_be-u16_be_bytes port k,
    )
