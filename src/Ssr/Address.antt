-- ===== src/Ssr/Address.antt =====
-- src/ssr/address.rs: the SOCKS5-style address header.
pub mod Parse
use sspanel_ssr_rust_backend.Base.{
  ℕ, ◌+◌, ◌*◌, ◌%◌, Option, none, some, List, [], ◌∷◌, ◌++◌, length, slice, get_or, ltb, ◌==◌,
  if◌then◌else◌, bit_and, Result, Error, ok, err,
}
use sspanel_ssr_rust_backend.Base.Bytes.{from_u16_be, u16_be_bytes}
use sspanel_ssr_rust_backend.Net.{IpAddr, v4, v6, show_v4, show_v6, is_utf8, be_bytes, from_be}

-- A `String` is its UTF-8 bytes.
pub record Address : Type 0 where
  pub host : List ℕ
  pub port : ℕ

unfoldable pub connect_target : Address → List ℕ × ℕ
connect_target a = (a.host, a.port)

-- The arms of the `match`, each on the whole buffer.
unfoldable pub parse_ipv4 : List ℕ → Result (Option (Address × ℕ))
parse_ipv4 buf =
    if ltb (length buf) 7
    then ok none
    else ok (
        some (
          record { host = show_v4 (from_be (slice buf 1 5)); port = from_u16_be (slice buf 5 7) },
          7,
        ))

unfoldable pub parse_domain : List ℕ → Result (Option (Address × ℕ))
parse_domain buf =
    let dlen = get_or buf 1 0 in
    let host = slice buf 2 (2 + dlen) in
    if ltb (length buf) 2
    then ok none
    else if ltb (length buf) (2 + dlen + 2)
    then ok none
    else if is_utf8 host
    then ok (
        some (
          record { host = host; port = from_u16_be (slice buf (2 + dlen) (2 + dlen + 2)) },
          2 + dlen + 2,
        ))
    else err Error.non_utf8_domain

unfoldable pub parse_ipv6 : List ℕ → Result (Option (Address × ℕ))
parse_ipv6 buf =
    if ltb (length buf) 19
    then ok none
    else ok (
        some (
          record {
            host = show_v6 (from_be (slice buf 1 17));
            port = from_u16_be (slice buf 17 19);
          },
          19,
        ))

-- `buf[0] & !0x08`
unfoldable pub atyp : ℕ → ℕ
atyp first = bit_and first 0xf7

unfoldable pub parse : List ℕ → Result (Option (Address × ℕ))
parse [] = ok none
parse (first ∷ rest) =
    let kind = atyp first in
    if kind == 0x01
    then parse_ipv4 (first ∷ rest)
    else if kind == 0x03
    then parse_domain (first ∷ rest)
    else if kind == 0x04
    then parse_ipv6 (first ∷ rest)
    else err Error.unsupported_atyp

unfoldable pub pack_socket_addr : IpAddr → ℕ → List ℕ
pack_socket_addr (v4 ip) port = 0x01 ∷ (be_bytes 4 ip ++ u16_be_bytes port)
pack_socket_addr (v6 ip) port = 0x04 ∷ (be_bytes 16 ip ++ u16_be_bytes port)
