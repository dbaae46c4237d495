-- ===== src/Net.antt =====
-- The parts of std::net and std::str that the code uses: IP addresses, how they print, and UTF-8.
use sspanel_ssr_rust_backend.Base.{
  ℕ, zero, suc, ◌+◌, ◌-◌, ◌*◌, ◌/◌, ◌%◌, ◌^◌, Bool, true, false, ◌&&◌, Option, none, some, List, [],
  ◌∷◌, ◌++◌, ltb, leb, ◌==◌, if◌then◌else◌, take, drop, Eq, ◌↔◌, ◌≡◌, arith,
}

-- `Ipv4Addr` as its `u32`, `Ipv6Addr` as its `u128`.
pub data IpAddr : Type 0 where
  v4 : ℕ → IpAddr
  v6 : ℕ → IpAddr

-- `to_be_bytes` of a word of `n` bytes, and `from_be_bytes`.
unfoldable pub be_bytes : ℕ → ℕ → List ℕ
be_bytes zero w = []
be_bytes (suc n) w = be_bytes n (w / 256) ++ (w % 256 ∷ [])

unfoldable pub from_be_onto : ℕ → List ℕ → ℕ
from_be_onto acc [] = acc
from_be_onto acc (b ∷ bs) = from_be_onto (acc * 256 + b) bs

unfoldable pub from_be : List ℕ → ℕ
unfolding from_be_onto
from_be = from_be_onto 0

-- The decimal digits of a byte.
unfoldable pub show_byte : ℕ → List ℕ
show_byte b =
    if ltb b 10
    then (b'0' + b) ∷ []
    else if ltb b 100
    then (b'0' + b / 10) ∷ (b'0' + b % 10) ∷ []
    else (b'0' + b / 100) ∷ (b'0' + b / 10 % 10) ∷ (b'0' + b % 10) ∷ []

unfoldable pub join : ℕ → List (List ℕ) → List ℕ
join sep [] = []
join sep (x ∷ []) = x
join sep (x ∷ y ∷ ys) = x ++ (sep ∷ join sep (y ∷ ys))

unfoldable pub show_all : (ℕ → List ℕ) → List ℕ → List (List ℕ)
show_all f [] = []
show_all f (x ∷ xs) = f x ∷ show_all f xs

-- `Ipv4Addr`'s `Display`.
unfoldable pub show_v4 : ℕ → List ℕ
unfolding be_bytes show_byte join show_all
show_v4 w = join b'.' (show_all show_byte (be_bytes 4 w))

unfoldable pub hex_digit : ℕ → ℕ
hex_digit d = if ltb d 10 then b'0' + d else b'a' + (d - 10)

-- `{:x}` of a `u16`.
unfoldable pub show_hex : ℕ → List ℕ
unfolding hex_digit
show_hex s =
    if ltb s 16
    then hex_digit s ∷ []
    else if ltb s 256
    then hex_digit (s / 16) ∷ hex_digit (s % 16) ∷ []
    else if ltb s 4096
    then hex_digit (s / 256) ∷ hex_digit (s / 16 % 16) ∷ hex_digit (s % 16) ∷ []
    else hex_digit (s / 4096)
      ∷ hex_digit (s / 256 % 16)
      ∷ hex_digit (s / 16 % 16)
      ∷ hex_digit (s % 16)
      ∷ []

unfoldable pub segments : ℕ → ℕ → List ℕ
segments zero w = []
segments (suc n) w = segments n (w / 65536) ++ (w % 65536 ∷ [])

-- The first longest run of zero segments, as (start, length).
unfoldable pub longest_zeros : ℕ → List ℕ → ℕ × ℕ → ℕ × ℕ → ℕ × ℕ
longest_zeros i [] current longest = longest
longest_zeros i (s ∷ ss) (start, len) longest =
    let current = if s == 0 then (if len == 0 then i else start, len + 1) else (0, 0) in
    longest_zeros (i + 1) ss current (if ltb longest.1 current.1 then current else longest)

-- `Ipv6Addr::to_ipv4_mapped`: ::ffff:a.b.c.d
unfoldable pub to_ipv4_mapped : ℕ → Option ℕ
to_ipv4_mapped w = if w / 2 ^ 32 == 0xffff then some (w % 2 ^ 32) else none

-- `Ipv4Addr::to_ipv6_mapped`
unfoldable pub to_ipv6_mapped : ℕ → ℕ
to_ipv6_mapped w = 0xffff * 2 ^ 32 + w

-- `Ipv6Addr`'s `Display`.
unfoldable pub show_v6 : ℕ → List ℕ
unfolding to_ipv4_mapped show_v4 show_hex segments longest_zeros
show_v6 w =
    let groups = segments 8 w in
    let (start, len) = longest_zeros 0 groups (0, 0) (0, 0) in
    elim (to_ipv4_mapped w) [
      | some ip4 ↦ b':' ∷ b':' ∷ b'f' ∷ b'f' ∷ b'f' ∷ b'f' ∷ b':' ∷ show_v4 ip4
      | none ↦
          if ltb 1 len
          then join b':' (show_all show_hex (take start groups))
            ++ (b':' ∷ b':' ∷ join b':' (show_all show_hex (drop (start + len) groups)))
          else join b':' (show_all show_hex groups)
    ]

-- `IpAddr::to_string`
unfoldable pub show_ip : IpAddr → List ℕ
unfolding show_v4 show_v6
show_ip (v4 w) = show_v4 w
show_ip (v6 w) = show_v6 w

abbrev pub IpAddr_beq : IpAddr → IpAddr → Bool
IpAddr_beq (v4 a) (v4 b) = a == b
IpAddr_beq (v6 a) (v6 b) = a == b
IpAddr_beq _ _ = false

pub IpAddr_beq_iff : (a b : IpAddr) → (IpAddr_beq a b ≡ true) ↔ (a ≡ b)
IpAddr_beq_iff a b = ground arith

instance abbrev pub IpAddr_eq : Eq IpAddr
IpAddr_eq = record { beq = IpAddr_beq; beq_iff = IpAddr_beq_iff }

-- The continuation bytes that a lead byte of UTF-8 wants, as ranges.
abbrev cont : ℕ × ℕ
cont = (0x80, 0xbf)

abbrev pub within : ℕ → ℕ × ℕ → Bool
within b (lo, hi) = leb lo b && leb b hi

unfoldable pub utf8_lead : ℕ → Option (List (ℕ × ℕ))
utf8_lead b =
    if ltb b 0x80
    then some []
    else if within b (0xc2, 0xdf)
    then some (cont ∷ [])
    else if b == 0xe0
    then some ((0xa0, 0xbf) ∷ cont ∷ [])
    else if b == 0xed
    then some ((0x80, 0x9f) ∷ cont ∷ [])
    else if within b (0xe1, 0xef)
    then some (cont ∷ cont ∷ [])
    else if b == 0xf0
    then some ((0x90, 0xbf) ∷ cont ∷ cont ∷ [])
    else if within b (0xf1, 0xf3)
    then some (cont ∷ cont ∷ cont ∷ [])
    else if b == 0xf4
    then some ((0x80, 0x8f) ∷ cont ∷ cont ∷ [])
    else none

unfoldable pub utf8_from : List (ℕ × ℕ) → List ℕ → Bool
utf8_from [] [] = true
utf8_from (r ∷ rs) [] = false
utf8_from (r ∷ rs) (b ∷ bs) = within b r && utf8_from rs bs
utf8_from [] (b ∷ bs) = elim (utf8_lead b) [ none ↦ false | some rs ↦ utf8_from rs bs ]

-- Whether `std::str::from_utf8` succeeds.
unfoldable pub is_utf8 : List ℕ → Bool
unfolding utf8_from utf8_lead
is_utf8 = utf8_from []

-- `SocketAddr`, and its `Display` without a scope id.
pub record SocketAddr : Type 0 where
  pub ip : IpAddr
  pub port : ℕ

-- The decimal digits of a number, most significant first, on fuel.
unfoldable pub show_decimal : ℕ → ℕ → List ℕ
show_decimal zero n = []
show_decimal (suc fuel) n =
    let front = show_decimal fuel (n / 10) in
    if ltb n 10 then (b'0' + n) ∷ [] else front ++ ((b'0' + n % 10) ∷ [])

unfoldable pub show_socket : SocketAddr → List ℕ
unfolding show_v4 show_v6 show_decimal
show_socket a = elim a.ip [
  | v4 w ↦ show_v4 w ++ (b':' ∷ show_decimal 5 a.port)
  | v6 w ↦ (b'[' ∷ show_v6 w) ++ (b']' ∷ b':' ∷ show_decimal 5 a.port)
]

abbrev pub SocketAddr_beq : SocketAddr → SocketAddr → Bool
SocketAddr_beq a b = IpAddr_beq a.ip b.ip && a.port == b.port

pub SocketAddr_beq_iff : (a b : SocketAddr) → (SocketAddr_beq a b ≡ true) ↔ (a ≡ b)
SocketAddr_beq_iff a b = ground arith

instance abbrev pub SocketAddr_eq : Eq SocketAddr
SocketAddr_eq = record { beq = SocketAddr_beq; beq_iff = SocketAddr_beq_iff }
