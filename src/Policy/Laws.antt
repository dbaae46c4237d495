-- ===== src/Policy/Laws.antt =====
-- src/policy.rs: which addresses a block contains, and which users need an entry.
use sspanel_ssr_rust_backend.Base.{
  ℕ, zero, suc, ◌*◌, ◌-◌, ◌/◌, ◌%◌, ◌^◌, ◌≤◌, ◌<◌, ◌≡◌, ◌↔◌, refl, sym, ◌∙◌, ap, true, false, ◌==◌,
  ==_iff, bit_and, some, arith,
}
use sspanel_ssr_rust_backend.Base.Bits.{passes_below, passes_below_sound}
use sspanel_ssr_rust_backend.Base.Masks.{pow2, ones, mask, bit_and-mask, shift_right_lem}
use sspanel_ssr_rust_backend.Net.{IpAddr, v4, v6, to_ipv4_mapped, to_ipv6_mapped}
use sspanel_ssr_rust_backend.Policy.{Cidr, v4_in, v6_in, contains, contains_by}

masks_32 : passes_below (λ k. (2 ^ 32 - 1) * 2 ^ k % 2 ^ 32 == mask 32 k) 32 ≡ true
unfolding passes_below mask ones
masks_32 = refl

masks_128 : passes_below (λ k. (2 ^ 128 - 1) * 2 ^ k % 2 ^ 128 == mask 128 k) 128 ≡ true
unfolding passes_below mask ones
masks_128 = refl

-- `MAX << k` is the mask whose last k bits are 0.
mask_32 : (k : ℕ) → k < 32 → (2 ^ 32 - 1) * 2 ^ k % 2 ^ 32 ≡ mask 32 k
mask_32 k h =
    (==_iff _ _).0
      (passes_below_sound (λ k. (2 ^ 32 - 1) * 2 ^ k % 2 ^ 32 == mask 32 k) 32 k masks_32 h)

mask_128 : (k : ℕ) → k < 128 → (2 ^ 128 - 1) * 2 ^ k % 2 ^ 128 ≡ mask 128 k
mask_128 k h =
    (==_iff _ _).0
      (passes_below_sound (λ k. (2 ^ 128 - 1) * 2 ^ k % 2 ^ 128 == mask 128 k) 128 k masks_128 h)

pow2_32 : pow2 32 ≡ 2 ^ 32
unfolding pow2
pow2_32 = refl

pow2_128 : pow2 128 ≡ 2 ^ 128
unfolding pow2
pow2_128 = refl

-- Equal under the mask is equal after the division.
masked_iff :
    (w k m x y : ℕ)
    → k ≤ w
    → x < pow2 w
    → y < pow2 w
    → m ≡ mask w k
    → ((bit_and x m == bit_and y m) ≡ true) ↔ (x / 2 ^ k ≡ y / 2 ^ k)
masked_iff w k m x y h hx hy is =
    let same = bit_and-mask w k x y h hx hy in
    let tested = ==_iff (bit_and x m) (bit_and y m) in
    (
      λ e.
          sym (shift_right_lem x k)
          ∙ same.0 (ap (bit_and x) (sym is) ∙ tested.0 e ∙ ap (bit_and y) is)
          ∙ shift_right_lem y k,
      λ e. tested.1 (
          ap (bit_and x) is
          ∙ same.1 (shift_right_lem x k ∙ e ∙ sym (shift_right_lem y k))
          ∙ ap (bit_and y) (sym is)),
    )

positive : (p : ℕ) → (suc p == 0) ≡ false
positive p = ground arith

v4_in-suc :
    (base ip p : ℕ)
    → v4_in base ip (suc p) ≡ (
        bit_and base ((2 ^ 32 - 1) * 2 ^ (32 - suc p) % 2 ^ 32)
        == bit_and ip ((2 ^ 32 - 1) * 2 ^ (32 - suc p) % 2 ^ 32))
unfolding v4_in
v4_in-suc base ip p = rw (positive p) refl

-- `v4_in` holds exactly when the two addresses agree in their first `prefix` bits, that is, after
-- the division by 2 to the number of the other bits. The addresses are 32-bit words and the prefix
-- is at most 32, with 0 included.
pub v4_in_iff :
    (base ip prefix : ℕ)
    → base < 2 ^ 32
    → ip < 2 ^ 32
    → prefix ≤ 32
    → (v4_in base ip prefix ≡ true) ↔ (base / 2 ^ (32 - prefix) ≡ ip / 2 ^ (32 - prefix))
v4_in_iff base ip zero hb hi hp = (λ _. omega arith, λ _. unfold v4_in in refl)
v4_in_iff base ip (suc p) hb hi hp = rw (v4_in-suc base ip p) (
    masked_iff 32 (32 - suc p) ((2 ^ 32 - 1) * 2 ^ (32 - suc p) % 2 ^ 32) base ip (omega arith)
      (omega (arith, pow2_32)) (omega (arith, pow2_32)) (mask_32 (32 - suc p) (omega arith)))

v6_in-suc :
    (base ip p : ℕ)
    → v6_in base ip (suc p) ≡ (
        bit_and base ((2 ^ 128 - 1) * 2 ^ (128 - suc p) % 2 ^ 128)
        == bit_and ip ((2 ^ 128 - 1) * 2 ^ (128 - suc p) % 2 ^ 128))
unfolding v6_in
v6_in-suc base ip p = rw (positive p) refl

-- The same of `v6_in`, for 128-bit words and a prefix of at most 128.
pub v6_in_iff :
    (base ip prefix : ℕ)
    → base < 2 ^ 128
    → ip < 2 ^ 128
    → prefix ≤ 128
    → (v6_in base ip prefix ≡ true) ↔ (base / 2 ^ (128 - prefix) ≡ ip / 2 ^ (128 - prefix))
v6_in_iff base ip zero hb hi hp = (λ _. omega arith, λ _. unfold v6_in in refl)
v6_in_iff base ip (suc p) hb hi hp = rw (v6_in-suc base ip p) (
    masked_iff 128 (128 - suc p) ((2 ^ 128 - 1) * 2 ^ (128 - suc p) % 2 ^ 128) base ip (omega arith)
      (omega (arith, pow2_128)) (omega (arith, pow2_128)) (mask_128 (128 - suc p) (omega arith)))

mapped : (ip : ℕ) → ip < 2 ^ 32 → to_ipv4_mapped (to_ipv6_mapped ip) ≡ some ip
unfolding to_ipv4_mapped to_ipv6_mapped
mapped ip h = ground arith

contains_by_mapped :
    (base : IpAddr) (ip prefix : ℕ)
    → ip < 2 ^ 32
    → contains_by base (v6 (to_ipv6_mapped ip)) prefix ≡ contains_by base (v4 ip) prefix
unfolding contains_by
contains_by_mapped (v4 base) ip prefix h = rw (mapped ip h, contains_by) refl
contains_by_mapped (v6 base) ip prefix h = refl

-- A block treats an IPv4 address and its mapped IPv6 form alike, whatever family its own base has.
pub contains_mapped :
    (cidr : Cidr) (ip : ℕ)
    → ip < 2 ^ 32
    → contains cidr (v6 (to_ipv6_mapped ip)) ≡ contains cidr (v4 ip)
unfolding contains
contains_mapped cidr ip h = contains_by_mapped cidr.base ip cidr.prefix h
