-- ===== src/Text.antt =====
-- The part of std::str that the configuration and the panel rows use: `trim` on UTF-8 bytes.
use sspanel_ssr_rust_backend.Base.{
  ℕ, zero, suc, ◌-◌, Bool, true, false, ◌&&◌, ◌||◌, List, [], ◌∷◌, leb, ◌==◌, if◌then◌else◌,
}

unfoldable pub is_empty {ℓ} : {A : Type ℓ} → List A → Bool
is_empty [] = true
is_empty (x ∷ xs) = false

-- The number of bytes of the `White_Space` character in front, 0 if there is none.
unfoldable pub space_len : List ℕ → ℕ
space_len [] = 0
space_len (a ∷ []) = if leb 9 a && leb a 13 || a == 32 then 1 else 0
space_len (a ∷ b ∷ []) =
    if leb 9 a && leb a 13 || a == 32
    then 1
    else if a == 0xc2 && (b == 0x85 || b == 0xa0)
    then 2
    else 0
space_len (a ∷ b ∷ d ∷ _) =
    if leb 9 a && leb a 13 || a == 32
    then 1
    else if a == 0xc2 && (b == 0x85 || b == 0xa0)
    then 2
    else if a == 0xe1 && b == 0x9a && d == 0x80
    then 3
    else if a == 0xe2
        && b == 0x80
        && (leb 0x80 d && leb d 0x8a || d == 0xa8 || d == 0xa9 || d == 0xaf)
    then 3
    else if a == 0xe2 && b == 0x81 && d == 0x9f
    then 3
    else if a == 0xe3 && b == 0x80 && d == 0x80
    then 3
    else 0

-- Drops the given number of bytes, then every space in front.
unfoldable pub trim_from : ℕ → List ℕ → List ℕ
unfolding space_len
trim_from (suc skip) (b ∷ bs) = trim_from skip bs
trim_from zero (b ∷ bs) =
    let n = space_len (b ∷ bs) in let rest = trim_from (n - 1) bs in if n == 0 then b ∷ bs else rest
trim_from _ [] = []

unfoldable pub trim_end : List ℕ → List ℕ
unfolding trim_from is_empty
trim_end [] = []
trim_end (b ∷ bs) =
    let rest = trim_end bs in if is_empty (trim_from 0 (b ∷ bs)) then [] else b ∷ rest

unfoldable pub trim : List ℕ → List ℕ
unfolding trim_end
trim text = trim_end (trim_from 0 text)
