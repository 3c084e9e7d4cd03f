-- ===== src/Prelude/TrimSpace.antt =====
-- `strings.TrimSpace`: the white space of Unicode, in UTF-8, off both ends.
pub mod Idempotent
use sofarpc_cli.Prelude.{
  Bool, Bytes, [], codes, drop, if◌then◌else◌, leb, length, refl, reverse, suc, zero, ℕ, ◌&&◌, ◌==◌,
  ◌||◌, ◌∷◌, ◌≡◌,
}

-- The encodings of two and three bytes: U+0085 and U+00A0; U+1680, U+2000 to U+200A, U+2028,
-- U+2029, U+202F, U+205F and U+3000.
abbrev is_space_two : ℕ → ℕ → Bool
is_space_two a b = a == 0xc2 && (b == 0x85 || b == 0xa0)

abbrev is_space_three : ℕ → ℕ → ℕ → Bool
is_space_three a b c =
    (a == 0xe1 && (b == 0x9a && c == 0x80))
    || (a == 0xe2
        && ((b == 0x80 && ((leb 0x80 c && leb c 0x8a) || (c == 0xa8 || (c == 0xa9 || c == 0xaf))))
            || (b == 0x81 && c == 0x9f)))
    || (a == 0xe3 && (b == 0x80 && c == 0x80))

abbrev is_space_one : ℕ → Bool
is_space_one a = (leb 9 a && leb a 13) || a == 32

-- How many bytes of white space the text begins with: one character's, or none. The second
-- function reads a text that is turned round.
unfoldable pub leading_space : Bytes → ℕ
leading_space [] = 0
leading_space (a ∷ []) = if is_space_one a then 1 else 0
leading_space (a ∷ b ∷ []) = if is_space_one a then 1 else if is_space_two a b then 2 else 0
leading_space (a ∷ b ∷ c ∷ bs) =
    if is_space_one a
    then 1
    else if is_space_two a b
    then 2
    else if is_space_three a b c
    then 3
    else 0

unfoldable pub trailing_space : Bytes → ℕ
trailing_space [] = 0
trailing_space (a ∷ []) = if is_space_one a then 1 else 0
trailing_space (a ∷ b ∷ []) = if is_space_one a then 1 else if is_space_two b a then 2 else 0
trailing_space (a ∷ b ∷ c ∷ bs) =
    if is_space_one a
    then 1
    else if is_space_two b a
    then 2
    else if is_space_three c b a
    then 3
    else 0

-- Each round takes a byte at least.
unfoldable pub drop_spaces : (Bytes → ℕ) → ℕ → Bytes → Bytes
drop_spaces size zero bs = bs
drop_spaces size (suc fuel) bs =
    let rest = drop_spaces size fuel (drop (size bs) bs) in if size bs == 0 then bs else rest

unfoldable pub trim_space : Bytes → Bytes
unfolding drop_spaces leading_space trailing_space
trim_space s =
    let left = drop_spaces leading_space (length s) s in
    reverse (drop_spaces trailing_space (length left) (reverse left))

trims : trim_space (codes " \t bolt \n") ≡ codes "bolt"
unfolding trim_space
trims = refl
