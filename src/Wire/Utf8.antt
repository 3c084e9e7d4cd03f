-- ===== src/Wire/Utf8.antt =====
-- The standard library's unicode/utf8, as far as the codec uses it: the number of bytes that
-- DecodeRune takes, and RuneCountInString.
use sofarpc_cli.Prelude.{
  All, Bool, Bytes, List, [], ap, arith, drop, drop-append, false, if◌then◌else◌, leb, length,
  length-append, ltb, not, refl, suc, true, zero, ℕ, ◌&&◌, ◌++◌, ◌+◌, ◌<◌, ◌==◌, ◌∷◌, ◌≡◌, ◌≤◌,
}
use sofarpc_cli.Prelude.BigEndian.{byte_at}

-- How long the encoding is that a first byte announces; 1 for ASCII and for an invalid byte.
unfoldable pub seq_len : ℕ → ℕ
seq_len b =
    if ltb b 0xc2
    then 1
    else if ltb b 0xe0
    then 2
    else if ltb b 0xf0
    then 3
    else if ltb b 0xf5
    then 4
    else 1

-- the range of the second byte
abbrev second_ok : ℕ → ℕ → Bool
second_ok a b =
    if a == 0xe0
    then leb 0xa0 b && leb b 0xbf
    else if a == 0xed
    then leb 0x80 b && leb b 0x9f
    else if a == 0xf0
    then leb 0x90 b && leb b 0xbf
    else if a == 0xf4
    then leb 0x80 b && leb b 0x8f
    else leb 0x80 b && leb b 0xbf

abbrev is_continuation : ℕ → Bool
is_continuation b = leb 0x80 b && leb b 0xbf

-- The second result of DecodeRune: 1 for an encoding that is not valid.
unfoldable pub rune_size : Bytes → ℕ
rune_size [] = 0
rune_size (a ∷ bs) =
    if ltb (length bs + 1) (seq_len a)
    then 1
    else if seq_len a == 1
    then 1
    else if not (second_ok a (byte_at 0 bs))
    then 1
    else if seq_len a == 2
    then 2
    else if not (is_continuation (byte_at 1 bs))
    then 1
    else if seq_len a == 3
    then 3
    else if not (is_continuation (byte_at 2 bs))
    then 1
    else 4

unfoldable pub count_runes : ℕ → Bytes → ℕ
count_runes zero bs = 0
count_runes (suc fuel) [] = 0
count_runes (suc fuel) (b ∷ bs) = suc (count_runes fuel (drop (rune_size (b ∷ bs)) (b ∷ bs)))

-- Each rune takes a byte at least.
unfoldable pub rune_count : Bytes → ℕ
rune_count bs = count_runes (length bs) bs

-- One well-formed encoding.
unfoldable pub is_rune : Bytes → Bool
is_rune [] = false
is_rune (a ∷ []) = ltb a 0x80
is_rune (a ∷ b ∷ []) = seq_len a == 2 && second_ok a b
is_rune (a ∷ b ∷ c ∷ []) = seq_len a == 3 && (second_ok a b && is_continuation c)
is_rune (a ∷ b ∷ c ∷ d ∷ []) =
    seq_len a == 4 && (second_ok a b && (is_continuation c && is_continuation d))
is_rune _ = false

abbrev pub AreRunes : List Bytes → Type 0
AreRunes rs = All (λ r. is_rune r ≡ true) rs

abbrev pub concat : List Bytes → Bytes
concat [] = []
concat (r ∷ rs) = r ++ concat rs

-- A well-formed encoding is taken whole, whatever follows.
pub rune_size-append :
    (r rest : Bytes) → is_rune r ≡ true → (rune_size (r ++ rest) ≡ length r) × (0 < length r)
unfolding rune_size is_rune byte_at
rune_size-append [] rest h = cc
rune_size-append (a ∷ []) rest h = unfold seq_len in ground arith
rune_size-append (a ∷ b ∷ []) rest h = ground arith
rune_size-append (a ∷ b ∷ c ∷ []) rest h = ground arith
rune_size-append (a ∷ b ∷ c ∷ d ∷ []) rest h = ground arith
rune_size-append (a ∷ b ∷ c ∷ d ∷ e ∷ r) rest h = cc

pub cons_of : (r rest : Bytes) → 0 < length r → (b : ℕ) × (bs : Bytes) × (r ++ rest ≡ b ∷ bs)
cons_of [] rest h = absurd (omega arith)
cons_of (b ∷ bs) rest h = (b, bs ++ rest, refl)

pub count_runes-concat :
    (fuel : ℕ) (rs : List Bytes)
    → AreRunes rs
    → length (concat rs) ≤ fuel
    → count_runes fuel (concat rs) ≡ length rs
unfolding count_runes
count_runes-concat zero [] h l = refl
count_runes-concat (suc fuel) [] h l = refl
count_runes-concat zero (r ∷ rs) (hr, h) l =
    absurd (omega (arith, rune_size-append r [] hr, length-append r (concat rs)))
count_runes-concat (suc fuel) (r ∷ rs) (hr, h) l =
    let (size, some_bytes) = rune_size-append r (concat rs) hr in
    let (b, bs, e) = cons_of r (concat rs) some_bytes in
    rw e (
      rw (← e) (
        rw (size, drop-append r (concat rs))
          (ap suc (count_runes-concat fuel rs h (omega (arith, length-append r (concat rs)))))))
