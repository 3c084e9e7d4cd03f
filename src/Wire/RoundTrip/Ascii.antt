-- ===== src/Wire/RoundTrip/Ascii.antt =====
-- Texts in ASCII, such as the names of types that the writer has of its own.
use sofarpc_cli.Prelude.{All, Bytes, List, [], ap, arith, length, refl, suc, ◌<◌, ◌^◌, ◌∷◌, ◌≡◌}
use sofarpc_cli.Wire.RoundTrip.Texts.{IsText}
use sofarpc_cli.Wire.Utf8.{AreRunes, concat, is_rune}

abbrev pub IsAscii : Bytes → Type 0
IsAscii s = All (λ b. b < 128) s

singles : Bytes → List Bytes
singles [] = []
singles (b ∷ bs) = (b ∷ []) ∷ singles bs

singles-AreRunes : (s : Bytes) → IsAscii s → AreRunes (singles s)
unfolding singles is_rune
singles-AreRunes [] a = tt
singles-AreRunes (b ∷ s) a = (ground arith, singles-AreRunes s a.1)

concat-singles : (s : Bytes) → concat (singles s) ≡ s
unfolding singles
concat-singles [] = refl
concat-singles (b ∷ s) = ap (◌∷◌ b) (concat-singles s)

length-singles : (s : Bytes) → length (singles s) ≡ length s
unfolding singles
length-singles [] = refl
length-singles (b ∷ s) = ap suc (length-singles s)

pub IsAscii-IsText : (s : Bytes) → IsAscii s → length s < 2 ^ 16 → IsText s
IsAscii-IsText s a few =
    (singles s, singles-AreRunes s a, concat-singles s, omega (arith, length-singles s))
