-- ===== src/Prelude/Separated.antt =====
-- Texts that are joined by a byte which stands in none of them.
use Prim.Native.Nat.{ℕ}
use mathlib.Core.Path.{◌≡◌, refl}
use mathlib.Core.Bool.{Bool, true, not, ◌&&◌}
use mathlib.Core.List.{[], ◌∷◌, ◌++◌}
use native.Mathlib.Omega.{arith}
use sofarpc_cli.Prelude.GoString.{Bytes}
use sofarpc_cli.Prelude.Tests.{◌==◌}

unfoldable pub lacks : ℕ → Bytes → Bool
lacks sep [] = true
lacks sep (b ∷ bs) = not (b == sep) && lacks sep bs

-- what may stand behind a text: nothing, or what the byte begins
abbrev pub is_tail : ℕ → Bytes → Bool
is_tail sep [] = true
is_tail sep (b ∷ bs) = b == sep

pub same_parts :
    (sep : ℕ) (a b r t : Bytes)
    → lacks sep a ≡ true
    → lacks sep b ≡ true
    → is_tail sep r ≡ true
    → is_tail sep t ≡ true
    → a ++ r ≡ b ++ t
    → (a ≡ b) × (r ≡ t)
unfolding lacks
same_parts sep [] [] r t p q x y h = (refl, h)
same_parts sep [] (c ∷ b) [] t p q x y h = absurd (cc)
same_parts sep [] (c ∷ b) (d ∷ r) t p q x y h = absurd (ground arith)
same_parts sep (c ∷ a) [] r [] p q x y h = absurd (cc)
same_parts sep (c ∷ a) [] r (d ∷ t) p q x y h = absurd (ground arith)
same_parts sep (c ∷ a) (d ∷ b) r t p q x y h =
    let e : c ≡ d = cc in
    let f : a ++ r ≡ b ++ t = cc in
    let (g, k) = same_parts sep a b r t (ground arith) (ground arith) x y f in (cc, k)
