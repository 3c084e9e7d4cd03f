-- ===== src/Prelude/BigEndian.antt =====
-- Unsigned machine integers as bytes, the highest byte first.
use sofarpc_cli.Prelude.{Bytes, [], arith, suc, zero, ℕ, ◌%◌, ◌*◌, ◌+◌, ◌/◌, ◌^◌, ◌∷◌, ◌≡◌}

unfoldable pub byte_at : ℕ → Bytes → ℕ
byte_at i [] = 0
byte_at zero (b ∷ bs) = b
byte_at (suc i) (b ∷ bs) = byte_at i bs

abbrev pub be16 : ℕ → Bytes
be16 n = (n / 256 % 256) ∷ (n % 256) ∷ []

abbrev pub be32 : ℕ → Bytes
be32 n = (n / 16777216 % 256) ∷ (n / 65536 % 256) ∷ (n / 256 % 256) ∷ (n % 256) ∷ []

unfoldable pub u16_at : ℕ → Bytes → ℕ
unfolding byte_at
u16_at i bs = byte_at i bs * 256 + byte_at (i + 1) bs

unfoldable pub u32_at : ℕ → Bytes → ℕ
unfolding byte_at
u32_at i bs =
    byte_at i bs * 16777216
    + byte_at (i + 1) bs * 65536
    + byte_at (i + 2) bs * 256
    + byte_at (i + 3) bs

pub be16_value : (n : ℕ) → n / 256 % 256 * 256 + n % 256 ≡ n % 2 ^ 16
be16_value n = omega arith

pub be32_value :
    (n : ℕ)
    → n / 16777216 % 256 * 16777216 + n / 65536 % 256 * 65536 + n / 256 % 256 * 256 + n % 256
      ≡ n % 2 ^ 32
be32_value n = omega arith
