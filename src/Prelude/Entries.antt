-- ===== src/Prelude/Entries.antt =====
-- An entry of a list with a property.
use Prim.Native.Nat.{ℕ, suc}
use mathlib.Core.Path.{◌≡◌, refl}
use mathlib.Core.Bool.{Bool, true, false, ◌||◌}
use mathlib.Core.Logic.{◌⊎◌, inl, inr}
use mathlib.Core.List.{List, [], ◌∷◌}
use mathlib.Core.Option.{some}
use sofarpc_cli.Prelude.Lists.{any, get_elem?}
use sofarpc_cli.Prelude.Tests.{Bool-cases}

-- an entry of a list
abbrev pub Has {ℓ κ} : {A : Type ℓ} → (A → Type κ) → List A → Type (ℓ ⊔ κ)
Has {A} P xs = (a : A) × (i : ℕ) × (get_elem? xs i ≡ some a) × P a

pub any-Has {ℓ} :
    {A : Type ℓ} (q : A → Bool) (xs : List A) → any q xs ≡ true → Has (λ a. q a ≡ true) xs
any-Has q [] h = absurd (cc)
any-Has q (x ∷ xs) h = elim (Bool-cases (q x)) [
  | inl yes_x ↦ (x, 0, refl, yes_x)
  | inr no_x ↦ let (a, i, found, holds) = any-Has q xs (rw no_x at h) in (a, suc i, found, holds)
]

pub or_cases : (a b : Bool) → (a || b) ≡ true → (a ≡ true) ⊎ (b ≡ true)
or_cases true b h = inl refl
or_cases false b h = inr h
