-- ===== src/Prelude/UniqueKeys.antt =====
-- Maps in which every key stands once.
use sofarpc_cli.Prelude.{Bool-cases, bytes_eq, inl, inr, subst}
use Prim.Native.Nat.{suc}
use mathlib.Core.Path.{◌≡◌, refl}
use mathlib.Core.Bool.{Bool, true, false}
use mathlib.Core.List.{[], ◌∷◌, ◌++◌}
use mathlib.Core.Option.{Option, none, some}
use native.Mathlib.Omega.{arith}
use sofarpc_cli.Prelude.GoString.{Bytes, bytes_eq_iff}
use sofarpc_cli.Prelude.Lists.{All, length}
use sofarpc_cli.Prelude.Map.{Map, delete, insert, lookup, lookup-delete, lookup-insert}
use sofarpc_cli.Prelude.Tests.{if◌then◌else◌}

abbrev pub is_some {ℓ} : {A : Type ℓ} → Option A → Bool
is_some none = false
is_some (some a) = true

module _ {V : Type 0} where
  abbrev pub HasUniqueKeys : Map V → Type 0
  HasUniqueKeys [] = Unit {0}
  HasUniqueKeys ((k, v) ∷ m) = (lookup k m ≡ none) × HasUniqueKeys m

  pub length-insert :
      (k : Bytes) (v : V) (m : Map V)
      → length (insert k v m) ≡ (if is_some (lookup k m) then length m else suc (length m))
  unfolding insert lookup
  length-insert k v [] = refl
  length-insert k v ((j, w) ∷ m) = ground (arith, length-insert k v m)

  pub insert-HasUniqueKeys :
      (k : Bytes) (v : V) (m : Map V) → HasUniqueKeys m → HasUniqueKeys (insert k v m)
  unfolding insert lookup
  insert-HasUniqueKeys k v [] u = (refl, tt)
  insert-HasUniqueKeys k v ((j, w) ∷ m) u = ground (
    arith,
    insert-HasUniqueKeys k v m u.1,
    lookup-insert k j v m,
    bytes_eq_iff j k,
    bytes_eq_iff k j,
  )

  delete-absent : (k : Bytes) (m : Map V) → lookup k m ≡ none → delete k m ≡ m
  unfolding delete lookup
  delete-absent k [] h = refl
  delete-absent k ((j, v) ∷ m) h = ground (arith, delete-absent k m)

  pub delete-HasUniqueKeys : (k : Bytes) (m : Map V) → HasUniqueKeys m → HasUniqueKeys (delete k m)
  unfolding delete
  delete-HasUniqueKeys k [] u = u
  delete-HasUniqueKeys k ((j, v) ∷ m) u =
      ground (arith, delete-HasUniqueKeys k m u.1, lookup-delete k j m)

  pub length-delete :
      (k : Bytes) (m : Map V)
      → HasUniqueKeys m
      → is_some (lookup k m) ≡ true
      → suc (length (delete k m)) ≡ length m
  unfolding delete lookup
  length-delete k [] u h = absurd (cc)
  length-delete k ((j, v) ∷ m) u h =
      ground (arith, length-delete k m u.1, delete-absent k m, bytes_eq_iff j k)

  pub insert-absent :
      (k : Bytes) (v : V) (m : Map V) → lookup k m ≡ none → insert k v m ≡ m ++ (k, v) ∷ []
  unfolding insert lookup
  insert-absent k v [] h = refl
  insert-absent k v ((j, w) ∷ m) h = ground (arith, insert-absent k v m)

  -- a property of the entries
  pub insert-All :
      (P : Bytes × V → Type 0) (k : Bytes) (v : V) (m : Map V)
      → All P m
      → P (k, v)
      → All P (insert k v m)
  unfolding insert
  insert-All P k v [] a p = (p, tt)
  insert-All P k v ((j, w) ∷ m) a p = elim (Bool-cases (bytes_eq j k)) [
    | inl same ↦ rw same (p, a.1)
    | inr other ↦ rw other (a.0, insert-All P k v m a.1 p)
  ]

  pub lookup-All :
      (P : Bytes × V → Type 0) (k : Bytes) (v : V) (m : Map V)
      → All P m
      → lookup k m ≡ some v
      → P (k, v)
  unfolding lookup
  lookup-All P k v [] a h = absurd (cc)
  lookup-All P k v ((j, w) ∷ m) a h = elim (Bool-cases (bytes_eq j k)) [
    | inl same ↦
        let found : (if true then some w else lookup k m) ≡ some v = rw same at h in
        let e : w ≡ v = cc in
        let f : j ≡ k = (bytes_eq_iff j k).0 same in
        subst (λ x. P (k, x)) e (subst (λ x. P (x, w)) f a.0)
    | inr other ↦ lookup-All P k v m a.1 (rw other at h)
  ]

  lookup-here :
      (k : Bytes) (v : V) (m rest : Map V) → is_some (lookup k (m ++ (k, v) ∷ rest)) ≡ true
  unfolding lookup
  lookup-here k v [] rest = ground (arith, bytes_eq_iff k k)
  lookup-here k v ((j, w) ∷ m) rest = ground (arith, lookup-here k v m rest)

  -- a key that stands after a map is not in it
  pub lookup-middle :
      (k : Bytes) (v : V) (m rest : Map V) → HasUniqueKeys (m ++ (k, v) ∷ rest) → lookup k m ≡ none
  unfolding lookup
  lookup-middle k v [] rest u = refl
  lookup-middle k v ((j, w) ∷ m) rest u =
      ground (arith, lookup-middle k v m rest u.1, lookup-here k v m rest, bytes_eq_iff j k)
