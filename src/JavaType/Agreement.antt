-- ===== src/JavaType/Agreement.antt =====
-- The role and the placeholder of a type agree.
use sofarpc_cli.JavaType.{
  ClassLookup, builtin_role, classify, collection, container, container_bases, map_bases, mapping,
  normalize, placeholder, primitive_placeholder,
}
use sofarpc_cli.Prelude.{
  Bool-cases, Bytes, List, Option, [], arith, bytes_eq, bytes_eq_iff, inl, inr, refl, some, subst,
  true, ℕ, ◌∷◌, ◌≡◌, ◌≢◌, ◌⊎◌,
}
use sofarpc_cli.Prelude.Sort.{contains}

abbrev IsIn : List Bytes → List Bytes → Type 0
IsIn [] ys = Unit {0}
IsIn (x ∷ xs) ys = (contains x ys ≡ true) × IsIn xs ys

contains_mono :
    (k : Bytes) (xs ys : List Bytes) → IsIn xs ys → contains k xs ≡ true → contains k ys ≡ true
unfolding contains
contains_mono k [] ys h c = cc
contains_mono k (x ∷ xs) ys (hx, h) c = elim (Bool-cases (bytes_eq x k)) [
  | inl e ↦ subst (λ z. contains z ys ≡ true) ((bytes_eq_iff x k).0 e) hx
  | inr ne ↦ contains_mono k xs ys h (ground arith)
]

map_bases-IsIn : IsIn map_bases container_bases
unfolding map_bases container_bases contains bytes_eq
map_bases-IsIn = (refl, tt)

primitive_placeholder_kinds :
    (base : Bytes)
    → (primitive_placeholder base ≢ collection) × (primitive_placeholder base ≢ mapping)
unfolding primitive_placeholder
primitive_placeholder_kinds base = ground arith

-- A type that is described by a JSON array or object placeholder is a container for an invocation,
-- whatever classes are known and however deep the walk may go.
pub classify-placeholder :
    (fuel : ℕ) (fqn : Bytes) (classes : Option ClassLookup)
    → (placeholder fqn ≡ collection) ⊎ (placeholder fqn ≡ mapping)
    → classify fuel fqn classes ≡ some container
unfolding placeholder classify builtin_role
classify-placeholder fuel fqn classes h = ground (
  arith,
  primitive_placeholder_kinds (normalize fqn),
  contains_mono (normalize fqn) map_bases container_bases map_bases-IsIn,
)
