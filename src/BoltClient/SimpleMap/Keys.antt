-- ===== src/BoltClient/SimpleMap/Keys.antt =====
-- The keys that EncodeSimpleMap writes are those of the map, also where it takes the list of known
-- keys in place of a sort.
use sofarpc_cli.Prelude.UniqueKeys.{is_some, HasUniqueKeys, length-delete, delete-HasUniqueKeys}
use sofarpc_cli.BoltClient.SimpleMap.{has_all, keys_of, ordered_simple_map_keys, known_keys}
use sofarpc_cli.Prelude.{
  Bool, Bool-cases, Bytes, List, [], arith, bytes_eq, bytes_eq_iff, false, inl, inr, length, refl,
  true, ◌&&◌, ◌==◌, ◌∷◌, ◌≡◌,
}
use sofarpc_cli.Prelude.Map.{Map, delete, lookup, lookup-delete}
use sofarpc_cli.Prelude.Sort.{contains, contains-sort_strings}

abbrev IsDistinct : List Bytes → Type 0
IsDistinct [] = Unit {0}
IsDistinct (k ∷ ks) = (contains k ks ≡ false) × IsDistinct ks

contains-keys_of : (j : Bytes) (m : Map Bytes) → contains j (keys_of m) ≡ is_some (lookup j m)
unfolding contains keys_of lookup
contains-keys_of j [] = refl
contains-keys_of j ((k, v) ∷ m) = ground (arith, contains-keys_of j m)

has_all-delete :
    (k : Bytes) (ks : List Bytes) (m : Map Bytes)
    → contains k ks ≡ false
    → has_all ks m ≡ true
    → has_all ks (delete k m) ≡ true
unfolding has_all contains
has_all-delete k [] m c h = refl
has_all-delete k (j ∷ ks) m c h =
    ground (arith, lookup-delete k j m, bytes_eq_iff k j, bytes_eq_iff j k, has_all-delete k ks m)

contains-has_all :
    (j : Bytes) (ks : List Bytes) (m : Map Bytes)
    → has_all ks m ≡ true
    → contains j ks ≡ true
    → is_some (lookup j m) ≡ true
unfolding has_all contains
contains-has_all j [] m h c = cc
contains-has_all j (k ∷ ks) m h c = elim (Bool-cases (bytes_eq k j)) [
  | inl e ↦ rw (← (bytes_eq_iff k j).0 e) (ground arith)
  | inr ne ↦ contains-has_all j ks m (ground arith) (ground arith)
]

-- As many keys as the map has, all different and all in the map, are all the keys of the map.
has_all-contains :
    (j : Bytes) (ks : List Bytes) (m : Map Bytes)
    → IsDistinct ks
    → HasUniqueKeys m
    → length m ≡ length ks
    → has_all ks m ≡ true
    → is_some (lookup j m) ≡ true
    → contains j ks ≡ true
unfolding has_all contains
has_all-contains j [] [] d u l h s = unfold lookup in cc s
has_all-contains j [] (e ∷ m) d u l h s = absurd (omega arith)
has_all-contains j (k ∷ ks) m d u l h s = ground (
  arith,
  bytes_eq_iff k j,
  lookup-delete k j m,
  length-delete k m u,
  has_all-contains j ks (delete k m) d.1 (delete-HasUniqueKeys k m u)
      (omega (arith, length-delete k m u (ground arith)))
      (has_all-delete k ks m d.0 (ground arith)),
)

known_keys-IsDistinct : IsDistinct known_keys
unfolding contains bytes_eq
known_keys-IsDistinct = (refl, (refl, (refl, (refl, (refl, (refl, tt))))))

pub contains-ordered_simple_map_keys :
    (j : Bytes) (m : Map Bytes)
    → HasUniqueKeys m
    → contains j (ordered_simple_map_keys m) ≡ is_some (lookup j m)
unfolding ordered_simple_map_keys
contains-ordered_simple_map_keys j m u = elim (Bool-cases known) [
  | inl k ↦ rw k (
      iff_eq _ _ (contains-has_all j known_keys m (ground arith))
        (has_all-contains j known_keys m known_keys-IsDistinct u (ground arith) (ground arith)))
  | inr n ↦ rw (n, contains-sort_strings) (contains-keys_of j m)
]
  where
    known : Bool
    known = length m == length known_keys && has_all known_keys m

    iff_eq : (a b : Bool) → (a ≡ true → b ≡ true) → (b ≡ true → a ≡ true) → a ≡ b
    iff_eq a b f g = ground arith
