-- ===== src/Prelude/Sort.antt =====
-- `sort.Strings`, as an insertion sort by the order of Go strings.
use sofarpc_cli.Prelude.{
  Bool, Bytes, List, [], arith, bytes_eq, false, if◌then◌else◌, ltb, refl, true, ◌==◌, ◌||◌, ◌∷◌,
  ◌≡◌,
}

unfoldable pub bytes_le : Bytes → Bytes → Bool
bytes_le [] ys = true
bytes_le (x ∷ xs) [] = false
bytes_le (x ∷ xs) (y ∷ ys) = if x == y then bytes_le xs ys else ltb x y

unfoldable pub insert_sorted : Bytes → List Bytes → List Bytes
insert_sorted k [] = k ∷ []
insert_sorted k (j ∷ js) = if bytes_le k j then k ∷ (j ∷ js) else j ∷ insert_sorted k js

unfoldable pub sort_strings : List Bytes → List Bytes
sort_strings [] = []
sort_strings (k ∷ ks) = insert_sorted k (sort_strings ks)

unfoldable pub contains : Bytes → List Bytes → Bool
contains k [] = false
contains k (j ∷ js) = bytes_eq j k || contains k js

pub contains-insert_sorted :
    (k j : Bytes) (js : List Bytes)
    → contains k (insert_sorted j js) ≡ (bytes_eq j k || contains k js)
unfolding contains insert_sorted
contains-insert_sorted k j [] = refl
contains-insert_sorted k j (i ∷ js) = ground (arith, contains-insert_sorted k j js)

pub contains-sort_strings :
    (k : Bytes) (ks : List Bytes) → contains k (sort_strings ks) ≡ contains k ks
unfolding contains sort_strings
contains-sort_strings k [] = refl
contains-sort_strings k (j ∷ ks) =
    rw (contains-insert_sorted k j (sort_strings ks), contains-sort_strings k ks)
