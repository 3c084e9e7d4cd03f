-- ===== src/Core/Contract/Services/Discovery.antt =====
-- What the lists of services hold.
use sofarpc_cli.Core.Contract.Services.{unique_names, normalize_unique_service_names}
use sofarpc_cli.Mcp.ContractHolder.Lru.{contains-append, IsDistinct, append-IsDistinct}
use sofarpc_cli.Prelude.{
  Bytes, List, [], any, ap, arith, bytes_eq, bytes_eq_iff, is_empty, not, ◌&&◌, ◌++◌, ◌||◌, ◌∷◌,
  ◌≡◌, Bool-cases, refl, ◌∙◌, inl, inr, true, false,
}
use sofarpc_cli.Prelude.Sort.{
  contains, contains-sort_strings, bytes_le, contains-insert_sorted, insert_sorted, sort_strings,
}
use sofarpc_cli.Prelude.TrimSpace.{trim_space}

unique_names-contains :
    (name : Bytes) (out values : List Bytes)
    → contains name (unique_names out values) ≡ (
        contains name out
        || (not (is_empty name) && any (λ v. bytes_eq (trim_space v) name) values))
unfolding unique_names contains
unique_names-contains name out [] = ground arith
unique_names-contains name out (v ∷ values) = ground (
  arith,
  unique_names-contains name out values,
  unique_names-contains name (out ++ trim_space v ∷ []) values,
  contains-append name out (trim_space v ∷ []),
  bytes_eq_iff (trim_space v) name,
  ap (λ x. contains x out),
  ap is_empty,
)

bytes_le_total : (a b : Bytes) → bytes_le a b ≡ false → bytes_le b a ≡ true
unfolding bytes_le
bytes_le_total [] b h = absurd (cc)
bytes_le_total (x ∷ a) [] h = refl
bytes_le_total (x ∷ a) (y ∷ b) h = ground (arith, bytes_le_total a b)

abbrev pub IsSorted : List Bytes → Type 0
IsSorted [] = Unit {0}
IsSorted (x ∷ []) = Unit {0}
IsSorted (x ∷ y ∷ xs) = (bytes_le x y ≡ true) × IsSorted (y ∷ xs)

insert_sorted-IsSorted : (k : Bytes) (xs : List Bytes) → IsSorted xs → IsSorted (insert_sorted k xs)
unfolding insert_sorted
insert_sorted-IsSorted k [] s = tt
insert_sorted-IsSorted k (x ∷ []) s = ground (arith, bytes_le_total k x)
insert_sorted-IsSorted k (x ∷ y ∷ xs) s =
    ground (arith, bytes_le_total k x, insert_sorted-IsSorted k (y ∷ xs))

sort_strings-IsSorted : (xs : List Bytes) → IsSorted (sort_strings xs)
unfolding sort_strings
sort_strings-IsSorted [] = tt
sort_strings-IsSorted (x ∷ xs) =
    insert_sorted-IsSorted x (sort_strings xs) (sort_strings-IsSorted xs)

insert_sorted-IsDistinct :
    (k : Bytes) (xs : List Bytes)
    → contains k xs ≡ false
    → IsDistinct xs
    → IsDistinct (insert_sorted k xs)
unfolding insert_sorted contains
insert_sorted-IsDistinct k [] h d = (refl, tt)
insert_sorted-IsDistinct k (x ∷ xs) h d = ground (
  arith,
  insert_sorted-IsDistinct k xs,
  contains-insert_sorted x k xs,
  bytes_eq_iff k x,
  bytes_eq_iff x k,
)

sort_strings-IsDistinct : (xs : List Bytes) → IsDistinct xs → IsDistinct (sort_strings xs)
unfolding sort_strings
sort_strings-IsDistinct [] d = tt
sort_strings-IsDistinct (x ∷ xs) d =
    insert_sorted-IsDistinct x (sort_strings xs) (contains-sort_strings x xs ∙ d.0)
      (sort_strings-IsDistinct xs d.1)

unique_names-IsDistinct :
    (out values : List Bytes) → IsDistinct out → IsDistinct (unique_names out values)
unfolding unique_names
unique_names-IsDistinct out [] d = d
unique_names-IsDistinct out (v ∷ values) d =
    elim (Bool-cases (is_empty (trim_space v) || contains (trim_space v) out)) [
      | inl skipped ↦ rw skipped (unique_names-IsDistinct out values d)
      | inr taken ↦ rw taken (
          unique_names-IsDistinct (out ++ trim_space v ∷ []) values
            (append-IsDistinct out (trim_space v) d (ground arith)))
    ]

-- The names come sorted and each once, and they are the names of the input without white space,
-- less the empty one.
pub normalize_unique_service_names_lem :
    (values : List Bytes) (name : Bytes)
    → let out = normalize_unique_service_names values in
      IsSorted out
      × IsDistinct out
      × (contains name out
          ≡ (not (is_empty name) && any (λ v. bytes_eq (trim_space v) name) values))
unfolding normalize_unique_service_names contains
normalize_unique_service_names_lem values name =
    let names = unique_names [] values in
    (
      sort_strings-IsSorted names,
      sort_strings-IsDistinct names (unique_names-IsDistinct [] values tt),
      contains-sort_strings name names ∙ unique_names-contains name [] values,
    )
