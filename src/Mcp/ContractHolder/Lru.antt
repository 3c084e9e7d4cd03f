-- ===== src/Mcp/ContractHolder/Lru.antt =====
-- The cache is the list of the projects used last, and nothing else is in its map.
use sofarpc_cli.Prelude.UniqueKeys.{HasUniqueKeys, is_some}
use sofarpc_cli.Mcp.ContractHolder.{ContractHolder, max_or_default, remove_first}
use sofarpc_cli.Prelude.{
  Bytes, List, [], arith, bytes_eq_iff, drop, false, if◌then◌else◌, length, refl, suc, true, ℕ,
  ◌++◌, ◌-◌, ◌∷◌, ◌≡◌, ◌≤◌, bytes_eq, ◌||◌,
}
use sofarpc_cli.Prelude.Map.{lookup}
use sofarpc_cli.Prelude.Sort.{contains}

-- the list after a use: the root last, and no more than max of them
unfoldable pub use_last : ℕ → Bytes → List Bytes → List Bytes
use_last max root order =
    let used = remove_first root order ++ root ∷ [] in drop (length used - max) used

abbrev pub IsDistinct : List Bytes → Type 0
IsDistinct [] = Unit {0}
IsDistinct (r ∷ rs) = (contains r rs ≡ false) × IsDistinct rs

pub contains-append :
    (r : Bytes) (xs ys : List Bytes) → contains r (xs ++ ys) ≡ (contains r xs || contains r ys)
unfolding contains
contains-append r [] ys = refl
contains-append r (x ∷ xs) ys = ground (arith, contains-append r xs ys)

pub remove_first-absent :
    (root : Bytes) (xs : List Bytes) → contains root xs ≡ false → remove_first root xs ≡ xs
unfolding contains remove_first
remove_first-absent root [] h = refl
remove_first-absent root (x ∷ xs) h = ground (arith, remove_first-absent root xs)

pub length-remove_first :
    (root : Bytes) (xs : List Bytes)
    → contains root xs ≡ true
    → suc (length (remove_first root xs)) ≡ length xs
unfolding contains remove_first
length-remove_first root [] h = absurd (cc)
length-remove_first root (x ∷ xs) h = ground (arith, length-remove_first root xs)

pub contains-remove_first :
    (root r : Bytes) (xs : List Bytes)
    → IsDistinct xs
    → contains r (remove_first root xs) ≡ (if bytes_eq root r then false else contains r xs)
unfolding contains remove_first
contains-remove_first root r [] d = ground arith
contains-remove_first root r (x ∷ xs) d = ground (
  arith,
  contains-remove_first root r xs d.1,
  bytes_eq_iff x root,
  bytes_eq_iff x r,
  bytes_eq_iff root r,
)

pub remove_first-IsDistinct :
    (root : Bytes) (xs : List Bytes) → IsDistinct xs → IsDistinct (remove_first root xs)
unfolding remove_first
remove_first-IsDistinct root [] d = tt
remove_first-IsDistinct root (x ∷ xs) d =
    ground (arith, remove_first-IsDistinct root xs d.1, contains-remove_first root x xs d.1)

pub append-IsDistinct :
    (xs : List Bytes) (r : Bytes)
    → IsDistinct xs
    → contains r xs ≡ false
    → IsDistinct (xs ++ r ∷ [])
unfolding contains
append-IsDistinct [] r d h = (refl, tt)
append-IsDistinct (x ∷ xs) r d h = ground (
  arith,
  append-IsDistinct xs r d.1,
  contains-append x xs (r ∷ []),
  bytes_eq_iff x r,
  bytes_eq_iff r x,
)

-- What holds of the cache between two calls.
pub record IsTracked {Store : Type 0} (h : ContractHolder Store) : Type 0 where
  pub distinct : IsDistinct h.project_order
  pub unique : HasUniqueKeys h.projects
  pub same_size : length h.projects ≡ length h.project_order
  pub same_roots : (r : Bytes) → is_some (lookup r h.projects) ≡ contains r h.project_order
  pub bounded : length h.project_order ≤ max_or_default h.project_max
