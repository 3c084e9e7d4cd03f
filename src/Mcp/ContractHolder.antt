-- ===== src/Mcp/ContractHolder.antt =====
-- internal/mcp/contract_holder.go: the cache of the contracts of projects. A call of ForProject runs
-- as one step; the default contract, which is one value behind a lock, is left out.
pub mod Lru
pub mod Refines
pub mod Once
use sofarpc_cli.Prelude.{
  Bytes, List, Option, [], bytes_eq, if◌then◌else◌, length, ltb, none, not, some, suc, zero, ℕ,
  ◌++◌, ◌+◌, ◌∷◌,
}
use sofarpc_cli.Prelude.Int.{ltb_ℤ, pos, pos_part, ℤ}
use sofarpc_cli.Prelude.Map.{Map, delete, insert, lookup}

-- An entry, with what its loader returned once it has run: a store and the text of an error.
pub record ProjectContractEntry (Store : Type 0) : Type 0 where
  pub root : Bytes
  pub outcome : Option (Store × Bytes)

pub record ContractHolder (Store : Type 0) : Type 0 where
  pub projects : Map (ProjectContractEntry Store)
  pub project_order : List Bytes
  pub project_max : ℤ

unfoldable pub max_or_default : ℤ → ℕ
max_or_default n = if ltb_ℤ (pos 0) n then pos_part n else 32

unfoldable pub remove_first : Bytes → List Bytes → List Bytes
remove_first root [] = []
remove_first root (r ∷ order) = if bytes_eq r root then order else r ∷ remove_first root order

unfoldable pub touch_project_contract_locked : Bytes → List Bytes → List Bytes
touch_project_contract_locked root order = remove_first root order ++ root ∷ []

module _ {Store : Type 0} where
  -- The loop of evictProjectContractsLocked. A round drops a root or puts `keep` last.
  unfoldable pub evict :
      ℕ
      → ℕ
      → Bytes
      → Map (ProjectContractEntry Store)
      → List Bytes
      → Map (ProjectContractEntry Store) × List Bytes
  evict zero max keep projects order = (projects, order)
  evict (suc fuel) max keep projects [] = (projects, [])
  evict (suc fuel) max keep projects (root ∷ order) =
      let again = evict fuel max keep projects (order ++ root ∷ []) in
      let less = evict fuel max keep (delete root projects) order in
      if not (ltb max (length projects))
      then (projects, root ∷ order)
      else if bytes_eq root keep
      then again
      else less

  unfoldable pub evict_project_contracts_locked :
      Bytes → ContractHolder Store → ContractHolder Store
  unfolding max_or_default
  evict_project_contracts_locked keep h =
      let p =
        evict (length h.project_order + length h.project_order) (max_or_default h.project_max) keep
          h.projects h.project_order in
      record h { projects = p.0; project_order = p.1 }

  unfoldable pub new_entry : Bytes → ProjectContractEntry Store
  new_entry root = record { root = root; outcome = none }

  unfoldable pub add_project : Bytes → ContractHolder Store → ContractHolder Store
  add_project root h = evict_project_contracts_locked root (record h {
    projects = insert root (new_entry root) h.projects;
    project_order = h.project_order ++ root ∷ [];
  })

  -- the entry that is used, and the holder when the lock is given back
  unfoldable pub enter_project :
      Bytes → ContractHolder Store → ProjectContractEntry Store × ContractHolder Store
  unfolding add_project
  enter_project root h = elim (lookup root h.projects) [
    | none ↦ (new_entry root, add_project root h)
    | some e ↦ (e, record h { project_order = touch_project_contract_locked root h.project_order })
  ]

  -- `entry.once.Do`, where `loaded` is what the loader returns if it runs
  unfoldable pub load_once : Store × Bytes → ProjectContractEntry Store → ProjectContractEntry Store
  load_once loaded e = elim e.outcome [ none ↦ record e { outcome = some loaded } | some o ↦ e ]

  -- An entry is changed where it stands; one that has been evicted is changed out of the map.
  unfoldable pub put_back :
      Bytes
      → ProjectContractEntry Store
      → Map (ProjectContractEntry Store)
      → Map (ProjectContractEntry Store)
  put_back root e projects = elim (lookup root projects) [
    | none ↦ projects
    | some old ↦ insert root e projects
  ]

  -- ForProject with a loader and a root that is not empty
  unfoldable pub for_project :
      Bytes
      → Store × Bytes
      → ContractHolder Store
      → ProjectContractEntry Store × ContractHolder Store
  for_project root loaded h =
      let p = enter_project root h in
      let e = load_once loaded p.0 in (e, record p.1 { projects = put_back root e p.1.projects })
