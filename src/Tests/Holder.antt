-- ===== src/Tests/Holder.antt =====
-- The cache of contracts at a concrete input: it is full, and a third project is used.
use sofarpc_cli.Mcp.ContractHolder.{
  ContractHolder, ProjectContractEntry, for_project, max_or_default, remove_first,
}
use sofarpc_cli.Mcp.ContractHolder.Lru.{IsTracked, use_last}
use sofarpc_cli.Mcp.ContractHolder.Once.{for_project_once}
use sofarpc_cli.Mcp.ContractHolder.Refines.{for_project-use_last}
use sofarpc_cli.Prelude.{Bytes, [], arith, bytes_eq, bytes_eq_iff, codes, refl, some, ℕ, ◌∷◌, ◌≡◌}
use sofarpc_cli.Prelude.Int.{pos}
use sofarpc_cli.Prelude.Map.{lookup}
use sofarpc_cli.Prelude.Sort.{contains}

abbrev entry : Bytes → ProjectContractEntry ℕ
entry root = record { root = root; outcome = some (1, []) }

abbrev two_projects : ContractHolder ℕ
two_projects = record {
  projects = (codes "b", entry (codes "b")) ∷ (codes "a", entry (codes "a")) ∷ [];
  project_order = codes "a" ∷ codes "b" ∷ [];
  project_max = pos 2;
}

two_projects-IsTracked : IsTracked two_projects
unfolding lookup contains max_or_default bytes_eq
two_projects-IsTracked = record {
  distinct = (refl, (refl, tt));
  unique = (refl, (refl, tt));
  same_size = refl;
  same_roots = λ r. ground (arith, bytes_eq_iff (codes "a") r, bytes_eq_iff (codes "b") r);
  bounded = omega arith;
}

for_project-use_last_example :
    let h' = (for_project (codes "c") (7, []) two_projects).1 in
    (h'.project_order ≡ use_last (max_or_default (pos 2)) (codes "c") (codes "a" ∷ codes "b" ∷ []))
    × IsTracked h'
for_project-use_last_example =
    for_project-use_last (codes "c") (7, []) two_projects two_projects-IsTracked

third_is_last : use_last 2 (codes "c") (codes "a" ∷ codes "b" ∷ []) ≡ codes "b" ∷ codes "c" ∷ []
unfolding use_last remove_first bytes_eq
third_is_last = refl

for_project_once_example :
    let p = for_project (codes "c") (7, []) two_projects in
    (for_project (codes "c") (8, codes "gone") p.1).0 ≡ p.0
for_project_once_example =
    for_project_once (codes "c") (7, []) (8, codes "gone") two_projects two_projects-IsTracked
