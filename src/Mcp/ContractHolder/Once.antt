-- ===== src/Mcp/ContractHolder/Once.antt =====
-- The loader of a project runs once while the project is in the cache.
use sofarpc_cli.Prelude.UniqueKeys.{is_some}
use sofarpc_cli.Mcp.ContractHolder.{
  ContractHolder, ProjectContractEntry, enter_project, for_project, load_once, put_back,
}
use sofarpc_cli.Mcp.ContractHolder.Lru.{IsTracked}
use sofarpc_cli.Mcp.ContractHolder.Refines.{entered}
use sofarpc_cli.Prelude.{
  Bytes, Option, Option-cases, bytes_eq_refl, inl, inr, none, refl, some, true, ◌∙◌, ◌≡◌,
}
use sofarpc_cli.Prelude.Map.{Map, lookup, lookup-insert}

module _ {Store : Type 0} where
  load_once_loaded :
      (loaded : Store × Bytes) (e : ProjectContractEntry Store) (out : Option (Store × Bytes))
      {o : Store × Bytes}
      → out ≡ some o
      → (elim out [ none ↦ record e { outcome = some loaded } | some o' ↦ e ]) ≡ e
  load_once_loaded loaded e none h = absurd (cc)
  load_once_loaded loaded e (some o) h = refl

  load_once_again :
      (first second : Store × Bytes) (e : ProjectContractEntry Store)
      → load_once second (load_once first e) ≡ load_once first e
  unfolding load_once
  load_once_again first second e = elim (Option-cases e.outcome) [
    | inl fresh ↦
        let ran : load_once first e ≡ record e { outcome = some first } =
          rw (fresh, load_once) refl in
        rw ran refl
    | inr (o, loaded) ↦
        rw (load_once_loaded first e e.outcome loaded) (load_once_loaded second e e.outcome loaded)
  ]

  lookup-put_back :
      (root : Bytes) (e : ProjectContractEntry Store) (projects : Map (ProjectContractEntry Store))
      → is_some (lookup root projects) ≡ true
      → lookup root (put_back root e projects) ≡ some e
  unfolding put_back
  lookup-put_back root e projects there = elim (Option-cases (lookup root projects)) [
    | inl missing ↦ absurd (let x = rw missing at there in cc)
    | inr (old, found) ↦
        rw (found, put_back) (lookup-insert root root e projects ∙ rw (bytes_eq_refl root) refl)
  ]

  enter_found :
      (root : Bytes) (e : ProjectContractEntry Store) (h : ContractHolder Store)
      → lookup root h.projects ≡ some e
      → (enter_project root h).0 ≡ e
  unfolding enter_project
  enter_found root e h found = rw (found, enter_project) refl

  -- A second call for the same project right after the first gets the same entry, whatever the
  -- loader would return by then: it does not run again.
  pub for_project_once :
      (root : Bytes) (first second : Store × Bytes) (h : ContractHolder Store)
      → IsTracked h
      → let p = for_project root first h in (for_project root second p.1).0 ≡ p.0
  unfolding for_project
  for_project_once root first second h t =
      let (same, tracked, there) = entered root h t in
      let e = load_once first (enter_project root h).0 in
      rw
        (enter_found root e (for_project root first h).1
          (lookup-put_back root e (enter_project root h).1.projects there))
        (load_once_again first second (enter_project root h).0)
