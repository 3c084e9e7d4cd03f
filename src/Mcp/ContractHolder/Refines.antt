-- ===== src/Mcp/ContractHolder/Refines.antt =====
-- ForProject against the list of the projects used last.
use sofarpc_cli.Prelude.UniqueKeys.{
  is_some, length-insert, length-delete, insert-HasUniqueKeys, delete-HasUniqueKeys,
}
use sofarpc_cli.Prelude.Int.{negsuc, pos, ℤ}
use sofarpc_cli.Mcp.ContractHolder.{
  ContractHolder, ProjectContractEntry, evict, max_or_default, touch_project_contract_locked,
  remove_first, new_entry, add_project, evict_project_contracts_locked, put_back, load_once,
  for_project, enter_project,
}
use sofarpc_cli.Mcp.ContractHolder.Lru.{
  IsTracked, use_last, contains-remove_first, remove_first-IsDistinct, append-IsDistinct,
  contains-append, IsDistinct, length-remove_first, remove_first-absent,
}
use sofarpc_cli.Prelude.{
  Bytes, List, [], arith, bytes_eq, false, length, ltb, refl, suc, true, zero, ℕ, ◌<◌, ◌∷◌, ◌≡◌,
  ◌≤◌, bytes_eq_iff, bytes_eq_refl, drop, length-append, ◌-◌, sym, ap, ◌∙◌, ◌++◌, ◌+◌, none, ltb→lt,
  Option-cases, Bool-cases, inl, inr,
}
use sofarpc_cli.Prelude.Map.{Map, delete, lookup, insert, lookup-insert, lookup-delete}
use sofarpc_cli.Prelude.Sort.{contains}

drop_fits : (max : ℕ) (xs : List Bytes) → length xs ≤ max → drop (length xs - max) xs ≡ xs
drop_fits max xs h = let e : length xs - max ≡ 0 = omega arith in rw e refl

drops_one :
    (max : ℕ) (x : Bytes) (xs : List Bytes)
    → length xs ≡ max
    → drop (suc (length xs) - max) (x ∷ xs) ≡ xs
drops_one max x xs h = let one : suc (length xs) - max ≡ 1 = omega arith in rw one refl

length-used : (root : Bytes) (xs : List Bytes) → length (xs ++ root ∷ []) ≡ suc (length xs)
length-used root xs = omega (arith, length-append xs (root ∷ []))

same_after_use :
    (root r : Bytes) (order : List Bytes)
    → IsDistinct order
    → contains root order ≡ true
    → contains r order ≡ contains r (remove_first root order ++ root ∷ [])
unfolding contains
same_after_use root r order d found = ground (
  arith,
  contains-append r (remove_first root order) (root ∷ []),
  contains-remove_first root r order d,
  bytes_eq_iff root r,
  ap (λ x. contains x order),
)

max_positive : (n : ℤ) → 0 < max_or_default n
unfolding max_or_default
max_positive (pos zero) = ground arith
max_positive (pos (suc n)) = ground arith
max_positive (negsuc n) = ground arith

module _ {Store : Type 0} where
  evict_fits :
      (fuel max : ℕ) (keep : Bytes) (projects : Map (ProjectContractEntry Store))
      (order : List Bytes)
      → length projects ≤ max
      → evict fuel max keep projects order ≡ (projects, order)
  unfolding evict
  evict_fits zero max keep projects order h = refl
  evict_fits (suc fuel) max keep projects [] h = refl
  evict_fits (suc fuel) max keep projects (r ∷ order) h =
      let fits : ltb max (length projects) ≡ false = ground arith in rw fits refl

  evict_first :
      (fuel max : ℕ) (keep r : Bytes) (projects : Map (ProjectContractEntry Store))
      (order : List Bytes)
      → bytes_eq r keep ≡ false
      → max < length projects
      → length (delete r projects) ≤ max
      → 0 < fuel
      → evict fuel max keep projects (r ∷ order) ≡ (delete r projects, order)
  unfolding evict
  evict_first zero max keep r projects order other over fits some_fuel = absurd (omega arith)
  evict_first (suc fuel) max keep r projects order other over fits some_fuel =
      let full : ltb max (length projects) ≡ true = ground arith in
      rw (full, other) (evict_fits fuel max keep (delete r projects) order fits)

  -- a project that is in the cache
  touched :
      (root : Bytes) (h : ContractHolder Store)
      → IsTracked h
      → contains root h.project_order ≡ true
      → let h' = record h { project_order = touch_project_contract_locked root h.project_order } in
        (h'.project_order ≡ use_last (max_or_default h.project_max) root h.project_order)
        × IsTracked h'
  unfolding touch_project_contract_locked use_last
  touched root h t found =
      let order = h.project_order in
      let rest = remove_first root order in
      let size = length-remove_first root order found in
      let used = length-used root rest in
      let gone : contains root rest ≡ false =
        contains-remove_first root root order t.distinct ∙ rw (bytes_eq_refl root) refl in
      (
        sym (
            drop_fits (max_or_default h.project_max) (rest ++ root ∷ [])
              (omega (arith, t.bounded))),
        record {
          distinct =
              append-IsDistinct rest root (remove_first-IsDistinct root order t.distinct) gone;
          unique = t.unique;
          same_size = omega (arith, t.same_size);
          same_roots = λ r. t.same_roots r ∙ same_after_use root r order t.distinct found;
          bounded = omega (arith, t.bounded);
        },
      )

  same_after_insert :
      (root r : Bytes) (order : List Bytes) (projects : Map (ProjectContractEntry Store))
      (e : ProjectContractEntry Store)
      → is_some (lookup r projects) ≡ contains r order
      → is_some (lookup r (insert root e projects)) ≡ contains r (order ++ root ∷ [])
  unfolding contains
  same_after_insert root r order projects e h =
      ground (arith, lookup-insert root r e projects, contains-append r order (root ∷ []))

  -- a project that is not in the cache, where there is room
  added_with_room :
      (root : Bytes) (h : ContractHolder Store)
      → IsTracked h
      → lookup root h.projects ≡ none
      → length h.project_order < max_or_default h.project_max
      → let h' = add_project root h in
        (h'.project_order ≡ use_last (max_or_default h.project_max) root h.project_order)
        × IsTracked h'
        × (is_some (lookup root h'.projects) ≡ true)
  unfolding add_project evict_project_contracts_locked use_last
  added_with_room root h t missing room =
      let order = h.project_order in
      let max = max_or_default h.project_max in
      let e = new_entry root in
      let absent : contains root order ≡ false = sym (t.same_roots root) ∙ ap is_some missing in
      let used = length-used root order in
      let more : length (insert root e h.projects) ≡ suc (length order) =
        length-insert root e h.projects ∙ rw missing (ap suc t.same_size) in
      rw
        (
          evict_fits (length (order ++ root ∷ []) + length (order ++ root ∷ [])) max root
              (insert root e h.projects) (order ++ root ∷ []) (omega (arith, more)),
          remove_first-absent root order absent,
        )
        (
          sym (drop_fits max (order ++ root ∷ []) (omega arith)),
          record {
            distinct = append-IsDistinct order root t.distinct absent;
            unique = insert-HasUniqueKeys root e h.projects t.unique;
            same_size = omega arith;
            same_roots = λ r. same_after_insert root r order h.projects e (t.same_roots r);
            bounded = omega arith;
          },
          rw (lookup-insert root root e h.projects, bytes_eq_refl root) refl,
        )

  same_after_delete :
      (root r0 r : Bytes) (rest : List Bytes) (projects : Map (ProjectContractEntry Store))
      (e : ProjectContractEntry Store)
      → is_some (lookup r projects) ≡ contains r (r0 ∷ rest)
      → contains r0 rest ≡ false
      → bytes_eq r0 root ≡ false
      → is_some (lookup r (delete r0 (insert root e projects))) ≡ contains r (rest ++ root ∷ [])
  unfolding contains
  same_after_delete root r0 r rest projects e h distinct other = ground (
    arith,
    lookup-insert root r e projects,
    lookup-delete r0 r (insert root e projects),
    contains-append r rest (root ∷ []),
    bytes_eq_iff r0 r,
    bytes_eq_iff root r,
    bytes_eq_iff r0 root,
    ap (λ x. contains x rest),
  )

  -- a project that is not in the cache, where there is no room and r0 was used least recently
  added_when_full :
      (root r0 : Bytes) (rest : List Bytes) (projects : Map (ProjectContractEntry Store)) (m : ℤ)
      → let h : ContractHolder Store = record {
        projects = projects;
        project_order = r0 ∷ rest;
        project_max = m;
      } in
        IsTracked h
        → lookup root projects ≡ none
        → suc (length rest) ≡ max_or_default m
        → let h' = add_project root h in
          (h'.project_order ≡ use_last (max_or_default m) root (r0 ∷ rest))
          × IsTracked h'
          × (is_some (lookup root h'.projects) ≡ true)
  unfolding add_project evict_project_contracts_locked use_last contains
  added_when_full root r0 rest projects m t missing full =
      let max = max_or_default m in
      let e : ProjectContractEntry Store = new_entry root in
      let absent : contains root (r0 ∷ rest) ≡ false =
        sym (t.same_roots root) ∙ ap is_some missing in
      let other : bytes_eq r0 root ≡ false = ground arith in
      let absent' : contains root rest ≡ false = ground arith in
      let used = length-used root rest in
      let more : length (insert root e projects) ≡ suc max =
        length-insert root e projects ∙ rw missing (ap suc (t.same_size ∙ full)) in
      let unique = insert-HasUniqueKeys root e projects t.unique in
      let present : is_some (lookup r0 (insert root e projects)) ≡ true =
        ground (arith, lookup-insert root r0 e projects, t.same_roots r0, bytes_eq_refl r0) in
      let less = length-delete r0 (insert root e projects) unique present in
      let all = r0 ∷ (rest ++ root ∷ []) in
      rw
        (
          evict_first (length all + length all) max root r0 (insert root e projects)
              (rest ++ root ∷ []) other (omega (arith, more)) (omega (arith, less, more))
              (omega arith),
          remove_first-absent root (r0 ∷ rest) absent,
        )
        (
          sym (drops_one max r0 (rest ++ root ∷ []) (omega arith)),
          record {
            distinct = append-IsDistinct rest root t.distinct.1 absent';
            unique = delete-HasUniqueKeys r0 (insert root e projects) unique;
            same_size = omega arith;
            same_roots = λ r.
                same_after_delete root r0 r rest projects e (t.same_roots r) t.distinct.0 other;
            bounded = omega arith;
          },
          rw
              (
                lookup-delete r0 root (insert root e projects),
                other,
                lookup-insert root root e projects,
                bytes_eq_refl root,
              )
              refl,
        )

  added :
      (root : Bytes) (order : List Bytes) (projects : Map (ProjectContractEntry Store)) (m : ℤ)
      → let h : ContractHolder Store = record {
        projects = projects;
        project_order = order;
        project_max = m;
      } in
        IsTracked h
        → lookup root projects ≡ none
        → let h' = add_project root h in
          (h'.project_order ≡ use_last (max_or_default m) root order)
          × IsTracked h'
          × (is_some (lookup root h'.projects) ≡ true)
  added root [] projects m t missing =
      added_with_room root (record { projects = projects; project_order = []; project_max = m }) t
        missing (max_positive m)
  added root (r0 ∷ rest) projects m t missing =
      elim (Bool-cases (ltb (suc (length rest)) (max_or_default m))) [
        | inl room ↦
            added_with_room root
              (record { projects = projects; project_order = r0 ∷ rest; project_max = m }) t missing
              (ltb→lt (suc (length rest)) (max_or_default m) room)
        | inr no_room ↦
            added_when_full root r0 rest projects m t missing (let b = t.bounded in ground arith)
      ]

  put_back-IsTracked :
      (root : Bytes) (e : ProjectContractEntry Store) (h : ContractHolder Store)
      → IsTracked h
      → is_some (lookup root h.projects) ≡ true
      → IsTracked (record h { projects = put_back root e h.projects })
  unfolding put_back
  put_back-IsTracked root e h t there = elim (Option-cases (lookup root h.projects)) [
    | inl missing ↦ absurd (let x = rw missing at there in cc)
    | inr (old, found) ↦
        rw (found, put_back)
          (record {
            distinct = t.distinct;
            unique = insert-HasUniqueKeys root e h.projects t.unique;
            same_size = length-insert root e h.projects ∙ rw found t.same_size;
            same_roots = λ r. ground (
              arith,
              lookup-insert root r e h.projects,
              t.same_roots r,
              bytes_eq_iff root r,
              ap (λ x. lookup x h.projects),
            );
            bounded = t.bounded;
          })
  ]

  pub entered :
      (root : Bytes) (h : ContractHolder Store)
      → IsTracked h
      → let h' = (enter_project root h).1 in
        (h'.project_order ≡ use_last (max_or_default h.project_max) root h.project_order)
        × IsTracked h'
        × (is_some (lookup root h'.projects) ≡ true)
  unfolding enter_project
  entered root h t = elim (Option-cases (lookup root h.projects)) [
    | inl missing ↦
        rw (missing, enter_project) (added root h.project_order h.projects h.project_max t missing)
    | inr (old, found) ↦
        let (same, tracked) = touched root h t (sym (t.same_roots root) ∙ ap is_some found) in
        rw (found, enter_project) (same, tracked, ap is_some found)
  ]

  -- ForProject keeps the map of the cache and its order the same projects, each once and no more
  -- than the maximum, and the order becomes that of the projects used last: the project of the call
  -- last, and the one used least recently gone where there were too many.
  pub for_project-use_last :
      (root : Bytes) (loaded : Store × Bytes) (h : ContractHolder Store)
      → IsTracked h
      → let h' = (for_project root loaded h).1 in
        (h'.project_order ≡ use_last (max_or_default h.project_max) root h.project_order)
        × IsTracked h'
  unfolding for_project
  for_project-use_last root loaded h t =
      let (same, tracked, there) = entered root h t in
      (
        same,
        put_back-IsTracked root (load_once loaded (enter_project root h).0) (enter_project root h).1
            tracked there,
      )
