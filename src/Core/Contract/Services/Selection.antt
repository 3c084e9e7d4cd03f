-- ===== src/Core/Contract/Services/Selection.antt =====
-- Which classes are taken for services.
use sofarpc_cli.Core.Contract.Services.Discovery.{normalize_unique_service_names_lem}
use sofarpc_cli.Prelude.Sort.{contains}
use sofarpc_cli.Core.Contract.{Class, IndexedClassStore}
use sofarpc_cli.Core.Contract.Services.{
  candidate_class, class_simple_name, fqn_simple_name, name_matches_suffix, selected,
  normalize_service_name_suffixes, discover_service_interfaces,
}
use sofarpc_cli.Prelude.{
  Bytes, List, Option-cases, [], any, arith, bytes_eq, bytes_eq_iff, codes, inl, inr, length, some,
  suc, true, ◌<◌, ◌∷◌, ◌≡◌, Bool-cases, refl,
}
use sofarpc_cli.Prelude.Entries.{Has, or_cases}
use sofarpc_cli.Prelude.TrimSpace.{trim_space}

-- An indexed interface with methods, both of whose simple names match, under the name.
abbrev pub IsService : IndexedClassStore → List Bytes → Bytes → Bytes → Type 0
IsService store suffixes name fqn =
    (cls : Class) × (store.class_of fqn ≡ some cls)
    × (cls.kind ≡ codes "interface")
    × (0 < length cls.methods)
    × (name_matches_suffix (fqn_simple_name fqn) suffixes ≡ true)
    × (name_matches_suffix (class_simple_name cls) suffixes ≡ true)
    × (trim_space cls.fqn ≡ name)

candidate_class_lem :
    (store : IndexedClassStore) (suffixes : List Bytes) (fqn : Bytes) (cls : Class)
    → candidate_class store suffixes fqn ≡ some cls
    → (store.class_of fqn ≡ some cls)
      × (cls.kind ≡ codes "interface")
      × (0 < length cls.methods)
      × (name_matches_suffix (fqn_simple_name fqn) suffixes ≡ true)
unfolding candidate_class
candidate_class_lem store suffixes fqn cls h = elim (Option-cases (store.class_of fqn)) [
  | inl missing ↦ absurd (let x = rw (missing, candidate_class) at h in cc)
  | inr (c, found) ↦
      let x = rw (found, candidate_class) at h in
      ground
        (arith, bytes_eq_iff cls.kind (codes "interface"), bytes_eq_iff c.kind (codes "interface"))
]

selected_sound :
    (store : IndexedClassStore) (suffixes fqns : List Bytes) (name : Bytes)
    → any (λ v. bytes_eq (trim_space v) name) (selected store suffixes fqns) ≡ true
    → Has (IsService store suffixes name) fqns
unfolding selected
selected_sound store suffixes [] name h = absurd (cc)
selected_sound store suffixes (fqn ∷ fqns) name h =
    elim (Option-cases (candidate_class store suffixes fqn)) [
      | inl none_here ↦
          let (f, i, found, service) =
            selected_sound store suffixes fqns name (rw (none_here, selected) at h) in
          (f, suc i, found, service)
      | inr (cls, taken) ↦
          let (found, kind, methods, by_fqn) = candidate_class_lem store suffixes fqn cls taken in
          let h' = rw (taken, selected) at h in
          elim (Bool-cases (name_matches_suffix (class_simple_name cls) suffixes)) [
            | inr other ↦
                let (f, i, at_i, service) =
                  selected_sound store suffixes fqns name (rw other at h') in
                (f, suc i, at_i, service)
            | inl by_class ↦
                elim (or_cases (bytes_eq (trim_space cls.fqn) name) _ (rw by_class at h')) [
                  | inl same ↦ (
                    fqn,
                    0,
                    refl,
                    (
                      cls,
                      found,
                      kind,
                      methods,
                      by_fqn,
                      by_class,
                      (bytes_eq_iff (trim_space cls.fqn) name).0 same,
                    ),
                  )
                  | inr later ↦
                      let (f, i, at_i, service) = selected_sound store suffixes fqns name later in
                      (f, suc i, at_i, service)
                ]
          ]
    ]

-- A selected service is the name of an indexed class that is an interface with methods, and whose
-- simple name matches a suffix, both as it is indexed and as the class has it.
pub discover_service_interfaces-IsService :
    (store : IndexedClassStore) (raw_suffixes : List Bytes) (indexed_source name : Bytes)
    → let found = discover_service_interfaces store raw_suffixes indexed_source in
      contains name found.selected_services ≡ true
      → Has (IsService store found.suffixes name) store.indexed_classes
unfolding discover_service_interfaces
discover_service_interfaces-IsService store raw_suffixes indexed_source name h =
    let suffixes = normalize_service_name_suffixes raw_suffixes in
    let values = selected store suffixes store.indexed_classes in
    let listed = (normalize_unique_service_names_lem values name).2 in
    selected_sound store suffixes store.indexed_classes name (ground arith)
