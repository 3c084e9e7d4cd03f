-- ===== src/Core/Contract/Services.antt =====
-- internal/core/contract/services.go: the services among the indexed classes.
pub mod Discovery
pub mod Selection
use sofarpc_cli.Core.Contract.{Class, IndexedClassStore}
use sofarpc_cli.Core.Target.Address.{starts_with}
use sofarpc_cli.Prelude.{
  Bool, Bytes, List, Option, [], any, bytes_eq, codes, if◌then◌else◌, is_empty, length, ltb, none,
  reverse, some, ◌&&◌, ◌++◌, ◌==◌, ◌||◌, ◌∷◌,
}
use sofarpc_cli.Prelude.Sort.{contains, sort_strings}
use sofarpc_cli.Prelude.TrimSpace.{trim_space}

pub record ServiceDiscovery : Type 0 where
  pub source : Bytes
  pub suffixes : List Bytes
  pub candidate_services : List Bytes
  pub selected_services : List Bytes

-- the loop of normalizeUniqueServiceNames, `seen` being what is in `out`
unfoldable pub unique_names : List Bytes → List Bytes → List Bytes
unique_names out [] = out
unique_names out (value ∷ values) =
    let name = trim_space value in
    unique_names (if is_empty name || contains name out then out else out ++ name ∷ []) values

unfoldable pub normalize_unique_service_names : List Bytes → List Bytes
normalize_unique_service_names values = sort_strings (unique_names [] values)

unfoldable pub normalize_service_name_suffixes : List Bytes → List Bytes
normalize_service_name_suffixes raw =
    let out = normalize_unique_service_names raw in
    if length out == 0 then codes "Facade" ∷ [] else out

unfoldable pub source_name : Bytes → Bytes → Bytes
source_name value fallback = if is_empty (trim_space value) then fallback else trim_space value

-- what stands behind the last dot
unfoldable pub after_last_dot : Bytes → Bytes → Bytes
after_last_dot name [] = name
after_last_dot name (c ∷ cs) = after_last_dot (if c == b'.' then cs else name) cs

unfoldable pub fqn_simple_name : Bytes → Bytes
fqn_simple_name fqn = after_last_dot (trim_space fqn) (trim_space fqn)

unfoldable pub class_simple_name : Class → Bytes
class_simple_name cls =
    if is_empty (trim_space cls.simple_name)
    then fqn_simple_name cls.fqn
    else trim_space cls.simple_name

-- strings.HasSuffix
unfoldable pub has_suffix : Bytes → Bytes → Bool
has_suffix s suffix = starts_with (reverse suffix) (reverse s)

unfoldable pub name_matches_suffix : Bytes → List Bytes → Bool
name_matches_suffix name suffixes =
    any (λ suffix. bytes_eq suffix (codes "*") || has_suffix name suffix) suffixes

-- the class of an indexed name that is a candidate
unfoldable pub candidate_class : IndexedClassStore → List Bytes → Bytes → Option Class
candidate_class store suffixes fqn = elim (store.class_of fqn) [
  | none ↦ none
  | some cls ↦
      if name_matches_suffix (fqn_simple_name fqn) suffixes
        && (bytes_eq cls.kind (codes "interface") && ltb 0 (length cls.methods))
      then some cls
      else none
]

unfoldable pub candidates : IndexedClassStore → List Bytes → List Bytes → List Bytes
candidates store suffixes [] = []
candidates store suffixes (fqn ∷ fqns) =
    let rest = candidates store suffixes fqns in
    elim (candidate_class store suffixes fqn) [ none ↦ rest | some cls ↦ cls.fqn ∷ rest ]

unfoldable pub selected : IndexedClassStore → List Bytes → List Bytes → List Bytes
selected store suffixes [] = []
selected store suffixes (fqn ∷ fqns) =
    let rest = selected store suffixes fqns in
    elim (candidate_class store suffixes fqn) [
      | none ↦ rest
      | some cls ↦
          if name_matches_suffix (class_simple_name cls) suffixes then cls.fqn ∷ rest else rest
    ]

-- DiscoverServiceInterfaces of a store that has an index
unfoldable pub discover_service_interfaces :
    IndexedClassStore → List Bytes → Bytes → ServiceDiscovery
discover_service_interfaces store raw_suffixes indexed_source =
    let suffixes = normalize_service_name_suffixes raw_suffixes in
    record {
      source = source_name indexed_source (codes "indexed-contract-store");
      suffixes = suffixes;
      candidate_services =
          normalize_unique_service_names (candidates store suffixes store.indexed_classes);
      selected_services =
          normalize_unique_service_names (selected store suffixes store.indexed_classes);
    }
