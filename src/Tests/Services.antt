-- ===== src/Tests/Services.antt =====
-- The services of a small index.
use sofarpc_cli.Core.Target.Address.{starts_with}
use sofarpc_cli.Core.Contract.{Class, IndexedClassStore, Method}
use sofarpc_cli.Core.Contract.Services.{
  discover_service_interfaces, normalize_unique_service_names, normalize_service_name_suffixes,
  candidate_class, name_matches_suffix, class_simple_name, has_suffix, fqn_simple_name,
  unique_names, after_last_dot, selected,
}
use sofarpc_cli.Core.Contract.Services.Discovery.{IsSorted, normalize_unique_service_names_lem}
use sofarpc_cli.Core.Contract.Services.Selection.{IsService, discover_service_interfaces-IsService}
use sofarpc_cli.Mcp.ContractHolder.Lru.{IsDistinct}
use sofarpc_cli.Prelude.{
  [], any, bytes_eq, codes, if◌then◌else◌, is_empty, none, not, refl, some, true, ◌&&◌, ◌∷◌, ◌≡◌,
}
use sofarpc_cli.Prelude.Entries.{Has}
use sofarpc_cli.Prelude.Sort.{contains, insert_sorted, sort_strings}
use sofarpc_cli.Prelude.TrimSpace.{trim_space}

abbrev ping : Method
ping = record {
  name = codes "ping";
  param_types = [];
  param_type_templates = [];
  return_type = [];
  return_type_template = [];
}

abbrev order_facade : Class
order_facade = record {
  fqn = codes "a.OrderFacade";
  simple_name = codes "OrderFacade";
  binary_name = [];
  file = [];
  kind = codes "interface";
  type_params = [];
  superclass = [];
  interfaces = [];
  fields = [];
  enum_constants = [];
  methods = ping ∷ [];
}

abbrev small_index : IndexedClassStore
small_index = record {
  class_of = λ fqn. if bytes_eq fqn (codes "a.OrderFacade") then some order_facade else none;
  indexed_classes = codes "a.Order" ∷ codes "a.OrderFacade" ∷ [];
}

order_facade_found :
    contains
      (codes "a.OrderFacade")
      (discover_service_interfaces small_index [] []).selected_services
    ≡ true
unfolding discover_service_interfaces contains normalize_unique_service_names sort_strings
    unique_names selected candidate_class bytes_eq name_matches_suffix
    normalize_service_name_suffixes has_suffix starts_with fqn_simple_name after_last_dot trim_space
    class_simple_name insert_sorted
order_facade_found = refl

discover_service_interfaces-IsService_example :
    Has
      (IsService small_index
        (discover_service_interfaces small_index [] []).suffixes
        (codes "a.OrderFacade"))
      small_index.indexed_classes
discover_service_interfaces-IsService_example =
    discover_service_interfaces-IsService small_index [] [] (codes "a.OrderFacade")
      order_facade_found

normalize_unique_service_names_lem_example :
    let out = normalize_unique_service_names (codes " b" ∷ [] ∷ codes "a" ∷ codes "b" ∷ []) in
    IsSorted out
    × IsDistinct out
    × (contains (codes "b") out ≡ (
        not (is_empty (codes "b"))
        && any
            (λ v. bytes_eq (trim_space v) (codes "b"))
            (codes " b" ∷ [] ∷ codes "a" ∷ codes "b" ∷ [])))
normalize_unique_service_names_lem_example =
    normalize_unique_service_names_lem (codes " b" ∷ [] ∷ codes "a" ∷ codes "b" ∷ []) (codes "b")
