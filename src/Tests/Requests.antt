-- ===== src/Tests/Requests.antt =====
-- Requests with baggage: one whose keys are told apart, and one whose keys are not.
use sofarpc_cli.Wire.Requests.{version_or_default}
use sofarpc_cli.Wire.Requests.UniqueName.{no_colon, target_service_unique_name_injective}
use sofarpc_cli.Prelude.Result.{err, ok}
use sofarpc_cli.Prelude.{
  Bytes, [], ap, arith, bytes_eq, codes, length, refl, some, ℕ, ◌∷◌, ◌≡◌, ◌≢◌, true,
}
use sofarpc_cli.Prelude.Map.{Map, insert, lookup}
use sofarpc_cli.Prelude.Sort.{bytes_le, contains, insert_sorted, sort_strings}
use sofarpc_cli.Prelude.TrimSpace.{trim_space}
use sofarpc_cli.Wire.Requests.{
  RequestParts, RequestSpec, add_request_baggage, build_request_parts, collect_baggage,
  fixed_generic_request_props, raw_keys, request_header, target_service_unique_name,
  validate_request_baggage_key, map_prop, request_baggage_key, RequestError,
}
use sofarpc_cli.Wire.Requests.Baggage.{build_request_parts-baggage, build_request_parts-duplicated}

abbrev with_baggage : Map Bytes → RequestSpec ℕ
with_baggage baggage = record {
  service = codes "a.OrderFacade";
  method = codes "get";
  param_types = codes "long" ∷ [];
  args = 7 ∷ [];
  version = [];
  unique_id = codes " blue ";
  target_app_name = codes "orders";
  request_baggage = baggage;
}

abbrev told_apart : Map Bytes
told_apart = (codes " tenant ", codes "t1") ∷ (codes "env", codes "test") ∷ []

abbrev not_told_apart : Map Bytes
not_told_apart = (codes " env", codes "t1") ∷ (codes "env", codes "test") ∷ []

abbrev parts_sent : RequestParts
parts_sent = record {
  header = request_header (codes "get") (codes "a.OrderFacade:1.0:blue") (codes "orders");
  request_props =
      insert request_baggage_key
        (map_prop (insert (codes "env") (codes "test") ((codes "tenant", codes "t1") ∷ [])))
        fixed_generic_request_props;
  target_app = some (codes "orders");
  unique_name = codes "a.OrderFacade:1.0:blue";
}

request_built : build_request_parts (with_baggage told_apart) ≡ ok parts_sent
unfolding build_request_parts add_request_baggage collect_baggage raw_keys sort_strings
    insert_sorted bytes_le trim_space lookup insert bytes_eq contains target_service_unique_name
    validate_request_baggage_key
request_built = refl

tenant_there : lookup (codes " tenant ") told_apart ≡ some (codes "t1")
unfolding lookup bytes_eq
tenant_there = refl

build_request_parts-baggage_example :
    (out : Map Bytes) × (lookup request_baggage_key parts_sent.request_props ≡ some (map_prop out))
    × (lookup (trim_space (codes " tenant ")) out ≡ some (codes "t1"))
build_request_parts-baggage_example =
    build_request_parts-baggage (with_baggage told_apart) parts_sent (codes " tenant ") (codes "t1")
      request_built tenant_there

first_there : lookup (codes " env") not_told_apart ≡ some (codes "t1")
unfolding lookup bytes_eq
first_there = refl

second_there : lookup (codes "env") not_told_apart ≡ some (codes "test")
unfolding lookup bytes_eq
second_there = refl

keys_differ : codes " env" ≢ codes "env"
keys_differ e = absurd (omega (arith, ap length e))

trimmed_alike : trim_space (codes " env") ≡ trim_space (codes "env")
unfolding trim_space
trimmed_alike = refl

build_request_parts-duplicated_example :
    (e : RequestError) × (build_request_parts (with_baggage not_told_apart) ≡ err e)
build_request_parts-duplicated_example =
    build_request_parts-duplicated (with_baggage not_told_apart) (codes " env") (codes "env")
      (codes "t1") (codes "test") first_there second_there keys_differ trimmed_alike

service_has_no_colon : no_colon (trim_space (codes " a.F")) ≡ true
unfolding no_colon trim_space
service_has_no_colon = refl

same_service_has_no_colon : no_colon (trim_space (codes "a.F ")) ≡ true
unfolding no_colon trim_space
same_service_has_no_colon = refl

standard_version_has_no_colon : no_colon (version_or_default (trim_space [])) ≡ true
unfolding no_colon trim_space
standard_version_has_no_colon = refl

version_has_no_colon : no_colon (version_or_default (trim_space (codes "1.0"))) ≡ true
unfolding no_colon trim_space
version_has_no_colon = refl

one_name :
    target_service_unique_name (codes " a.F") [] (codes "blue")
    ≡ target_service_unique_name (codes "a.F ") (codes "1.0") (codes "blue ")
unfolding target_service_unique_name trim_space
one_name = refl

target_service_unique_name_injective_example :
    (trim_space (codes " a.F") ≡ trim_space (codes "a.F "))
    × (version_or_default (trim_space []) ≡ version_or_default (trim_space (codes "1.0")))
    × (trim_space (codes "blue") ≡ trim_space (codes "blue "))
target_service_unique_name_injective_example =
    target_service_unique_name_injective (codes " a.F") (codes "a.F ") [] (codes "1.0")
      (codes "blue") (codes "blue ") service_has_no_colon same_service_has_no_colon
      standard_version_has_no_colon version_has_no_colon one_name
