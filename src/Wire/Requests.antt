-- ===== src/Wire/Requests.antt =====
-- internal/sofarpcwire/wire.go: the parts of a generic request in front of its Hessian encoding,
-- which are the service's unique name, the header, the properties and the baggage. An argument is
-- of any type, since nothing here reads one.
pub mod Baggage
pub mod Build
pub mod Success
pub mod Keys
pub mod Prepare
pub mod Prepared
pub mod ReadBack
pub mod UniqueName
use sofarpc_cli.Prelude.{
  Bool, Bytes, List, Option, [], codes, false, if◌then◌else◌, is_empty, length, none, not, some,
  true, ◌++◌, ◌==◌, ◌∷◌,
}
use sofarpc_cli.Prelude.Map.{Map, insert, lookup}
use sofarpc_cli.Prelude.Result.{Result, err, guard, map_err, ok, ◌>>=◌, ◌>>◌}
use sofarpc_cli.Prelude.Sort.{contains, sort_strings}
use sofarpc_cli.Prelude.TrimSpace.{trim_space}

-- a value of the properties: a text or a map of texts
pub data RequestProp : Type 0 where
  text_prop : Bytes → RequestProp
  map_prop : Map Bytes → RequestProp

pub record RequestSpec (A : Type 0) : Type 0 where
  pub service : Bytes
  pub method : Bytes
  pub param_types : List Bytes
  pub args : List A
  pub version : Bytes
  pub unique_id : Bytes
  pub target_app_name : Bytes
  pub request_baggage : Map Bytes

-- what BuildGenericRequest has put together when it makes its writer
pub record RequestParts : Type 0 where
  pub header : Map Bytes
  pub request_props : Map RequestProp
  pub target_app : Option Bytes
  pub unique_name : Bytes

pub data RequestError : Type 0 where
  service_is_required method_is_required args_mismatch empty_baggage_key : RequestError
  duplicated_baggage_key : Bytes → RequestError

abbrev pub default_version : Bytes
default_version = codes "1.0"

abbrev generic_type : Bytes
generic_type = codes "2"

abbrev invoke_type_sync : Bytes
invoke_type_sync = codes "sync"

abbrev pub request_baggage_key : Bytes
request_baggage_key = codes "rpc_req_baggage"

abbrev pub version_or_default : Bytes → Bytes
version_or_default version = if is_empty version then default_version else version

unfoldable pub target_service_unique_name : Bytes → Bytes → Bytes → Bytes
target_service_unique_name service version unique_id =
    let versioned = trim_space service ++ codes ":" ++ version_or_default (trim_space version) in
    if is_empty (trim_space unique_id)
    then versioned
    else versioned ++ codes ":" ++ trim_space unique_id

unfoldable pub request_header : Bytes → Bytes → Bytes → Map Bytes
request_header method unique_name target_app_name =
    let header = insert (codes "service") unique_name (
      insert (codes "sofa_head_method_name") method (
        insert (codes "sofa_head_target_service") unique_name (
          insert (codes "sofa_head_generic_type") generic_type (
            insert (codes "type") invoke_type_sync
              (insert (codes "generic.revise") (codes "true") []))))) in
    if is_empty (trim_space target_app_name)
    then header
    else insert (codes "sofa_head_target_app") target_app_name header

unfoldable pub fixed_generic_request_props : Map RequestProp
fixed_generic_request_props = insert (codes "sofa_head_generic_type") (text_prop generic_type) (
    insert (codes "type") (text_prop invoke_type_sync)
      (insert (codes "generic.revise") (text_prop (codes "true")) []))

unfoldable pub raw_keys : Map Bytes → List Bytes
raw_keys [] = []
raw_keys ((k, v) ∷ m) = k ∷ raw_keys m

abbrev pub text_at : Bytes → Map Bytes → Bytes
text_at k m = elim (lookup k m) [ none ↦ [] | some v ↦ v ]

unfoldable pub validate_request_baggage_key : Bytes → Result RequestError (Unit {0})
validate_request_baggage_key key = guard (not (is_empty key)) empty_baggage_key

-- the loop over the sorted keys, with the keys it has seen and the map it fills
unfoldable pub collect_baggage :
    List Bytes → Map Bytes → List Bytes → Map Bytes → Result RequestError (Map Bytes)
unfolding validate_request_baggage_key
collect_baggage [] baggage seen out = ok out
collect_baggage (raw_key ∷ keys) baggage seen out = do
  let key = trim_space raw_key
  validate_request_baggage_key key
  guard (not (contains key seen)) (duplicated_baggage_key key)
  collect_baggage keys baggage (key ∷ seen) (insert key (text_at raw_key baggage) out)

unfoldable pub add_request_baggage :
    Map RequestProp → Map Bytes → Result RequestError (Map RequestProp)
add_request_baggage request_props baggage =
    if length baggage == 0
    then ok request_props
    else (collect_baggage (sort_strings (raw_keys baggage)) baggage [] [] >>= λ out.
        ok (insert request_baggage_key (map_prop out) request_props))

-- BuildGenericRequest in front of its writer, without PrepareArgs, whose result only the writer takes
unfoldable pub build_request_parts : {A : Type 0} → RequestSpec A → Result RequestError RequestParts
build_request_parts spec = do
  guard (not (is_empty (trim_space spec.service))) service_is_required
  guard (not (is_empty (trim_space spec.method))) method_is_required
  guard (length spec.param_types == length spec.args) args_mismatch
  let unique_name = target_service_unique_name spec.service spec.version spec.unique_id
  let header = request_header spec.method unique_name spec.target_app_name
  request_props ← add_request_baggage fixed_generic_request_props spec.request_baggage
  let app = trim_space spec.target_app_name
  ok (record {
    header = header;
    request_props = request_props;
    target_app = if is_empty app then none else some app;
    unique_name = unique_name;
  })
