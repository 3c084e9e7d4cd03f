-- ===== src/Tests/BuiltRequest.antt =====
-- A request with baggage, an object and a list, built and read back.
use sofarpc_cli.Wire.Requests.Prepared.{IsJson, Prepares, normalize_value-Prepares}
use sofarpc_cli.Prelude.Separated.{lacks}
use sofarpc_cli.Prelude.Sort.{bytes_le, contains, insert_sorted, sort_strings}
use sofarpc_cli.Prelude.TrimSpace.{trim_space}
use sofarpc_cli.Wire.Encoder.Values.{
  put_type, write_by_type, write_entries, write_map, write_object, write_sofa_request,
  write_typed_list, write_typed_object, write_value, write_values,
}
use sofarpc_cli.Wire.Requests.Prepare.{
  class_name_of, float_or_raw, has_fraction, normalize_number, normalize_value,
}
use sofarpc_cli.Wire.Utf8.{count_runes, rune_count, rune_size, seq_len}
use sofarpc_cli.Wire.Writer.{
  write_int, write_len_string, write_length, write_string, write_type, write_long,
}
use sofarpc_cli.Wire.RoundTrip.ValueBack.{IsSound}
use sofarpc_cli.Wire.RoundTrip.Image.{Each, IsImage, IsObject}
use sofarpc_cli.Wire.Requests.ReadBack.{decode-build_generic_request, request_names, request_values}
use sofarpc_cli.Wire.Requests.Success.{build_generic_request_succeeds}
use sofarpc_cli.Wire.RoundTrip.Success.{IsKnown}
use sofarpc_cli.Wire.Requests.Prepare.{class_name, with_class}
use sofarpc_cli.Wire.Requests.Build.{
  BuildError, EncodedRequest, build_generic_request, encode_sofa_request, prepare_args, prop_fields,
  request_depth, text_fields,
}
use sofarpc_cli.Wire.Requests.{
  RequestParts, RequestSpec, build_request_parts, fixed_generic_request_props, map_prop,
  request_header, request_baggage_key, validate_request_baggage_key, collect_baggage, raw_keys,
  target_service_unique_name, add_request_baggage,
}
use sofarpc_cli.Wire.Decoder.State.{Decoder, Value, ensure_limits}
use sofarpc_cli.Wire.Decoder.Values.{decode, read_items, read_value}
use sofarpc_cli.Tests.RoundTrip.{print_text, standard_limits}
use sofarpc_cli.Wire.Result.{ok}
use sofarpc_cli.Wire.RoundTrip.Decoded.{Holds}
use sofarpc_cli.Wire.RoundTrip.Ascii.{IsAscii-IsText}
use sofarpc_cli.Prelude.Result.{Result}
use sofarpc_cli.Wire.Encoder.{
  Arg, go_int64, typed_object, entries_of, field, go_string, json_number, no_fields, request_class,
  string_map, type_key, write_names, ordered_object_field_keys, join_names, depth, object_def_key,
  put_string, new_hessian_writer, ordered_map_keys, define_object, max, values_at, object_ref,
  items_of,
}
use sofarpc_cli.Prelude.Int.{pos, ℤ}
use sofarpc_cli.Prelude.Map.{insert, keys, lookup, delete}
use sofarpc_cli.Prelude.{
  All, Bytes, List, Option, [], arith, codes, length, none, refl, some, suc, ℕ, ◌∷◌, ◌≡◌, ◌≤◌,
  bytes_eq,
}

abbrev order_arg : Arg
order_arg = string_map (
    field type_key (go_string (codes " a.B "))
      (field (codes "n") (json_number (codes "5")) no_fields))

abbrev order_spec : RequestSpec Arg
order_spec = record {
  service = codes "a.F";
  method = codes "get";
  param_types = codes "a.B" ∷ [];
  args = order_arg ∷ [];
  version = [];
  unique_id = [];
  target_app_name = [];
  request_baggage = (codes "k", codes "v") ∷ [];
}

abbrev parse_five : Bytes → Option ℤ
parse_five s = some (pos 5)

abbrev parse_none : Bytes → Option ℕ
parse_none s = none

abbrev order_parts : RequestParts
order_parts = record {
  header = request_header (codes "get") (codes "a.F:1.0") [];
  request_props =
      insert request_baggage_key (map_prop ((codes "k", codes "v") ∷ []))
        fixed_generic_request_props;
  target_app = none;
  unique_name = codes "a.F:1.0";
}

abbrev request_of : Result BuildError EncodedRequest → EncodedRequest
request_of (Result.ok e) = e
request_of (Result.err e) = record {
  class = [];
  header = [];
  content = [];
  target_service_unique_name = [];
}

abbrev order_request : EncodedRequest
order_request = request_of (build_generic_request parse_five parse_none order_spec)

order_parts_lem : build_request_parts order_spec ≡ Result.ok order_parts
unfolding build_request_parts add_request_baggage collect_baggage raw_keys sort_strings
    insert_sorted bytes_le trim_space lookup insert bytes_eq contains target_service_unique_name
    validate_request_baggage_key
order_parts_lem = refl

order_request_lem : build_generic_request parse_five parse_none order_spec ≡ Result.ok order_request
unfolding build_generic_request encode_sofa_request prepare_args prop_fields request_depth
    normalize_value has_fraction class_name_of class_name with_class depth max write_sofa_request
    write_value write_by_type write_typed_object write_object write_values object_ref define_object
    object_def_key join_names write_names put_string write_string write_int write_len_string
    write_length write_type put_type write_typed_list write_map write_entries new_hessian_writer
    entries_of items_of ordered_object_field_keys ordered_map_keys values_at keys rune_count
    count_runes rune_size seq_len delete text_fields float_or_raw normalize_number
    build_request_parts add_request_baggage collect_baggage raw_keys sort_strings insert_sorted
    bytes_le trim_space lookup insert bytes_eq contains target_service_unique_name
    validate_request_baggage_key fixed_generic_request_props
order_request_lem = refl

order_args :
    prepare_args parse_five parse_none order_spec.args
    ≡ (typed_object (codes "a.B") (field (codes "n") (go_int64 (pos 5)) no_fields) ∷ [])
unfolding prepare_args normalize_value has_fraction class_name_of class_name with_class trim_space
    lookup bytes_eq entries_of float_or_raw normalize_number
order_args = refl

order_depth :
    3
    ≡ request_depth
        (prop_fields order_parts.request_props)
        (prepare_args parse_five parse_none order_spec.args)
unfolding prepare_args normalize_value has_fraction class_name_of class_name with_class trim_space
    lookup bytes_eq entries_of float_or_raw normalize_number request_depth depth max prop_fields
    text_fields insert fixed_generic_request_props
order_depth = refl

order_request-Holds : Holds (ensure_limits standard_limits) order_request.content
unfolding build_generic_request encode_sofa_request prepare_args prop_fields request_depth
    normalize_value has_fraction class_name_of class_name with_class depth max write_sofa_request
    write_value write_by_type write_typed_object write_object write_values object_ref define_object
    object_def_key join_names write_names put_string write_string write_int write_len_string
    write_length write_type put_type write_typed_list write_map write_entries new_hessian_writer
    entries_of items_of ordered_object_field_keys ordered_map_keys values_at keys rune_count
    count_runes rune_size seq_len delete text_fields float_or_raw normalize_number
    build_request_parts add_request_baggage collect_baggage raw_keys sort_strings insert_sorted
    bytes_le trim_space lookup insert bytes_eq contains target_service_unique_name
    validate_request_baggage_key fixed_generic_request_props write_long ensure_limits
order_request-Holds = record {
  refs_hold = omega arith;
  items_hold = omega arith;
  scalars_hold = omega arith;
  refs_small = omega arith;
  items_small = omega arith;
}

order_values-All : All (λ g. IsSound 3 g) (request_values order_spec order_parts)
unfolding prop_fields text_fields insert bytes_eq fixed_generic_request_props entries_of keys lookup
order_values-All = (
  tt,
  (
    IsAscii-IsText (codes "get") (omega arith) (omega arith),
    (
      IsAscii-IsText (codes "a.F:1.0") (omega arith) (omega arith),
      (
        (
          (
            (IsAscii-IsText (codes "generic.revise") (omega arith) (omega arith)),
            (
              (IsAscii-IsText (codes "type") (omega arith) (omega arith)),
              (
                (IsAscii-IsText (codes "sofa_head_generic_type") (omega arith) (omega arith)),
                ((IsAscii-IsText (codes "rpc_req_baggage") (omega arith) (omega arith)), tt),
              ),
            ),
          ),
          (refl, (refl, (refl, (refl, tt)))),
          (
            (IsAscii-IsText (codes "true") (omega arith) (omega arith)),
            (
              (IsAscii-IsText (codes "sync") (omega arith) (omega arith)),
              (
                (IsAscii-IsText (codes "2") (omega arith) (omega arith)),
                (
                  (
                    ((IsAscii-IsText (codes "k") (omega arith) (omega arith)), tt),
                    (refl, tt),
                    ((IsAscii-IsText (codes "v") (omega arith) (omega arith)), tt),
                  ),
                  tt,
                ),
              ),
            ),
          ),
        ),
        (((IsAscii-IsText (codes "a.B") (omega arith) (omega arith)), tt), tt),
      ),
    ),
  ),
)

order_args-All : All (λ g. IsSound 3 g) (prepare_args parse_five parse_none order_spec.args)
unfolding prepare_args normalize_value has_fraction class_name_of class_name with_class trim_space
    lookup bytes_eq entries_of float_or_raw normalize_number keys lacks
order_args-All = (
  (
    (IsAscii-IsText (codes "a.B") (omega arith) (omega arith), refl, refl),
    (
      ((IsAscii-IsText (codes "n") (omega arith) (omega arith), refl, refl), tt),
      (refl, tt),
      ((omega arith, omega arith), tt),
    ),
  ),
  tt,
)

standard_limits_deep : 12 ≤ (ensure_limits standard_limits).max_depth
unfolding ensure_limits
standard_limits_deep = omega arith

-- what the request reads back as
abbrev ReadsBack : Type 0
ReadsBack =
    (v : Value) × (d1 : Decoder) × (xs : List Value) × (d2 : Decoder) × (decode standard_limits
        print_text order_request.content
      ≡ ok (v, d1))
    × (read_items (ensure_limits standard_limits) print_text
          (read_value (ensure_limits standard_limits) print_text
            (suc (ensure_limits standard_limits).max_depth))
          (length (prepare_args parse_five parse_none order_spec.args)) [] d1
        ≡ ok (xs, d2))
    × (d2.unread ≡ [])
    × IsObject (IsImage 3 0 d1.heap) 0 d1.heap v request_class request_names
        (request_values order_spec order_parts)
    × Each (IsImage 3 0 d2.heap) xs (prepare_args parse_five parse_none order_spec.args)

decode-build_generic_request_example : ReadsBack
decode-build_generic_request_example =
    decode-build_generic_request standard_limits print_text parse_five parse_none order_spec
      order_parts order_request 3 (λ h s. refl) order_parts_lem order_request_lem order_depth
      order_values-All order_args-All standard_limits_deep order_request-Holds

order_args-IsKnown : All (λ g. IsKnown 3 g) (prepare_args parse_five parse_none order_spec.args)
unfolding prepare_args normalize_value has_fraction class_name_of class_name trim_space lookup
    bytes_eq entries_of float_or_raw normalize_number
order_args-IsKnown = ((tt, tt), tt)

build_generic_request_succeeds_example :
    (e : EncodedRequest) × (build_generic_request parse_five parse_none order_spec ≡ Result.ok e)
    × (e.class ≡ request_class)
    × (e.header ≡ order_parts.header)
    × (e.target_service_unique_name ≡ order_parts.unique_name)
build_generic_request_succeeds_example =
    build_generic_request_succeeds parse_five parse_none order_spec order_parts 3 order_parts_lem
      order_depth order_values-All order_args-All order_args-IsKnown

order_arg-IsJson : IsJson 2 order_arg
unfolding entries_of
order_arg-IsJson = (tt, (tt, tt))

normalize_value-Prepares_example :
    Prepares parse_five parse_none 2 order_arg (normalize_value parse_five parse_none order_arg)
normalize_value-Prepares_example =
    normalize_value-Prepares parse_five parse_none 2 order_arg order_arg-IsJson
