-- ===== src/Wire/Encoder/Values.antt =====
-- internal/sofarpcwire/encoder.go: writeValue and the writers that call it, which take that call as
-- the parameter `recur`: writeValue itself gives its own call with less fuel.
use sofarpc_cli.Prelude.{
  Bytes, List, Option, [], codes, if◌then◌else◌, is_empty, length, ltb, map, none, some, suc, zero,
  ℕ, ◌-◌, ◌==◌, ◌^◌, ◌∷◌,
}
use sofarpc_cli.Prelude.Int.{pos}
use sofarpc_cli.Prelude.Map.{Map}
use sofarpc_cli.Wire.Result.{
  ◌>>=◌, ◌>>◌, err, guard, object_mismatch, ok, stuck, uint64_out_of_range, unsupported_value,
}
use sofarpc_cli.Wire.Writer.{write_double, write_int, write_length, write_long, write_type}
use sofarpc_cli.Wire.Encoder.{
  Arg, Fields, HessianWriter, Writing, entries_of, items_of, object_ref, on_buf, ordered_map_keys,
  ordered_object_field_keys, put, put_string, request_class, value_at, values_at, go_nil, go_bool,
  go_string, go_int, go_int64, go_uint, go_uint64, go_float, go_strings, typed_object,
  linked_hash_map, string_map, array_list, go_slice, other_type, json_number,
}

-- a `*string` as a value
abbrev pub pointed_string : Option Bytes → Arg
pointed_string none = go_nil
pointed_string (some s) = go_string s

-- the type in front of a list or a map
unfoldable pub put_type : Bytes → HessianWriter → HessianWriter
put_type type_name w = if is_empty type_name then w else on_buf (write_type type_name) w

module _ (recur : Arg → Writing) where
  -- the loops over the values of an object or a list
  unfoldable pub write_values : List Arg → Writing
  write_values [] w = ok w
  write_values (v ∷ vs) w = do w1 ← recur v w; write_values vs w1

  unfoldable pub write_object : Bytes → List Bytes → List Arg → Writing
  write_object type_name field_names values w = do
    guard (length field_names == length values) object_mismatch
    (ref, w1) ← object_ref type_name field_names w
    write_values values (on_buf (write_int (pos ref)) (put b'o' w1))

  unfoldable pub write_typed_object : Bytes → Map Arg → Writing
  write_typed_object type_name fields w =
      let field_names = ordered_object_field_keys fields in
      write_object type_name field_names (values_at field_names fields) w

  unfoldable pub write_entries : List Bytes → Map Arg → Writing
  write_entries [] values w = ok w
  write_entries (key ∷ names) values w = do
    w1 ← put_string key w
    w2 ← recur (value_at key values) w1
    write_entries names values w2

  unfoldable pub write_map : Bytes → Map Arg → Writing
  write_map type_name values w = do
    w1 ← write_entries (ordered_map_keys values) values (put_type type_name (put b'M' w))
    ok (put b'z' w1)

  unfoldable pub write_typed_list : Bytes → List Arg → Writing
  write_typed_list type_name values w = do
    w1 ←
        write_values values
          (on_buf (write_length (length values)) (put_type type_name (put b'V' w)))
    ok (put b'z' w1)

  -- the switch of writeValue
  unfoldable pub write_by_type : Arg → Writing
  write_by_type go_nil w = ok (put b'N' w)
  write_by_type (go_bool b) w = ok (put (if b then b'T' else b'F') w)
  write_by_type (go_string s) w = put_string s w
  write_by_type (go_int n) w = ok (on_buf (write_int n) w)
  write_by_type (go_int64 n) w = ok (on_buf (write_long n) w)
  write_by_type (go_uint n) w = ok (on_buf (write_long (pos n)) w)
  write_by_type (go_uint64 n) w =
      if ltb (2 ^ 63 - 1) n then err uint64_out_of_range else ok (on_buf (write_long (pos n)) w)
  write_by_type (go_float bits) w = ok (on_buf (write_double bits) w)
  write_by_type (go_strings ss) w = write_typed_list (codes "[string]") (map go_string ss) w
  write_by_type (typed_object type_name fields) w =
      write_typed_object type_name (entries_of fields) w
  write_by_type (linked_hash_map fields) w =
      write_map (codes "java.util.LinkedHashMap") (entries_of fields) w
  write_by_type (string_map fields) w = write_map [] (entries_of fields) w
  write_by_type (array_list items) w =
      write_typed_list (codes "java.util.ArrayList") (items_of items) w
  write_by_type (go_slice items) w =
      write_typed_list (codes "java.util.ArrayList") (items_of items) w
  write_by_type (json_number raw) w = err unsupported_value
  write_by_type other_type w = err unsupported_value

  unfoldable pub write_sofa_request : Bytes → Bytes → Fields → List Bytes → Option Bytes → Writing
  write_sofa_request method unique_name request_props param_types target_app_name w =
      write_object request_class
        (codes "targetAppName"
          ∷ codes "methodName"
          ∷ codes "targetServiceUniqueName"
          ∷ codes "requestProps"
          ∷ codes "methodArgSigs"
          ∷ [])
        (pointed_string target_app_name
          ∷ go_string method
          ∷ go_string unique_name
          ∷ string_map request_props
          ∷ go_strings param_types
          ∷ [])
        w

unfoldable pub write_value : ℕ → Arg → Writing
write_value zero v w = stuck
write_value (suc fuel) v w = write_by_type (write_value fuel) v w
