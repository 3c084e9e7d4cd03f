-- ===== src/Wire/Requests/Prepare.antt =====
-- internal/sofarpcwire/wire.go: PrepareArgs, which gives JSON-like values their Java classes. The
-- conversions of a json.Number belong to strconv: parameters, with a float64 as its IEEE bits.
use sofarpc_cli.Prelude.{
  Bool, Bytes, Option, bytes_eq, false, if◌then◌else◌, is_empty, none, some, ℕ, ◌==◌, ◌||◌, ◌∷◌, [],
}
use sofarpc_cli.Prelude.Int.{ℤ}
use sofarpc_cli.Prelude.Map.{lookup}
use sofarpc_cli.Prelude.TrimSpace.{trim_space}
use sofarpc_cli.Wire.Encoder.{
  Arg, Fields, Items, array_list, entries_of, field, go_float, go_int64, go_slice, go_string, item,
  json_number, linked_hash_map, no_fields, no_items, string_map, type_key, typed_object,
}

-- strings.ContainsAny(raw, ".eE")
unfoldable pub has_fraction : Bytes → Bool
has_fraction [] = false
has_fraction (b ∷ bs) = b == b'.' || (b == b'e' || b == b'E') || has_fraction bs

-- input["@type"].(string), where it is not blank
unfoldable pub class_name : Option Arg → Option Bytes
class_name (some (go_string name)) =
    if is_empty (trim_space name) then none else some (trim_space name)
class_name (some v) = none
class_name none = none

unfoldable pub class_name_of : Fields → Option Bytes
unfolding class_name
class_name_of input = class_name (lookup type_key (entries_of input))

-- an object of a class, or a map where there is none
unfoldable pub with_class : Option Bytes → Fields → Fields → Arg
with_class (some name) m entries = typed_object name m
with_class none m entries = linked_hash_map entries

module _ (parse_int : Bytes → Option ℤ) (parse_float : Bytes → Option ℕ) where
  unfoldable pub float_or_raw : Bytes → Arg
  float_or_raw raw = elim (parse_float raw) [ some bits ↦ go_float bits | none ↦ go_string raw ]

  unfoldable pub normalize_number : Bytes → Arg
  normalize_number raw =
      if has_fraction raw
      then float_or_raw raw
      else elim (parse_int raw) [ some n ↦ go_int64 n | none ↦ float_or_raw raw ]

  unfoldable mutual
    unfolding normalize_number class_name_of with_class

    pub normalize_value : Arg → Arg
    normalize_value (json_number raw) = normalize_number raw
    normalize_value (go_slice items) = array_list (normalize_slice items)
    normalize_value (string_map input) =
        with_class (class_name_of input) (normalize_fields input) (normalize_entries input)
    normalize_value v = v

    pub normalize_slice : Items → Items
    normalize_slice no_items = no_items
    normalize_slice (item v items) = item (normalize_value v) (normalize_slice items)

    pub normalize_fields : Fields → Fields
    normalize_fields no_fields = no_fields
    normalize_fields (field key v input) =
        if bytes_eq key type_key
        then normalize_fields input
        else field key (normalize_value v) (normalize_fields input)

    pub normalize_entries : Fields → Fields
    normalize_entries no_fields = no_fields
    normalize_entries (field key v input) = field key (normalize_value v) (normalize_entries input)
