-- ===== src/Wire/Encoder.antt =====
-- internal/sofarpcwire/encoder.go: the values that writeValue takes, the writer's state and the
-- table of object definitions. A Go map with string keys is a list of its entries, in any order:
-- the writer sorts the keys. `Values` has writeValue itself.
pub mod Values
use sofarpc_cli.Prelude.{
  Bool, Bytes, List, Option, [], codes, false, if◌then◌else◌, is_empty, length, ltb, map, none,
  some, true, ℕ, ◌++◌, ◌-◌, ◌==◌, ◌^◌, ◌∷◌, suc,
}
use sofarpc_cli.Prelude.Int.{pos, ℤ}
use sofarpc_cli.Prelude.Map.{Map, delete, insert, keys, lookup}
use sofarpc_cli.Prelude.Sort.{sort_strings}
use sofarpc_cli.Wire.Result.{WireResult, err, guard, object_mismatch, ok, ◌>>=◌, ◌>>◌}
use sofarpc_cli.Wire.Writer.{
  write_double, write_int, write_len_string, write_length, write_long, write_string, write_type,
}

-- The dynamic types that writeValue tells apart. `go_int` stands for int and the signed types below
-- it, `go_uint` for uint and the unsigned types below it; a float is its IEEE bits as a float64.
mutual
  pub data Arg : Type 0 where
    go_nil : Arg
    go_bool : Bool → Arg
    go_string : Bytes → Arg
    go_int : ℤ → Arg
    go_int64 : ℤ → Arg
    go_uint : ℕ → Arg
    go_uint64 : ℕ → Arg
    go_float : ℕ → Arg
    go_strings : List Bytes → Arg
    typed_object : Bytes → Fields → Arg
    linked_hash_map : Fields → Arg
    string_map : Fields → Arg
    array_list : Items → Arg
    go_slice : Items → Arg
    json_number : Bytes → Arg
    other_type : Arg

  pub data Items : Type 0 where
    no_items : Items
    item : Arg → Items → Items

  pub data Fields : Type 0 where
    no_fields : Fields
    field : Bytes → Arg → Fields → Fields

unfoldable pub items_of : Items → List Arg
items_of no_items = []
items_of (item v vs) = v ∷ items_of vs

unfoldable pub max : ℕ → ℕ → ℕ
max a b = if ltb a b then b else a

-- How deep values are nested: one level for a value, one more for what it holds. An entry that a
-- map does not have is nil.
unfoldable mutual
  unfolding max

  pub depth : Arg → ℕ
  depth (go_strings ss) = 2
  depth (typed_object name fields) = suc (fields_depth fields)
  depth (linked_hash_map fields) = suc (fields_depth fields)
  depth (string_map fields) = suc (fields_depth fields)
  depth (array_list items) = suc (items_depth items)
  depth (go_slice items) = suc (items_depth items)
  depth g = 1

  pub items_depth : Items → ℕ
  items_depth no_items = 0
  items_depth (item g items) = max (depth g) (items_depth items)

  pub fields_depth : Fields → ℕ
  fields_depth no_fields = 1
  fields_depth (field k g fields) = max (depth g) (fields_depth fields)

unfoldable pub entries_of : Fields → Map Arg
entries_of no_fields = []
entries_of (field k v fs) = (k, v) ∷ entries_of fs

pub record HessianWriter : Type 0 where
  pub buf : Bytes
  pub object_defs : Map ℕ

abbrev pub Writing : Type 0
Writing = HessianWriter → WireResult HessianWriter

unfoldable pub new_hessian_writer : HessianWriter
new_hessian_writer = record { buf = []; object_defs = [] }

-- an append to the buffer
abbrev pub on_buf : (Bytes → Bytes) → HessianWriter → HessianWriter
on_buf f w = record w { buf = f w.buf }

abbrev pub put : ℕ → HessianWriter → HessianWriter
put b w = on_buf (λ buf. buf ++ (b ∷ [])) w

unfoldable pub put_string : Bytes → Writing
put_string value w = do buf ← write_string value w.buf; ok (record w { buf = buf })

abbrev pub type_key : Bytes
type_key = codes "@type"

abbrev pub request_class : Bytes
request_class = codes "com.alipay.sofa.rpc.core.request.SofaRequest"

-- strings.Join
unfoldable pub join_names : List Bytes → Bytes
join_names [] = []
join_names (name ∷ []) = name
join_names (name ∷ names) = name ++ (0 ∷ join_names names)

unfoldable pub object_def_key : Bytes → List Bytes → Bytes
unfolding join_names
object_def_key type_name field_names = type_name ++ (0 ∷ join_names field_names)

unfoldable pub ordered_object_field_keys : Map Arg → List Bytes
ordered_object_field_keys fields = sort_strings (keys fields)

unfoldable pub ordered_map_keys : Map Arg → List Bytes
ordered_map_keys values =
    let extra = sort_strings (keys (delete type_key values)) in
    elim (lookup type_key values) [ none ↦ extra | some v ↦ type_key ∷ extra ]

abbrev pub value_at : Bytes → Map Arg → Arg
value_at key values = elim (lookup key values) [ none ↦ go_nil | some v ↦ v ]

unfoldable pub values_at : List Bytes → Map Arg → List Arg
values_at [] values = []
values_at (key ∷ names) values = value_at key values ∷ values_at names values

unfoldable pub write_names : List Bytes → Writing
unfolding put_string
write_names [] w = ok w
write_names (name ∷ names) w = do w1 ← put_string name w; write_names names w1

-- the definition of an object that was not written before, with its index
unfoldable pub define_object : Bytes → List Bytes → HessianWriter → WireResult (ℕ × HessianWriter)
define_object type_name field_names w = do
  let ref = length w.object_defs
  let w1 = record w {
    object_defs = insert (object_def_key type_name field_names) ref w.object_defs;
  }
  w2 ← write_names field_names (
      on_buf (write_int (pos (length field_names)))
        (on_buf (write_len_string type_name) (put b'O' w1)))
  ok (ref, w2)

unfoldable pub object_ref : Bytes → List Bytes → HessianWriter → WireResult (ℕ × HessianWriter)
object_ref type_name field_names w =
    elim (lookup (object_def_key type_name field_names) w.object_defs) [
      | some ref ↦ ok (ref, w)
      | none ↦ define_object type_name field_names w
    ]
