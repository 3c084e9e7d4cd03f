-- ===== src/Wire/Decoder/Values.antt =====
-- internal/sofarpcwire/decoder.go: readValue and the readers of lists, maps, objects, types and
-- lengths. Each calls readValue, which is the parameter `recur`: readValue itself gives its own call
-- with less fuel. `sprint` is fmt.Sprint, at what the heap holds when it is called.
use sofarpc_cli.Prelude.{
  Bytes, List, [], false, if◌then◌else◌, leb, length, none, some, suc, true, zero, ℕ, ◌++◌, ◌+◌,
  ◌==◌, ◌||◌, ◌∷◌, Option,
}
use sofarpc_cli.Prelude.Int.{ltb_ℤ, negsuc, pos, pos_part, ℤ}
use sofarpc_cli.Wire.Decoder.Scalars.{
  between, read_double, read_integer, read_string_value, read_string_with_tag,
}
use sofarpc_cli.Wire.Decoder.State.{
  Decoder, Limits, Node, RawLimits, Reader, Value, add_class_def, add_type, alloc, array, bool,
  check_collection_length, ensure_limits, enter_value, entry_at, float64, int64, leave_value,
  new_decoder, null, object, on_unread, put_entry, raw_bytes, skip, text,
}
use sofarpc_cli.Wire.Decoder.Tables.{
  add_list, add_map, add_object, add_typed_list, as_int, at_end, read_byte_ref, read_long_ref,
  read_short_ref, scalar, skip_end,
}
use sofarpc_cli.Wire.Reader.{
  peek_byte, read_byte, read_bytes_with_tag, read_int32, read_int64, read_size, read_utf8_bytes,
}
use sofarpc_cli.Wire.Result.{
  ◌>>◌, WireResult, bad_tag, err, ok, stuck, unknown_class, unknown_type, unterminated_list,
  unterminated_map, ◌>>=◌, printed,
}

module _ (l : Limits) (sprint : List Node → Value → Option Bytes) (recur : Reader Value) where
  unfoldable pub read_int_value : Reader ℤ
  read_int_value d = recur d >>= as_int

  unfoldable pub read_len_string : Reader Bytes
  read_len_string d = do
    (n, d1) ← read_int_value d
    on_unread (read_utf8_bytes l.max_scalar_bytes n) d1

  unfoldable pub read_named_type : Reader Bytes
  read_named_type d = do
    (n, d1) ← on_unread read_size (skip d)
    (name, d2) ← on_unread (read_utf8_bytes l.max_scalar_bytes (pos n)) d1
    (u, d3) ← add_type l name d2
    ok (name, d3)

  unfoldable pub read_type_ref : Reader Bytes
  read_type_ref d = do
    (i, d1) ← read_int_value (skip d)
    name ← entry_at unknown_type d1.types i
    ok (name, d1)

  unfoldable pub type_of_tag : ℕ → Reader Bytes
  type_of_tag tag d =
      if tag == b't'
      then read_named_type d
      else if tag == b'T' || tag == 0x75
      then read_type_ref d
      else ok ([], d)

  unfoldable pub read_type : Reader Bytes
  unfolding type_of_tag
  read_type d = elim (peek_byte d.unread) [ none ↦ ok ([], d) | some tag ↦ type_of_tag tag d ]

  unfoldable pub length_of_tag : ℕ → Reader ℤ
  length_of_tag tag d =
      if tag == 0x6e
      then (on_unread read_byte (skip d) >>= λ p. ok (pos p.0, p.1))
      else if tag == b'l'
      then on_unread read_int32 (skip d)
      else ok (negsuc 0, d)

  -- -1 stands for no length
  unfoldable pub read_length : Reader ℤ
  unfolding length_of_tag
  read_length d = elim (peek_byte d.unread) [
    | none ↦ ok (negsuc 0, d)
    | some tag ↦ length_of_tag tag d
  ]

  -- `for i := 0; i < length; i++`
  unfoldable pub read_items : ℕ → List Value → Reader (List Value)
  read_items zero items d = ok (items, d)
  read_items (suc n) items d = do (v, d1) ← recur d; read_items n (items ++ v ∷ []) d1

  -- the loop of readList until its end mark
  unfoldable pub read_until_end : ℕ → List Value → Reader (List Value)
  read_until_end zero items d = stuck
  read_until_end (suc fuel) items d = elim (at_end d.unread) [
    | none ↦ err unterminated_list
    | some true ↦ ok (items, skip d)
    | some false ↦ do
      (v, d1) ← recur d
      check_collection_length l (pos (length items + 1))
      read_until_end fuel (items ++ v ∷ []) d1
  ]

  unfoldable pub list_of_length : ℤ → Reader (List Value)
  list_of_length n d = do
    check_collection_length l n
    (items, d1) ← read_items (pos_part n) [] d
    ok (items, skip_end d1)

  unfoldable pub list_items : ℤ → Reader (List Value)
  list_items n d =
      if ltb_ℤ n (pos 0) then read_until_end (suc (length d.unread)) [] d else list_of_length n d

  unfoldable pub read_list : Reader Value
  read_list d = do
    (name, d1) ← read_type d
    (n, d2) ← read_length d1
    (items, d3) ← list_items n d2
    add_list l name items d3

  unfoldable pub read_fixed_typed_list : Reader Value
  read_fixed_typed_list d = do
    (i, d1) ← read_int_value d
    name ← entry_at unknown_type d1.types i
    (n, d2) ← read_int_value d1
    check_collection_length l n
    (items, d3) ← read_items (pos_part n) [] d2
    add_typed_list l name (alloc (array items) d3)

  -- the loop of readMap, which fills the map at `a`
  unfoldable pub read_entries : ℕ → ℕ → ℕ → Reader (Unit {0})
  read_entries zero a count d = stuck
  read_entries (suc fuel) a count d = elim (at_end d.unread) [
    | none ↦ err unterminated_map
    | some true ↦ ok (tt, skip d)
    | some false ↦ do
      (key, d1) ← recur d
      (v, d2) ← recur d1
      name ← printed (sprint d2.heap key)
      check_collection_length l (pos (count + 1))
      read_entries fuel a (count + 1) (record d2 { heap = put_entry a name v d2.heap })
  ]

  unfoldable pub read_map : Reader Value
  read_map d = do
    (name, d1) ← read_type d
    (out, d2) ← add_map l name (alloc (object []) d1)
    (u, d3) ← read_entries (suc (length d2.unread)) (length d1.heap) 0 d2
    ok (out, d3)

  unfoldable pub read_field_names : ℕ → Reader (List Bytes)
  read_field_names zero d = ok ([], d)
  read_field_names (suc n) d = do
    (name, d1) ← on_unread (read_string_value l (λ i. sprint [] (int64 i))) d
    (names, d2) ← read_field_names n d1
    ok (name ∷ names, d2)

  unfoldable pub read_object_definition : Reader (Unit {0})
  read_object_definition d = do
    (name, d1) ← read_len_string d
    (n, d2) ← read_int_value d1
    check_collection_length l n
    (names, d3) ← read_field_names (pos_part n) d2
    add_class_def l (record { type_name = name; field_names = names }) d3

  -- the loop of readObjectInstance, which fills the map at `a`
  unfoldable pub read_fields : List Bytes → ℕ → Reader (Unit {0})
  read_fields [] a d = ok (tt, d)
  read_fields (name ∷ names) a d = do
    (v, d1) ← recur d
    read_fields names a (record d1 { heap = put_entry a name v d1.heap })

  unfoldable pub read_object_instance : Reader Value
  read_object_instance d = do
    (i, d1) ← read_int_value d
    def ← entry_at unknown_class d1.class_defs i
    (out, d2) ← add_object l def (alloc (object []) d1)
    (u, d3) ← read_fields def.field_names (length d1.heap) d2
    ok (out, d3)

  -- a definition, and the value behind it
  unfoldable pub read_defined : Reader Value
  read_defined d = do (u, d1) ← read_object_definition d; recur d1

  -- the tags of readValue that begin a compound value or a reference
  unfoldable pub read_compound : ℕ → Reader Value
  read_compound tag d =
      if tag == b'V'
      then read_list d
      else if tag == b'v'
      then read_fixed_typed_list d
      else if tag == b'M'
      then read_map d
      else if tag == b'O'
      then read_defined d
      else if tag == b'o'
      then read_object_instance d
      else if tag == b'R'
      then read_long_ref d
      else if tag == 0x4a
      then read_byte_ref d
      else if tag == 0x4b
      then read_short_ref d
      else err bad_tag

  -- those that begin a text, an array of bytes or a date
  unfoldable pub read_blob : ℕ → Reader Value
  read_blob tag d =
      if tag == b'd'
      then scalar int64 read_int64 d
      else if tag == b'S' || tag == b's' || leb tag 0x1f
      then scalar text (read_string_with_tag l (λ i. sprint [] (int64 i)) tag) d
      else if tag == b'B' || tag == b'b' || between 0x20 0x2f tag
      then scalar raw_bytes (read_bytes_with_tag l.max_scalar_bytes tag) d
      else read_compound tag d

  unfoldable pub read_number : ℕ → Reader Value
  read_number tag d = elim (read_integer tag d.unread) [
    | some r ↦ scalar int64 (λ bs. r) d
    | none ↦ elim (read_double tag d.unread) [
      | some r ↦ scalar float64 (λ bs. r) d
      | none ↦ read_blob tag d
    ]
  ]

  -- the switch of readValue on its tag
  unfoldable pub read_tagged : ℕ → Reader Value
  read_tagged tag d =
      if tag == b'N'
      then ok (null, d)
      else if tag == b'T'
      then ok (bool true, d)
      else if tag == b'F'
      then ok (bool false, d)
      else read_number tag d

-- Each call stands one level deeper than the call around it, so there are never more of them open
-- than the limit of the depth.
unfoldable pub read_value : Limits → (List Node → Value → Option Bytes) → ℕ → Reader Value
read_value l sprint zero d = stuck
read_value l sprint (suc fuel) d = do
  (u, d1) ← enter_value l d
  (tag, d2) ← on_unread read_byte d1
  (v, d3) ← read_tagged l sprint (read_value l sprint fuel) tag d2
  ok (v, leave_value d3)

-- readValue of a decoder that is not inside a value
unfoldable pub decode :
    RawLimits → (List Node → Value → Option Bytes) → Bytes → WireResult (Value × Decoder)
decode r sprint bs =
    let l = ensure_limits r in read_value l sprint (suc l.max_depth) (new_decoder bs)
