-- ===== src/Wire/Decoder/Tables.antt =====
-- internal/sofarpcwire/decoder.go: what readValue's cases do with the tables and the heap.
use sofarpc_cli.Prelude.{
  Bool, Bytes, List, Option, [], codes, if◌then◌else◌, is_empty, none, some, true, ℕ, ◌++◌, ◌==◌,
  ◌∷◌,
}
use sofarpc_cli.Prelude.Int.{pos, ℤ}
use sofarpc_cli.Prelude.Map.{Map}
use sofarpc_cli.Wire.Decoder.State.{
  ClassDef, Decoder, Limits, Node, Reader, Value, add_ref, alloc, array, entry_at, int64, map_at,
  object, on_unread, skip, slice_at, text, texts,
}
use sofarpc_cli.Wire.Reader.{read_byte, read_int32, read_size}
use sofarpc_cli.Wire.Result.{WireResult, err, not_int, ok, unknown_ref, ◌>>=◌}

-- the entries of the map that stands for a typed value
unfoldable pub typed : Bytes → Bytes → Value → Map Value
typed name key inner = (codes "type", text name) ∷ (key, inner) ∷ []

-- whether the next byte is the end mark, or none is left
unfoldable pub at_end : Bytes → Option Bool
at_end [] = none
at_end (b ∷ bs) = some (b == b'z')

unfoldable pub as_int : Value × Decoder → WireResult (ℤ × Decoder)
as_int (int64 n, d) = ok (n, d)
as_int (other, d) = err not_int

-- a reader of bytes whose result is one of the dynamic types
unfoldable pub scalar : {A : Type 0} → (A → Value) → (Bytes → WireResult (A × Bytes)) → Reader Value
scalar make reader d = on_unread reader d >>= λ p. ok (make p.0, p.1)

unfoldable pub read_ref : ℤ → Reader Value
read_ref i d = do v ← entry_at unknown_ref d.refs i; ok (v, d)

unfoldable pub read_byte_ref : Reader Value
read_byte_ref d = do (i, d1) ← on_unread read_byte d; read_ref (pos i) d1

unfoldable pub read_short_ref : Reader Value
read_short_ref d = do (i, d1) ← on_unread read_size d; read_ref (pos i) d1

unfoldable pub read_long_ref : Reader Value
read_long_ref d = do (i, d1) ← on_unread read_int32 d; read_ref i d1

-- an end mark behind a list that has its length
unfoldable pub skip_end : Decoder → Decoder
skip_end d = elim (at_end d.unread) [ some true ↦ skip d | _ ↦ d ]

unfoldable pub object_node : ClassDef → ℕ → Node
object_node def a = object (
    typed def.type_name (codes "fields") (map_at a)
    ++ (codes "fieldNames", texts def.field_names) ∷ [])

module _ (l : Limits) where
  unfoldable pub add_allocated : (ℕ → Value) → ℕ × Decoder → WireResult (Value × Decoder)
  add_allocated make p = add_ref l (make p.0) p.1 >>= λ q. ok (make p.0, q.1)

  -- the map with "type" and "items" around a slice
  unfoldable pub add_typed_list : Bytes → ℕ × Decoder → WireResult (Value × Decoder)
  add_typed_list name p =
      add_allocated map_at (alloc (object (typed name (codes "items") (slice_at p.0))) p.1)

  unfoldable pub add_list : Bytes → List Value → Reader Value
  add_list name items d =
      if is_empty name
      then add_allocated slice_at (alloc (array items) d)
      else add_typed_list name (alloc (array items) d)

  -- the map that readMap returns, around the entries where it has a type
  unfoldable pub add_map : Bytes → ℕ × Decoder → WireResult (Value × Decoder)
  add_map name p =
      if is_empty name
      then add_allocated map_at p
      else add_allocated map_at (alloc (object (typed name (codes "entries") (map_at p.0))) p.1)

  unfoldable pub add_object : ClassDef → ℕ × Decoder → WireResult (Value × Decoder)
  add_object def p = add_allocated map_at (alloc (object_node def p.0) p.1)
