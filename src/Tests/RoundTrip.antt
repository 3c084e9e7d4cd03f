-- ===== src/Tests/RoundTrip.antt =====
-- An object with an array in it, written and read back.
use sofarpc_cli.Wire.RoundTrip.Success.{IsWritable, write_value_writes}
use sofarpc_cli.Prelude.{
  some, Option, Bytes, List, [], arith, bytes_eq, codes, refl, ◌≡◌, ◌≤◌, length, ◌<◌, ◌++◌,
}
use sofarpc_cli.Prelude.Int.{pos}
use sofarpc_cli.Prelude.Map.{insert, keys, lookup}
use sofarpc_cli.Prelude.Separated.{lacks}
use sofarpc_cli.Prelude.Sort.{bytes_le, insert_sorted, sort_strings}
use sofarpc_cli.Wire.Decoder.State.{Decoder, Node, RawLimits, Value, ensure_limits, text}
use sofarpc_cli.Wire.Decoder.Values.{decode}
use sofarpc_cli.Wire.Encoder.{
  Arg, HessianWriter, define_object, entries_of, field, go_int, go_string, item, items_of,
  join_names, new_hessian_writer, no_fields, no_items, object_def_key, object_ref,
  ordered_object_field_keys, put_string, typed_object, values_at, write_names, array_list, depth,
  max,
}
use sofarpc_cli.Wire.Encoder.Values.{
  put_type, write_by_type, write_object, write_typed_list, write_typed_object, write_value,
  write_values,
}
use sofarpc_cli.Wire.Result.{WireResult, ok}
use sofarpc_cli.Wire.RoundTrip.Ascii.{IsAscii-IsText}
use sofarpc_cli.Wire.RoundTrip.Decoded.{Holds, decode-write_value}
use sofarpc_cli.Wire.RoundTrip.Image.{IsImage}
use sofarpc_cli.Wire.RoundTrip.ValueBack.{IsSound}
use sofarpc_cli.Wire.Utf8.{count_runes, rune_count, rune_size, seq_len}
use sofarpc_cli.Wire.Writer.{write_int, write_len_string, write_length, write_string, write_type}

abbrev order_arg : Arg
order_arg = typed_object (codes "a.B") (
    field (codes "y") (array_list (item (go_string (codes "hi")) no_items))
      (field (codes "x") (go_int (pos 5)) no_fields))

abbrev pub standard_limits : RawLimits
standard_limits = record {
  max_depth = pos 128;
  max_collection_items = pos 1000;
  max_refs = pos 1000;
  max_scalar_bytes = pos 1000;
}

abbrev pub print_text : List Node → Value → Option Bytes
print_text h (text s) = some s
print_text h v = some []

-- the writer that a run has left
abbrev written_of : WireResult HessianWriter → HessianWriter
written_of (ok w) = w
written_of r = new_hessian_writer

abbrev order_written : HessianWriter
order_written = written_of (write_value 3 order_arg new_hessian_writer)

order_written_lem : write_value 3 order_arg new_hessian_writer ≡ ok order_written
unfolding write_value write_by_type write_typed_object write_object write_values object_ref
    define_object object_def_key join_names write_names put_string write_string write_int
    write_len_string write_length write_type put_type write_typed_list new_hessian_writer entries_of
    items_of ordered_object_field_keys values_at sort_strings insert_sorted bytes_le keys lookup
    insert bytes_eq rune_count count_runes rune_size seq_len
order_written_lem = refl

order_written-Holds : Holds (ensure_limits standard_limits) order_written.buf
unfolding write_value write_by_type write_typed_object write_object write_values object_ref
    define_object object_def_key join_names write_names put_string write_string write_int
    write_len_string write_length write_type put_type write_typed_list new_hessian_writer entries_of
    items_of ordered_object_field_keys values_at sort_strings insert_sorted bytes_le keys lookup
    insert bytes_eq rune_count count_runes rune_size seq_len ensure_limits
order_written-Holds = record {
  refs_hold = omega arith;
  items_hold = omega arith;
  scalars_hold = omega arith;
  refs_small = omega arith;
  items_small = omega arith;
}

order_arg-IsSound : IsSound 3 order_arg
unfolding entries_of items_of keys lookup bytes_eq lacks
order_arg-IsSound = (
  (IsAscii-IsText (codes "a.B") (omega arith) (omega arith), refl, refl),
  (
    (
      (IsAscii-IsText (codes "y") (omega arith) (omega arith), refl, refl),
      ((IsAscii-IsText (codes "x") (omega arith) (omega arith), refl, refl), tt),
    ),
    (refl, (refl, tt)),
    (
      (IsAscii-IsText (codes "hi") (omega arith) (omega arith), tt),
      ((omega arith, omega arith), tt),
    ),
  ),
)

standard_depth : 9 ≤ (ensure_limits standard_limits).max_depth
unfolding ensure_limits
standard_depth = omega arith

decode-write_value_example :
    (v : Value) × (d : Decoder) × (decode standard_limits print_text order_written.buf ≡ ok (v, d))
    × (d.unread ≡ [])
    × IsImage 3 0 d.heap v order_arg
decode-write_value_example =
    decode-write_value standard_limits print_text 3 order_arg order_written (λ h s. refl)
      order_arg-IsSound standard_depth order_written-Holds order_written_lem

order_arg-IsWritable : IsWritable 3 order_arg
unfolding depth max entries_of items_of
order_arg-IsWritable = (omega arith, order_arg-IsSound, ((tt, tt), (tt, tt)))

write_value_writes_example :
    (w' : HessianWriter) × (written : Bytes) × (write_value 3 order_arg new_hessian_writer ≡ ok w')
    × (w'.buf ≡ new_hessian_writer.buf ++ written)
    × (0 < length written)
write_value_writes_example = write_value_writes 3 order_arg new_hessian_writer order_arg-IsWritable
