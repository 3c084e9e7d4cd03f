-- ===== src/Tests/Decoder.antt =====
-- The reader of Hessian values at concrete inputs.
use sofarpc_cli.Wire.Result.{ok, err}
use sofarpc_cli.Wire.Decoder.State.{object}
use sofarpc_cli.Prelude.{
  some, Option, Bytes, List, [], arith, bytes_eq, length, refl, ◌<◌, ◌∷◌, ◌≡◌, ◌≤◌, ◌⊎◌, codes, All,
}
use sofarpc_cli.Prelude.Int.{pos}
use sofarpc_cli.Prelude.Map.{insert}
use sofarpc_cli.Wire.Decoder.Decode.{decode-within_limits, decode_total}
use sofarpc_cli.Wire.RoundTrip.TooDeep.{
  Fits, ListHead, bare_head, decode-too_deep, nested, typed_head,
}
use sofarpc_cli.Wire.RoundTrip.Ascii.{IsAscii-IsText}
use sofarpc_cli.Wire.Decoder.Scalars.{
  between, compact, read_double, read_integer, read_string_with_tag, string_of_tag,
}
use sofarpc_cli.Wire.Decoder.State.{
  Decoder, Node, RawLimits, Value, add_ref, alloc, check_collection_length, ensure_limits,
  enter_value, entry_at, leave_value, map_at, new_decoder, on_unread, put_entry, skip,
}
use sofarpc_cli.Wire.Decoder.Tables.{
  add_allocated, add_map, at_end, read_byte_ref, read_ref, scalar,
}
use sofarpc_cli.Wire.Decoder.Values.{
  decode, read_blob, read_compound, read_entries, read_map, read_number, read_tagged, read_type,
  read_value, type_of_tag,
}
use sofarpc_cli.Wire.Reader.{
  check_scalar_byte_length, chunk_length, peek_byte, read_byte, read_chunked_string, read_chunks,
  read_utf8_bytes, take_runes,
}
use sofarpc_cli.Wire.Result.{WireError, too_deep}
use sofarpc_cli.Wire.Utf8.{rune_size, seq_len}

abbrev unset_limits : RawLimits
unset_limits = record {
  max_depth = pos 0;
  max_collection_items = pos 0;
  max_refs = pos 0;
  max_scalar_bytes = pos 0;
}

abbrev two_deep : RawLimits
two_deep = record {
  max_depth = pos 2;
  max_collection_items = pos 0;
  max_refs = pos 4;
  max_scalar_bytes = pos 0;
}

abbrev prints_nothing : List Node → Value → Option Bytes
prints_nothing h v = some []

-- a map that holds itself under "a"
abbrev cyclic : Bytes
cyclic = b'M' ∷ 1 ∷ b'a' ∷ 0x4a ∷ 0 ∷ b'z' ∷ []

abbrev behind_cyclic : Decoder
behind_cyclic = record {
  unread = [];
  depth = 0;
  refs = map_at 0 ∷ [];
  class_defs = [];
  types = [];
  heap = object (([], map_at 0) ∷ []) ∷ [];
}

decode-cyclic : decode unset_limits prints_nothing cyclic ≡ ok (map_at 0, behind_cyclic)
unfolding decode ensure_limits new_decoder read_value enter_value leave_value read_tagged
    read_number read_integer between compact read_double read_blob scalar read_string_with_tag
    string_of_tag read_chunked_string read_chunks chunk_length read_utf8_bytes take_runes rune_size
    check_scalar_byte_length read_compound read_map read_type peek_byte type_of_tag alloc add_map
    add_allocated add_ref read_entries at_end on_unread read_byte check_collection_length put_entry
    insert skip read_byte_ref read_ref entry_at bytes_eq seq_len
decode-cyclic = refl

decode_total_example :
    ((e : WireError) × (decode unset_limits prints_nothing cyclic ≡ err e))
    ⊎ ((v : Value) × (d : Decoder) × (decode unset_limits prints_nothing cyclic ≡ ok (v, d))
        × (d.depth ≡ 0)
        × (length d.unread < length cyclic))
decode_total_example = decode_total unset_limits prints_nothing cyclic

decode-within_limits_example :
    (length behind_cyclic.refs ≤ (ensure_limits unset_limits).max_refs)
    × (length behind_cyclic.class_defs ≤ (ensure_limits unset_limits).max_refs)
    × (length behind_cyclic.types ≤ (ensure_limits unset_limits).max_refs)
decode-within_limits_example =
    decode-within_limits unset_limits prints_nothing cyclic (map_at 0) behind_cyclic decode-cyclic

two_levels : (ensure_limits two_deep).max_depth < 3
unfolding ensure_limits
two_levels = omega arith

-- a bare list, a list of a type, and a bare list, one inside the other
abbrev three_heads : List ListHead
three_heads = bare_head ∷ typed_head (codes "[int") 0 ∷ bare_head ∷ []

three_heads-Fits : All (Fits (ensure_limits two_deep)) three_heads
unfolding ensure_limits
three_heads-Fits = (
  tt,
  (
    (
      IsAscii-IsText (codes "[int") (omega arith) (omega arith),
      omega arith,
      omega arith,
      omega arith,
      omega arith,
    ),
    (tt, tt),
  ),
)

decode-too_deep_example :
    decode two_deep prints_nothing (nested three_heads (b'N' ∷ [])) ≡ err too_deep
decode-too_deep_example =
    decode-too_deep two_deep prints_nothing three_heads (b'N' ∷ []) two_levels three_heads-Fits
