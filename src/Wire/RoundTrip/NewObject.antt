-- ===== src/Wire/RoundTrip/NewObject.antt =====
-- The definition that writeObject writes in front of an object of a new kind.
use sofarpc_cli.Prelude.{
  All, Bytes, List, [], ap, append-nil, append_assoc, length, none, sym, ◌++◌, ◌∙◌, ◌∷◌, ◌≡◌,
}
use sofarpc_cli.Prelude.Int.{pos}
use sofarpc_cli.Prelude.Map.{insert, lookup}
use sofarpc_cli.Wire.Utf8.{rune_count}
use sofarpc_cli.Wire.RoundTrip.Back.{IsName}
use sofarpc_cli.Wire.RoundTrip.Entries.{put_string_lem}
use sofarpc_cli.Wire.RoundTrip.Objects.{def_bytes, names_bytes}
use sofarpc_cli.Wire.RoundTrip.Scalars.{int_bytes, write_int_lem}
use sofarpc_cli.Wire.RoundTrip.Texts.{string_bytes}
use sofarpc_cli.Wire.Encoder.{HessianWriter, define_object, object_def_key, object_ref, write_names}
use sofarpc_cli.Wire.Writer.{write_len_string, write_int}
use sofarpc_cli.Wire.Result.{WireResult, ok}

write_names_lem :
    (names : List Bytes) (w : HessianWriter)
    → All IsName names
    → write_names names w ≡ ok (record w { buf = w.buf ++ names_bytes names })
unfolding write_names names_bytes
write_names_lem [] w good =
    ap (λ bs. WireResult.ok (record w { buf = bs })) (sym (append-nil w.buf))
write_names_lem (name ∷ names) w good = rw (put_string_lem name w good.0.0) (
    write_names_lem names (record w { buf = w.buf ++ string_bytes name }) good.1
    ∙ ap (λ bs. WireResult.ok (record w { buf = bs }))
        (append_assoc w.buf (string_bytes name) (names_bytes names)))

-- the writer behind a new definition
abbrev pub defined : Bytes → List Bytes → HessianWriter → HessianWriter
defined name names w = record {
  buf = w.buf ++ b'O' ∷ def_bytes name names;
  object_defs = insert (object_def_key name names) (length w.object_defs) w.object_defs;
}

pub object_ref-new :
    (name : Bytes) (names : List Bytes) (w : HessianWriter)
    → All IsName names
    → lookup (object_def_key name names) w.object_defs ≡ none
    → object_ref name names w ≡ ok (length w.object_defs, defined name names w)
unfolding object_ref define_object def_bytes write_len_string
object_ref-new name names w good new =
    let counted = int_bytes (pos (length names)) in
    let named = int_bytes (pos (rune_count name)) in
    let start : Bytes = w.buf ++ (b'O' ∷ []) in
    let bytes : write_int (pos (length names)) (write_int (pos (rune_count name)) start ++ name)
          ++ names_bytes names
        ≡ w.buf ++ b'O' ∷ (named ++ (name ++ (counted ++ names_bytes names))) =
      rw
        (
          write_int_lem (pos (length names)) (write_int (pos (rune_count name)) start ++ name),
          write_int_lem (pos (rune_count name)) start,
        )
        (append_assoc (((start ++ named) ++ name)) counted (names_bytes names)
          ∙ append_assoc (start ++ named) name (counted ++ names_bytes names)
          ∙ append_assoc start named (name ++ (counted ++ names_bytes names))
          ∙ append_assoc w.buf (b'O' ∷ []) (named ++ (name ++ (counted ++ names_bytes names)))) in
    rw (new, object_ref)
      (rw
        (write_names_lem names
          (record {
            buf = write_int (pos (length names)) (write_int (pos (rune_count name)) start ++ name);
            object_defs = insert (object_def_key name names) (length w.object_defs) w.object_defs;
          })
          good)
        (ap
          (λ bs. WireResult.ok (
            length w.object_defs,
            record {
              buf = bs;
              object_defs = insert (object_def_key name names) (length w.object_defs) w.object_defs;
            },
          ))
          bytes))
