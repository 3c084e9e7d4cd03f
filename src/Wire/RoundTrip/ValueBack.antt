-- ===== src/Wire/RoundTrip/ValueBack.antt =====
-- What writeValue has written, readValue reads back.
use sofarpc_cli.Wire.RoundTrip.Ascii.{IsAscii-IsText}
use sofarpc_cli.Prelude.{
  some, Option, All, Bytes, codes, map, suc, zero, ℕ, ◌<◌, ◌^◌, ◌≤◌, ◌≡◌, refl, List, arith, ltb,
  Bool-cases, ◌-◌, inl, inr,
}
use sofarpc_cli.Prelude.Int.{neg_part, pos_part, pos}
use sofarpc_cli.Wire.RoundTrip.Back.{IsName, WroteBack}
use sofarpc_cli.Wire.RoundTrip.Cases.{
  IsSoundMap, list-case, linked_hash_map-case, object-case, string_map-case,
}
use sofarpc_cli.Wire.RoundTrip.Leaf.{
  bool-leaf, double-leaf, int-leaf, long-leaf, nil-leaf, string-leaf,
}
use sofarpc_cli.Wire.RoundTrip.Ordered.{
  length-values_at, ordered_object_field_keys-All, ordered_object_field_keys-AreDistinct,
  values_at-All,
}
use sofarpc_cli.Wire.RoundTrip.Texts.{IsText}
use sofarpc_cli.Wire.Encoder.{
  Arg, HessianWriter, entries_of, items_of, ordered_object_field_keys, values_at, go_nil, go_bool,
  go_string, go_int, go_int64, go_uint, go_uint64, go_float, go_strings, typed_object,
  linked_hash_map, string_map, array_list, go_slice, other_type, json_number,
}
use sofarpc_cli.Wire.Encoder.Values.{write_by_type, write_typed_object, write_value}
use sofarpc_cli.Wire.Decoder.State.{Limits, Node, Value, text}
use sofarpc_cli.Wire.Decoder.Values.{read_value}
use sofarpc_cli.Wire.Result.{ok}

-- What a value must be to come back as it is: texts are in well-formed UTF-8, of at most 65535 code
-- points; the integers of the types up to int fit into 32 bits, the others into an int64; names of
-- types and of fields are not empty and hold no NUL; no map has a key twice.
abbrev pub IsSound : ℕ → Arg → Type 0
IsSound zero g = Unit {0}
IsSound (suc n) go_nil = Unit {0}
IsSound (suc n) (go_bool b) = Unit {0}
IsSound (suc n) (go_string s) = IsText s
IsSound (suc n) (go_int i) = (pos_part i < 2 ^ 31) × (neg_part i ≤ 2 ^ 31)
IsSound (suc n) (go_int64 i) = (pos_part i < 2 ^ 63) × (neg_part i ≤ 2 ^ 63)
IsSound (suc n) (go_uint i) = i < 2 ^ 63
IsSound (suc n) (go_uint64 i) = Unit {0}
IsSound (suc n) (go_float bits) = bits < 2 ^ 64
IsSound (suc n) (go_strings ss) = All (λ g. IsSound n g) (map go_string ss)
IsSound (suc n) (typed_object name fields) = IsName name × IsSoundMap IsName (IsSound n) fields
IsSound (suc n) (linked_hash_map fields) = IsSoundMap IsText (IsSound n) fields
IsSound (suc n) (string_map fields) = IsSoundMap IsText (IsSound n) fields
IsSound (suc n) (array_list items) = All (λ g. IsSound n g) (items_of items)
IsSound (suc n) (go_slice items) = All (λ g. IsSound n g) (items_of items)
IsSound (suc n) (json_number s) = Unit {0}
IsSound (suc n) other_type = Unit {0}

pub IsSound-nil : (n : ℕ) → IsSound n go_nil
IsSound-nil zero = tt
IsSound-nil (suc n) = tt

-- the levels of the reader for so many of the writer: an object takes one for its definition, one
-- for itself and one for its index
abbrev pub levels : ℕ → ℕ
levels zero = 0
levels (suc n) = suc (suc (suc (levels n)))

array_list_IsText : IsText (codes "java.util.ArrayList")
array_list_IsText = IsAscii-IsText (codes "java.util.ArrayList") (omega arith) (omega arith)

strings_IsText : IsText (codes "[string]")
strings_IsText = IsAscii-IsText (codes "[string]") (omega arith) (omega arith)

linked_hash_map_IsText : IsText (codes "java.util.LinkedHashMap")
linked_hash_map_IsText =
    IsAscii-IsText (codes "java.util.LinkedHashMap") (omega arith) (omega arith)

module _ (l : Limits) (refs_small : l.max_refs < 2 ^ 31)
    (items_small : l.max_collection_items < 2 ^ 31) (sprint : List Node → Value → Option Bytes)
    (prints_text : (h : List Node) (s : Bytes) → sprint h (text s) ≡ some s) where
  -- One case for each type of value. The reader has the levels that the value may need.
  pub write_value-back :
      (n r : ℕ) (g : Arg) (w w' : HessianWriter)
      → levels n ≤ r
      → IsSound n g
      → write_value n g w ≡ ok w'
      → WroteBack l (read_value l sprint r) (levels n) n g w w'
  unfolding write_value write_by_type write_typed_object
  write_value-back zero r g w w' enough sound h = absurd (cc)
  write_value-back (suc n) zero g w w' enough sound h = absurd (omega arith)
  write_value-back (suc n) (suc zero) g w w' enough sound h = absurd (omega arith)
  write_value-back (suc n) (suc (suc zero)) g w w' enough sound h = absurd (omega arith)
  write_value-back (suc n) (suc (suc (suc r))) go_nil w w' enough sound h =
      nil-leaf l sprint (suc (suc r)) (suc (suc (levels n))) n w w' h
  write_value-back (suc n) (suc (suc (suc r))) (go_bool b) w w' enough sound h =
      bool-leaf l sprint (suc (suc r)) (suc (suc (levels n))) n b w w' h
  write_value-back (suc n) (suc (suc (suc r))) (go_string s) w w' enough sound h =
      string-leaf l sprint (suc (suc r)) (suc (suc (levels n))) n s w w' sound h
  write_value-back (suc n) (suc (suc (suc r))) (go_int i) w w' enough sound h =
      int-leaf l sprint (suc (suc r)) (suc (suc (levels n))) n (go_int i) i w w' sound.0 sound.1
        (λ base heap. refl) h
  write_value-back (suc n) (suc (suc (suc r))) (go_int64 i) w w' enough sound h =
      long-leaf l sprint (suc (suc r)) (suc (suc (levels n))) n (go_int64 i) i w w' sound.0 sound.1
        (λ base heap. refl) h
  write_value-back (suc n) (suc (suc (suc r))) (go_uint i) w w' enough sound h =
      long-leaf l sprint (suc (suc r)) (suc (suc (levels n))) n (go_uint i) (pos i) w w' sound
        (omega arith) (λ base heap. refl) h
  write_value-back (suc n) (suc (suc (suc r))) (go_uint64 i) w w' enough sound h =
      elim (Bool-cases (ltb (2 ^ 63 - 1) i)) [
        | inl large ↦ (let h' = rw large at h in absurd (cc))
        | inr fits ↦
            long-leaf l sprint (suc (suc r)) (suc (suc (levels n))) n (go_uint64 i) (pos i) w w'
              (ground arith) (omega arith) (λ base heap. refl) (rw fits at h)
      ]
  write_value-back (suc n) (suc (suc (suc r))) (go_float bits) w w' enough sound h =
      double-leaf l sprint (suc (suc r)) (suc (suc (levels n))) n bits w w' sound h
  write_value-back (suc n) (suc (suc (suc r))) (go_strings ss) w w' enough sound h =
      list-case l refs_small items_small sprint prints_text n r (levels n) (write_value n)
        (IsSound n) (IsSound-nil n) (λ k x v v' le. write_value-back n k x v v' (omega arith))
        (codes "[string]") (map go_string ss) (go_strings ss) w w' strings_IsText refl sound h
        (λ base heap v image. image)
  write_value-back (suc n) (suc (suc (suc r))) (typed_object name fields) w w' enough sound h =
      let m = entries_of fields in
      let names = ordered_object_field_keys m in
      object-case l refs_small items_small sprint prints_text n r (levels n) (write_value n)
        (IsSound n) (IsSound-nil n) (λ k x v v' le. write_value-back n k x v v' (omega arith)) name
        names (values_at names m) (typed_object name fields) w w' sound.0
        (ordered_object_field_keys-All IsName m sound.1.0)
        (ordered_object_field_keys-AreDistinct m sound.1.1)
        (values_at-All (IsSound n) names m (IsSound-nil n) sound.1.2) (length-values_at names m) h
        (λ base heap v image. image)
  write_value-back (suc n) (suc (suc (suc r))) (linked_hash_map fields) w w' enough sound h =
      linked_hash_map-case l refs_small items_small sprint prints_text n r (levels n)
        (write_value n) (IsSound n) (IsSound-nil n)
        (λ k x v v' le. write_value-back n k x v v' (omega arith)) (codes "java.util.LinkedHashMap")
        fields w w' linked_hash_map_IsText refl sound h (linked_hash_map fields)
        (λ base heap v image. image)
  write_value-back (suc n) (suc (suc (suc r))) (string_map fields) w w' enough sound h =
      string_map-case l refs_small items_small sprint prints_text n r (levels n) (write_value n)
        (IsSound n) (IsSound-nil n) (λ k x v v' le. write_value-back n k x v v' (omega arith))
        fields w w' sound h
  write_value-back (suc n) (suc (suc (suc r))) (array_list items) w w' enough sound h =
      list-case l refs_small items_small sprint prints_text n r (levels n) (write_value n)
        (IsSound n) (IsSound-nil n) (λ k x v v' le. write_value-back n k x v v' (omega arith))
        (codes "java.util.ArrayList") (items_of items) (array_list items) w w' array_list_IsText
        refl sound h (λ base heap v image. image)
  write_value-back (suc n) (suc (suc (suc r))) (go_slice items) w w' enough sound h =
      list-case l refs_small items_small sprint prints_text n r (levels n) (write_value n)
        (IsSound n) (IsSound-nil n) (λ k x v v' le. write_value-back n k x v v' (omega arith))
        (codes "java.util.ArrayList") (items_of items) (go_slice items) w w' array_list_IsText refl
        sound h (λ base heap v image. image)
  write_value-back (suc n) (suc (suc (suc r))) (json_number s) w w' enough sound h = absurd (cc)
  write_value-back (suc n) (suc (suc (suc r))) other_type w w' enough sound h = absurd (cc)
