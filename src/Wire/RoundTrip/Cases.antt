-- ===== src/Wire/RoundTrip/Cases.antt =====
-- The cases of writeValue that write other values, which `back` is about.
use sofarpc_cli.Prelude.{
  some, Option, All, Bytes, List, [], arith, false, is_empty, length, suc, ℕ, ◌++◌, ◌+◌, ◌<◌, ◌^◌,
  ◌≡◌, ◌≤◌,
}
use sofarpc_cli.Prelude.Map.{Map, keys}
use sofarpc_cli.Wire.RoundTrip.Entries.{AreDistinct}
use sofarpc_cli.Prelude.UniqueKeys.{HasUniqueKeys}
use sofarpc_cli.Wire.RoundTrip.Back.{IsName, IsReady, WroteBack}
use sofarpc_cli.Wire.RoundTrip.Image.{IsImage, IsList, IsObject, IsTypedMap, map_values}
use sofarpc_cli.Wire.RoundTrip.Leaf.{WroteBack-deeper}
use sofarpc_cli.Wire.RoundTrip.ListBack.{write_typed_list-back}
use sofarpc_cli.Wire.RoundTrip.MapBack.{write_map_of_type-back, write_map-back}
use sofarpc_cli.Wire.RoundTrip.MapRead.{Outcome-map}
use sofarpc_cli.Wire.RoundTrip.Ordered.{
  ordered_map_keys-All, ordered_map_keys-AreDistinct, values_at-All,
}
use sofarpc_cli.Wire.RoundTrip.Texts.{IsText}
use sofarpc_cli.Wire.RoundTrip.WriteObject.{write_object-back}
use sofarpc_cli.Wire.Encoder.{
  Arg, Fields, HessianWriter, Writing, entries_of, go_nil, ordered_map_keys, string_map,
}
use sofarpc_cli.Wire.Encoder.Values.{write_map, write_object, write_typed_list}
use sofarpc_cli.Wire.Decoder.State.{Decoder, Limits, Node, Value, text}
use sofarpc_cli.Wire.Decoder.Values.{read_value}
use sofarpc_cli.Wire.Result.{ok}

-- the entries of a Go map, each key once
abbrev pub IsSoundMap : (Bytes → Type 0) → (Arg → Type 0) → Fields → Type 0
IsSoundMap Key Sound fields =
    All Key (keys (entries_of fields))
    × HasUniqueKeys (entries_of fields)
    × All (λ e. Sound e.1) (entries_of fields)

pub shallower :
    {l : Limits} {need need' : ℕ} {defs : Map ℕ} {d : Decoder} {bs : Bytes}
    → need ≤ need'
    → IsReady l need' defs d bs
    → IsReady l need defs d bs
shallower le ready = record {
  room = ready.room;
  shallow = omega (arith, ready.shallow);
  agree = ready.agree;
}

module _ (l : Limits) (refs_small : l.max_refs < 2 ^ 31)
    (items_small : l.max_collection_items < 2 ^ 31) (sprint : List Node → Value → Option Bytes)
    (prints_text : (h : List Node) (s : Bytes) → sprint h (text s) ≡ some s) (n r need : ℕ)
    (write : Arg → Writing) (Sound : Arg → Type 0) (sound_nil : Sound go_nil)
    (back : (k : ℕ) (g : Arg) (w w' : HessianWriter)
      → r < k
      → Sound g
      → write g w ≡ ok w'
      → WroteBack l (read_value l sprint k) need n g w w') where
  pub list-case :
      (name : Bytes) (gs : List Arg) (g : Arg) (w w' : HessianWriter)
      → IsText name
      → is_empty name ≡ false
      → All Sound gs
      → write_typed_list write name gs w ≡ ok w'
      → ((base : ℕ) (h : List Node) (v : Value)
          → IsList (IsImage n base h) base h v name gs
          → IsImage (suc n) base h v g)
      → WroteBack l (read_value l sprint (suc (suc (suc r)))) (suc (suc (suc need))) (suc n) g w w'
  list-case name gs g w w' good named sound h image =
      let (written, e, some_bytes, reads_back) =
        write_typed_list-back l items_small sprint (suc (suc r)) write need n Sound
          (λ x v v'. back (suc (suc r)) x v v' (omega arith)) name gs w w' good named sound h in
      (
        written,
        e,
        some_bytes,
        λ d rest ready.
            Outcome-map d (written ++ rest) rest w'.object_defs _ _ _
              (λ v d'. image (length d.heap) d'.heap v)
              (reads_back d rest (shallower (omega arith) ready)),
      )

  map_back :
      (g : Arg) (w w' : HessianWriter)
      → Sound g
      → write g w ≡ ok w'
      → WroteBack l (read_value l sprint (suc (suc r))) (suc need) n g w w'
  map_back g w w' sound h =
      WroteBack-deeper l (read_value l sprint (suc (suc r))) need n g w w'
        (back (suc (suc r)) g w w' (omega arith) sound h)

  pub string_map-case :
      (fields : Fields) (w w' : HessianWriter)
      → IsSoundMap IsText Sound fields
      → write_map write [] (entries_of fields) w ≡ ok w'
      → WroteBack l
          (read_value l sprint (suc (suc (suc r))))
          (suc (suc (suc need)))
          (suc n)
          (string_map fields)
          w
          w'
  string_map-case fields w w' (texts_all, once, sound) h =
      let m = entries_of fields in
      let (written, e, some_bytes, reads_back) =
        write_map-back l sprint prints_text (suc r) need n write Sound map_back m w w'
          (ordered_map_keys-All IsText m texts_all) (ordered_map_keys-AreDistinct m once)
          (values_at-All Sound (ordered_map_keys m) m sound_nil sound) h in
      (
        written,
        e,
        some_bytes,
        λ d rest ready.
            Outcome-map d (written ++ rest) rest w'.object_defs _ _ _ (λ v d' image. image)
              (reads_back d rest (shallower (omega arith) ready)),
      )

  pub linked_hash_map-case :
      (name : Bytes) (fields : Fields) (w w' : HessianWriter)
      → IsText name
      → is_empty name ≡ false
      → IsSoundMap IsText Sound fields
      → write_map write name (entries_of fields) w ≡ ok w'
      → (g : Arg)
      → ((base : ℕ) (h : List Node) (v : Value)
          → IsTypedMap
              (IsImage n base h)
              base
              h
              v
              name
              (ordered_map_keys (entries_of fields))
              (map_values fields)
          → IsImage (suc n) base h v g)
      → WroteBack l (read_value l sprint (suc (suc (suc r)))) (suc (suc (suc need))) (suc n) g w w'
  linked_hash_map-case name fields w w' good named (texts_all, once, sound) h g image =
      let m = entries_of fields in
      let (written, e, some_bytes, reads_back) =
        write_map_of_type-back l sprint prints_text (suc r) need n write Sound map_back name m w w'
          good named (ordered_map_keys-All IsText m texts_all) (ordered_map_keys-AreDistinct m once)
          (values_at-All Sound (ordered_map_keys m) m sound_nil sound) h in
      (
        written,
        e,
        some_bytes,
        λ d rest ready.
            Outcome-map d (written ++ rest) rest w'.object_defs _ _ _
              (λ v d'. image (length d.heap) d'.heap v)
              (reads_back d rest (shallower (omega arith) ready)),
      )

  object_back :
      (k : ℕ) (g : Arg) (w w' : HessianWriter)
      → Sound g
      → write g w ≡ ok w'
      → WroteBack l (read_value l sprint (suc (k + r))) (suc need) n g w w'
  object_back k g w w' sound h =
      WroteBack-deeper l (read_value l sprint (suc (k + r))) need n g w w'
        (back (suc (k + r)) g w w' (omega arith) sound h)

  pub object-case :
      (name : Bytes) (names : List Bytes) (gs : List Arg) (g : Arg) (w w' : HessianWriter)
      → IsName name
      → All IsName names
      → AreDistinct names
      → All Sound gs
      → length names ≡ length gs
      → write_object write name names gs w ≡ ok w'
      → ((base : ℕ) (h : List Node) (v : Value)
          → IsObject (IsImage n base h) base h v name names gs
          → IsImage (suc n) base h v g)
      → WroteBack l (read_value l sprint (suc (suc (suc r)))) (suc (suc (suc need))) (suc n) g w w'
  object-case name names gs g w w' good goods once sound same h image =
      let (written, e, some_bytes, reads_back) =
        write_object-back l refs_small items_small sprint r need n write Sound object_back name
          names gs w w' good goods once sound same h in
      (
        written,
        e,
        some_bytes,
        λ d rest ready.
            Outcome-map d (written ++ rest) rest w'.object_defs _ _ _
              (λ v d'. image (length d.heap) d'.heap v) (reads_back d rest ready),
      )
