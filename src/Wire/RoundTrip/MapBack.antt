-- ===== src/Wire/RoundTrip/MapBack.antt =====
-- A map that writeMap has written reads back.
use sofarpc_cli.Wire.Writer.{write_type}
use sofarpc_cli.Wire.Encoder.Values.{put_type, write_entries, write_map}
use sofarpc_cli.Wire.RoundTrip.Texts.{IsText}
use sofarpc_cli.Wire.Decoder.Values.{read_value}
use sofarpc_cli.Wire.Encoder.{Arg, HessianWriter, Writing, put, values_at, ordered_map_keys}
use sofarpc_cli.Wire.Result.{ok, bind_ok, ok_inverse}
use sofarpc_cli.Wire.RoundTrip.Image.{IsImage, IsMap, IsTypedMap}
use sofarpc_cli.Prelude.{
  some, Option, Bytes, List, [], arith, length, suc, ℕ, ◌++◌, ◌∙◌, ◌∷◌, ◌≡◌, is_empty, false, All,
  ◌<◌, sym, ap, subst, append_assoc,
}
use sofarpc_cli.Prelude.Map.{Map}
use sofarpc_cli.Wire.RoundTrip.Back.{IsReady, WroteBack, Outcome}
use sofarpc_cli.Wire.RoundTrip.EntriesBack.{read_entries-write_entries}
use sofarpc_cli.Wire.RoundTrip.Entries.{AreDistinct}
use sofarpc_cli.Wire.RoundTrip.Lists.{type_bytes, write_type_lem}
use sofarpc_cli.Wire.Decoder.State.{Decoder, Limits, map_at, Value, Node, text}
use sofarpc_cli.Wire.RoundTrip.MapRead.{untyped_entries-Outcome, typed_entries-Outcome}

module _ (l : Limits) (sprint : List Node → Value → Option Bytes)
    (prints_text : (h : List Node) (s : Bytes) → sprint h (text s) ≡ some s) (r need n : ℕ)
    (write : Arg → Writing) (Sound : Arg → Type 0)
    (back : (g : Arg) (w w' : HessianWriter)
      → Sound g
      → write g w ≡ ok w'
      → WroteBack l (read_value l sprint (suc r)) (suc need) n g w w') where
  pub write_map-back :
      (values : Map Arg) (w w' : HessianWriter)
      → All IsText (ordered_map_keys values)
      → AreDistinct (ordered_map_keys values)
      → All Sound (values_at (ordered_map_keys values) values)
      → write_map write [] values w ≡ ok w'
      → (written : Bytes) × (w'.buf ≡ w.buf ++ written)
        × (0 < length written)
        × ((d : Decoder) (rest : Bytes)
            → IsReady l (suc (suc need)) w.object_defs d (written ++ rest)
            → Outcome d
                (written ++ rest)
                rest
                w'.object_defs
                (read_value l sprint (suc (suc r)) (record d { unread = written ++ rest }))
                (λ v d'.
                  (a : ℕ) × (v ≡ map_at a)
                  × IsMap
                      (IsImage n (length d.heap) d'.heap)
                      (length d.heap)
                      d'.heap
                      a
                      (ordered_map_keys values)
                      (values_at (ordered_map_keys values) values)))
  unfolding write_map put_type
  write_map-back values w w' good once sound h =
      let names = ordered_map_keys values in
      let start : HessianWriter = put b'M' w in
      let (w1, wrote, closed) = bind_ok (write_entries write names values start) _ h in
      let entries =
        read_entries-write_entries l sprint prints_text r need n write Sound back names values start
          w1 good once sound wrote in
      let ends : put b'z' w1 ≡ w' = ok_inverse closed in
      let body = entries.0 in
      (
        b'M' ∷ (body ++ b'z' ∷ []),
        ap (λ (x : HessianWriter). x.buf) (sym ends)
            ∙ ap (λ bs. bs ++ (b'z' ∷ [])) entries.1
            ∙ append_assoc (w.buf ++ (b'M' ∷ [])) body (b'z' ∷ [])
            ∙ append_assoc w.buf (b'M' ∷ []) (body ++ b'z' ∷ []),
        omega arith,
        λ d rest ready.
            let split : b'M' ∷ ((body ++ b'z' ∷ []) ++ rest) ≡ b'M' ∷ (body ++ b'z' ∷ rest) =
              ap (◌∷◌ b'M') (append_assoc body (b'z' ∷ []) rest) in
            rw split (
              rw⁻¹ ends (
                untyped_entries-Outcome l sprint prints_text r need n write Sound back d rest names
                  (values_at names values) start w1 entries
                  (subst (IsReady l (suc (suc need)) w.object_defs d) split ready))),
      )

  pub write_map_of_type-back :
      (name : Bytes) (values : Map Arg) (w w' : HessianWriter)
      → IsText name
      → is_empty name ≡ false
      → All IsText (ordered_map_keys values)
      → AreDistinct (ordered_map_keys values)
      → All Sound (values_at (ordered_map_keys values) values)
      → write_map write name values w ≡ ok w'
      → (written : Bytes) × (w'.buf ≡ w.buf ++ written)
        × (0 < length written)
        × ((d : Decoder) (rest : Bytes)
            → IsReady l (suc (suc need)) w.object_defs d (written ++ rest)
            → Outcome d
                (written ++ rest)
                rest
                w'.object_defs
                (read_value l sprint (suc (suc r)) (record d { unread = written ++ rest }))
                (λ v d'.
                  IsTypedMap
                    (IsImage n (length d.heap) d'.heap)
                    (length d.heap)
                    d'.heap
                    v
                    name
                    (ordered_map_keys values)
                    (values_at (ordered_map_keys values) values)))
  unfolding write_map put_type
  write_map_of_type-back name values w w' known named good once sound h =
      let names = ordered_map_keys values in
      let start : HessianWriter = record w { buf = write_type name (w.buf ++ (b'M' ∷ [])) } in
      let (w1, wrote, closed) =
        bind_ok (write_entries write names values start) _ (rw named at h) in
      let entries =
        read_entries-write_entries l sprint prints_text r need n write Sound back names values start
          w1 good once sound wrote in
      let ends : put b'z' w1 ≡ w' = ok_inverse closed in
      let body = entries.0 in
      (
        b'M' ∷ (type_bytes name ++ (body ++ b'z' ∷ [])),
        ap (λ (x : HessianWriter). x.buf) (sym ends)
            ∙ ap (λ bs. bs ++ (b'z' ∷ []))
                (entries.1 ∙ ap (λ bs. bs ++ body) (write_type_lem name (w.buf ++ (b'M' ∷ []))))
            ∙ append_assoc ((w.buf ++ (b'M' ∷ [])) ++ type_bytes name) body (b'z' ∷ [])
            ∙ append_assoc (w.buf ++ (b'M' ∷ [])) (type_bytes name) (body ++ b'z' ∷ [])
            ∙ append_assoc w.buf (b'M' ∷ []) (type_bytes name ++ (body ++ b'z' ∷ [])),
        omega arith,
        λ d rest ready.
            let split : b'M' ∷ ((type_bytes name ++ (body ++ b'z' ∷ [])) ++ rest)
                ≡ b'M' ∷ (type_bytes name ++ (body ++ b'z' ∷ rest)) =
              ap (◌∷◌ b'M') (
                append_assoc (type_bytes name) (body ++ b'z' ∷ []) rest
                ∙ ap (λ bs. type_bytes name ++ bs) (append_assoc body (b'z' ∷ []) rest)) in
            rw split (
              rw⁻¹ ends (
                typed_entries-Outcome l sprint prints_text r need n write Sound back d rest name
                  names (values_at names values) start w1 entries known named
                  (subst (IsReady l (suc (suc need)) w.object_defs d) split ready))),
      )
