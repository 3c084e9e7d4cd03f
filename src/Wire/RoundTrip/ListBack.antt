-- ===== src/Wire/RoundTrip/ListBack.antt =====
-- A list that writeTypedList has written reads back.
use sofarpc_cli.Prelude.{
  Option, All, Bytes, List, [], ap, append_assoc, arith, false, is_empty, length, suc, ℕ, ◌++◌, ◌<◌,
  ◌^◌, ◌∙◌, ◌∷◌, ◌≡◌, ◌+◌, sym, subst,
}
use sofarpc_cli.Wire.Writer.{write_length, write_type}
use sofarpc_cli.Wire.RoundTrip.Back.{IsReady, Outcome, WroteBack, read_items-write_values}
use sofarpc_cli.Wire.RoundTrip.Image.{IsImage, IsList}
use sofarpc_cli.Wire.RoundTrip.Texts.{IsText}
use sofarpc_cli.Wire.Encoder.{Arg, HessianWriter, Writing, put}
use sofarpc_cli.Wire.Encoder.Values.{put_type, write_typed_list, write_values}
use sofarpc_cli.Wire.Decoder.State.{Decoder, Limits, Node, Value}
use sofarpc_cli.Wire.Decoder.Values.{read_value}
use sofarpc_cli.Wire.Result.{bind_ok, ok, ok_inverse}
use sofarpc_cli.Wire.RoundTrip.ListRead.{
  list_head, list_bytes, list_head-written, items-IsReady, read_typed_items-Outcome,
}

module _ (l : Limits) (small : l.max_collection_items < 2 ^ 31)
    (sprint : List Node → Value → Option Bytes) (r : ℕ) (write : Arg → Writing) (need n : ℕ)
    (Sound : Arg → Type 0)
    (back : (g : Arg) (w w' : HessianWriter)
      → Sound g
      → write g w ≡ ok w'
      → WroteBack l (read_value l sprint r) need n g w w') where
  pub write_typed_list-back :
      (name : Bytes) (gs : List Arg) (w w' : HessianWriter)
      → IsText name
      → is_empty name ≡ false
      → All Sound gs
      → write_typed_list write name gs w ≡ ok w'
      → (written : Bytes) × (w'.buf ≡ w.buf ++ written)
        × (0 < length written)
        × ((d : Decoder) (rest : Bytes)
            → IsReady l (suc need) w.object_defs d (written ++ rest)
            → Outcome d
                (written ++ rest)
                rest
                w'.object_defs
                (read_value l sprint (suc r) (record d { unread = written ++ rest }))
                (λ v d'.
                  IsList (IsImage n (length d.heap) d'.heap) (length d.heap) d'.heap v name gs))
  unfolding write_typed_list put_type list_bytes list_head
  write_typed_list-back name gs w w' good named sound h =
      let start : HessianWriter = record w {
        buf = write_length (length gs) (write_type name (w.buf ++ (b'V' ∷ [])));
      } in
      let (w1, wrote, closed) = bind_ok (write_values write gs start) _ (rw named at h) in
      let (body, e, few, items) =
        read_items-write_values l sprint (read_value l sprint r) write need n Sound back gs start w1
          sound wrote in
      let ends : put b'z' w1 ≡ w' = ok_inverse closed in
      (
        list_bytes name (length gs) body,
        ap (λ (x : HessianWriter). x.buf) (sym ends)
            ∙ ap (λ bs. bs ++ (b'z' ∷ []))
                (e ∙ ap (λ bs. bs ++ body) (list_head-written name (length gs) w.buf named))
            ∙ append_assoc (w.buf ++ list_head name (length gs)) body (b'z' ∷ [])
            ∙ append_assoc w.buf (list_head name (length gs)) (body ++ b'z' ∷ []),
        omega arith,
        λ d rest ready.
            subst
              (λ (x : HessianWriter).
                Outcome d (list_bytes name (length gs) body ++ rest) rest x.object_defs
                  (read_value l sprint (suc r)
                    (record d { unread = list_bytes name (length gs) body ++ rest }))
                  (λ v d'.
                    IsList (IsImage n (length d.heap) d'.heap) (length d.heap) d'.heap v name gs))
              ends
              (read_typed_items-Outcome l small sprint r need n d name body rest gs w.object_defs
                w1.object_defs good named few ready
                (items (record d { types = d.types ++ name ∷ []; depth = d.depth + 1 })
                  (b'z' ∷ rest) []
                  (items-IsReady l small sprint r need n d name body rest (length gs) w.object_defs
                    ready))),
      )
