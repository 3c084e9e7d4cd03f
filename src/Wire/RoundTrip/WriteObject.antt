-- ===== src/Wire/RoundTrip/WriteObject.antt =====
-- writeObject against the reader, whether the definition is new or not.
use sofarpc_cli.Wire.RoundTrip.Objects.{def_bytes, length-def_bytes}
use sofarpc_cli.Prelude.{
  Option, All, Bytes, List, [], ap, append_assoc, arith, length, refl, some, subst, suc, sym, ℕ,
  ◌++◌, ◌+◌, ◌<◌, ◌^◌, ◌∙◌, ◌∷◌, ◌≡◌, ◌==◌, Option-cases, length-append, inl, inr, true, none,
}
use sofarpc_cli.Prelude.Int.{pos}
use sofarpc_cli.Prelude.Map.{lookup}
use sofarpc_cli.Wire.Writer.{write_int}
use sofarpc_cli.Wire.RoundTrip.Back.{IsName, IsReady, Outcome, WroteBack}
use sofarpc_cli.Wire.RoundTrip.Entries.{AreDistinct}
use sofarpc_cli.Wire.RoundTrip.FieldsBack.{read_fields-write_values}
use sofarpc_cli.Wire.RoundTrip.Image.{IsImage, IsObject}
use sofarpc_cli.Wire.RoundTrip.ObjectBack.{instance-Outcome, defined-Outcome}
use sofarpc_cli.Wire.RoundTrip.NewObject.{object_ref-new, defined}
use sofarpc_cli.Wire.RoundTrip.Scalars.{int_bytes, write_int_lem}
use sofarpc_cli.Wire.Encoder.{Arg, HessianWriter, Writing, object_def_key, object_ref, on_buf, put}
use sofarpc_cli.Wire.Encoder.Values.{write_values, write_object}
use sofarpc_cli.Wire.Decoder.State.{Limits, Node, Value, Decoder}
use sofarpc_cli.Wire.Decoder.Values.{read_value}
use sofarpc_cli.Wire.Result.{ok, ◌>>=◌}

object_ref-known :
    (name : Bytes) (names : List Bytes) (ref : ℕ) (w : HessianWriter)
    → lookup (object_def_key name names) w.object_defs ≡ some ref
    → object_ref name names w ≡ ok (ref, w)
unfolding object_ref
object_ref-known name names ref w known = rw (known, object_ref) refl

module _ (l : Limits) (refs_small : l.max_refs < 2 ^ 31) (small : l.max_collection_items < 2 ^ 31)
    (sprint : List Node → Value → Option Bytes) (r need n : ℕ) (write : Arg → Writing)
    (Sound : Arg → Type 0)
    (back : (k : ℕ) (g : Arg) (w w' : HessianWriter)
      → Sound g
      → write g w ≡ ok w'
      → WroteBack l (read_value l sprint (suc (k + r))) (suc need) n g w w') where
  abbrev pub ObjectBack : Bytes → List Bytes → List Arg → HessianWriter → HessianWriter → Type 0
  ObjectBack name names gs w w' =
      (written : Bytes) × (w'.buf ≡ w.buf ++ written)
      × (0 < length written)
      × ((d : Decoder) (rest : Bytes)
          → IsReady l (suc (suc (suc need))) w.object_defs d (written ++ rest)
          → Outcome d (written ++ rest) rest w'.object_defs
              (read_value l sprint (suc (suc (suc r))) (record d { unread = written ++ rest }))
              (λ v d'.
                IsObject (IsImage n (length d.heap) d'.heap) (length d.heap) d'.heap v name names
                  gs))

  back_one :
      (g : Arg) (w w' : HessianWriter)
      → Sound g
      → write g w ≡ ok w'
      → WroteBack l (read_value l sprint (suc (suc r))) (suc need) n g w w'
  back_one = rw (let e : 1 + r ≡ suc r = omega arith in sym e) (back 1)

  back_zero :
      (g : Arg) (w w' : HessianWriter)
      → Sound g
      → write g w ≡ ok w'
      → WroteBack l (read_value l sprint (suc r)) (suc need) n g w w'
  back_zero = rw (let e : 0 + r ≡ r = omega arith in sym e) (back 0)

  known-ObjectBack :
      (name : Bytes) (names : List Bytes) (gs : List Arg) (ref : ℕ) (w w' : HessianWriter)
      → IsName name
      → All IsName names
      → AreDistinct names
      → All Sound gs
      → length names ≡ length gs
      → lookup (object_def_key name names) w.object_defs ≡ some ref
      → write_values write gs (on_buf (write_int (pos ref)) (put b'o' w)) ≡ ok w'
      → ObjectBack name names gs w w'
  known-ObjectBack name names gs ref w w' good goods once sound same known h =
      let start : HessianWriter = on_buf (write_int (pos ref)) (put b'o' w) in
      let fields =
        read_fields-write_values l sprint (read_value l sprint (suc (suc r))) write (suc need) n
          Sound back_one names gs start w' same once sound h in
      let body = fields.0 in
      (
        b'o' ∷ (int_bytes (pos ref) ++ body),
        fields.1
            ∙ ap (λ bs. bs ++ body) (write_int_lem (pos ref) (w.buf ++ (b'o' ∷ [])))
            ∙ append_assoc (w.buf ++ (b'o' ∷ [])) (int_bytes (pos ref)) body
            ∙ append_assoc w.buf (b'o' ∷ []) (int_bytes (pos ref) ++ body),
        omega arith,
        λ d rest ready.
            let split : b'o' ∷ ((int_bytes (pos ref) ++ body) ++ rest)
                ≡ b'o' ∷ (int_bytes (pos ref) ++ (body ++ rest)) =
              ap (◌∷◌ b'o') (append_assoc (int_bytes (pos ref)) body rest) in
            let ready0 = subst (IsReady l (suc (suc (suc need))) w.object_defs d) split ready in
            rw split (
              instance-Outcome l refs_small sprint (suc r) need n write Sound back_one d rest name
                ref names gs start w' fields (ready.agree.same_defs name names ref good goods known)
                (record {
                  room = ready0.room;
                  shallow = omega (arith, ready0.shallow);
                  agree = ready0.agree;
                })),
      )

  new-ObjectBack :
      (name : Bytes) (names : List Bytes) (gs : List Arg) (w w' : HessianWriter)
      → IsName name
      → All IsName names
      → AreDistinct names
      → All Sound gs
      → length names ≡ length gs
      → lookup (object_def_key name names) w.object_defs ≡ none
      → write_values write gs
          (on_buf (write_int (pos (length w.object_defs))) (put b'o' (defined name names w)))
        ≡ ok w'
      → ObjectBack name names gs w w'
  new-ObjectBack name names gs w w' good goods once sound same new h =
      let ref = length w.object_defs in
      let start : HessianWriter = on_buf (write_int (pos ref)) (put b'o' (defined name names w)) in
      let fields =
        read_fields-write_values l sprint (read_value l sprint (suc r)) write (suc need) n Sound
          back_zero names gs start w' same once sound h in
      let body = fields.0 in
      let inner = b'o' ∷ (int_bytes (pos ref) ++ body) in
      let front : Bytes = w.buf ++ b'O' ∷ def_bytes name names in
      let (name_fits, names_fit, many) = length-def_bytes name names in
      (
        b'O' ∷ (def_bytes name names ++ inner),
        fields.1
            ∙ ap (λ bs. bs ++ body) (write_int_lem (pos ref) (front ++ (b'o' ∷ [])))
            ∙ append_assoc (front ++ (b'o' ∷ [])) (int_bytes (pos ref)) body
            ∙ append_assoc front (b'o' ∷ []) (int_bytes (pos ref) ++ body)
            ∙ append_assoc w.buf (b'O' ∷ def_bytes name names) inner,
        omega arith,
        λ d rest ready.
            let tail = b'o' ∷ (int_bytes (pos ref) ++ (body ++ rest)) in
            let split : b'O' ∷ ((def_bytes name names ++ inner) ++ rest)
                ≡ b'O' ∷ (def_bytes name names ++ tail) =
              ap (◌∷◌ b'O') (
                append_assoc (def_bytes name names) inner rest
                ∙ ap (λ bs. def_bytes name names ++ b'o' ∷ bs)
                    (append_assoc (int_bytes (pos ref)) body rest)) in
            let ready0 = subst (IsReady l (suc (suc (suc need))) w.object_defs d) split ready in
            let size = length-append (def_bytes name names) tail in
            rw split (
              defined-Outcome l refs_small sprint r need n write Sound back_zero d rest name names
                gs w.object_defs start w' fields good goods (omega (arith, ready0.room, size, many))
                new refl ready0),
      )

  pub write_object-back :
      (name : Bytes) (names : List Bytes) (gs : List Arg) (w w' : HessianWriter)
      → IsName name
      → All IsName names
      → AreDistinct names
      → All Sound gs
      → length names ≡ length gs
      → write_object write name names gs w ≡ ok w'
      → ObjectBack name names gs w w'
  unfolding write_object
  write_object-back name names gs w w' good goods once sound same h =
      let counted : (length names == length gs) ≡ true = ground arith in
      let h' : (object_ref name names w >>= λ p.
      write_values write gs (on_buf (write_int (pos p.0)) (put b'o' p.1)))
          ≡ ok w' =
        rw counted at h in
      elim (Option-cases (lookup (object_def_key name names) w.object_defs)) [
        | inl new ↦
            new-ObjectBack name names gs w w' good goods once sound same new
              (rw (object_ref-new name names w goods new) at h')
        | inr (ref, known) ↦
            known-ObjectBack name names gs ref w w' good goods once sound same known
              (rw (object_ref-known name names ref w known) at h')
      ]
