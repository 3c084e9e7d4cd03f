-- ===== src/Wire/RoundTrip/ObjectBack.antt =====
-- An object that writeObject has written reads back, with its definition or by the index of one.
use sofarpc_cli.Prelude.{
  Option, All, Bytes, List, [], arith, get_elem?, length, length-append, none, refl, some, suc, ℕ,
  ◌++◌, ◌+◌, ◌<◌, ◌^◌, ◌∙◌, ◌∷◌, ◌≡◌,
}
use sofarpc_cli.Prelude.Int.{pos}
use sofarpc_cli.Prelude.Map.{insert, lookup, Map}
use sofarpc_cli.Wire.RoundTrip.Back.{IsName, IsReady, Outcome, WroteBack, get_elem?-lt, Agree}
use sofarpc_cli.Wire.RoundTrip.Containers.{container-Outcome}
use sofarpc_cli.Wire.RoundTrip.DefKeys.{Agree-insert}
use sofarpc_cli.Wire.RoundTrip.FieldsBack.{FieldsBack}
use sofarpc_cli.Wire.RoundTrip.Follows.{Follows}
use sofarpc_cli.Wire.RoundTrip.Image.{IsImage, IsObject}
use sofarpc_cli.Wire.RoundTrip.ListRead.{get_elem?-append_here, get_elem?-append_left}
use sofarpc_cli.Wire.RoundTrip.MapRead.{AreNew-nil, Outcome-map, loop-IsReady}
use sofarpc_cli.Wire.RoundTrip.Objects.{
  def_bytes, read_value-defined, read_value-instance, with_object, length-def_bytes,
}
use sofarpc_cli.Wire.RoundTrip.Scalars.{int_bytes}
use sofarpc_cli.Wire.Encoder.{Arg, HessianWriter, Writing, object_def_key}
use sofarpc_cli.Wire.Decoder.State.{
  ClassDef, Decoder, Limits, Node, Value, leave_value, map_at, object,
}
use sofarpc_cli.Wire.Decoder.Tables.{object_node}
use sofarpc_cli.Wire.Decoder.Values.{read_value}
use sofarpc_cli.Wire.Result.{ok}

instance_Follows :
    (d : Decoder) (ref : ℕ) (def : ClassDef) (body : Bytes)
    → Follows
        (record d { unread = b'o' ∷ (int_bytes (pos ref) ++ body); depth = d.depth + 1 })
        (record (with_object d def) { unread = body; depth = d.depth + 1 })
instance_Follows d ref def body =
    let size = length-append (int_bytes (pos ref)) body in
    let refs = length-append d.refs (map_at (length (d.heap ++ object [] ∷ [])) ∷ []) in
    let one = length-append d.heap (object [] ∷ []) in
    let two = length-append (d.heap ++ object [] ∷ []) (object_node def (length d.heap) ∷ []) in
    record {
      same_depth = refl;
      fewer = omega (arith, size);
      refs_paid = omega (arith, refs, size);
      class_defs_paid = omega (arith, size);
      types_paid = omega (arith, size);
      heap_grows = omega (arith, one, two);
      heap_kept = λ i h.
          get_elem?-append_left (d.heap ++ object [] ∷ []) _ i (omega (arith, one))
          ∙ get_elem?-append_left d.heap (object [] ∷ []) i h;
    }

module _ (l : Limits) (refs_small : l.max_refs < 2 ^ 31) (sprint : List Node → Value → Option Bytes)
    (r need n : ℕ) (write : Arg → Writing) (Sound : Arg → Type 0)
    (back : (g : Arg) (w w' : HessianWriter)
      → Sound g
      → write g w ≡ ok w'
      → WroteBack l (read_value l sprint (suc r)) (suc need) n g w w') where
  pub instance-Outcome :
      (d : Decoder) (rest name : Bytes) (ref : ℕ) (names : List Bytes) (gs : List Arg)
      (w1 w2 : HessianWriter)
      (fields : FieldsBack l sprint
        (read_value l sprint (suc r))
        write
        (suc need)
        n
        Sound
        back
        names
        gs
        w1
        w2)
      → get_elem? d.class_defs ref ≡ some (record { type_name = name; field_names = names })
      → IsReady l
          (suc (suc need))
          w1.object_defs
          d
          (b'o' ∷ (int_bytes (pos ref) ++ (fields.0 ++ rest)))
      → Outcome d
          (b'o' ∷ (int_bytes (pos ref) ++ (fields.0 ++ rest)))
          rest
          w2.object_defs
          (read_value l sprint
            (suc (suc r))
            (record d { unread = b'o' ∷ (int_bytes (pos ref) ++ (fields.0 ++ rest)) }))
          (λ v d'.
            IsObject (IsImage n (length d.heap) d'.heap) (length d.heap) d'.heap v name names gs)
  instance-Outcome d rest name ref names gs w1 w2 (body, e, few, fields) found ready =
      let def : ClassDef = record { type_name = name; field_names = names } in
      let tail = body ++ rest in
      let follows = instance_Follows d ref def tail in
      let d3 : Decoder = record (with_object d def) { depth = d.depth + 1 } in
      let one = length-append d.heap (object [] ∷ []) in
      let b = length (d.heap ++ object [] ∷ []) in
      let wrap : Node = object_node def (length d.heap) in
      let known = get_elem?-lt d.class_defs ref def found in
      let whole =
        read_value-instance l sprint r d ref def tail (omega (arith, ready.shallow))
          (omega (arith, ready.room, known)) (omega (arith, ready.room)) found in
      let here : get_elem? d3.heap (length d.heap) ≡ some (object []) =
        get_elem?-append_left (d.heap ++ object [] ∷ []) (wrap ∷ []) (length d.heap)
          (omega (arith, one))
        ∙ get_elem?-append_here d.heap [] (object []) in
      Outcome-map d (b'o' ∷ (int_bytes (pos ref) ++ tail)) rest w2.object_defs _ _ _
        (λ v d' found. (
          length d.heap,
          b,
          found.0,
          (
            omega (arith, one),
            found.2 b (omega (arith, length-append (d.heap ++ object [] ∷ []) (wrap ∷ [])))
                  (λ same. absurd (omega (arith, same, one)))
                ∙ get_elem?-append_here (d.heap ++ object [] ∷ []) [] wrap,
          ),
          found.1,
        ))
        (container-Outcome n (length d.heap) d d3 (b'o' ∷ (int_bytes (pos ref) ++ tail)) tail rest
          w2.object_defs _ (map_at b) names gs _ follows (omega arith) whole
          (fields d3 rest (length d.heap) []
            (loop-IsReady l (suc need) d d3 (b'o' ∷ (int_bytes (pos ref) ++ tail)) tail
              w1.object_defs ready follows refl)
            here (AreNew-nil names)))

  -- the same behind a definition, one level down
  pub defined-Outcome :
      (d : Decoder) (rest name : Bytes) (names : List Bytes) (gs : List Arg) (defs : Map ℕ)
      (w1 w2 : HessianWriter)
      (fields : FieldsBack l sprint
        (read_value l sprint (suc r))
        write
        (suc need)
        n
        Sound
        back
        names
        gs
        w1
        w2)
      → IsName name
      → All IsName names
      → length names < 2 ^ 31
      → lookup (object_def_key name names) defs ≡ none
      → w1.object_defs ≡ insert (object_def_key name names) (length defs) defs
      → IsReady l (suc (suc (suc need))) defs d (
          b'O'
          ∷ (def_bytes name names
              ++ (b'o' ∷ (int_bytes (pos (length defs)) ++ (fields.0 ++ rest)))))
      → Outcome d
          (b'O'
            ∷ (def_bytes name names
                ++ (b'o' ∷ (int_bytes (pos (length defs)) ++ (fields.0 ++ rest)))))
          rest
          w2.object_defs
          (read_value l sprint (suc (suc (suc r))) (record d {
            unread =
                b'O'
                ∷ (def_bytes name names
                    ++ (b'o' ∷ (int_bytes (pos (length defs)) ++ (fields.0 ++ rest))));
          }))
          (λ v d'.
            IsObject (IsImage n (length d.heap) d'.heap) (length d.heap) d'.heap v name names gs)
  unfolding leave_value
  defined-Outcome d rest name names gs defs w1 w2 fields good goods small new grown ready =
      let def : ClassDef = record { type_name = name; field_names = names } in
      let tail = b'o' ∷ (int_bytes (pos (length defs)) ++ (fields.0 ++ rest)) in
      let size = length-append (def_bytes name names) tail in
      let longer = length-append d.class_defs (def ∷ []) in
      let (name_fits, names_fit, many) = length-def_bytes name names in
      let d2 : Decoder = record d { depth = d.depth + 1; class_defs = d.class_defs ++ def ∷ [] } in
      let agree : Agree w1.object_defs (d.class_defs ++ def ∷ []) =
        rw grown (Agree-insert name names defs d.class_defs good goods new ready.agree) in
      let at : get_elem? d2.class_defs (length defs) ≡ some def =
        rw⁻¹ (ready.agree.as_many) (get_elem?-append_here d.class_defs [] def) in
      let ready2 : IsReady l (suc (suc need)) w1.object_defs d2 tail = record {
        room = omega (arith, ready.room, size, longer);
        shallow = omega (arith, ready.shallow);
        agree = agree;
      } in
      let (v, d', e, f, agree', image) =
        instance-Outcome d2 rest name (length defs) names gs w1 w2 fields at ready2 in
      (
        v,
        leave_value d',
        read_value-defined l sprint (suc r) d name tail names good goods
              (omega (arith, ready.shallow)) (omega (arith, ready.room, size, name_fits))
              (omega (arith, ready.room, size, names_fit)) small
              (omega (arith, ready.room, size, many)) (omega (arith, ready.room))
            ∙ rw e refl,
        record {
          same_depth = omega (arith, f.same_depth);
          fewer = omega (arith, f.fewer, size);
          refs_paid = omega (arith, f.refs_paid, size);
          class_defs_paid = omega (arith, f.class_defs_paid, size, longer);
          types_paid = omega (arith, f.types_paid, size);
          heap_grows = f.heap_grows;
          heap_kept = f.heap_kept;
        },
        agree',
        image,
      )
