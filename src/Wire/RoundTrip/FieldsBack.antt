-- ===== src/Wire/RoundTrip/FieldsBack.antt =====
-- The values that writeObject has written fill the map of readObjectInstance.
use sofarpc_cli.Prelude.{
  Option, All, Bytes, List, [], ap, append-nil, append_assoc, arith, false, get_elem?, length,
  length-append, none, refl, some, subst, sym, ℕ, ◌++◌, ◌∙◌, ◌∷◌, ◌≡◌, ◌≤◌,
}
use sofarpc_cli.Prelude.Map.{Map, insert, lookup}
use sofarpc_cli.Prelude.Sort.{contains}
use sofarpc_cli.Wire.RoundTrip.Back.{Agree, IsReady, Outcome, WroteBack, IsReady-next, get_elem?-lt}
use sofarpc_cli.Wire.RoundTrip.Follows.{Follows, Follows-trans}
use sofarpc_cli.Wire.RoundTrip.Image.{IsImage}
use sofarpc_cli.Wire.RoundTrip.Entries.{
  AreDistinct, AreNew, AreNew-insert, Filled, Filled-next, put_here,
}
use sofarpc_cli.Wire.RoundTrip.EntrySteps.{no_heap}
use sofarpc_cli.Wire.Encoder.{Arg, HessianWriter, Writing}
use sofarpc_cli.Wire.Encoder.Values.{write_values}
use sofarpc_cli.Wire.Decoder.State.{Decoder, Limits, Node, Reader, Value, object, put_entry}
use sofarpc_cli.Wire.Decoder.Values.{read_fields}
use sofarpc_cli.Wire.Result.{bind_ok, ok, ok_inverse}

-- `read` and `write` are readValue and writeValue one level down.
module _ (l : Limits) (sprint : List Node → Value → Option Bytes) (read : Reader Value)
    (write : Arg → Writing) (need n : ℕ) (Sound : Arg → Type 0)
    (back : (g : Arg) (w w' : HessianWriter)
      → Sound g
      → write g w ≡ ok w'
      → WroteBack l read need n g w w') where
  abbrev pub FieldsBack : List Bytes → List Arg → HessianWriter → HessianWriter → Type 0
  FieldsBack names gs w w' =
      (written : Bytes) × (w'.buf ≡ w.buf ++ written)
      × (length gs ≤ length written)
      × ((d : Decoder) (rest : Bytes) (a : ℕ) (m : Map Value)
          → IsReady l need w.object_defs d (written ++ rest)
          → get_elem? d.heap a ≡ some (object m)
          → AreNew m names
          → Outcome (no_heap d) (written ++ rest) rest w'.object_defs
              (read_fields l sprint read names a (record d { unread = written ++ rest }))
              (λ u d'. Filled n a d.heap m names gs d'))

  drop_heap :
      (d d' : Decoder) (bs bs' : Bytes)
      → Follows (record d { unread = bs }) (record d' { unread = bs' })
      → Follows (record (no_heap d) { unread = bs }) (record (no_heap d') { unread = bs' })
  drop_heap d d' bs bs' f = record {
    same_depth = f.same_depth;
    fewer = f.fewer;
    refs_paid = f.refs_paid;
    class_defs_paid = f.class_defs_paid;
    types_paid = f.types_paid;
    heap_grows = omega arith;
    heap_kept = λ i h. absurd (omega arith);
  }

  fields_cons :
      (a : ℕ) (d : Decoder) (name : Bytes) (names : List Bytes) (g : Arg) (gs : List Arg)
      (m : Map Value) (first others rest : Bytes) (defs defs1 defs2 : Map ℕ)
      → IsReady l need defs d (first ++ others)
      → get_elem? d.heap a ≡ some (object m)
      → lookup name m ≡ none
      → Outcome d
          (first ++ others)
          others
          defs1
          (read (record d { unread = first ++ others }))
          (λ v d1. IsImage n (length d.heap) d1.heap v g)
      → ((d1 : Decoder) (v : Value)
          → IsReady l need defs1 (record d1 { heap = put_entry a name v d1.heap }) others
          → get_elem? (put_entry a name v d1.heap) a ≡ some (object (insert name v m))
          → AreNew (insert name v m) names
          → Outcome
              (no_heap d1)
              others
              rest
              defs2
              (read_fields l sprint read names a
                (record d1 { unread = others; heap = put_entry a name v d1.heap }))
              (λ u d'. Filled n a (put_entry a name v d1.heap) (insert name v m) names gs d'))
      → contains name names ≡ false
      → AreNew m names
      → Outcome
          (no_heap d)
          (first ++ others)
          rest
          defs2
          (read_fields l sprint read (name ∷ names) a (record d { unread = first ++ others }))
          (λ u d'. Filled n a d.heap m (name ∷ names) (g ∷ gs) d')
  unfolding read_fields
  fields_cons a d name names g gs m first others rest defs defs1 defs2 ready at new
        (v, d1, e, f, agree, image) all once fresh =
      let ready1 : IsReady l need defs1 d1 others = IsReady-next l ready f agree in
      let below = get_elem?-lt d.heap a (object m) at in
      let here = put_here a name v m d.heap d1.heap at below f.heap_grows f.heap_kept in
      let (u, d2, e2, f2, agree2, filled) =
        all d1 v
          (record { room = omega (arith, ready1.room); shallow = ready1.shallow; agree = agree })
          here (AreNew-insert name v m names once fresh) in
      (
        u,
        d2,
        rw e e2,
        Follows-trans (drop_heap d d1 (first ++ others) others f) f2,
        agree2,
        Filled-next n a d.heap d1.heap m name v g names gs d2 below new f.heap_grows f.heap_kept
            image filled,
      )

  pub read_fields-write_values :
      (names : List Bytes) (gs : List Arg) (w w' : HessianWriter)
      → length names ≡ length gs
      → AreDistinct names
      → All Sound gs
      → write_values write gs w ≡ ok w'
      → FieldsBack names gs w w'
  unfolding write_values read_fields
  read_fields-write_values (name ∷ names) [] w w' same once sound h = absurd (omega arith)
  read_fields-write_values [] (g ∷ gs) w w' same once sound h = absurd (omega arith)
  read_fields-write_values [] [] w w' same once sound h = (
    [],
    ap (λ (x : HessianWriter). x.buf) (sym (ok_inverse h)) ∙ sym (append-nil w.buf),
    omega arith,
    λ d rest a m ready at new. (
      tt,
      d,
      refl,
      record {
        same_depth = refl;
        fewer = omega arith;
        refs_paid = omega arith;
        class_defs_paid = omega arith;
        types_paid = omega arith;
        heap_grows = omega arith;
        heap_kept = λ i lt. absurd (omega arith);
      },
      subst (λ (x : HessianWriter). Agree x.object_defs d.class_defs) (ok_inverse h) ready.agree,
      ([], at ∙ ap (λ x. some (object x)) (sym (append-nil m)), tt, omega arith, λ i lt ne. refl),
    ),
  )
  read_fields-write_values (name ∷ names) (g ∷ gs) w w' same once sound h =
      let (w1, one, more) = bind_ok (write g w) _ h in
      let (first, e1, some_bytes, back1) = back g w w1 sound.0 one in
      let (others, e2, fewer, back2) =
        read_fields-write_values names gs w1 w' (omega arith) once.1 sound.1 more in
      (
        first ++ others,
        e2 ∙ ap (λ bs. bs ++ others) e1 ∙ append_assoc w.buf first others,
        omega (arith, length-append first others),
        λ d rest a m ready at new.
            let split = append_assoc first others rest in
            let ready0 = subst (IsReady l need w.object_defs d) split ready in
            rw split (
              fields_cons a d name names g gs m first (others ++ rest) rest w.object_defs
                w1.object_defs w'.object_defs ready0 at new.0 (back1 d (others ++ rest) ready0)
                (λ d1 v ready1 at1 new1.
                  back2 (record d1 { heap = put_entry a name v d1.heap }) rest a (insert name v m)
                    ready1 at1 new1)
                once.0 new.1),
      )
