-- ===== src/Wire/RoundTrip/MapRead.antt =====
-- The entries of a map, with a type in front of them or none, through the reader.
use sofarpc_cli.Wire.RoundTrip.Texts.{IsText}
use sofarpc_cli.Wire.Decoder.Values.{read_value, read_entries}
use sofarpc_cli.Wire.Encoder.{Arg, HessianWriter, Writing}
use sofarpc_cli.Wire.Result.{WireResult, ok, ◌>>=◌}
use sofarpc_cli.Wire.RoundTrip.Image.{IsImage, IsMap, IsTypedMap}
use sofarpc_cli.Prelude.{
  Option, Bytes, List, [], arith, codes, length, length-append, refl, suc, ℕ, ◌++◌, ◌+◌, ◌∙◌, ◌∷◌,
  ◌≡◌, is_empty, get_elem?, false, some,
}
use sofarpc_cli.Prelude.Map.{Map, lookup}
use sofarpc_cli.Wire.RoundTrip.Back.{IsReady, WroteBack, Outcome}
use sofarpc_cli.Wire.RoundTrip.EntriesBack.{EntriesBack}
use sofarpc_cli.Wire.RoundTrip.Containers.{
  container-Outcome, with_typed_map, with_untyped_map, read_value-untyped_map, read_value-typed_map,
}
use sofarpc_cli.Wire.RoundTrip.Entries.{AreNew}
use sofarpc_cli.Wire.RoundTrip.Follows.{Follows}
use sofarpc_cli.Wire.RoundTrip.ListRead.{get_elem?-append_left, get_elem?-append_here}
use sofarpc_cli.Wire.RoundTrip.Lists.{type_bytes}
use sofarpc_cli.Wire.Decoder.State.{Decoder, Limits, map_at, object, Value, Node, text, leave_value}
use sofarpc_cli.Wire.Decoder.Tables.{typed}

pub AreNew-nil : (names : List Bytes) → AreNew [] names
unfolding lookup
AreNew-nil [] = tt
AreNew-nil (k ∷ names) = (refl, AreNew-nil names)

untyped_Follows :
    (d : Decoder) (body rest : Bytes)
    → Follows
        (record d { unread = b'M' ∷ (body ++ b'z' ∷ rest); depth = d.depth + 1 })
        (record (with_untyped_map d) { unread = body ++ b'z' ∷ rest; depth = d.depth + 1 })
untyped_Follows d body rest =
    let refs = length-append d.refs (map_at (length d.heap) ∷ []) in
    let heap = length-append d.heap (object [] ∷ []) in
    record {
      same_depth = refl;
      fewer = omega arith;
      refs_paid = omega (arith, refs);
      class_defs_paid = omega arith;
      types_paid = omega arith;
      heap_grows = omega (arith, heap);
      heap_kept = λ i h. get_elem?-append_left d.heap (object [] ∷ []) i h;
    }

typed_Follows :
    (d : Decoder) (name body rest : Bytes)
    → Follows
        (record d {
          unread = b'M' ∷ (type_bytes name ++ (body ++ b'z' ∷ rest));
          depth = d.depth + 1;
        })
        (record (with_typed_map d name) { unread = body ++ b'z' ∷ rest; depth = d.depth + 1 })
unfolding type_bytes
typed_Follows d name body rest =
    let size = length-append (type_bytes name) (body ++ b'z' ∷ rest) in
    let refs = length-append d.refs (map_at (length (d.heap ++ object [] ∷ [])) ∷ []) in
    let types = length-append d.types (name ∷ []) in
    let one = length-append d.heap (object [] ∷ []) in
    let two =
      length-append (d.heap ++ object [] ∷ [])
        (object (typed name (codes "entries") (map_at (length d.heap))) ∷ []) in
    record {
      same_depth = refl;
      fewer = omega (arith, size);
      refs_paid = omega (arith, refs, size);
      class_defs_paid = omega (arith, size);
      types_paid = omega (arith, types, size);
      heap_grows = omega (arith, one, two);
      heap_kept = λ i h.
          get_elem?-append_left (d.heap ++ object [] ∷ []) _ i (omega (arith, one))
          ∙ get_elem?-append_left d.heap (object [] ∷ []) i h;
    }

module _ (l : Limits) (need : ℕ) where
  -- the decoder in front of the loop is ready for it
  pub loop-IsReady :
      (d d3 : Decoder) (bs body : Bytes) (defs : Map ℕ)
      → IsReady l (suc need) defs d bs
      → Follows (record d { unread = bs; depth = d.depth + 1 }) (record d3 { unread = body })
      → d3.class_defs ≡ d.class_defs
      → IsReady l need defs d3 body
  loop-IsReady d d3 bs body defs ready f same = record {
    room = omega (arith, ready.room, f.refs_paid, f.class_defs_paid, f.types_paid, f.fewer);
    shallow = omega (arith, ready.shallow, f.same_depth);
    agree = rw same ready.agree;
  }

pub Outcome-map :
    (d : Decoder) (bs rest : Bytes) (defs : Map ℕ) (read : WireResult (Value × Decoder))
    (P Q : Value → Decoder → Type 0)
    → ((v : Value) (d' : Decoder) → P v d' → Q v d')
    → Outcome d bs rest defs read P
    → Outcome d bs rest defs read Q
Outcome-map d bs rest defs read P Q f (v, d', e, follows, agree, p) =
    (v, d', e, follows, agree, f v d' p)

module _ (l : Limits) (sprint : List Node → Value → Option Bytes)
    (prints_text : (h : List Node) (s : Bytes) → sprint h (text s) ≡ some s) (r need n : ℕ)
    (write : Arg → Writing) (Sound : Arg → Type 0)
    (back : (g : Arg) (w w' : HessianWriter)
      → Sound g
      → write g w ≡ ok w'
      → WroteBack l (read_value l sprint (suc r)) (suc need) n g w w') where
  pub untyped_entries-Outcome :
      (d : Decoder) (rest : Bytes) (names : List Bytes) (gs : List Arg) (w1 w2 : HessianWriter)
      (entries : EntriesBack l sprint prints_text r need n write Sound back names gs w1 w2)
      → IsReady l (suc (suc need)) w1.object_defs d (b'M' ∷ (entries.0 ++ b'z' ∷ rest))
      → Outcome d
          (b'M' ∷ (entries.0 ++ b'z' ∷ rest))
          rest
          w2.object_defs
          (read_value l sprint
            (suc (suc r))
            (record d { unread = b'M' ∷ (entries.0 ++ b'z' ∷ rest) }))
          (λ v d'.
            (a : ℕ) × (v ≡ map_at a)
            × IsMap (IsImage n (length d.heap) d'.heap) (length d.heap) d'.heap a names gs)
  untyped_entries-Outcome d rest names gs w1 w2 (body, e, few, begins, entries) ready =
      let (b, bs, split, begin) = begins rest in
      let follows = untyped_Follows d body rest in
      let d3 : Decoder = record (with_untyped_map d) { depth = d.depth + 1 } in
      let whole : read_value l sprint (suc (suc r))
            (record d { unread = b'M' ∷ (body ++ b'z' ∷ rest) })
          ≡ (read_entries l sprint (read_value l sprint (suc r))
                (suc (length (body ++ b'z' ∷ rest))) (length d.heap) 0
                (record d3 { unread = body ++ b'z' ∷ rest })
              >>= λ p. ok (map_at (length d.heap), leave_value p.1)) =
        rw split (
          read_value-untyped_map l sprint (suc r) d (omega (arith, ready.shallow))
            (omega (arith, ready.room)) b bs begin) in
      let size = length-append body (b'z' ∷ rest) in
      Outcome-map d (b'M' ∷ (body ++ b'z' ∷ rest)) rest w2.object_defs _ _ _
        (λ v d' found. (length d.heap, found.0, found.1))
        (container-Outcome n (length d.heap) d d3 (b'M' ∷ (body ++ b'z' ∷ rest))
          (body ++ b'z' ∷ rest) rest w2.object_defs _ (map_at (length d.heap)) names gs _ follows
          (omega arith) whole
          (entries d3 rest (suc (length (body ++ b'z' ∷ rest))) (length d.heap) 0 []
            (loop-IsReady l (suc need) d d3 (b'M' ∷ (body ++ b'z' ∷ rest)) (body ++ b'z' ∷ rest)
              w1.object_defs ready follows refl)
            (omega (arith, size, few)) (omega (arith, ready.room, size, few))
            (get_elem?-append_here d.heap [] (object [])) (AreNew-nil names)))

  pub typed_entries-Outcome :
      (d : Decoder) (rest name : Bytes) (names : List Bytes) (gs : List Arg) (w1 w2 : HessianWriter)
      (entries : EntriesBack l sprint prints_text r need n write Sound back names gs w1 w2)
      → IsText name
      → is_empty name ≡ false
      → IsReady l
          (suc (suc need))
          w1.object_defs
          d
          (b'M' ∷ (type_bytes name ++ (entries.0 ++ b'z' ∷ rest)))
      → Outcome d
          (b'M' ∷ (type_bytes name ++ (entries.0 ++ b'z' ∷ rest)))
          rest
          w2.object_defs
          (read_value l sprint
            (suc (suc r))
            (record d { unread = b'M' ∷ (type_bytes name ++ (entries.0 ++ b'z' ∷ rest)) }))
          (λ v d'.
            IsTypedMap (IsImage n (length d.heap) d'.heap) (length d.heap) d'.heap v name names gs)
  unfolding type_bytes
  typed_entries-Outcome d rest name names gs w1 w2 (body, e, few, begins, entries) good named
        ready =
      let tail = body ++ b'z' ∷ rest in
      let follows = typed_Follows d name body rest in
      let d3 : Decoder = record (with_typed_map d name) { depth = d.depth + 1 } in
      let size = length-append (type_bytes name) tail in
      let count = length-append body (b'z' ∷ rest) in
      let one = length-append d.heap (object [] ∷ []) in
      let b = length (d.heap ++ object [] ∷ []) in
      let wrap : Node = object (typed name (codes "entries") (map_at (length d.heap))) in
      let whole : read_value l sprint (suc (suc r))
            (record d { unread = b'M' ∷ (type_bytes name ++ tail) })
          ≡ (read_entries l sprint (read_value l sprint (suc r)) (suc (length tail)) (length d.heap)
                0 (record d3 { unread = tail })
              >>= λ p. ok (map_at (length (d.heap ++ object [] ∷ [])), leave_value p.1)) =
        read_value-typed_map l sprint (suc r) d (omega (arith, ready.shallow))
          (omega (arith, ready.room)) name tail good named (omega (arith, ready.room, size))
          (omega (arith, ready.room)) in
      let here : get_elem? d3.heap (length d.heap) ≡ some (object []) =
        get_elem?-append_left (d.heap ++ object [] ∷ []) (wrap ∷ []) (length d.heap)
          (omega (arith, one))
        ∙ get_elem?-append_here d.heap [] (object []) in
      Outcome-map d (b'M' ∷ (type_bytes name ++ tail)) rest w2.object_defs _ _ _
        (λ v d' found. (
          length d.heap,
          b,
          found.0,
          (
            omega (arith, one),
            found.2 b (omega (arith, length-append (d.heap ++ object [] ∷ []) (wrap ∷ [])))
                  (λ same. absurd (omega (arith, same, one)))
                ∙ get_elem?-append_here (d.heap ++ object [] ∷ []) [] wrap,
          ),
          found.1,
        ))
        (container-Outcome n (length d.heap) d d3 (b'M' ∷ (type_bytes name ++ tail)) tail rest
          w2.object_defs _ (map_at b) names gs _ follows (omega arith) whole
          (entries d3 rest (suc (length tail)) (length d.heap) 0 []
            (loop-IsReady l (suc need) d d3 (b'M' ∷ (type_bytes name ++ tail)) tail w1.object_defs
              ready follows refl)
            (omega (arith, count, few)) (omega (arith, ready.room, size, count, few)) here
            (AreNew-nil names)))
