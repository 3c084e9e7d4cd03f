-- ===== src/Wire/RoundTrip/EntriesBack.antt =====
-- The entries that writeMap has written fill the map of readMap.
use sofarpc_cli.Wire.Encoder.Values.{write_entries}
use sofarpc_cli.Prelude.Map.{Map, insert}
use sofarpc_cli.Wire.Encoder.{Arg, HessianWriter, value_at, values_at, Writing}
use sofarpc_cli.Wire.RoundTrip.Back.{IsReady, Outcome, Agree, WroteBack}
use sofarpc_cli.Prelude.{
  Option, Bytes, List, [], length, refl, suc, ℕ, ◌++◌, ◌+◌, ◌<◌, ◌∷◌, ◌≡◌, ◌≤◌, get_elem?,
  length-append, ◌∙◌, some, arith, All, sym, ap, subst, append-nil, ◌-◌, append_assoc,
}
use sofarpc_cli.Wire.RoundTrip.Texts.{IsText, string_bytes, string_bytes-mark}
use sofarpc_cli.Wire.RoundTrip.Entries.{AreNew, Filled, put_string_lem, AreDistinct}
use sofarpc_cli.Wire.Decoder.State.{Decoder, Limits, Node, Value, put_entry, text, object}
use sofarpc_cli.Wire.Decoder.Values.{read_entries, read_value}
use sofarpc_cli.Wire.Result.{ok, bind_ok, ok_inverse}
use sofarpc_cli.Wire.RoundTrip.EntrySteps.{
  no_heap, BeginsNoType, mark_BeginsNoType, read_entries-end, entries-IsReady, entries_cons,
}

module _ (l : Limits) (sprint : List Node → Value → Option Bytes)
    (prints_text : (h : List Node) (s : Bytes) → sprint h (text s) ≡ some s) (r need n : ℕ) where
  module _ (write : Arg → Writing) (Sound : Arg → Type 0)
      (back : (g : Arg) (w w' : HessianWriter)
        → Sound g
        → write g w ≡ ok w'
        → WroteBack l (read_value l sprint (suc r)) (suc need) n g w w') where
    -- what writeMap has written for some of its names
    abbrev pub EntriesBack : List Bytes → List Arg → HessianWriter → HessianWriter → Type 0
    EntriesBack names gs w w' =
        (written : Bytes) × (w'.buf ≡ w.buf ++ written)
        × (length names ≤ length written)
        × ((rest : Bytes)
            → (b : ℕ) × (bs : Bytes) × (written ++ b'z' ∷ rest ≡ b ∷ bs) × BeginsNoType b)
        × ((d : Decoder) (rest : Bytes) (fuel a count : ℕ) (m : Map Value)
            → IsReady l (suc need) w.object_defs d (written ++ b'z' ∷ rest)
            → length names < fuel
            → count + length names ≤ l.max_collection_items
            → get_elem? d.heap a ≡ some (object m)
            → AreNew m names
            → Outcome (no_heap d) (written ++ b'z' ∷ rest) rest w'.object_defs
                (read_entries l sprint (read_value l sprint (suc r)) fuel a count
                  (record d { unread = written ++ b'z' ∷ rest }))
                (λ u d'. Filled n a d.heap m names gs d'))

    entries_nil :
        (d : Decoder) (rest : Bytes) (fuel a count : ℕ) (m : Map Value) (defs : Map ℕ)
        → Agree defs d.class_defs
        → get_elem? d.heap a ≡ some (object m)
        → Outcome
            (no_heap d)
            (b'z' ∷ rest)
            rest
            defs
            (read_entries l sprint
              (read_value l sprint (suc r))
              (suc fuel)
              a
              count
              (record d { unread = b'z' ∷ rest }))
            (λ u d'. Filled n a d.heap m [] [] d')
    entries_nil d rest fuel a count m defs agree at = (
      tt,
      d,
      read_entries-end l sprint prints_text r need n fuel a count d rest,
      record {
        same_depth = refl;
        fewer = omega arith;
        refs_paid = omega arith;
        class_defs_paid = omega arith;
        types_paid = omega arith;
        heap_grows = omega arith;
        heap_kept = λ i h. absurd (omega arith);
      },
      agree,
      ([], at ∙ ap (λ x. some (object x)) (sym (append-nil m)), tt, omega arith, λ i lt ne. refl),
    )

    pub read_entries-write_entries :
        (names : List Bytes) (values : Map Arg) (w w' : HessianWriter)
        → All IsText names
        → AreDistinct names
        → All Sound (values_at names values)
        → write_entries write names values w ≡ ok w'
        → EntriesBack names (values_at names values) w w'
    unfolding write_entries values_at
    read_entries-write_entries [] values w w' good once sound h = (
      [],
      ap (λ (x : HessianWriter). x.buf) (sym (ok_inverse h)) ∙ sym (append-nil w.buf),
      omega arith,
      λ rest. (b'z', rest, refl, (refl, refl)),
      λ d rest fuel a count m ready enough few at new.
          let one_more : fuel ≡ suc (fuel - 1) = omega arith in
          rw one_more (
            entries_nil d rest (fuel - 1) a count m w'.object_defs
              (subst (λ (x : HessianWriter). Agree x.object_defs d.class_defs) (ok_inverse h)
                ready.agree)
              at),
    )
    read_entries-write_entries (name ∷ names) values w w' good once sound h =
        let g = value_at name values in
        let start : HessianWriter = record w { buf = w.buf ++ string_bytes name } in
        let (w1, one, more) = bind_ok (write g start) _ (rw (put_string_lem name w good.0) at h) in
        let (first, e1, some_bytes, back1) = back g start w1 sound.0 one in
        let (others, e2, fewer, begins, back2) =
          read_entries-write_entries names values w1 w' good.1 once.1 sound.1 more in
        (
          string_bytes name ++ (first ++ others),
          e2
              ∙ ap (λ bs. bs ++ others) e1
              ∙ append_assoc (w.buf ++ string_bytes name) first others
              ∙ append_assoc w.buf (string_bytes name) (first ++ others),
          omega (
            arith,
            length-append (string_bytes name) (first ++ others),
            length-append first others,
          ),
          λ rest.
              let (b, bs, e, mark) = string_bytes-mark name ((first ++ others) ++ b'z' ∷ rest) in
              (
                b,
                bs,
                append_assoc (string_bytes name) (first ++ others) (b'z' ∷ rest) ∙ e,
                mark_BeginsNoType b mark,
              ),
          λ d rest fuel a count m ready enough few at new.
              let tail = others ++ b'z' ∷ rest in
              let split : (string_bytes name ++ (first ++ others)) ++ b'z' ∷ rest
                  ≡ string_bytes name ++ (first ++ tail) =
                append_assoc (string_bytes name) (first ++ others) (b'z' ∷ rest)
                ∙ ap (λ bs. string_bytes name ++ bs) (append_assoc first others (b'z' ∷ rest)) in
              let one_more : fuel ≡ suc (fuel - 1) = omega arith in
              let ready0 = subst (IsReady l (suc need) w.object_defs d) split ready in
              rw split (
                rw one_more (
                  entries_cons l sprint prints_text r need n (fuel - 1) a count d name names g
                    (values_at names values) m first tail rest w.object_defs w1.object_defs
                    w'.object_defs good.0 ready0 (omega arith) at new.0
                    (back1 d tail (
                      entries-IsReady l sprint prints_text r need n d name (first ++ tail)
                        w.object_defs ready0))
                    (λ d1 v ready1 at1 new1.
                      back2 (record d1 { heap = put_entry a name v d1.heap }) rest (fuel - 1) a
                        (count + 1) (insert name v m) ready1 (omega arith) (omega arith) at1 new1)
                    once.0 new.1)),
        )
