-- ===== src/Wire/RoundTrip/EntrySteps.antt =====
-- One entry of a map through the reader, and the end of the entries.
use sofarpc_cli.Prelude.Map.{Map, insert, lookup}
use sofarpc_cli.Prelude.Sort.{contains}
use sofarpc_cli.Wire.Encoder.{Arg}
use sofarpc_cli.Wire.RoundTrip.Back.{IsReady, IsReady-next, Outcome, get_elem?-lt}
use sofarpc_cli.Wire.RoundTrip.Follows.{Follows, Follows-trans}
use sofarpc_cli.Wire.RoundTrip.Image.{IsImage}
use sofarpc_cli.Prelude.{
  Option, Bytes, List, [], length, refl, suc, ℕ, ◌++◌, ◌+◌, ◌<◌, ◌∷◌, ◌≡◌, ◌≤◌, get_elem?,
  length-append, ◌∙◌, false, none, some, arith, ◌==◌, leb, ◌⊎◌, inl, inr, true, ◌||◌,
}
use sofarpc_cli.Wire.RoundTrip.Texts.{IsText, string_bytes, read_value-string, length-string_bytes}
use sofarpc_cli.Wire.RoundTrip.Entries.{
  at_end-string_bytes, put_here, AreNew-insert, AreNew, Filled, Filled-next,
}
use sofarpc_cli.Wire.Decoder.State.{Decoder, Limits, Node, Value, put_entry, text, skip, object}
use sofarpc_cli.Wire.Decoder.Tables.{at_end}
use sofarpc_cli.Wire.Decoder.Values.{read_entries, read_value}
use sofarpc_cli.Wire.RoundTrip.Lists.{check_length}
use sofarpc_cli.Wire.Result.{ok}

-- the decoder with no heap, whose tables and bytes are what the loop has to account for
abbrev pub no_heap : Decoder → Decoder
no_heap d = record d { heap = [] }

-- a byte that begins no type
abbrev pub BeginsNoType : ℕ → Type 0
BeginsNoType b = ((b == b't') ≡ false) × ((b == b'T' || b == 0x75) ≡ false)

pub mark_BeginsNoType : (b : ℕ) → (leb b 0x1f ≡ true) ⊎ (b ≡ b'S') → BeginsNoType b
mark_BeginsNoType b (inl h) = ground arith
mark_BeginsNoType b (inr h) = ground arith

module _ (l : Limits) (sprint : List Node → Value → Option Bytes)
    (prints_text : (h : List Node) (s : Bytes) → sprint h (text s) ≡ some s) (r need n : ℕ) where
  -- one round of the loop
  read_entries-entry :
      (fuel a count : ℕ) (d d' : Decoder) (name bs bs' : Bytes) (v : Value)
      → IsText name
      → length name ≤ l.max_scalar_bytes
      → d.depth < l.max_depth
      → count + 1 ≤ l.max_collection_items
      → read_value l sprint (suc r) (record d { unread = bs }) ≡ ok (v, record d' { unread = bs' })
      → read_entries l sprint
          (read_value l sprint (suc r))
          (suc fuel)
          a
          count
          (record d { unread = string_bytes name ++ bs })
        ≡ read_entries l sprint
            (read_value l sprint (suc r))
            fuel
            a
            (count + 1)
            (record d' { unread = bs'; heap = put_entry a name v d'.heap })
  unfolding read_entries
  read_entries-entry fuel a count d d' name bs bs' v good fits shallow few found =
      let more = at_end-string_bytes name bs in
      rw (more, read_entries)
        (rw (read_value-string l sprint r d shallow name bs good fits) (
          rw found (
            rw (prints_text d'.heap name)
              (rw (check_length l sprint (read_value l sprint (suc r)) (count + 1) few) refl))))

  pub read_entries-end :
      (fuel a count : ℕ) (d : Decoder) (rest : Bytes)
      → read_entries l sprint
          (read_value l sprint (suc r))
          (suc fuel)
          a
          count
          (record d { unread = b'z' ∷ rest })
        ≡ ok (tt, record d { unread = rest })
  unfolding read_entries at_end skip
  read_entries-end fuel a count d rest = refl

  entry_Follows :
      (d d' : Decoder) (name bs bs' : Bytes)
      → Follows (record d { unread = bs }) (record d' { unread = bs' })
      → Follows
          (record (no_heap d) { unread = string_bytes name ++ bs })
          (record (no_heap d') { unread = bs' })
  entry_Follows d d' name bs bs' f =
      let size = length-append (string_bytes name) bs in
      record {
        same_depth = f.same_depth;
        fewer = omega (arith, f.fewer, size);
        refs_paid = omega (arith, f.refs_paid, size);
        class_defs_paid = omega (arith, f.class_defs_paid, size);
        types_paid = omega (arith, f.types_paid, size);
        heap_grows = omega arith;
        heap_kept = λ i h. absurd (omega arith);
      }

  pub entries-IsReady :
      (d : Decoder) (name bs : Bytes) (defs : Map ℕ)
      → IsReady l (suc need) defs d (string_bytes name ++ bs)
      → IsReady l (suc need) defs d bs
  entries-IsReady d name bs defs ready =
      let size = length-append (string_bytes name) bs in
      record {
        room = omega (arith, ready.room, size);
        shallow = ready.shallow;
        agree = ready.agree;
      }

  entries_fit :
      (d : Decoder) (name bs : Bytes) (defs : Map ℕ)
      → IsReady l (suc need) defs d (string_bytes name ++ bs)
      → length name ≤ length (string_bytes name)
      → (length name ≤ l.max_scalar_bytes) × (d.depth < l.max_depth)
  entries_fit d name bs defs ready le =
      let size = length-append (string_bytes name) bs in
      omega (arith, ready.room, ready.shallow, size)

  pub entries_cons :
      (fuel a count : ℕ) (d : Decoder) (name : Bytes) (names : List Bytes) (g : Arg) (gs : List Arg)
      (m : Map Value) (first others rest : Bytes) (defs defs1 defs2 : Map ℕ)
      → IsText name
      → IsReady l (suc need) defs d (string_bytes name ++ (first ++ others))
      → count + 1 ≤ l.max_collection_items
      → get_elem? d.heap a ≡ some (object m)
      → lookup name m ≡ none
      → Outcome d
          (first ++ others)
          others
          defs1
          (read_value l sprint (suc r) (record d { unread = first ++ others }))
          (λ v d1. IsImage n (length d.heap) d1.heap v g)
      → ((d1 : Decoder) (v : Value)
          → IsReady l (suc need) defs1 (record d1 { heap = put_entry a name v d1.heap }) others
          → get_elem? (put_entry a name v d1.heap) a ≡ some (object (insert name v m))
          → AreNew (insert name v m) names
          → Outcome
              (no_heap d1)
              others
              rest
              defs2
              (read_entries l sprint
                (read_value l sprint (suc r))
                fuel
                a
                (count + 1)
                (record d1 { unread = others; heap = put_entry a name v d1.heap }))
              (λ u d'. Filled n a (put_entry a name v d1.heap) (insert name v m) names gs d'))
      → contains name names ≡ false
      → AreNew m names
      → Outcome
          (no_heap d)
          (string_bytes name ++ (first ++ others))
          rest
          defs2
          (read_entries l sprint
            (read_value l sprint (suc r))
            (suc fuel)
            a
            count
            (record d { unread = string_bytes name ++ (first ++ others) }))
          (λ u d'. Filled n a d.heap m (name ∷ names) (g ∷ gs) d')
  entries_cons fuel a count d name names g gs m first others rest defs defs1 defs2 good ready few at
        new (v, d1, e, f, agree, image) all once fresh =
      let (fits, shallow) =
        entries_fit d name (first ++ others) defs ready (length-string_bytes name) in
      let ready1 : IsReady l (suc need) defs1 d1 others =
        IsReady-next l (entries-IsReady d name (first ++ others) defs ready) f agree in
      let below = get_elem?-lt d.heap a (object m) at in
      let here = put_here a name v m d.heap d1.heap at below f.heap_grows f.heap_kept in
      let (u, d2, e2, f2, agree2, filled) =
        all d1 v
          (record { room = omega (arith, ready1.room); shallow = ready1.shallow; agree = agree })
          here (AreNew-insert name v m names once fresh) in
      (
        u,
        d2,
        read_entries-entry fuel a count d d1 name (first ++ others) others v good fits shallow few e
            ∙ e2,
        Follows-trans (entry_Follows d d1 name (first ++ others) others f) f2,
        agree2,
        Filled-next n a d.heap d1.heap m name v g names gs d2 below new f.heap_grows f.heap_kept
            image filled,
      )
