-- ===== src/Wire/RoundTrip/Containers.antt =====
-- What a map that the decoder has filled is, once readValue returns it.
use sofarpc_cli.Prelude.{
  Option, Bytes, List, [], arith, codes, length, refl, suc, ℕ, ◌++◌, ◌+◌, ◌<◌, ◌∙◌, ◌∷◌, ◌≡◌, ◌≤◌,
  ltb, is_empty, false,
}
use sofarpc_cli.Prelude.Map.{Map}
use sofarpc_cli.Wire.RoundTrip.Back.{Outcome}
use sofarpc_cli.Wire.RoundTrip.Entries.{Filled, KeepsBut}
use sofarpc_cli.Wire.RoundTrip.EntrySteps.{no_heap, BeginsNoType}
use sofarpc_cli.Wire.RoundTrip.Follows.{Follows, read_value_tagged}
use sofarpc_cli.Wire.RoundTrip.Image.{EachEntry-map, IsImage, IsImage-stays, IsMap}
use sofarpc_cli.Wire.RoundTrip.Lists.{type_bytes, read_type-type_bytes}
use sofarpc_cli.Wire.RoundTrip.Texts.{IsText}
use sofarpc_cli.Wire.Encoder.{Arg}
use sofarpc_cli.Wire.Decoder.State.{
  Decoder, Limits, Node, Reader, Value, add_ref, alloc, leave_value, map_at, object,
}
use sofarpc_cli.Wire.Decoder.Tables.{add_allocated, add_map, typed}
use sofarpc_cli.Wire.Decoder.Values.{
  read_entries, read_map, read_tagged, read_type, read_value, type_of_tag, read_number, read_blob,
  read_compound,
}
use sofarpc_cli.Wire.Decoder.Scalars.{read_integer, read_double, between}
use sofarpc_cli.Wire.Reader.{peek_byte}
use sofarpc_cli.Wire.Result.{WireResult, ok, ◌>>=◌, bind_assoc}

-- `d3` is the decoder behind the new nodes, one level down, and `loop` what fills the map at `a`.
pub container-Outcome :
    (n a : ℕ) (d d3 : Decoder) (bs body rest : Bytes) (defs : Map ℕ)
    (loop : WireResult (Unit {0} × Decoder)) (out : Value) (names : List Bytes) (gs : List Arg)
    (whole : WireResult (Value × Decoder))
    → Follows (record d { unread = bs; depth = d.depth + 1 }) (record d3 { unread = body })
    → length d.heap ≤ a
    → whole ≡ (loop >>= λ p. ok (out, leave_value p.1))
    → Outcome (no_heap d3) body rest defs loop (λ u d'. Filled n a d3.heap [] names gs d')
    → Outcome d bs rest defs whole (λ v d'.
      (v ≡ out)
      × IsMap (IsImage n (length d.heap) d'.heap) (length d.heap) d'.heap a names gs
      × KeepsBut a d3.heap d'.heap)
unfolding leave_value
container-Outcome n a d d3 bs body rest defs loop out names gs whole f above e
      (u, d4, e4, f4, agree, (added, at, each, grows, but)) =
    (
      out,
      leave_value d4,
      e ∙ (rw e4 refl),
      record {
        same_depth = omega (arith, f.same_depth, f4.same_depth);
        fewer = omega (arith, f.fewer, f4.fewer);
        refs_paid = omega (arith, f.refs_paid, f4.refs_paid);
        class_defs_paid = omega (arith, f.class_defs_paid, f4.class_defs_paid);
        types_paid = omega (arith, f.types_paid, f4.types_paid);
        heap_grows = omega (arith, f.heap_grows);
        heap_kept = λ i h.
            but i (omega (arith, f.heap_grows)) (λ same. absurd (omega (arith, same)))
            ∙ f.heap_kept i h;
      },
      agree,
      (
        refl,
        (
          added,
          (above, at),
          EachEntry-map (IsImage n (length d3.heap) d4.heap) (IsImage n (length d.heap) d4.heap)
              added names gs
              (λ x y.
                IsImage-stays (length d3.heap) (length d.heap) d4.heap d4.heap f.heap_grows
                  (λ i node le k. k) n x y)
              each,
        ),
        but,
      ),
    )

module _ (l : Limits) (sprint : List Node → Value → Option Bytes) (read : Reader Value) where
  read_type-untyped :
      (d : Decoder) (b : ℕ) (bs : Bytes)
      → BeginsNoType b
      → read_type l sprint read (record d { unread = b ∷ bs })
        ≡ ok ([], record d { unread = b ∷ bs })
  unfolding read_type peek_byte type_of_tag
  read_type-untyped d b bs (not_named, not_ref) = rw (not_named, not_ref) refl

-- the decoder behind the nodes of a map
abbrev pub with_untyped_map : Decoder → Decoder
with_untyped_map d = record d {
  refs = d.refs ++ map_at (length d.heap) ∷ [];
  heap = d.heap ++ object [] ∷ [];
}

abbrev pub with_typed_map : Decoder → Bytes → Decoder
with_typed_map d name = record d {
  refs = d.refs ++ map_at (length (d.heap ++ object [] ∷ [])) ∷ [];
  types = d.types ++ name ∷ [];
  heap =
      (d.heap ++ object [] ∷ [])
      ++ object (typed name (codes "entries") (map_at (length d.heap))) ∷ [];
}

module _ (l : Limits) (sprint : List Node → Value → Option Bytes) (r : ℕ) (d : Decoder)
    (shallow : d.depth < l.max_depth) (refs : length d.refs + 1 ≤ l.max_refs) where
  -- readValue at a map, up to its loop
  pub read_value-untyped_map :
      (b : ℕ) (bs : Bytes)
      → BeginsNoType b
      → read_value l sprint (suc r) (record d { unread = b'M' ∷ b ∷ bs }) ≡ (
          read_entries l sprint
            (read_value l sprint r)
            (suc (length (b ∷ bs)))
            (length d.heap)
            0
            (record (with_untyped_map d) { unread = b ∷ bs; depth = d.depth + 1 })
          >>= λ p. ok (map_at (length d.heap), leave_value p.1))
  unfolding read_tagged read_number read_integer read_double read_blob read_compound between
      read_map add_map add_allocated alloc add_ref
  read_value-untyped_map b bs begins =
      let within : ltb l.max_refs (length d.refs + 1) ≡ false = ground arith in
      read_value_tagged l sprint r b'M' (b ∷ bs) d shallow
      ∙ rw
          (read_type-untyped l sprint (read_value l sprint r) (record d { depth = d.depth + 1 }) b
            bs begins)
          (rw within (
            bind_assoc
              (read_entries l sprint (read_value l sprint r) (suc (length (b ∷ bs))) (length d.heap)
                0 (record (with_untyped_map d) { unread = b ∷ bs; depth = d.depth + 1 }))
              (λ p. ok (map_at (length d.heap), p.1)) (λ p. ok (p.0, leave_value p.1))))

  pub read_value-typed_map :
      (name bs : Bytes)
      → IsText name
      → is_empty name ≡ false
      → length name ≤ l.max_scalar_bytes
      → length d.types + 1 ≤ l.max_refs
      → read_value l sprint (suc r) (record d { unread = b'M' ∷ (type_bytes name ++ bs) }) ≡ (
          read_entries l sprint
            (read_value l sprint r)
            (suc (length bs))
            (length d.heap)
            0
            (record (with_typed_map d name) { unread = bs; depth = d.depth + 1 })
          >>= λ p. ok (map_at (length (d.heap ++ object [] ∷ [])), leave_value p.1))
  unfolding read_tagged read_number read_integer read_double read_blob read_compound between
      read_map add_map add_allocated alloc add_ref
  read_value-typed_map name bs good named fits types =
      let within : ltb l.max_refs (length d.refs + 1) ≡ false = ground arith in
      read_value_tagged l sprint r b'M' (type_bytes name ++ bs) d shallow
      ∙ rw
          (read_type-type_bytes l sprint (read_value l sprint r) (record d { depth = d.depth + 1 })
            name bs good fits types)
          (rw named (
            rw within (
              bind_assoc
                (read_entries l sprint (read_value l sprint r) (suc (length bs)) (length d.heap) 0
                  (record (with_typed_map d name) { unread = bs; depth = d.depth + 1 }))
                (λ p. ok (map_at (length (d.heap ++ object [] ∷ [])), p.1))
                (λ p. ok (p.0, leave_value p.1)))))
