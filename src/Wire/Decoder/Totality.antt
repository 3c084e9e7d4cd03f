-- ===== src/Wire/Decoder/Totality.antt =====
-- readValue ends on every input: the readers of maps and objects, and the switch on the tag.
use sofarpc_cli.Prelude.{
  Bool-cases, Bytes, List, Option, [], arith, false, inl, inr, leb, length, ltb, none, refl, some,
  suc, true, zero, ℕ, ◌+◌, ◌<◌, ◌==◌, ◌||◌, ◌∷◌, ◌≡◌, ◌≤◌,
}
use sofarpc_cli.Prelude.Int.{pos, pos_part, ℤ}
use sofarpc_cli.Wire.Decoder.Leaves.{
  MayShrink, read_double-MayShrink, read_int64-Shrinks, read_integer-MayShrink,
  read_string_value-Shrinks, read_string_with_tag-Shrinks,
}
use sofarpc_cli.Wire.Decoder.Lists.{
  end_cases, read_fixed_typed_list-Reads, read_int_value-Reads, read_len_string-Reads,
  read_list-Reads, read_type-Reads,
}
use sofarpc_cli.Wire.Decoder.Reads.{
  >>=-Reads, Ends->>=, Reads, after, fails, if-Reads, reads, return-Reads, weaken, weaken-Reads,
}
use sofarpc_cli.Wire.Decoder.Scalars.{between, read_double, read_integer}
use sofarpc_cli.Wire.Decoder.State.{
  Decoder, Float64, Limits, Node, Reader, Value, bool, enter_value, float64, int64, leave_value,
  null, on_unread, raw_bytes, skip, text,
}
use sofarpc_cli.Wire.Decoder.Steps.{
  add_class_def-Reads, add_map-Reads, add_object-Reads, check-Ends, entry_at-Ends, leaves_after,
  on_unread-Reads, put_entry-Advances, read_byte-Reads, read_byte_ref-Reads, read_long_ref-Reads,
  read_short_ref-Reads, scalar-Reads, skip-Advances, printed-Ends,
}
use sofarpc_cli.Wire.Decoder.Tables.{scalar}
use sofarpc_cli.Wire.Decoder.Values.{
  read_blob, read_compound, read_defined, read_entries, read_field_names, read_fields, read_map,
  read_number, read_object_definition, read_object_instance, read_tagged, read_value,
}
use sofarpc_cli.Wire.Reader.{read_byte, read_int64}
use sofarpc_cli.Wire.Result.{
  WireResult, bad_tag, ok, too_deep, unknown_class, unterminated_map, ◌>>=◌,
}
use sofarpc_cli.Wire.Totality.{read_bytes_with_tag-Shrinks}

-- `recur` is readValue one level down, at the depth n.
module _ (l : Limits) (sprint : List Node → Value → Option Bytes) (recur : Reader Value) (n : ℕ)
    (recur_reads : (d : Decoder) → d.depth ≡ n → Reads l 1 d (recur d)) where
  read_entries-Reads :
      (fuel a count : ℕ) (d : Decoder)
      → d.depth ≡ n
      → length d.unread < fuel
      → Reads l 0 d (read_entries l sprint recur fuel a count d)
  unfolding read_entries
  read_entries-Reads zero a count d h enough = absurd (omega arith)
  read_entries-Reads (suc fuel) a count d h enough = elim (end_cases d.unread) [
    | inl e ↦ rw (e, read_entries) (fails unterminated_map)
    | inr (inl (e, more)) ↦ rw (e, read_entries) (reads tt (skip d) (weaken (skip-Advances d more)))
    | inr (inr e) ↦
        rw (e, read_entries)
          (weaken-Reads (
            >>=-Reads _ h (recur_reads d h) λ key f k s.
              >>=-Reads _ k (recur_reads f k) λ v g k' s'.
                Ends->>= _ (printed-Ends (sprint g.heap key)) λ name.
                  Ends->>= _ (check-Ends l (pos (count + 1))) λ u.
                    after (put_entry-Advances a name v g)
                      (read_entries-Reads fuel a (count + 1) _ k' (omega arith))))
  ]

  read_map-Reads : (d : Decoder) → d.depth ≡ n → Reads l 0 d (read_map l sprint recur d)
  unfolding read_map
  read_map-Reads d h =
      >>=-Reads _ h (read_type-Reads l sprint recur n recur_reads d h) λ name e k s.
        >>=-Reads _ k (add_map-Reads name e) λ out f k' s'.
          >>=-Reads _ k'
            (read_entries-Reads (suc (length f.unread)) (length e.heap) 0 f k' (omega arith))
            λ u g k'' s''. return-Reads out

  read_field_names-Reads :
      (m : ℕ) (d : Decoder) → d.depth ≡ n → Reads l 0 d (read_field_names l sprint recur m d)
  unfolding read_field_names
  read_field_names-Reads zero d h = return-Reads []
  read_field_names-Reads (suc m) d h =
      >>=-Reads _ h (on_unread-Reads d _ (read_string_value-Shrinks l _ d.unread)) λ name e k s.
        >>=-Reads _ k (read_field_names-Reads m e k) λ names f k' s'. return-Reads (name ∷ names)

  read_object_definition-Reads :
      (d : Decoder) → d.depth ≡ n → Reads l 0 d (read_object_definition l sprint recur d)
  unfolding read_object_definition
  read_object_definition-Reads d h = weaken-Reads (
      >>=-Reads _ h (read_len_string-Reads l sprint recur n recur_reads d h) λ name e k s.
        >>=-Reads _ k (read_int_value-Reads l sprint recur n recur_reads e k) λ m f k' s'.
          Ends->>= _ (check-Ends l m) λ u.
            >>=-Reads _ k' (read_field_names-Reads (pos_part m) f k')
              λ names g k'' s''. add_class_def-Reads _ g)

  read_fields-Reads :
      (names : List Bytes) (a : ℕ) (d : Decoder)
      → d.depth ≡ n
      → Reads l 0 d (read_fields l sprint recur names a d)
  unfolding read_fields
  read_fields-Reads [] a d h = return-Reads tt
  read_fields-Reads (name ∷ names) a d h = weaken-Reads (
      >>=-Reads _ h (recur_reads d h)
        λ v e k s. after (put_entry-Advances a name v e) (read_fields-Reads names a _ k))

  read_object_instance-Reads :
      (d : Decoder) → d.depth ≡ n → Reads l 0 d (read_object_instance l sprint recur d)
  unfolding read_object_instance
  read_object_instance-Reads d h = weaken-Reads (
      >>=-Reads _ h (read_int_value-Reads l sprint recur n recur_reads d h) λ i e k s.
        Ends->>= _ (entry_at-Ends unknown_class e.class_defs i) λ def.
          >>=-Reads _ k (add_object-Reads def e) λ out f k' s'.
            >>=-Reads _ k' (read_fields-Reads def.field_names (length e.heap) f k')
              λ u g k'' s''. return-Reads out)

  read_defined-Reads : (d : Decoder) → d.depth ≡ n → Reads l 0 d (read_defined l sprint recur d)
  unfolding read_defined
  read_defined-Reads d h =
      weaken-Reads (>>=-Reads _ h (read_object_definition-Reads d h) λ u e k s. recur_reads e k)

  read_compound-Reads :
      (tag : ℕ) (d : Decoder) → d.depth ≡ n → Reads l 0 d (read_compound l sprint recur tag d)
  unfolding read_compound
  read_compound-Reads tag d h =
      if-Reads (tag == b'V') (read_list-Reads l sprint recur n recur_reads d h) (
        if-Reads (tag == b'v') (read_fixed_typed_list-Reads l sprint recur n recur_reads d h) (
          if-Reads (tag == b'M') (read_map-Reads d h) (
            if-Reads (tag == b'O') (read_defined-Reads d h) (
              if-Reads (tag == b'o') (read_object_instance-Reads d h) (
                if-Reads (tag == b'R') (read_long_ref-Reads d) (
                  if-Reads (tag == 0x4a) (read_byte_ref-Reads d)
                    (if-Reads (tag == 0x4b) (read_short_ref-Reads d) (fails bad_tag))))))))

  read_blob-Reads :
      (tag : ℕ) (d : Decoder) → d.depth ≡ n → Reads l 0 d (read_blob l sprint recur tag d)
  unfolding read_blob
  read_blob-Reads tag d h =
      if-Reads (tag == b'd') (scalar-Reads int64 read_int64 d (read_int64-Shrinks d.unread)) (
        if-Reads (tag == b'S' || tag == b's' || leb tag 0x1f)
          (scalar-Reads text _ d (read_string_with_tag-Shrinks l _ tag d.unread))
          (if-Reads (tag == b'B' || tag == b'b' || between 0x20 0x2f tag)
            (scalar-Reads raw_bytes _ d
              (read_bytes_with_tag-Shrinks l.max_scalar_bytes tag d.unread))
            (read_compound-Reads tag d h)))

  double_or_blob :
      (tag : ℕ) (d : Decoder) (o : Option (WireResult (Float64 × Bytes)))
      → d.depth ≡ n
      → MayShrink (length d.unread) o
      → Reads l 0 d
          (elim o [ some r ↦ scalar float64 (λ bs. r) d | none ↦ read_blob l sprint recur tag d ])
  double_or_blob tag d none h s = read_blob-Reads tag d h
  double_or_blob tag d (some r) h s = scalar-Reads float64 (λ bs. r) d s

  number_or_blob :
      (tag : ℕ) (d : Decoder) (o : Option (WireResult (ℤ × Bytes)))
      → d.depth ≡ n
      → MayShrink (length d.unread) o
      → Reads l 0 d (elim o [
        | some r ↦ scalar int64 (λ bs. r) d
        | none ↦ elim (read_double tag d.unread) [
          | some r ↦ scalar float64 (λ bs. r) d
          | none ↦ read_blob l sprint recur tag d
        ]
      ])
  number_or_blob tag d none h s =
      double_or_blob tag d (read_double tag d.unread) h (read_double-MayShrink tag d.unread)
  number_or_blob tag d (some r) h s = scalar-Reads int64 (λ bs. r) d s

  read_tagged-Reads :
      (tag : ℕ) (d : Decoder) → d.depth ≡ n → Reads l 0 d (read_tagged l sprint recur tag d)
  unfolding read_tagged read_number
  read_tagged-Reads tag d h = if-Reads (tag == b'N') (return-Reads null) (
      if-Reads (tag == b'T') (return-Reads (bool true)) (
        if-Reads (tag == b'F') (return-Reads (bool false)) (
          number_or_blob tag d (read_integer tag d.unread) h
            (read_integer-MayShrink tag d.unread))))

-- one level of readValue around a reader of what stands one level deeper
one_level :
    (l : Limits) (sprint : List Node → Value → Option Bytes) (recur : Reader Value) (d : Decoder)
    → ((e : Decoder) → e.depth ≡ d.depth + 1 → d.depth + 1 ≤ l.max_depth → Reads l 1 e (recur e))
    → Reads l 1 d (
        enter_value l d >>= λ p. on_unread read_byte p.1 >>= λ q.
        read_tagged l sprint recur q.0 q.1 >>= λ r. ok (r.0, leave_value r.1))
unfolding enter_value
one_level l sprint recur d next_level = elim (Bool-cases (ltb l.max_depth (d.depth + 1))) [
  | inl deep ↦ rw deep (fails too_deep)
  | inr within ↦
      let inner = record d { depth = d.depth + 1 } in
      rw within (
        leaves_after d (on_unread read_byte inner) _ (
          >>=-Reads {n = d.depth + 1} _ refl (read_byte-Reads inner) λ tag e k s.
            read_tagged-Reads l sprint recur (d.depth + 1) (λ f h. next_level f h (ground arith))
              tag e k))
]

-- The limit of the depth bounds how many calls are open, so the fuel is enough.
pub read_value-Reads :
    (l : Limits) (sprint : List Node → Value → Option Bytes) (fuel : ℕ) (d : Decoder)
    → d.depth ≤ l.max_depth
    → l.max_depth < d.depth + fuel
    → Reads l 1 d (read_value l sprint fuel d)
unfolding read_value
read_value-Reads l sprint zero d h enough = absurd (omega arith)
read_value-Reads l sprint (suc fuel) d h enough =
    one_level l sprint (read_value l sprint fuel) d
      λ e k within. read_value-Reads l sprint fuel e (omega arith) (omega arith)
