-- ===== src/Wire/Decoder/Lists.antt =====
-- The readers of types, lengths and lists end.
use sofarpc_cli.Prelude.{
  Option, Bool-cases, Bytes, List, Option-cases, [], arith, false, inl, inr, length, none, refl,
  some, suc, true, zero, ℕ, ◌++◌, ◌+◌, ◌<◌, ◌==◌, ◌||◌, ◌∷◌, ◌≡◌, ◌⊎◌,
}
use sofarpc_cli.Prelude.Int.{ltb_ℤ, negsuc, pos, pos_part, ℤ}
use sofarpc_cli.Wire.Decoder.Leaves.{read_int32-Shrinks}
use sofarpc_cli.Wire.Decoder.Reads.{
  >>=-Reads, Advances, Ends->>=, Reads, after, fails, if-Reads, reads, return-Reads, unchanged,
  weaken, weaken-Reads,
}
use sofarpc_cli.Wire.Decoder.State.{
  Decoder, Limits, Node, Reader, Value, bool, float64, int64, map_at, null, raw_bytes, skip,
  slice_at, text, texts,
}
use sofarpc_cli.Wire.Decoder.Steps.{
  add_list-Reads, add_type-Reads, add_typed_list-Reads, check-Ends, entry_at-Ends, on_unread-Reads,
  read_byte-Reads, skip-Advances,
}
use sofarpc_cli.Wire.Decoder.Tables.{as_int, at_end, skip_end}
use sofarpc_cli.Wire.Decoder.Values.{
  length_of_tag, list_items, list_of_length, read_fixed_typed_list, read_int_value, read_items,
  read_len_string, read_length, read_list, read_named_type, read_type, read_type_ref,
  read_until_end, type_of_tag,
}
use sofarpc_cli.Wire.Reader.{peek_byte, read_int32, read_size}
use sofarpc_cli.Wire.Result.{WireResult, not_int, unknown_type, unterminated_list}
use sofarpc_cli.Wire.Totality.{read_size-Shrinks, read_utf8_bytes-Shrinks}

-- what a test at the end mark says of the bytes that are left
pub end_cases :
    (bs : Bytes)
    → (at_end bs ≡ none) ⊎ (((at_end bs ≡ some true) × (0 < length bs)) ⊎ (at_end bs ≡ some false))
unfolding at_end
end_cases [] = inl refl
end_cases (b ∷ bs) = elim (Bool-cases (b == b'z')) [
  | inl e ↦ inr (inl (rw e, omega arith))
  | inr e ↦ inr (inr (rw e))
]

peek_byte-some : (bs : Bytes) (b : ℕ) → peek_byte bs ≡ some b → 0 < length bs
unfolding peek_byte
peek_byte-some [] b h = cc
peek_byte-some (x ∷ bs) b h = omega arith

-- `recur` is readValue one level down, at the depth n.
module _ (l : Limits) (sprint : List Node → Value → Option Bytes) (recur : Reader Value) (n : ℕ)
    (recur_reads : (d : Decoder) → d.depth ≡ n → Reads l 1 d (recur d)) where
  -- a byte that was peeked at is skipped, and what follows reads on
  skipped {ℓ} :
      {A : Type ℓ} {k : ℕ} {r : WireResult (A × Decoder)} (d : Decoder)
      → 0 < length d.unread
      → Reads l k (skip d) r
      → Reads l 0 d r
  skipped d more h = weaken-Reads (after (skip-Advances d more) h)

  skip_depth : (d : Decoder) → d.depth ≡ n → (skip d).depth ≡ n
  unfolding skip
  skip_depth d h = h

  as_int-Reads : (v : Value) (d : Decoder) → Reads l 0 d (as_int (v, d))
  unfolding as_int
  as_int-Reads (int64 i) d = return-Reads i
  as_int-Reads null d = fails not_int
  as_int-Reads (bool b) d = fails not_int
  as_int-Reads (float64 x) d = fails not_int
  as_int-Reads (text t) d = fails not_int
  as_int-Reads (raw_bytes t) d = fails not_int
  as_int-Reads (texts t) d = fails not_int
  as_int-Reads (slice_at a) d = fails not_int
  as_int-Reads (map_at a) d = fails not_int

  pub read_int_value-Reads :
      (d : Decoder) → d.depth ≡ n → Reads l 1 d (read_int_value l sprint recur d)
  unfolding read_int_value
  read_int_value-Reads d h = >>=-Reads _ h (recur_reads d h) λ v e k s. as_int-Reads v e

  pub read_len_string-Reads :
      (d : Decoder) → d.depth ≡ n → Reads l 1 d (read_len_string l sprint recur d)
  unfolding read_len_string
  read_len_string-Reads d h =
      >>=-Reads _ h (read_int_value-Reads d h)
        λ i e k s. on_unread-Reads e _ (read_utf8_bytes-Shrinks l.max_scalar_bytes i e.unread)

  read_named_type-Reads :
      (d : Decoder)
      → d.depth ≡ n
      → 0 < length d.unread
      → Reads l 0 d (read_named_type l sprint recur d)
  unfolding read_named_type
  read_named_type-Reads d h more = skipped d more (
      >>=-Reads _ (skip_depth d h)
        (on_unread-Reads (skip d) read_size (read_size-Shrinks (skip d).unread))
        λ i e k t.
          >>=-Reads _ k
            (on_unread-Reads e _ (read_utf8_bytes-Shrinks l.max_scalar_bytes (pos i) e.unread))
            λ name f k' t'. >>=-Reads _ k' (add_type-Reads name f) λ u g k'' t''. return-Reads name)

  read_type_ref-Reads :
      (d : Decoder)
      → d.depth ≡ n
      → 0 < length d.unread
      → Reads l 0 d (read_type_ref l sprint recur d)
  unfolding read_type_ref
  read_type_ref-Reads d h more = skipped d more (
      >>=-Reads _ (skip_depth d h) (read_int_value-Reads (skip d) (skip_depth d h))
        λ i e k t. Ends->>= _ (entry_at-Ends unknown_type e.types i) λ name. return-Reads name)

  type_of_tag-Reads :
      (tag : ℕ) (d : Decoder)
      → d.depth ≡ n
      → 0 < length d.unread
      → Reads l 0 d (type_of_tag l sprint recur tag d)
  unfolding type_of_tag
  type_of_tag-Reads tag d h more =
      if-Reads (tag == b't') (read_named_type-Reads d h more)
        (if-Reads (tag == b'T' || tag == 0x75) (read_type_ref-Reads d h more) (return-Reads []))

  pub read_type-Reads : (d : Decoder) → d.depth ≡ n → Reads l 0 d (read_type l sprint recur d)
  unfolding read_type
  read_type-Reads d h = elim (Option-cases (peek_byte d.unread)) [
    | inl e ↦ rw (e, read_type) (return-Reads [])
    | inr (tag, e) ↦ rw (e, read_type) (type_of_tag-Reads tag d h (peek_byte-some d.unread tag e))
  ]

  length_of_tag-Reads :
      (tag : ℕ) (d : Decoder)
      → d.depth ≡ n
      → 0 < length d.unread
      → Reads l 0 d (length_of_tag l sprint recur tag d)
  unfolding length_of_tag
  length_of_tag-Reads tag d h more =
      if-Reads (tag == 0x6e)
        (skipped d more
          (>>=-Reads _ (skip_depth d h) (read_byte-Reads (skip d)) λ b e k s. return-Reads (pos b)))
        (if-Reads (tag == b'l')
          (skipped d more
            (on_unread-Reads (skip d) read_int32 (read_int32-Shrinks (skip d).unread)))
          (return-Reads (negsuc 0)))

  read_length-Reads : (d : Decoder) → d.depth ≡ n → Reads l 0 d (read_length l sprint recur d)
  unfolding read_length
  read_length-Reads d h = elim (Option-cases (peek_byte d.unread)) [
    | inl e ↦ rw (e, read_length) (return-Reads (negsuc 0))
    | inr (tag, e) ↦
        rw (e, read_length) (length_of_tag-Reads tag d h (peek_byte-some d.unread tag e))
  ]

  read_items-Reads :
      (m : ℕ) (items : List Value) (d : Decoder)
      → d.depth ≡ n
      → Reads l 0 d (read_items l sprint recur m items d)
  unfolding read_items
  read_items-Reads zero items d h = return-Reads items
  read_items-Reads (suc m) items d h =
      weaken-Reads
        (>>=-Reads _ h (recur_reads d h) λ v e k s. read_items-Reads m (items ++ v ∷ []) e k)

  read_until_end-Reads :
      (fuel : ℕ) (items : List Value) (d : Decoder)
      → d.depth ≡ n
      → length d.unread < fuel
      → Reads l 0 d (read_until_end l sprint recur fuel items d)
  unfolding read_until_end
  read_until_end-Reads zero items d h enough = absurd (omega arith)
  read_until_end-Reads (suc fuel) items d h enough = elim (end_cases d.unread) [
    | inl e ↦ rw (e, read_until_end) (fails unterminated_list)
    | inr (inl (e, more)) ↦
        rw (e, read_until_end) (reads items (skip d) (weaken (skip-Advances d more)))
    | inr (inr e) ↦
        rw (e, read_until_end)
          (weaken-Reads (
            >>=-Reads _ h (recur_reads d h) λ v f k s.
              Ends->>= _ (check-Ends l (pos (length items + 1)))
                λ u. read_until_end-Reads fuel (items ++ v ∷ []) f k (omega arith)))
  ]

  skip_end-Advances : (d : Decoder) → Advances l 0 d (skip_end d)
  unfolding skip_end
  skip_end-Advances d = elim (end_cases d.unread) [
    | inl e ↦ rw (e, skip_end) (unchanged d)
    | inr (inl (e, more)) ↦ rw (e, skip_end) (weaken (skip-Advances d more))
    | inr (inr e) ↦ rw (e, skip_end) (unchanged d)
  ]

  list_of_length-Reads :
      (i : ℤ) (d : Decoder) → d.depth ≡ n → Reads l 0 d (list_of_length l sprint recur i d)
  unfolding list_of_length
  list_of_length-Reads i d h = Ends->>= _ (check-Ends l i) λ u.
      >>=-Reads _ h (read_items-Reads (pos_part i) [] d h)
        λ items e k s. reads items (skip_end e) (skip_end-Advances e)

  list_items-Reads :
      (i : ℤ) (d : Decoder) → d.depth ≡ n → Reads l 0 d (list_items l sprint recur i d)
  unfolding list_items
  list_items-Reads i d h =
      if-Reads (ltb_ℤ i (pos 0)) (read_until_end-Reads (suc (length d.unread)) [] d h (omega arith))
        (list_of_length-Reads i d h)

  pub read_list-Reads : (d : Decoder) → d.depth ≡ n → Reads l 0 d (read_list l sprint recur d)
  unfolding read_list
  read_list-Reads d h = >>=-Reads _ h (read_type-Reads d h) λ name e k s.
      >>=-Reads _ k (read_length-Reads e k) λ i f k' s'.
        >>=-Reads _ k' (list_items-Reads i f k') λ items g k'' s''. add_list-Reads name items g

  pub read_fixed_typed_list-Reads :
      (d : Decoder) → d.depth ≡ n → Reads l 0 d (read_fixed_typed_list l sprint recur d)
  unfolding read_fixed_typed_list
  read_fixed_typed_list-Reads d h = weaken-Reads (
      >>=-Reads _ h (read_int_value-Reads d h) λ i e k s.
        Ends->>= _ (entry_at-Ends unknown_type e.types i) λ name.
          >>=-Reads _ k (read_int_value-Reads e k) λ m f k' s'. Ends->>= _ (check-Ends l m) λ u.
            >>=-Reads _ k' (read_items-Reads (pos_part m) [] f k')
              λ items g k'' s''. add_typed_list-Reads name items g)
