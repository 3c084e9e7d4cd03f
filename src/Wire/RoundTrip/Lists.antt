-- ===== src/Wire/RoundTrip/Lists.antt =====
-- readList against writeTypedList: the type, the length, and the map around the items.
use sofarpc_cli.Prelude.{
  Option, Bool-cases, Bytes, List, [], ap, append_assoc, arith, false, if◌then◌else◌, inl, inr, leb,
  length, ltb, refl, subst, sym, ℕ, ◌%◌, ◌*◌, ◌++◌, ◌+◌, ◌/◌, ◌<◌, ◌^◌, ◌∙◌, ◌∷◌, ◌≡◌, ◌≤◌,
  is_empty, codes, suc,
}
use sofarpc_cli.Prelude.BigEndian.{be16, be32, byte_at, u32_at}
use sofarpc_cli.Prelude.Int.{pos, ltb_ℤ}
use sofarpc_cli.Wire.RoundTrip.Texts.{IsText}
use sofarpc_cli.Wire.RoundTrip.{read_utf8_bytes-concat, rune_count-concat}
use sofarpc_cli.Wire.RoundTrip.Follows.{read_value_by_tag}
use sofarpc_cli.Wire.Decoder.State.{
  Decoder, Limits, Node, Reader, Value, add_ref, add_type, alloc, array, check_collection_length,
  leave_value, map_at, object, on_unread, skip, slice_at,
}
use sofarpc_cli.Wire.Decoder.Tables.{
  add_allocated, add_list, add_typed_list, at_end, skip_end, typed,
}
use sofarpc_cli.Wire.Decoder.Values.{
  length_of_tag, list_items, list_of_length, read_items, read_length, read_list, read_named_type,
  read_type, read_value, type_of_tag, read_tagged, read_number, read_blob, read_compound,
}
use sofarpc_cli.Wire.Decoder.Scalars.{read_integer, read_double, between}
use sofarpc_cli.Wire.Reader.{peek_byte, read_byte, read_int32, read_size, read_utf8_bytes}
use sofarpc_cli.Wire.Result.{ok}
use sofarpc_cli.Wire.Utf8.{rune_count}
use sofarpc_cli.Wire.Writer.{write_length, write_type}

unfoldable pub type_bytes : Bytes → Bytes
type_bytes name = b't' ∷ (be16 (rune_count name % 2 ^ 16) ++ name)

pub length_bytes : ℕ → Bytes
length_bytes n = if leb n 0xff then 0x6e ∷ n ∷ [] else b'l' ∷ be32 (n % 2 ^ 32)

pub write_type_lem : (name buf : Bytes) → write_type name buf ≡ buf ++ type_bytes name
unfolding write_type type_bytes
write_type_lem name buf =
    append_assoc (buf ++ (b't' ∷ [])) (be16 (rune_count name % 2 ^ 16)) name
    ∙ append_assoc buf (b't' ∷ []) (be16 (rune_count name % 2 ^ 16) ++ name)

pub write_length_lem : (n : ℕ) (buf : Bytes) → write_length n buf ≡ buf ++ length_bytes n
unfolding write_length length_bytes
write_length_lem n buf = elim (Bool-cases (leb n 0xff)) [
  | inl short ↦ rw short refl
  | inr long ↦ rw long (append_assoc buf (b'l' ∷ []) (be32 (n % 2 ^ 32)))
]

module _ (l : Limits) (sprint : List Node → Value → Option Bytes) (read : Reader Value) where
  pub read_type-type_bytes :
      (d : Decoder) (name rest : Bytes)
      → IsText name
      → length name ≤ l.max_scalar_bytes
      → length d.types + 1 ≤ l.max_refs
      → read_type l sprint read (record d { unread = type_bytes name ++ rest })
        ≡ ok (name, record d { unread = rest; types = d.types ++ name ∷ [] })
  unfolding read_type peek_byte type_of_tag read_named_type type_bytes skip on_unread read_size
      read_byte add_type
  read_type-type_bytes d name rest (rs, runes, e, few) fits room =
      let count : rune_count name ≡ length rs =
        ap rune_count (sym e) ∙ rune_count-concat rs runes in
      let size : rune_count name % 2 ^ 16 / 256 % 256 * 256 + rune_count name % 2 ^ 16 % 256
          ≡ length rs =
        omega arith in
      let name_back : read_utf8_bytes l.max_scalar_bytes (pos (length rs)) (name ++ rest)
          ≡ ok (name, rest) =
        subst (λ s. read_utf8_bytes l.max_scalar_bytes (pos (length rs)) (s ++ rest) ≡ ok (s, rest))
          e (read_utf8_bytes-concat l.max_scalar_bytes rs rest runes (rw e fits)) in
      let within : ltb l.max_refs (length d.types + 1) ≡ false = ground arith in
      rw size (rw name_back (rw within refl))

  pub read_length-length_bytes :
      (d : Decoder) (n : ℕ) (rest : Bytes)
      → n < 2 ^ 31
      → read_length l sprint read (record d { unread = length_bytes n ++ rest })
        ≡ ok (pos n, record d { unread = rest })
  unfolding read_length peek_byte length_of_tag length_bytes skip on_unread read_byte read_int32
      u32_at byte_at
  read_length-length_bytes d n rest h = elim (Bool-cases (leb n 0xff)) [
    | inl short ↦ rw short refl
    | inr long ↦ rw long (ground arith)
  ]

  pub check_length :
      (n : ℕ) → n ≤ l.max_collection_items → check_collection_length l (pos n) ≡ ok tt
  unfolding check_collection_length
  check_length n h = ground arith

  -- readList around its items
  read_list-items :
      (d d' : Decoder) (name bs : Bytes) (n : ℕ) (items : List Value)
      → IsText name
      → length name ≤ l.max_scalar_bytes
      → length d.types + 1 ≤ l.max_refs
      → n < 2 ^ 31
      → n ≤ l.max_collection_items
      → read_items l sprint read n [] (record d { unread = bs; types = d.types ++ name ∷ [] })
        ≡ ok (items, d')
      → read_list l sprint read (record d { unread = type_bytes name ++ (length_bytes n ++ bs) })
        ≡ add_list l name items (skip_end d')
  unfolding read_list list_items list_of_length
  read_list-items d d' name bs n items good fits room small few found =
      let not_negative : ltb_ℤ (pos n) (pos 0) ≡ false = ground arith in
      rw (read_type-type_bytes d name (length_bytes n ++ bs) good fits room) (
        rw (read_length-length_bytes (record d { types = d.types ++ name ∷ [] }) n bs small)
          (rw (not_negative, list_items, list_of_length) (rw (check_length n few) (rw found refl))))

-- the decoder behind a list with a type
abbrev pub with_list : Decoder → Bytes → List Value → Decoder
with_list d name xs = record d {
  refs = d.refs ++ map_at (length (d.heap ++ array xs ∷ [])) ∷ [];
  heap =
      (d.heap ++ array xs ∷ [])
      ++ object (typed name (codes "items") (slice_at (length d.heap))) ∷ [];
}

module _ (l : Limits) (sprint : List Node → Value → Option Bytes) (r : ℕ) where
  pub read_value-list :
      (d d' : Decoder) (name body rest : Bytes) (n : ℕ) (xs : List Value)
      → d.depth < l.max_depth
      → IsText name
      → is_empty name ≡ false
      → length name ≤ l.max_scalar_bytes
      → length d.types + 1 ≤ l.max_refs
      → n < 2 ^ 31
      → n ≤ l.max_collection_items
      → length d'.refs + 1 ≤ l.max_refs
      → read_items l sprint
          (read_value l sprint r)
          n
          []
          (record d { unread = body; types = d.types ++ name ∷ []; depth = d.depth + 1 })
        ≡ ok (xs, record d' { unread = b'z' ∷ rest })
      → read_value l sprint
          (suc r)
          (record d { unread = b'V' ∷ (type_bytes name ++ (length_bytes n ++ body)) })
        ≡ ok (
          map_at (length (d'.heap ++ array xs ∷ [])),
          leave_value (record (with_list d' name xs) { unread = rest }),
        )
  unfolding read_tagged read_number read_integer read_double read_blob read_compound between
      skip_end at_end skip add_list add_typed_list add_allocated alloc add_ref
  read_value-list d d' name body rest n xs shallow good named fits room small few refs found =
      let within : ltb l.max_refs (length d'.refs + 1) ≡ false = ground arith in
      read_value_by_tag l sprint r b'V' (type_bytes name ++ (length_bytes n ++ body)) d
        (record (with_list d' name xs) { unread = rest })
        (map_at (length (d'.heap ++ array xs ∷ []))) shallow
        (read_list-items l sprint (read_value l sprint r) (record d { depth = d.depth + 1 })
            (record d' { unread = b'z' ∷ rest }) name body n xs good fits room small few found
          ∙ rw named (rw within refl))
