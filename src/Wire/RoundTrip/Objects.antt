-- ===== src/Wire/RoundTrip/Objects.antt =====
-- readObjectInstance and readObjectDefinition at what writeObject writes.
use sofarpc_cli.Wire.Reader.{read_utf8_bytes}
use sofarpc_cli.Wire.RoundTrip.{read_utf8_bytes-concat, rune_count-concat}
use sofarpc_cli.Wire.RoundTrip.Lists.{check_length}
use sofarpc_cli.Prelude.{
  Option, All, Bytes, List, [], append_assoc, arith, false, get_elem?, length, length-append, ltb,
  refl, some, suc, ℕ, ◌++◌, ◌+◌, ◌<◌, ◌^◌, ◌∙◌, ◌∷◌, ◌≡◌, ◌≤◌, sym, ap, subst,
}
use sofarpc_cli.Prelude.Int.{pos}
use sofarpc_cli.Wire.RoundTrip.Back.{IsName}
use sofarpc_cli.Wire.RoundTrip.Follows.{read_value_tagged}
use sofarpc_cli.Wire.RoundTrip.Scalars.{int_bytes, read_value-int}
use sofarpc_cli.Wire.RoundTrip.Texts.{
  read_string_value-string, string_bytes, length-string_bytes, string_bytes-pos,
}
use sofarpc_cli.Wire.Decoder.Scalars.{between, read_double, read_integer}
use sofarpc_cli.Wire.Decoder.State.{
  ClassDef, Decoder, Limits, Node, Value, add_ref, alloc, entry_at, int64, leave_value, map_at,
  object, on_unread, add_class_def,
}
use sofarpc_cli.Wire.Decoder.Tables.{add_allocated, add_object, as_int, object_node}
use sofarpc_cli.Wire.Decoder.Values.{
  read_blob, read_compound, read_field_names, read_fields, read_int_value, read_number,
  read_object_instance, read_tagged, read_value, read_len_string, read_defined,
  read_object_definition,
}
use sofarpc_cli.Wire.Result.{bind_assoc, ok, ◌>>=◌, unknown_class}
use sofarpc_cli.Wire.Utf8.{rune_count}

unfoldable pub names_bytes : List Bytes → Bytes
names_bytes [] = []
names_bytes (name ∷ names) = string_bytes name ++ names_bytes names

unfoldable pub def_bytes : Bytes → List Bytes → Bytes
def_bytes name names =
    int_bytes (pos (rune_count name))
    ++ (name ++ (int_bytes (pos (length names)) ++ names_bytes names))

length-names_bytes : (names : List Bytes) → length names ≤ length (names_bytes names)
unfolding names_bytes
length-names_bytes [] = omega arith
length-names_bytes (name ∷ names) = omega (
  arith,
  string_bytes-pos name,
  length-names_bytes names,
  length-append (string_bytes name) (names_bytes names),
)

pub length-def_bytes :
    (name : Bytes) (names : List Bytes)
    → (length name ≤ length (def_bytes name names))
      × (length (names_bytes names) ≤ length (def_bytes name names))
      × (length names ≤ length (def_bytes name names))
unfolding def_bytes
length-def_bytes name names =
    let counted = int_bytes (pos (length names)) in
    omega (
      arith,
      length-append (int_bytes (pos (rune_count name))) (name ++ (counted ++ names_bytes names)),
      length-append name (counted ++ names_bytes names),
      length-append counted (names_bytes names),
      length-names_bytes names,
    )

-- the decoder behind the nodes of an object
abbrev pub with_object : Decoder → ClassDef → Decoder
with_object d def = record d {
  refs = d.refs ++ map_at (length (d.heap ++ object [] ∷ [])) ∷ [];
  heap = (d.heap ++ object [] ∷ []) ++ object_node def (length d.heap) ∷ [];
}

module _ (l : Limits) (sprint : List Node → Value → Option Bytes) (r : ℕ) where
  int_value :
      (d : Decoder) (n : ℕ) (bs : Bytes)
      → d.depth < l.max_depth
      → n < 2 ^ 31
      → read_int_value l sprint
          (read_value l sprint (suc r))
          (record d { unread = int_bytes (pos n) ++ bs })
        ≡ ok (pos n, record d { unread = bs })
  unfolding read_int_value as_int
  int_value d n bs shallow small =
      rw (read_value-int l sprint r d shallow (pos n) bs small (omega arith)) refl

  pub read_value-instance :
      (d : Decoder) (ref : ℕ) (def : ClassDef) (bs : Bytes)
      → d.depth + 1 < l.max_depth
      → ref < 2 ^ 31
      → length d.refs + 1 ≤ l.max_refs
      → get_elem? d.class_defs ref ≡ some def
      → read_value l sprint (suc (suc r)) (record d { unread = b'o' ∷ (int_bytes (pos ref) ++ bs) })
        ≡ (read_fields l sprint
              (read_value l sprint (suc r))
              def.field_names
              (length d.heap)
              (record (with_object d def) { unread = bs; depth = d.depth + 1 })
            >>= λ p. ok (map_at (length (d.heap ++ object [] ∷ [])), leave_value p.1))
  unfolding read_tagged read_number read_integer read_double read_blob read_compound between
      read_object_instance add_object add_allocated alloc add_ref entry_at
  read_value-instance d ref def bs shallow small refs found =
      let within : ltb l.max_refs (length d.refs + 1) ≡ false = ground arith in
      let entry : entry_at unknown_class d.class_defs (pos ref) ≡ ok def =
        rw (found, entry_at) refl in
      read_value_tagged l sprint (suc r) b'o' (int_bytes (pos ref) ++ bs) d (omega arith)
      ∙ rw (int_value (record d { depth = d.depth + 1 }) ref bs shallow small) (
          rw entry (
            rw within (
              bind_assoc
                (read_fields l sprint (read_value l sprint (suc r)) def.field_names (length d.heap)
                  (record (with_object d def) { unread = bs; depth = d.depth + 1 }))
                (λ p. ok (map_at (length (d.heap ++ object [] ∷ [])), p.1))
                (λ p. ok (p.0, leave_value p.1)))))

  read_field_names-names_bytes :
      (names : List Bytes) (d : Decoder) (rest : Bytes)
      → All IsName names
      → length (names_bytes names) ≤ l.max_scalar_bytes
      → read_field_names l sprint
          (read_value l sprint (suc r))
          (length names)
          (record d { unread = names_bytes names ++ rest })
        ≡ ok (names, record d { unread = rest })
  unfolding read_field_names names_bytes on_unread
  read_field_names-names_bytes [] d rest good fits = refl
  read_field_names-names_bytes (name ∷ names) d rest good fits =
      let split = append_assoc (string_bytes name) (names_bytes names) rest in
      let size = length-append (string_bytes name) (names_bytes names) in
      rw split (
        rw
          (read_string_value-string l (λ i. sprint [] (int64 i)) name (names_bytes names ++ rest)
            good.0.0 (omega (arith, length-string_bytes name, size)))
          (rw (read_field_names-names_bytes names d rest good.1 (omega (arith, size))) refl))

  def_bytes-append :
      (name rest : Bytes) (names : List Bytes)
      → def_bytes name names ++ rest
        ≡ int_bytes (pos (rune_count name))
          ++ (name ++ (int_bytes (pos (length names)) ++ (names_bytes names ++ rest)))
  unfolding def_bytes
  def_bytes-append name rest names =
      let counted = int_bytes (pos (length names)) in
      append_assoc (int_bytes (pos (rune_count name))) (name ++ (counted ++ names_bytes names)) rest
      ∙ ap (λ bs. int_bytes (pos (rune_count name)) ++ bs)
          (append_assoc name (counted ++ names_bytes names) rest
            ∙ ap (λ bs. name ++ bs) (append_assoc counted (names_bytes names) rest))

  read_object_definition-def_bytes :
      (d : Decoder) (name rest : Bytes) (names : List Bytes)
      → IsName name
      → All IsName names
      → d.depth < l.max_depth
      → length name ≤ l.max_scalar_bytes
      → length (names_bytes names) ≤ l.max_scalar_bytes
      → length names < 2 ^ 31
      → length names ≤ l.max_collection_items
      → length d.class_defs + 1 ≤ l.max_refs
      → read_object_definition l sprint
          (read_value l sprint (suc r))
          (record d { unread = def_bytes name names ++ rest })
        ≡ ok (
          tt,
          record d {
            unread = rest;
            class_defs = d.class_defs ++ record { type_name = name; field_names = names } ∷ [];
          },
        )
  unfolding read_object_definition read_len_string on_unread add_class_def
  read_object_definition-def_bytes d name rest names ((rs, runes, e, few), some_left, no_nul) goods
        shallow fits fits_names small within room =
      let counted = int_bytes (pos (length names)) in
      let count : rune_count name ≡ length rs =
        ap rune_count (sym e) ∙ rune_count-concat rs runes in
      let tail = counted ++ (names_bytes names ++ rest) in
      let name_back : read_utf8_bytes l.max_scalar_bytes (pos (rune_count name)) (name ++ tail)
          ≡ ok (name, tail) =
        rw count (
          subst
            (λ s. read_utf8_bytes l.max_scalar_bytes (pos (length rs)) (s ++ tail) ≡ ok (s, tail)) e
            (read_utf8_bytes-concat l.max_scalar_bytes rs tail runes (rw e fits))) in
      let one_more : ltb l.max_refs (length d.class_defs + 1) ≡ false = ground arith in
      rw (def_bytes-append name rest names) (
        rw (int_value d (rune_count name) (name ++ tail) shallow (omega (arith, count))) (
          rw name_back (
            rw (int_value d (length names) (names_bytes names ++ rest) shallow small) (
              rw (check_length l sprint (read_value l sprint (suc r)) (length names) within) (
                rw (read_field_names-names_bytes names d rest goods fits_names)
                  (rw one_more refl))))))

  pub read_value-defined :
      (d : Decoder) (name bs : Bytes) (names : List Bytes)
      → IsName name
      → All IsName names
      → d.depth + 1 < l.max_depth
      → length name ≤ l.max_scalar_bytes
      → length (names_bytes names) ≤ l.max_scalar_bytes
      → length names < 2 ^ 31
      → length names ≤ l.max_collection_items
      → length d.class_defs + 1 ≤ l.max_refs
      → read_value l sprint
          (suc (suc r))
          (record d { unread = b'O' ∷ (def_bytes name names ++ bs) })
        ≡ (read_value l sprint (suc r) (record d {
          unread = bs;
          depth = d.depth + 1;
          class_defs = d.class_defs ++ record { type_name = name; field_names = names } ∷ [];
        })
            >>= λ p. ok (p.0, leave_value p.1))
  unfolding read_tagged read_number read_integer read_double read_blob read_compound between
      read_defined
  read_value-defined d name bs names good goods shallow fits fits_names small within room =
      read_value_tagged l sprint (suc r) b'O' (def_bytes name names ++ bs) d (omega arith)
      ∙ rw
          (read_object_definition-def_bytes (record d { depth = d.depth + 1 }) name bs names good
            goods shallow fits fits_names small within room)
          refl
