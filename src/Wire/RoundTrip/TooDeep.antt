-- ===== src/Wire/RoundTrip/TooDeep.antt =====
-- Lists inside one another, deeper than readValue goes.
use sofarpc_cli.Prelude.{
  All, Bool-cases, Bytes, List, Option, [], ap, arith, false, inl, inr, length, length-append, ltb,
  refl, suc, true, zero, ℕ, ◌++◌, ◌+◌, ◌<◌, ◌^◌, ◌∙◌, ◌∷◌, ◌≡◌, ◌≤◌, sym, subst,
}
use sofarpc_cli.Prelude.Int.{ltb_ℤ, pos}
use sofarpc_cli.Wire.Decoder.Scalars.{between, read_double, read_integer}
use sofarpc_cli.Wire.Decoder.State.{
  Decoder, Limits, Node, RawLimits, Reader, Value, ensure_limits, enter_value, new_decoder,
  on_unread, leave_value,
}
use sofarpc_cli.Wire.Decoder.Tables.{at_end}
use sofarpc_cli.Wire.Decoder.Values.{
  decode, length_of_tag, list_items, list_of_length, read_blob, read_compound, read_items,
  read_length, read_list, read_number, read_tagged, read_type, read_until_end, read_value,
  type_of_tag,
}
use sofarpc_cli.Wire.Reader.{peek_byte, read_byte}
use sofarpc_cli.Wire.Result.{WireError, err, ok, too_deep, ◌>>=◌}
use sofarpc_cli.Wire.RoundTrip.Follows.{read_value_tagged}
use sofarpc_cli.Wire.RoundTrip.ListRead.{list_head, list_head-append}
use sofarpc_cli.Wire.RoundTrip.Lists.{
  check_length, length_bytes, read_length-length_bytes, read_type-type_bytes, type_bytes,
}
use sofarpc_cli.Wire.RoundTrip.Texts.{IsText}

-- What a list begins with: a bare tag, or as writeTypedList writes it, a type and the number of the
-- items behind the first.
pub data ListHead : Type 0 where
  bare_head : ListHead
  typed_head : Bytes → ℕ → ListHead

unfoldable pub head_bytes : ListHead → Bytes
head_bytes bare_head = b'V' ∷ []
head_bytes (typed_head name n) = list_head name (suc n)

-- lists, each the first item of the one before
unfoldable pub nested : List ListHead → Bytes → Bytes
unfolding head_bytes
nested [] bs = bs
nested (head ∷ heads) bs = head_bytes head ++ nested heads bs

-- a type in well-formed UTF-8, a number of items within the limits, and a table that has room for as
-- many types as there are levels
abbrev pub Fits : Limits → ListHead → Type 0
Fits l bare_head = Unit {0}
Fits l (typed_head name n) =
    IsText name
    × (length name ≤ l.max_scalar_bytes)
    × (suc n < 2 ^ 31)
    × (suc n ≤ l.max_collection_items)
    × (l.max_depth ≤ l.max_refs)

nested-begins :
    (head : ListHead) (heads : List ListHead) (bs : Bytes)
    → (rest : Bytes) × (nested (head ∷ heads) bs ≡ b'V' ∷ rest)
unfolding nested head_bytes list_head
nested-begins bare_head heads bs = (nested heads bs, refl)
nested-begins (typed_head name n) heads bs =
    ((type_bytes name ++ length_bytes (suc n)) ++ nested heads bs, refl)

-- a list that begins with a list fails as the inner one does
bare_list_fails :
    (l : Limits) (sprint : List Node → Value → Option Bytes) (fuel : ℕ) (d : Decoder) (bs : Bytes)
    (e : WireError)
    → d.depth < l.max_depth
    → read_value l sprint fuel (record d { unread = b'V' ∷ bs; depth = d.depth + 1 }) ≡ err e
    → read_value l sprint (suc fuel) (record d { unread = b'V' ∷ b'V' ∷ bs }) ≡ err e
unfolding read_value enter_value read_tagged read_number read_integer between read_double read_blob
    read_compound read_list read_type peek_byte type_of_tag read_length length_of_tag list_items
    read_until_end at_end on_unread read_byte
bare_list_fails l sprint fuel d bs e h inner =
    let within : ltb l.max_depth (d.depth + 1) ≡ false = ground arith in rw within (rw inner refl)

module _ (l : Limits) (sprint : List Node → Value → Option Bytes) (read : Reader Value) where
  read_list_fails :
      (d : Decoder) (name bs : Bytes) (n : ℕ) (e : WireError)
      → IsText name
      → length name ≤ l.max_scalar_bytes
      → length d.types + 1 ≤ l.max_refs
      → suc n < 2 ^ 31
      → suc n ≤ l.max_collection_items
      → read (record d { unread = bs; types = d.types ++ name ∷ [] }) ≡ err e
      → read_list l sprint read
          (record d { unread = type_bytes name ++ (length_bytes (suc n) ++ bs) })
        ≡ err e
  unfolding read_list list_items list_of_length read_items
  read_list_fails d name bs n e good fits room small few inner =
      let not_negative : ltb_ℤ (pos (suc n)) (pos 0) ≡ false = ground arith in
      rw (read_type-type_bytes l sprint read d name (length_bytes (suc n) ++ bs) good fits room) (
        rw
          (read_length-length_bytes l sprint read (record d { types = d.types ++ name ∷ [] })
            (suc n) bs small)
          (rw (not_negative, list_items, list_of_length)
            (rw (check_length l sprint read (suc n) few) (rw inner refl))))

typed_list_fails :
    (l : Limits) (sprint : List Node → Value → Option Bytes) (fuel : ℕ) (d : Decoder)
    (name bs : Bytes) (n : ℕ) (e : WireError)
    → d.depth < l.max_depth
    → length d.types + 1 ≤ l.max_refs
    → Fits l (typed_head name n)
    → read_value l sprint fuel
        (record d { unread = bs; types = d.types ++ name ∷ []; depth = d.depth + 1 })
      ≡ err e
    → read_value l sprint (suc fuel) (record d { unread = list_head name (suc n) ++ bs }) ≡ err e
unfolding read_tagged read_number read_integer between read_double read_blob read_compound
typed_list_fails l sprint fuel d name bs n e shallow room (good, fits, small, few, deeper) inner =
    rw (list_head-append name bs (suc n)) (
      read_value_tagged l sprint fuel b'V' (type_bytes name ++ (length_bytes (suc n) ++ bs)) d
        shallow
      ∙ ap (λ r. r >>= λ p. ok (p.0, leave_value p.1))
          (read_list_fails l sprint (read_value l sprint fuel) (record d { depth = d.depth + 1 })
            name bs n e good fits room small few inner))

module _ (l : Limits) (sprint : List Node → Value → Option Bytes) where
  too_deep_at :
      (fuel : ℕ) (heads : List ListHead) (d : Decoder) (bs : Bytes)
      → d.depth ≤ l.max_depth
      → l.max_depth < d.depth + length heads
      → l.max_depth < d.depth + fuel
      → length d.types ≤ d.depth
      → All (Fits l) heads
      → read_value l sprint fuel (record d { unread = nested heads bs }) ≡ err too_deep
  unfolding read_value enter_value nested head_bytes
  too_deep_at zero heads d bs h k enough few fit = absurd (omega arith)
  too_deep_at (suc fuel) [] d bs h k enough few fit = absurd (omega arith)
  too_deep_at (suc fuel) (head ∷ []) d bs h k enough few fit =
      let deep : ltb l.max_depth (d.depth + 1) ≡ true = ground arith in
      rw (deep, read_value, enter_value) refl
  too_deep_at (suc fuel) (bare_head ∷ second ∷ heads) d bs h k enough few fit =
      elim (Bool-cases (ltb l.max_depth (d.depth + 1))) [
        | inl deep ↦ rw (deep, read_value, enter_value) refl
        | inr within ↦
            let (rest, e) = nested-begins second heads bs in
            let inner =
              too_deep_at fuel (second ∷ heads) (record d { depth = d.depth + 1 }) bs (ground arith)
                (omega arith) (omega arith) (omega arith) fit.1 in
            subst
              (λ u. read_value l sprint (suc fuel) (record d { unread = b'V' ∷ u }) ≡ err too_deep)
              (sym e)
              (bare_list_fails l sprint fuel d rest too_deep (ground arith) (
                subst
                  (λ u.
                    read_value l sprint fuel (record d { unread = u; depth = d.depth + 1 })
                    ≡ err too_deep)
                  e inner))
      ]
  too_deep_at (suc fuel) (typed_head name n ∷ second ∷ heads) d bs h k enough few fit =
      elim (Bool-cases (ltb l.max_depth (d.depth + 1))) [
        | inl deep ↦ rw (deep, read_value, enter_value) refl
        | inr within ↦
            typed_list_fails l sprint fuel d name (nested (second ∷ heads) bs) n too_deep
              (ground arith) (ground arith) fit.0
              (too_deep_at fuel (second ∷ heads)
                (record d { depth = d.depth + 1; types = d.types ++ name ∷ [] }) bs (ground arith)
                (omega arith) (omega arith) (omega (arith, length-append d.types (name ∷ [])))
                fit.1)
      ]

-- More lists than the limit of the depth that is in force, each the first item of the one before,
-- are refused as nested too deep, whatever stands behind the head of the last: where each of them
-- begins with a bare tag, or with a type and a number of items within the limits as writeTypedList
-- writes them, where the limit of refs is then no less than that of the depth.
pub decode-too_deep :
    (r : RawLimits) (sprint : List Node → Value → Option Bytes) (heads : List ListHead) (bs : Bytes)
    → (ensure_limits r).max_depth < length heads
    → All (Fits (ensure_limits r)) heads
    → decode r sprint (nested heads bs) ≡ err too_deep
unfolding decode new_decoder
decode-too_deep r sprint heads bs h fit =
    too_deep_at (ensure_limits r) sprint (suc (ensure_limits r).max_depth) heads (new_decoder bs) bs
      (omega arith) (omega arith) (omega arith) (omega arith) fit
