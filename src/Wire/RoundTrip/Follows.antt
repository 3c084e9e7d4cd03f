-- ===== src/Wire/RoundTrip/Follows.antt =====
-- From one state of the decoder to the state behind what it has read, with the room that the tables
-- have left and the heap that is kept.
use sofarpc_cli.Prelude.{
  Option, Bytes, List, arith, false, get_elem?, length, ltb, refl, suc, ℕ, ◌+◌, ◌<◌, ◌∙◌, ◌∷◌, ◌≡◌,
  ◌≤◌, ap,
}
use sofarpc_cli.Wire.Decoder.State.{
  Decoder, Limits, Node, Value, enter_value, leave_value, on_unread,
}
use sofarpc_cli.Wire.Decoder.Values.{read_value, read_tagged}
use sofarpc_cli.Wire.Result.{ok, ◌>>=◌}
use sofarpc_cli.Wire.Reader.{read_byte}

-- What is at hand in the limits for so many bytes.
pub record HasRoom (l : Limits) (d : Decoder) : Type 0 where
  pub refs_room : length d.refs + length d.unread ≤ l.max_refs
  pub class_defs_room : length d.class_defs + length d.unread ≤ l.max_refs
  pub types_room : length d.types + length d.unread ≤ l.max_refs
  pub items_room : length d.unread ≤ l.max_collection_items
  pub scalar_room : length d.unread ≤ l.max_scalar_bytes

-- what stands below an address stays
abbrev pub Keeps : ℕ → List Node → List Node → Type 0
Keeps n h h' = (i : ℕ) → i < n → get_elem? h' i ≡ get_elem? h i

pub record Follows (d d' : Decoder) : Type 0 where
  pub same_depth : d'.depth ≡ d.depth
  pub fewer : length d'.unread ≤ length d.unread
  pub refs_paid : length d'.refs + length d'.unread ≤ length d.refs + length d.unread
  pub class_defs_paid :
      length d'.class_defs + length d'.unread ≤ length d.class_defs + length d.unread
  pub types_paid : length d'.types + length d'.unread ≤ length d.types + length d.unread
  pub heap_grows : length d.heap ≤ length d'.heap
  pub heap_kept : Keeps (length d.heap) d.heap d'.heap

pub Follows-HasRoom : {l : Limits} {d d' : Decoder} → HasRoom l d → Follows d d' → HasRoom l d'
Follows-HasRoom r f = omega arith

pub Follows-refl : (d : Decoder) → Follows d d
Follows-refl d = record {
  same_depth = refl;
  fewer = omega arith;
  refs_paid = omega arith;
  class_defs_paid = omega arith;
  types_paid = omega arith;
  heap_grows = omega arith;
  heap_kept = λ i h. refl;
}

pub Follows-trans : {d e f : Decoder} → Follows d e → Follows e f → Follows d f
Follows-trans {d} {e} {f} a b = record {
  same_depth = omega arith;
  fewer = omega arith;
  refs_paid = omega arith;
  class_defs_paid = omega arith;
  types_paid = omega arith;
  heap_grows = omega arith;
  heap_kept = λ i h. b.heap_kept i (omega arith) ∙ a.heap_kept i h;
}

-- readValue around what it does behind the tag
pub read_value_tagged :
    (l : Limits) (sprint : List Node → Value → Option Bytes) (n tag : ℕ) (bs : Bytes) (d : Decoder)
    → d.depth < l.max_depth
    → read_value l sprint (suc n) (record d { unread = tag ∷ bs }) ≡ (
        read_tagged l sprint
          (read_value l sprint n)
          tag
          (record d { unread = bs; depth = d.depth + 1 })
        >>= λ p. ok (p.0, leave_value p.1))
unfolding read_value enter_value on_unread read_byte
read_value_tagged l sprint n tag bs d h =
    let within : ltb l.max_depth (d.depth + 1) ≡ false = ground arith in rw (within) refl

pub read_value_by_tag :
    (l : Limits) (sprint : List Node → Value → Option Bytes) (n tag : ℕ) (bs : Bytes)
    (d d' : Decoder) (v : Value)
    → d.depth < l.max_depth
    → read_tagged l sprint
        (read_value l sprint n)
        tag
        (record d { unread = bs; depth = d.depth + 1 })
      ≡ ok (v, d')
    → read_value l sprint (suc n) (record d { unread = tag ∷ bs }) ≡ ok (v, leave_value d')
read_value_by_tag l sprint n tag bs d d' v h e =
    read_value_tagged l sprint n tag bs d h ∙ ap (λ r. r >>= λ p. ok (p.0, leave_value p.1)) e
