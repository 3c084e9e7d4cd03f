-- ===== src/Wire/RoundTrip/ListRead.antt =====
-- The items of a typed list, from their head on, through the reader.
use sofarpc_cli.Prelude.Map.{Map}
use sofarpc_cli.Prelude.{
  Option, Bytes, List, [], ap, append_assoc, arith, codes, false, get_elem?, is_empty, length,
  length-append, refl, some, suc, zero, ℕ, ◌++◌, ◌<◌, ◌^◌, ◌∙◌, ◌∷◌, ◌≡◌, ◌≤◌, ◌+◌, sym, subst,
}
use sofarpc_cli.Wire.Writer.{write_length, write_type}
use sofarpc_cli.Wire.RoundTrip.Back.{IsReady, Outcome, Keeps-Stays}
use sofarpc_cli.Wire.RoundTrip.Follows.{Follows, Keeps}
use sofarpc_cli.Wire.RoundTrip.Image.{At, Each, Each-map, IsImage, IsImage-stays, IsList}
use sofarpc_cli.Wire.RoundTrip.Lists.{
  type_bytes, length_bytes, write_type_lem, write_length_lem, read_value-list, with_list,
}
use sofarpc_cli.Wire.RoundTrip.Texts.{IsText}
use sofarpc_cli.Wire.Encoder.{Arg}
use sofarpc_cli.Wire.Decoder.State.{
  Decoder, Limits, Node, Value, array, leave_value, map_at, object, slice_at,
}
use sofarpc_cli.Wire.Decoder.Tables.{typed}
use sofarpc_cli.Wire.Decoder.Values.{read_items, read_value}

pub get_elem?-append_left {ℓ} :
    {A : Type ℓ} (xs ys : List A) (i : ℕ) → i < length xs → get_elem? (xs ++ ys) i ≡ get_elem? xs i
get_elem?-append_left [] ys i h = absurd (omega arith)
get_elem?-append_left (x ∷ xs) ys zero h = refl
get_elem?-append_left (x ∷ xs) ys (suc i) h = get_elem?-append_left xs ys i (omega arith)

pub get_elem?-append_here {ℓ} :
    {A : Type ℓ} (xs ys : List A) (y : A) → get_elem? (xs ++ y ∷ ys) (length xs) ≡ some y
get_elem?-append_here [] ys y = refl
get_elem?-append_here (x ∷ xs) ys y = get_elem?-append_here xs ys y

unfoldable pub list_head : Bytes → ℕ → Bytes
list_head name n = b'V' ∷ (type_bytes name ++ length_bytes n)

pub list_head-append :
    (name bs : Bytes) (n : ℕ)
    → list_head name n ++ bs ≡ b'V' ∷ (type_bytes name ++ (length_bytes n ++ bs))
unfolding list_head
list_head-append name bs n = ap (◌∷◌ b'V') (append_assoc (type_bytes name) (length_bytes n) bs)

unfoldable pub list_bytes : Bytes → ℕ → Bytes → Bytes
list_bytes name n body = list_head name n ++ (body ++ b'z' ∷ [])

pub list_bytes-append :
    (name body rest : Bytes) (n : ℕ)
    → list_bytes name n body ++ rest ≡ list_head name n ++ (body ++ b'z' ∷ rest)
unfolding list_bytes
list_bytes-append name body rest n =
    append_assoc (list_head name n) (body ++ b'z' ∷ []) rest
    ∙ ap (λ bs. list_head name n ++ bs) (append_assoc body (b'z' ∷ []) rest)

-- what stands in front of the items in the buffer
pub list_head-written :
    (name : Bytes) (n : ℕ) (buf : Bytes)
    → is_empty name ≡ false
    → write_length n (write_type name (buf ++ (b'V' ∷ []))) ≡ buf ++ list_head name n
unfolding list_head
list_head-written name n buf named =
    write_length_lem n (write_type name (buf ++ (b'V' ∷ [])))
    ∙ ap (λ bs. bs ++ length_bytes n) (write_type_lem name (buf ++ (b'V' ∷ [])))
    ∙ append_assoc (buf ++ (b'V' ∷ [])) (type_bytes name) (length_bytes n)
    ∙ append_assoc buf (b'V' ∷ []) (type_bytes name ++ length_bytes n)

-- the heap behind a list, whose two nodes stand above all others
module _ (d d' : Decoder) (name : Bytes) (xs : List Value) where
  pub list_heap-At :
      (base : ℕ)
      → base ≤ length d'.heap
      → At base
          (with_list d' name xs).heap
          (length (d'.heap ++ array xs ∷ []))
          (object (typed name (codes "items") (slice_at (length d'.heap))))
        × At base (with_list d' name xs).heap (length d'.heap) (array xs)
  list_heap-At base le = (
    (
      omega (arith, length-append d'.heap (array xs ∷ [])),
      get_elem?-append_here (d'.heap ++ array xs ∷ []) [] _,
    ),
    (
      le,
      get_elem?-append_left (d'.heap ++ array xs ∷ []) _ (length d'.heap)
            (omega (arith, length-append d'.heap (array xs ∷ [])))
          ∙ get_elem?-append_here d'.heap [] (array xs),
    ),
  )

  pub list_heap-Keeps : Keeps (length d'.heap) d'.heap (with_list d' name xs).heap
  list_heap-Keeps i h =
      get_elem?-append_left (d'.heap ++ array xs ∷ []) _ i
        (omega (arith, length-append d'.heap (array xs ∷ [])))
      ∙ get_elem?-append_left d'.heap (array xs ∷ []) i h

module _ (l : Limits) (small : l.max_collection_items < 2 ^ 31)
    (sprint : List Node → Value → Option Bytes) (r need n : ℕ) where
  -- what is asked in front of the items
  pub items-IsReady :
      (d : Decoder) (name body rest : Bytes) (k : ℕ) (defs : Map ℕ)
      → IsReady l (suc need) defs d (list_bytes name k body ++ rest)
      → IsReady l need defs
          (record d { types = d.types ++ name ∷ []; depth = d.depth + 1 })
          (body ++ b'z' ∷ rest)
  unfolding list_bytes list_head
  items-IsReady d name body rest k defs ready =
      let size = ap length (list_bytes-append name body rest k) in
      let head = length-append (list_head name k) (body ++ b'z' ∷ rest) in
      record {
        room = omega (arith, ready.room, size, head, length-append d.types (name ∷ []));
        shallow = omega (arith, ready.shallow);
        agree = ready.agree;
      }

  pub list_ready :
      (d : Decoder) (name body rest : Bytes) (k : ℕ) (defs : Map ℕ)
      → IsReady l (suc need) defs d (list_bytes name k body ++ rest)
      → k ≤ length body
      → (length name ≤ l.max_scalar_bytes)
        × (length d.types + 1 ≤ l.max_refs)
        × (k < 2 ^ 31)
        × (k ≤ l.max_collection_items)
  unfolding list_bytes list_head type_bytes
  list_ready d name body rest k defs ready few =
      let size = ap length (list_bytes-append name body rest k) in
      let head = length-append (list_head name k) (body ++ b'z' ∷ rest) in
      let tail = length-append body (b'z' ∷ rest) in
      let front = length-append (type_bytes name) (length_bytes k) in
      omega (arith, ready.room, size, head, tail, front)

  pub typed_list-Follows :
      (d d' : Decoder) (name body rest : Bytes) (k : ℕ) (xs : List Value)
      → Follows
          (record d {
            unread = body ++ b'z' ∷ rest;
            types = d.types ++ name ∷ [];
            depth = d.depth + 1;
          })
          (record d' { unread = b'z' ∷ rest })
      → Follows
          (record d { unread = list_bytes name k body ++ rest })
          (record (leave_value (with_list d' name xs)) { unread = rest })
  unfolding list_bytes list_head leave_value
  typed_list-Follows d d' name body rest k xs f =
      let size = ap length (list_bytes-append name body rest k) in
      let head = length-append (list_head name k) (body ++ b'z' ∷ rest) in
      let refs = length-append d'.refs (map_at (length (d'.heap ++ array xs ∷ [])) ∷ []) in
      let types = length-append d.types (name ∷ []) in
      let one = length-append d'.heap (array xs ∷ []) in
      let two =
        length-append (d'.heap ++ array xs ∷ [])
          (object (typed name (codes "items") (slice_at (length d'.heap))) ∷ []) in
      record {
        same_depth = omega (arith, f.same_depth);
        fewer = omega (arith, f.fewer, size, head);
        refs_paid = omega (arith, f.refs_paid, size, head, refs);
        class_defs_paid = omega (arith, f.class_defs_paid, size, head);
        types_paid = omega (arith, f.types_paid, size, head, types);
        heap_grows = omega (arith, f.heap_grows, one, two);
        heap_kept =
            λ i h. list_heap-Keeps d d' name xs i (omega (arith, f.heap_grows)) ∙ f.heap_kept i h;
      }

  pub read_typed_items-Outcome :
      (d : Decoder) (name body rest : Bytes) (gs : List Arg) (defs defs' : Map ℕ)
      → IsText name
      → is_empty name ≡ false
      → length gs ≤ length body
      → IsReady l (suc need) defs d (list_bytes name (length gs) body ++ rest)
      → Outcome
          (record d { types = d.types ++ name ∷ []; depth = d.depth + 1 })
          (body ++ b'z' ∷ rest)
          (b'z' ∷ rest)
          defs'
          (read_items l sprint (read_value l sprint r) (length gs) [] (record d {
            unread = body ++ b'z' ∷ rest;
            types = d.types ++ name ∷ [];
            depth = d.depth + 1;
          }))
          (λ found d'.
            (xs : List Value) × (found ≡ [] ++ xs) × Each (IsImage n (length d.heap) d'.heap) xs gs)
      → Outcome d
          (list_bytes name (length gs) body ++ rest)
          rest
          defs'
          (read_value l sprint
            (suc r)
            (record d { unread = list_bytes name (length gs) body ++ rest }))
          (λ v d'. IsList (IsImage n (length d.heap) d'.heap) (length d.heap) d'.heap v name gs)
  unfolding leave_value
  read_typed_items-Outcome d name body rest gs defs defs' good named few ready
        (found, d', e, f, a, (xs, same, each)) =
      let (fits, room, short, within) = list_ready d name body rest (length gs) defs ready few in
      let split =
        list_bytes-append name body rest (length gs)
        ∙ list_head-append name (body ++ b'z' ∷ rest) (length gs) in
      let refs : length d'.refs + 1 ≤ l.max_refs =
        omega (arith, (items-IsReady d name body rest (length gs) defs ready).room, f.refs_paid) in
      (
        map_at (length (d'.heap ++ array found ∷ [])),
        leave_value (with_list d' name found),
        rw split (
            read_value-list l sprint r d d' name (body ++ b'z' ∷ rest) rest (length gs) found
              (omega (arith, ready.shallow)) good named fits room short within refs e),
        typed_list-Follows d d' name body rest (length gs) found f,
        a,
        (
          length d'.heap,
          length (d'.heap ++ array found ∷ []),
          found,
          refl,
          (list_heap-At d d' name found (length d.heap) f.heap_grows).0,
          (list_heap-At d d' name found (length d.heap) f.heap_grows).1,
          Each-map (IsImage n (length d.heap) d'.heap)
              (IsImage n (length d.heap) (with_list d' name found).heap) found gs
              (λ x y.
                IsImage-stays (length d.heap) (length d.heap) d'.heap (with_list d' name found).heap
                  (omega arith)
                  (Keeps-Stays (length d.heap) d'.heap (with_list d' name found).heap
                    (list_heap-Keeps d d' name found))
                  n x y)
              (subst (λ ys. Each (IsImage n (length d.heap) d'.heap) ys gs) (sym same) each),
        ),
      )
