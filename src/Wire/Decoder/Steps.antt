-- ===== src/Wire/Decoder/Steps.antt =====
-- The steps of the decoder on its bytes, its tables and its heap, as readers that end.
use sofarpc_cli.Wire.Decoder.Leaves.{read_int32-Shrinks}
use sofarpc_cli.Prelude.{
  Bool, Bool-cases, Bytes, List, Option, [], arith, drop, false, get_elem?, inl, inr, leb, length,
  length-append, length-drop, ltb, none, refl, some, true, ℕ, ◌++◌, ◌+◌, ◌<◌, ◌∷◌, ◌≤◌, is_empty,
  codes, zero, suc, ◌≡◌, ap,
}
use sofarpc_cli.Prelude.Int.{ltb_ℤ, negsuc, pos, pos_part, ℤ}
use sofarpc_cli.Wire.Decoder.Reads.{
  >>=-Reads, Advances, Ends, Reads, fails, gives, reads, refuses, return-Reads, after, if-Reads,
  Ends->>=, weaken-Reads, Reads-ne-stuck,
}
use sofarpc_cli.Wire.Decoder.State.{
  ClassDef, Decoder, Limits, Node, Value, add_class_def, add_ref, add_type, alloc,
  check_collection_length, entry_at, on_unread, skip, object, array, slice_at, map_at, put_entry,
  leave_value,
}
use sofarpc_cli.Wire.Decoder.Tables.{
  add_allocated, add_list, typed, add_map, object_node, add_typed_list, add_object, read_byte_ref,
  read_long_ref, read_short_ref, scalar, read_ref,
}
use sofarpc_cli.Wire.Reader.{read_byte, read_int32, read_size}
use sofarpc_cli.Wire.Result.{
  WireError, WireResult, bad_length, class_defs_full, collection_too_long, err, guard, ok,
  refs_full, stuck, types_full, unexpected_eof, ◌>>=◌, unknown_ref, printed, stack_overflow,
}
use sofarpc_cli.Wire.Totality.{Shrinks, read_size-Shrinks}

stepped {ℓ} :
    {A : Type ℓ} {l : Limits} (d : Decoder) (r : WireResult (A × Bytes))
    → Shrinks (length d.unread) r
    → Reads l 0 d (r >>= λ p. ok (p.0, record d { unread = p.1 }))
stepped d (ok (a, rest)) h =
    reads a (record d { unread = rest })
      (record {
        same_depth = refl;
        took = omega arith;
        more_refs = omega arith;
        refs_within = λ k. k;
        more_class_defs = omega arith;
        class_defs_within = λ k. k;
        more_types = omega arith;
        types_within = λ k. k;
        more_heap = omega arith;
      })
stepped d (err e) h = fails e
stepped d stuck h = absurd h

pub on_unread-Reads {ℓ} :
    {A : Type ℓ} {l : Limits} (d : Decoder) (reader : Bytes → WireResult (A × Bytes))
    → Shrinks (length d.unread) (reader d.unread)
    → Reads l 0 d (on_unread reader d)
unfolding on_unread
on_unread-Reads d reader h = stepped d (reader d.unread) h

length-put_entry :
    (a : ℕ) (key : Bytes) (v : Value) (h : List Node) → length (put_entry a key v h) ≡ length h
unfolding put_entry
length-put_entry a key v [] = refl
length-put_entry zero key v (array items ∷ h) = refl
length-put_entry zero key v (object entries ∷ h) = refl
length-put_entry (suc a) key v (node ∷ h) = ap suc (length-put_entry a key v h)

module _ {l : Limits} where
  dropped :
      (d : Decoder) (rest : Bytes)
      → length rest + 1 ≤ length d.unread
      → Advances l 1 d (record d { unread = rest })
  dropped d rest h = record {
    same_depth = refl;
    took = h;
    more_refs = omega arith;
    refs_within = λ k. k;
    more_class_defs = omega arith;
    class_defs_within = λ k. k;
    more_types = omega arith;
    types_within = λ k. k;
    more_heap = omega arith;
  }

  first_byte :
      (d : Decoder) (bs : Bytes)
      → length bs ≤ length d.unread
      → Reads l 1 d (read_byte bs >>= λ p. ok (p.0, record d { unread = p.1 }))
  unfolding read_byte
  first_byte d [] h = fails unexpected_eof
  first_byte d (b ∷ bs) h = reads b (record d { unread = bs }) (dropped d bs (omega arith))

  pub read_byte-Reads : (d : Decoder) → Reads l 1 d (on_unread read_byte d)
  unfolding on_unread
  read_byte-Reads d = first_byte d d.unread (omega arith)

  pub skip-Advances : (d : Decoder) → 0 < length d.unread → Advances l 1 d (skip d)
  unfolding skip
  skip-Advances d h = dropped d (drop 1 d.unread) (omega (arith, length-drop 1 d.unread))

  -- a new node, and a write to an old one, are all that happens to the heap
  pub heap-Advances :
      (d : Decoder) (h : List Node)
      → length d.heap ≤ length h
      → Advances l 0 d (record d { heap = h })
  heap-Advances d h k = record {
    same_depth = refl;
    took = omega arith;
    more_refs = omega arith;
    refs_within = λ k. k;
    more_class_defs = omega arith;
    class_defs_within = λ k. k;
    more_types = omega arith;
    types_within = λ k. k;
    more_heap = k;
  }

  pub alloc-Advances : (node : Node) (d : Decoder) → Advances l 0 d (alloc node d).1
  unfolding alloc
  alloc-Advances node d =
      heap-Advances d (d.heap ++ node ∷ []) (omega (arith, length-append d.heap (node ∷ [])))

  pub add_ref-Reads : (v : Value) (d : Decoder) → Reads l 0 d (add_ref l v d)
  unfolding add_ref
  add_ref-Reads v d = elim (Bool-cases (ltb l.max_refs (length d.refs + 1))) [
    | inl full ↦ rw full (fails refs_full)
    | inr room ↦ rw room (
        reads tt (record d { refs = d.refs ++ v ∷ [] })
          (record {
            same_depth = refl;
            took = omega arith;
            more_refs = omega (arith, length-append d.refs (v ∷ []));
            refs_within = λ k. ground (arith, length-append d.refs (v ∷ []));
            more_class_defs = omega arith;
            class_defs_within = λ k. k;
            more_types = omega arith;
            types_within = λ k. k;
            more_heap = omega arith;
          }))
  ]

  pub add_class_def-Reads : (c : ClassDef) (d : Decoder) → Reads l 0 d (add_class_def l c d)
  unfolding add_class_def
  add_class_def-Reads c d = elim (Bool-cases (ltb l.max_refs (length d.class_defs + 1))) [
    | inl full ↦ rw full (fails class_defs_full)
    | inr room ↦ rw room (
        reads tt (record d { class_defs = d.class_defs ++ c ∷ [] })
          (record {
            same_depth = refl;
            took = omega arith;
            more_refs = omega arith;
            refs_within = λ k. k;
            more_class_defs = omega (arith, length-append d.class_defs (c ∷ []));
            class_defs_within = λ k. ground (arith, length-append d.class_defs (c ∷ []));
            more_types = omega arith;
            types_within = λ k. k;
            more_heap = omega arith;
          }))
  ]

  pub add_type-Reads : (name : Bytes) (d : Decoder) → Reads l 0 d (add_type l name d)
  unfolding add_type
  add_type-Reads name d = elim (Bool-cases (ltb l.max_refs (length d.types + 1))) [
    | inl full ↦ rw full (fails types_full)
    | inr room ↦ rw room (
        reads tt (record d { types = d.types ++ name ∷ [] })
          (record {
            same_depth = refl;
            took = omega arith;
            more_refs = omega arith;
            refs_within = λ k. k;
            more_class_defs = omega arith;
            class_defs_within = λ k. k;
            more_types = omega (arith, length-append d.types (name ∷ []));
            types_within = λ k. ground (arith, length-append d.types (name ∷ []));
            more_heap = omega arith;
          }))
  ]

  pub put_entry-Advances :
      (a : ℕ) (key : Bytes) (v : Value) (d : Decoder)
      → Advances l 0 d (record d { heap = put_entry a key v d.heap })
  put_entry-Advances a key v d =
      heap-Advances d (put_entry a key v d.heap) (omega (arith, length-put_entry a key v d.heap))

  pub add_allocated-Reads :
      (make : ℕ → Value) (p : ℕ × Decoder) → Reads l 0 p.1 (add_allocated l make p)
  unfolding add_allocated
  add_allocated-Reads make p =
      >>=-Reads _ refl (add_ref-Reads (make p.0) p.1) λ u e h s. return-Reads (make p.0)

  pub add_typed_list-Reads :
      (name : Bytes) (items : List Value) (d : Decoder)
      → Reads l 0 d (add_typed_list l name (alloc (array items) d))
  unfolding add_typed_list
  add_typed_list-Reads name items d =
      let first = alloc (array items) d in
      let node = object (typed name (codes "items") (slice_at first.0)) in
      after (alloc-Advances (array items) d)
        (after (alloc-Advances node first.1) (add_allocated-Reads map_at (alloc node first.1)))

  pub add_list-Reads :
      (name : Bytes) (items : List Value) (d : Decoder) → Reads l 0 d (add_list l name items d)
  unfolding add_list
  add_list-Reads name items d =
      if-Reads (is_empty name)
        (after (alloc-Advances (array items) d)
          (add_allocated-Reads slice_at (alloc (array items) d)))
        (add_typed_list-Reads name items d)

  pub add_map-Reads :
      (name : Bytes) (d : Decoder) → Reads l 0 d (add_map l name (alloc (object []) d))
  unfolding add_map
  add_map-Reads name d =
      let first = alloc (object []) d in
      let node = object (typed name (codes "entries") (map_at first.0)) in
      after (alloc-Advances (object []) d) (
        if-Reads (is_empty name) (add_allocated-Reads map_at first)
          (after (alloc-Advances node first.1) (add_allocated-Reads map_at (alloc node first.1))))

  pub add_object-Reads :
      (def : ClassDef) (d : Decoder) → Reads l 0 d (add_object l def (alloc (object []) d))
  unfolding add_object
  add_object-Reads def d =
      let first = alloc (object []) d in
      let node = object_node def first.0 in
      after (alloc-Advances (object []) d)
        (after (alloc-Advances node first.1) (add_allocated-Reads map_at (alloc node first.1)))

found {ℓ} :
    {A : Type ℓ} (e : WireError) (o : Option A) → Ends (elim o [ none ↦ err e | some x ↦ ok x ])
found e none = refuses e
found e (some x) = gives x

pub printed-Ends : (o : Option Bytes) → Ends (printed o)
printed-Ends none = refuses stack_overflow
printed-Ends (some s) = gives s

-- a table at a Go int
pub entry_at-Ends {ℓ} : {A : Type ℓ} (e : WireError) (xs : List A) (i : ℤ) → Ends (entry_at e xs i)
unfolding entry_at
entry_at-Ends e xs (negsuc n) = refuses e
entry_at-Ends e xs (pos n) = found e (get_elem? xs n)

guard-Ends : (b : Bool) (e : WireError) → Ends (guard b e)
guard-Ends true e = gives tt
guard-Ends false e = refuses e

pub check-Ends : (l : Limits) (n : ℤ) → Ends (check_collection_length l n)
unfolding check_collection_length
check-Ends l n = elim (Bool-cases (ltb_ℤ n (pos 0))) [
  | inl negative ↦ rw negative (refuses bad_length)
  | inr ready ↦ rw ready (guard-Ends (leb (pos_part n) l.max_collection_items) collection_too_long)
]

module _ {l : Limits} where
  pub scalar-Reads :
      {A : Type 0} (make : A → Value) (reader : Bytes → WireResult (A × Bytes)) (d : Decoder)
      → Shrinks (length d.unread) (reader d.unread)
      → Reads l 0 d (scalar make reader d)
  unfolding scalar
  scalar-Reads make reader d h =
      >>=-Reads _ refl (on_unread-Reads d reader h) λ a e k s. return-Reads (make a)

  read_ref-Reads : (i : ℤ) (d : Decoder) → Reads l 0 d (read_ref i d)
  unfolding read_ref
  read_ref-Reads i d = Ends->>= _ (entry_at-Ends unknown_ref d.refs i) λ v. return-Reads v

  pub read_byte_ref-Reads : (d : Decoder) → Reads l 0 d (read_byte_ref d)
  unfolding read_byte_ref
  read_byte_ref-Reads d =
      weaken-Reads (>>=-Reads _ refl (read_byte-Reads d) λ i e k s. read_ref-Reads (pos i) e)

  pub read_short_ref-Reads : (d : Decoder) → Reads l 0 d (read_short_ref d)
  unfolding read_short_ref
  read_short_ref-Reads d =
      >>=-Reads _ refl (on_unread-Reads d read_size (read_size-Shrinks d.unread))
        λ i e k s. read_ref-Reads (pos i) e

  pub read_long_ref-Reads : (d : Decoder) → Reads l 0 d (read_long_ref d)
  unfolding read_long_ref
  read_long_ref-Reads d =
      >>=-Reads _ refl (on_unread-Reads d read_int32 (read_int32-Shrinks d.unread))
        λ i e k s. read_ref-Reads i e

  -- from inside a value to the end of it
  leaves :
      {k : ℕ} (d : Decoder) {r : WireResult (Value × Decoder)}
      → Reads l k (record d { depth = d.depth + 1 }) r
      → Reads l k d (r >>= λ p. ok (p.0, leave_value p.1))
  unfolding leave_value
  leaves d (reads v e s) = reads v (leave_value e) (record {
    same_depth = omega (arith, s.same_depth);
    took = s.took;
    more_refs = s.more_refs;
    refs_within = s.refs_within;
    more_class_defs = s.more_class_defs;
    class_defs_within = s.class_defs_within;
    more_types = s.more_types;
    types_within = s.types_within;
    more_heap = s.more_heap;
  })
  leaves d (fails e) = fails e

  pub leaves_after {ℓ} :
      {A : Type ℓ} {k : ℕ} (d : Decoder) (m : WireResult (A × Decoder))
      (f : A × Decoder → WireResult (Value × Decoder))
      → Reads l k (record d { depth = d.depth + 1 }) (m >>= f)
      → Reads l k d (m >>= λ q. f q >>= λ r. ok (r.0, leave_value r.1))
  leaves_after d (ok q) f h = leaves d h
  leaves_after d (err e) f h = fails e
  leaves_after d stuck f h = absurd (Reads-ne-stuck h refl)
