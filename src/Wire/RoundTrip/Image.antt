-- ===== src/Wire/RoundTrip/Image.antt =====
-- What a value of the writer is for the reader: the values that stand for it on the decoder's heap.
use sofarpc_cli.Prelude.{
  Bytes, List, [], arith, codes, get_elem?, map, some, suc, zero, ℕ, ◌∷◌, ◌≡◌, ◌≤◌,
}
use sofarpc_cli.Prelude.Int.{pos}
use sofarpc_cli.Prelude.Map.{Map}
use sofarpc_cli.Wire.Encoder.{
  Arg, Fields, entries_of, items_of, ordered_map_keys, ordered_object_field_keys, values_at, go_nil,
  go_bool, go_string, go_int, go_int64, go_uint, go_uint64, go_float, go_strings, typed_object,
  linked_hash_map, string_map, array_list, go_slice, other_type, json_number,
}
use sofarpc_cli.Wire.Decoder.State.{
  Node, Value, null, bool, int64, float64, text, slice_at, map_at, array, object, Float64,
}
use sofarpc_cli.Wire.Decoder.Tables.{typed, object_node}

-- two lists, entry for entry
abbrev pub Each {ℓ κ} : {A : Type ℓ} {B : Type κ} → (A → B → Type 0) → List A → List B → Type 0
Each P [] [] = Unit {0}
Each P (x ∷ xs) (y ∷ ys) = P x y × Each P xs ys
Each P [] (y ∷ ys) = ⊥
Each P (x ∷ xs) [] = ⊥

-- a map whose entries stand in the order of the names, with values for the arguments
abbrev pub EachEntry : (Value → Arg → Type 0) → Map Value → List Bytes → List Arg → Type 0
EachEntry P [] [] [] = Unit {0}
EachEntry P ((k, v) ∷ m) (name ∷ names) (g ∷ gs) = (k ≡ name) × P v g × EachEntry P m names gs
EachEntry P _ _ _ = ⊥

abbrev pub At : ℕ → List Node → ℕ → Node → Type 0
At base h a node = (base ≤ a) × (get_elem? h a ≡ some node)

-- the map with "type" and "items" that stands for a typed list
abbrev pub IsList : (Value → Arg → Type 0) → ℕ → List Node → Value → Bytes → List Arg → Type 0
IsList P base h v name gs =
    (a : ℕ) × (b : ℕ) × (xs : List Value) × (v ≡ map_at b)
    × At base h b (object (typed name (codes "items") (slice_at a)))
    × At base h a (array xs)
    × Each P xs gs

abbrev pub IsMap : (Value → Arg → Type 0) → ℕ → List Node → ℕ → List Bytes → List Arg → Type 0
IsMap P base h a names gs = (m : Map Value) × At base h a (object m) × EachEntry P m names gs

abbrev pub IsTypedMap :
    (Value → Arg → Type 0) → ℕ → List Node → Value → Bytes → List Bytes → List Arg → Type 0
IsTypedMap P base h v name names gs =
    (a : ℕ) × (b : ℕ) × (v ≡ map_at b)
    × At base h b (object (typed name (codes "entries") (map_at a)))
    × IsMap P base h a names gs

abbrev pub IsObject :
    (Value → Arg → Type 0) → ℕ → List Node → Value → Bytes → List Bytes → List Arg → Type 0
IsObject P base h v name names gs =
    (a : ℕ) × (b : ℕ) × (v ≡ map_at b)
    × At base h b (object_node (record { type_name = name; field_names = names }) a)
    × IsMap P base h a names gs

abbrev pub map_values : Fields → List Arg
map_values fields = values_at (ordered_map_keys (entries_of fields)) (entries_of fields)

abbrev pub object_values : Fields → List Arg
object_values fields = values_at (ordered_object_field_keys (entries_of fields)) (entries_of fields)

-- `v` stands for the argument, which is nested less than n deep, at addresses from `base` on.
abbrev pub IsImage : ℕ → ℕ → List Node → Value → Arg → Type 0
IsImage zero base h v g = ⊥
IsImage (suc n) base h v go_nil = v ≡ null
IsImage (suc n) base h v (go_bool b) = v ≡ bool b
IsImage (suc n) base h v (go_string s) = v ≡ text s
IsImage (suc n) base h v (go_int i) = v ≡ int64 i
IsImage (suc n) base h v (go_int64 i) = v ≡ int64 i
IsImage (suc n) base h v (go_uint i) = v ≡ int64 (pos i)
IsImage (suc n) base h v (go_uint64 i) = v ≡ int64 (pos i)
IsImage (suc n) base h v (go_float bits) = v ≡ float64 (Float64.of_bits64 bits)
IsImage (suc n) base h v (go_strings ss) =
    IsList (IsImage n base h) base h v (codes "[string]") (map go_string ss)
IsImage (suc n) base h v (typed_object name fields) =
    IsObject (IsImage n base h) base h v name (ordered_object_field_keys (entries_of fields))
      (object_values fields)
IsImage (suc n) base h v (linked_hash_map fields) =
    IsTypedMap (IsImage n base h) base h v (codes "java.util.LinkedHashMap")
      (ordered_map_keys (entries_of fields)) (map_values fields)
IsImage (suc n) base h v (string_map fields) =
    (a : ℕ) × (v ≡ map_at a)
    × IsMap (IsImage n base h) base h a (ordered_map_keys (entries_of fields)) (map_values fields)
IsImage (suc n) base h v (array_list items) =
    IsList (IsImage n base h) base h v (codes "java.util.ArrayList") (items_of items)
IsImage (suc n) base h v (go_slice items) =
    IsList (IsImage n base h) base h v (codes "java.util.ArrayList") (items_of items)
IsImage (suc n) base h v (json_number s) = ⊥
IsImage (suc n) base h v other_type = ⊥

-- from a heap to one where what stands from an address on still stands
abbrev pub Stays : ℕ → List Node → List Node → Type 0
Stays base h h' =
    (i : ℕ) (node : Node) → base ≤ i → get_elem? h i ≡ some node → get_elem? h' i ≡ some node

pub Each-map :
    {A B : Type 0} (P Q : A → B → Type 0) (xs : List A) (ys : List B)
    → ((x : A) (y : B) → P x y → Q x y)
    → Each P xs ys
    → Each Q xs ys
Each-map P Q [] [] f h = tt
Each-map P Q (x ∷ xs) (y ∷ ys) f h = (f x y h.0, Each-map P Q xs ys f h.1)
Each-map P Q [] (y ∷ ys) f h = h
Each-map P Q (x ∷ xs) [] f h = h

pub EachEntry-map :
    (P Q : Value → Arg → Type 0) (m : Map Value) (names : List Bytes) (gs : List Arg)
    → ((x : Value) (y : Arg) → P x y → Q x y)
    → EachEntry P m names gs
    → EachEntry Q m names gs
EachEntry-map P Q [] [] [] f h = tt
EachEntry-map P Q ((k, v) ∷ m) (name ∷ names) (g ∷ gs) f h =
    (h.0, f v g h.1, EachEntry-map P Q m names gs f h.2)
EachEntry-map P Q [] (name ∷ names) gs f h = absurd h
EachEntry-map P Q [] [] (g ∷ gs) f h = absurd h
EachEntry-map P Q ((k, v) ∷ m) [] gs f h = absurd h
EachEntry-map P Q ((k, v) ∷ m) (name ∷ names) [] f h = absurd h

module _ (base base' : ℕ) (h h' : List Node) (lower : base' ≤ base) (stays : Stays base h h') where
  At-stays : (a : ℕ) (node : Node) → At base h a node → At base' h' a node
  At-stays a node (le, e) = (omega arith, stays a node le e)

  module _ (P Q : Value → Arg → Type 0) (f : (x : Value) (y : Arg) → P x y → Q x y) where
    IsList-stays :
        (v : Value) (name : Bytes) (gs : List Arg)
        → IsList P base h v name gs
        → IsList Q base' h' v name gs
    IsList-stays v name gs (a, b, xs, e, wrap, items, each) =
        (a, b, xs, e, At-stays b _ wrap, At-stays a _ items, Each-map P Q xs gs f each)

    IsMap-stays :
        (a : ℕ) (names : List Bytes) (gs : List Arg)
        → IsMap P base h a names gs
        → IsMap Q base' h' a names gs
    IsMap-stays a names gs (m, at, each) = (m, At-stays a _ at, EachEntry-map P Q m names gs f each)

  pub IsImage-stays : (n : ℕ) (v : Value) (g : Arg) → IsImage n base h v g → IsImage n base' h' v g
  IsImage-stays zero v g i = absurd i
  IsImage-stays (suc n) v go_nil i = i
  IsImage-stays (suc n) v (go_bool b) i = i
  IsImage-stays (suc n) v (go_string s) i = i
  IsImage-stays (suc n) v (go_int k) i = i
  IsImage-stays (suc n) v (go_int64 k) i = i
  IsImage-stays (suc n) v (go_uint k) i = i
  IsImage-stays (suc n) v (go_uint64 k) i = i
  IsImage-stays (suc n) v (go_float bits) i = i
  IsImage-stays (suc n) v (go_strings ss) i =
      IsList-stays _ _ (IsImage-stays n) v _ (map go_string ss) i
  IsImage-stays (suc n) v (typed_object name fields) (a, b, e, wrap, entries) = (
    a,
    b,
    e,
    At-stays b _ wrap,
    IsMap-stays _ _ (IsImage-stays n) a _ (object_values fields) entries,
  )
  IsImage-stays (suc n) v (linked_hash_map fields) (a, b, e, wrap, entries) = (
    a,
    b,
    e,
    At-stays b _ wrap,
    IsMap-stays _ _ (IsImage-stays n) a _ (map_values fields) entries,
  )
  IsImage-stays (suc n) v (string_map fields) (a, e, entries) =
      (a, e, IsMap-stays _ _ (IsImage-stays n) a _ (map_values fields) entries)
  IsImage-stays (suc n) v (array_list items) i =
      IsList-stays _ _ (IsImage-stays n) v _ (items_of items) i
  IsImage-stays (suc n) v (go_slice items) i =
      IsList-stays _ _ (IsImage-stays n) v _ (items_of items) i
  IsImage-stays (suc n) v (json_number s) i = i
  IsImage-stays (suc n) v other_type i = i
