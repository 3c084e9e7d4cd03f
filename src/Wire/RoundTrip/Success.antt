-- ===== src/Wire/RoundTrip/Success.antt =====
-- writeValue succeeds on what it can write, with fuel for the depth of the value.
use sofarpc_cli.Wire.Decoder.State.{Limits, Node, Value, text}
use sofarpc_cli.Wire.RoundTrip.Back.{IsName}
use sofarpc_cli.Wire.RoundTrip.Cases.{IsSoundMap}
use sofarpc_cli.Wire.RoundTrip.Entries.{put_string_lem}
use sofarpc_cli.Wire.RoundTrip.Texts.{IsText}
use sofarpc_cli.Wire.RoundTrip.ValueBack.{IsSound, IsSound-nil, levels, write_value-back}
use sofarpc_cli.Prelude.{
  All, Bytes, List, [], arith, suc, zero, ℕ, ◌≤◌, ◌∷◌, ◌≡◌, ◌==◌, length, true, map, none, some,
  ltb, ◌-◌, ◌^◌, ◌<◌, refl, false, Option, ◌++◌,
}
use sofarpc_cli.Prelude.Map.{Map, lookup}
use sofarpc_cli.Wire.Encoder.{
  Arg, Fields, HessianWriter, Items, Writing, array_list, define_object, entries_of, field,
  go_slice, go_string, go_strings, go_uint64, item, items_of, linked_hash_map, no_fields, no_items,
  object_ref, put_string, string_map, typed_object, value_at, values_at, write_names,
  ordered_object_field_keys, object_def_key, ordered_map_keys, max, items_depth, fields_depth,
  depth, go_nil, other_type, json_number,
}
use sofarpc_cli.Wire.Encoder.Values.{
  write_by_type, write_entries, write_map, write_object, write_typed_list, write_typed_object,
  write_value, write_values,
}
use sofarpc_cli.Wire.Result.{◌>>=◌, WireResult, ok}
use sofarpc_cli.Wire.RoundTrip.Ordered.{
  length-values_at, values_at-All, ordered_map_keys-All, ordered_object_field_keys-All,
}

pub max_bounds : (a b : ℕ) → (a ≤ max a b) × (b ≤ max a b)
unfolding max
max_bounds a b = (ground arith, ground arith)

depth-positive : (g : Arg) → 1 ≤ depth g
unfolding depth
depth-positive (go_strings ss) = omega arith
depth-positive (typed_object _ _) = omega arith
depth-positive (linked_hash_map _) = omega arith
depth-positive (string_map _) = omega arith
depth-positive (array_list items) = omega arith
depth-positive (go_slice items) = omega arith
depth-positive g = omega arith

-- the types of values that writeValue takes, and a uint64 that fits an int64
abbrev pub IsKnown : ℕ → Arg → Type 0
IsKnown zero g = Unit {0}
IsKnown (suc n) (go_uint64 i) = i < 2 ^ 63
IsKnown (suc n) (typed_object name fields) = All (λ e. IsKnown n e.1) (entries_of fields)
IsKnown (suc n) (linked_hash_map fields) = All (λ e. IsKnown n e.1) (entries_of fields)
IsKnown (suc n) (string_map fields) = All (λ e. IsKnown n e.1) (entries_of fields)
IsKnown (suc n) (array_list items) = All (λ g. IsKnown n g) (items_of items)
IsKnown (suc n) (go_slice items) = All (λ g. IsKnown n g) (items_of items)
IsKnown (suc n) (json_number raw) = ⊥
IsKnown (suc n) other_type = ⊥
IsKnown (suc n) g = Unit {0}

-- a value that is nested no more than n deep, comes back as it is, and holds known types only
abbrev pub IsWritable : ℕ → Arg → Type 0
IsWritable n g = (depth g ≤ n) × IsSound n g × IsKnown n g

abbrev pub Succeeds {ℓ} : {A : Type ℓ} → WireResult A → Type ℓ
Succeeds {A = A} r = (a : A) × (r ≡ ok a)

pub bind-Succeeds {ℓ κ} :
    {A : Type ℓ} {B : Type κ} (m : WireResult A) (f : A → WireResult B)
    → Succeeds m
    → ((a : A) → Succeeds (f a))
    → Succeeds (m >>= f)
bind-Succeeds m f (a, e) k = rw e (k a)

put_string-Succeeds : (s : Bytes) (w : HessianWriter) → IsText s → Succeeds (put_string s w)
put_string-Succeeds s w good = (_, put_string_lem s w good)

write_names-Succeeds :
    (names : List Bytes) (w : HessianWriter) → All IsText names → Succeeds (write_names names w)
unfolding write_names
write_names-Succeeds [] w good = (w, refl)
write_names-Succeeds (name ∷ names) w good =
    bind-Succeeds (put_string name w) _ (put_string-Succeeds name w good.0)
      (λ w1. write_names-Succeeds names w1 good.1)

define_object-Succeeds :
    (name : Bytes) (names : List Bytes) (w : HessianWriter)
    → All IsText names
    → Succeeds (define_object name names w)
unfolding define_object
define_object-Succeeds name names w good =
    bind-Succeeds (write_names names _) _ (write_names-Succeeds names _ good) (λ w2. (_, refl))

object_ref-Succeeds :
    (name : Bytes) (names : List Bytes) (w : HessianWriter)
    → All IsText names
    → Succeeds (object_ref name names w)
unfolding object_ref
object_ref-Succeeds name names w good =
    elim (lookup (object_def_key name names) w.object_defs)
      as (λ found.
        Succeeds (elim found [ some ref ↦ ok (ref, w) | none ↦ define_object name names w ])) [
          | some ref ↦ (_, refl)
          | none ↦ define_object-Succeeds name names w good
        ]

IsKnown-nil : (n : ℕ) → IsKnown n go_nil
IsKnown-nil zero = tt
IsKnown-nil (suc n) = tt

pub IsKnown-string : (n : ℕ) (s : Bytes) → IsKnown n (go_string s)
IsKnown-string zero s = tt
IsKnown-string (suc n) s = tt

-- three facts of each element as one
module _ {A : Type 0} (P Q R : A → Type 0) where
  pub All-three : (xs : List A) → All P xs → All Q xs → All R xs → All (λ x. P x × Q x × R x) xs
  All-three [] p q r = tt
  All-three (x ∷ xs) p q r = ((p.0, q.0, r.0), All-three xs p.1 q.1 r.1)

pub IsText-All : (names : List Bytes) → All IsName names → All IsText names
IsText-All [] a = tt
IsText-All (name ∷ names) a = (a.0.0, IsText-All names a.1)

strings_depth : (n : ℕ) (s : Bytes) → 1 ≤ n → depth (go_string s) ≤ n
unfolding depth
strings_depth n s h = h

-- the levels that the values of a map and of a list have
module _ (n : ℕ) where
  items_of-All : (items : Items) → items_depth items ≤ n → All (λ g. depth g ≤ n) (items_of items)
  unfolding items_of depth
  items_of-All no_items h = tt
  items_of-All (item g items) h =
      let (left, right) = max_bounds (depth g) (items_depth items) in
      (omega arith, items_of-All items (omega arith))

  entries_of-All :
      (fields : Fields) → fields_depth fields ≤ n → All (λ e. depth e.1 ≤ n) (entries_of fields)
  unfolding entries_of depth
  entries_of-All no_fields h = tt
  entries_of-All (field k g fields) h =
      let (left, right) = max_bounds (depth g) (fields_depth fields) in
      (omega arith, entries_of-All fields (omega arith))

  fields_depth-positive : (fields : Fields) → 1 ≤ fields_depth fields
  unfolding depth
  fields_depth-positive no_fields = omega arith
  fields_depth-positive (field k g fields) =
      omega (arith, max_bounds (depth g) (fields_depth fields), fields_depth-positive fields)

  strings_IsWritable :
      (ss : List Bytes)
      → 1 ≤ n
      → All (λ g. IsSound n g) (map go_string ss)
      → All (λ g. IsWritable n g) (map go_string ss)
  strings_IsWritable [] h a = tt
  strings_IsWritable (s ∷ ss) h a =
      ((strings_depth n s h, a.0, IsKnown-string n s), strings_IsWritable ss h a.1)

  items_IsWritable :
      (items : Items)
      → items_depth items ≤ n
      → All (λ g. IsSound n g) (items_of items)
      → All (λ g. IsKnown n g) (items_of items)
      → All (λ g. IsWritable n g) (items_of items)
  items_IsWritable items h sound known =
      All-three (λ g. depth g ≤ n) (λ g. IsSound n g) (λ g. IsKnown n g) (items_of items)
        (items_of-All items h) sound known

  values_IsWritable :
      (names : List Bytes) (fields : Fields)
      → fields_depth fields ≤ n
      → All (λ e. IsSound n e.1) (entries_of fields)
      → All (λ e. IsKnown n e.1) (entries_of fields)
      → All (λ g. IsWritable n g) (values_at names (entries_of fields))
  unfolding depth
  values_IsWritable names fields h sound known =
      values_at-All (λ g. IsWritable n g) names (entries_of fields)
        (omega (arith, fields_depth-positive fields), IsSound-nil n, IsKnown-nil n)
        (All-three (λ e. depth (e.1) ≤ n) (λ e. IsSound n (e.1)) (λ e. IsKnown n (e.1))
          (entries_of fields) (entries_of-All fields h) sound known)

  -- `write` is writeValue one level down.
  module _ (write : Arg → Writing)
      (succeeds : (g : Arg) (w : HessianWriter) → IsWritable n g → Succeeds (write g w)) where
    pub write_values-Succeeds :
        (gs : List Arg) (w : HessianWriter)
        → All (λ g. IsWritable n g) gs
        → Succeeds (write_values write gs w)
    unfolding write_values
    write_values-Succeeds [] w h = (w, refl)
    write_values-Succeeds (g ∷ gs) w h =
        bind-Succeeds (write g w) _ (succeeds g w h.0) (λ w1. write_values-Succeeds gs w1 h.1)

    pub write_object-Succeeds :
        (name : Bytes) (names : List Bytes) (gs : List Arg) (w : HessianWriter)
        → All IsText names
        → length names ≡ length gs
        → All (λ g. IsWritable n g) gs
        → Succeeds (write_object write name names gs w)
    unfolding write_object
    write_object-Succeeds name names gs w good same h =
        let counted : (length names == length gs) ≡ true = ground arith in
        rw counted (
          bind-Succeeds (object_ref name names w) _ (object_ref-Succeeds name names w good)
            (λ p. write_values-Succeeds gs _ h))

    write_typed_object-Succeeds :
        (name : Bytes) (fields : Fields) (w : HessianWriter)
        → fields_depth fields ≤ n
        → IsSoundMap IsName (IsSound n) fields
        → All (λ e. IsKnown n e.1) (entries_of fields)
        → Succeeds (write_typed_object write name (entries_of fields) w)
    unfolding write_typed_object
    write_typed_object-Succeeds name fields w h (named, once, sound) known =
        let m = entries_of fields in
        let names = ordered_object_field_keys m in
        write_object-Succeeds name names (values_at names m) w
          (IsText-All names (ordered_object_field_keys-All IsName m named))
          (length-values_at names m) (values_IsWritable names fields h sound known)

    write_entries-Succeeds :
        (names : List Bytes) (m : Map Arg) (w : HessianWriter)
        → All IsText names
        → All (λ g. IsWritable n g) (values_at names m)
        → Succeeds (write_entries write names m w)
    unfolding write_entries values_at
    write_entries-Succeeds [] m w good h = (w, refl)
    write_entries-Succeeds (k ∷ names) m w good h =
        bind-Succeeds (put_string k w) _ (put_string-Succeeds k w good.0) (λ w1.
          bind-Succeeds (write (value_at k m) w1) _ (succeeds (value_at k m) w1 h.0)
            (λ w2. write_entries-Succeeds names m w2 good.1 h.1))

    write_map-Succeeds :
        (name : Bytes) (fields : Fields) (w : HessianWriter)
        → fields_depth fields ≤ n
        → IsSoundMap IsText (IsSound n) fields
        → All (λ e. IsKnown n e.1) (entries_of fields)
        → Succeeds (write_map write name (entries_of fields) w)
    unfolding write_map
    write_map-Succeeds name fields w h (good, once, sound) known =
        let m = entries_of fields in
        let names = ordered_map_keys m in
        bind-Succeeds (write_entries write names m _) _
          (write_entries-Succeeds names m _ (ordered_map_keys-All IsText m good)
            (values_IsWritable names fields h sound known))
          (λ w1. (_, refl))

    write_typed_list-Succeeds :
        (name : Bytes) (gs : List Arg) (w : HessianWriter)
        → All (λ g. IsWritable n g) gs
        → Succeeds (write_typed_list write name gs w)
    unfolding write_typed_list
    write_typed_list-Succeeds name gs w h =
        bind-Succeeds (write_values write gs _) _ (write_values-Succeeds gs _ h) (λ w1. (_, refl))

pub write_value-Succeeds :
    (n : ℕ) (g : Arg) (w : HessianWriter) → IsWritable n g → Succeeds (write_value n g w)
unfolding write_value write_by_type depth
write_value-Succeeds zero g w (h, s, k) = absurd (omega (arith, depth-positive g))
write_value-Succeeds (suc n) (json_number raw) w (h, s, k) = absurd k
write_value-Succeeds (suc n) other_type w (h, s, k) = absurd k
write_value-Succeeds (suc n) (go_string t) w (h, s, k) = put_string-Succeeds t w s
write_value-Succeeds (suc n) (go_uint64 i) w (h, s, k) =
    let fits : ltb (2 ^ 63 - 1) i ≡ false = ground arith in rw fits (_, refl)
write_value-Succeeds (suc n) (go_strings ss) w (h, s, k) =
    write_typed_list-Succeeds n (write_value n) (write_value-Succeeds n) _ (map go_string ss) w
      (strings_IsWritable n ss (omega arith) s)
write_value-Succeeds (suc n) (typed_object name fields) w (h, s, k) =
    write_typed_object-Succeeds n (write_value n) (write_value-Succeeds n) name fields w
      (omega arith) s.1 k
write_value-Succeeds (suc n) (linked_hash_map fields) w (h, s, k) =
    write_map-Succeeds n (write_value n) (write_value-Succeeds n) _ fields w (omega arith) s k
write_value-Succeeds (suc n) (string_map fields) w (h, s, k) =
    write_map-Succeeds n (write_value n) (write_value-Succeeds n) [] fields w (omega arith) s k
write_value-Succeeds (suc n) (array_list items) w (h, s, k) =
    write_typed_list-Succeeds n (write_value n) (write_value-Succeeds n) _ (items_of items) w
      (items_IsWritable n items (omega arith) s k)
write_value-Succeeds (suc n) (go_slice items) w (h, s, k) =
    write_typed_list-Succeeds n (write_value n) (write_value-Succeeds n) _ (items_of items) w
      (items_IsWritable n items (omega arith) s k)
write_value-Succeeds (suc n) g w (h, s, k) = (_, refl)

no_limits : Limits
no_limits = record { max_depth = 0; max_collection_items = 0; max_refs = 0; max_scalar_bytes = 0 }

own_text : List Node → Value → Option Bytes
own_text h (text s) = some s
own_text h v = some []

-- Every value of the types that writeValue takes is written, in whatever state the writer is, with
-- fuel for its depth: what stands in the buffer stays, and at least one byte comes behind it. It holds
-- where texts are in well-formed UTF-8 of at most 65535 code points, integers fit their encoding,
-- names of types and fields are neither empty nor hold a NUL and no map has a key twice.
pub write_value_writes :
    (n : ℕ) (g : Arg) (w : HessianWriter)
    → IsWritable n g
    → (w' : HessianWriter) × (written : Bytes) × (write_value n g w ≡ ok w')
      × (w'.buf ≡ w.buf ++ written)
      × (0 < length written)
unfolding no_limits own_text
write_value_writes n g w good =
    let (w', done) = write_value-Succeeds n g w good in
    let (written, e, some_bytes, back) =
      write_value-back no_limits (omega arith) (omega arith) own_text (λ h s. refl) n (levels n) g w
        w' (omega arith) good.1 done in
    (w', written, done, e, some_bytes)
