-- ===== src/Wire/Requests/Prepared.antt =====
-- What PrepareValue makes of a value as JSON has it.
use sofarpc_cli.Prelude.Map.{lookup}
use sofarpc_cli.Prelude.TrimSpace.{trim_space}
use sofarpc_cli.Wire.RoundTrip.Image.{Each}
use sofarpc_cli.Prelude.{
  All, Bytes, Bool-cases, Option, Option-cases, inl, inr, bytes_eq, suc, zero, ℕ, bytes_eq_iff,
  is_empty, ◌≡◌, refl, ◌≢◌, ◌⊎◌, true, false, none, some, arith, ap,
}
use sofarpc_cli.Prelude.Int.{ℤ}
use sofarpc_cli.Wire.Encoder.{
  Arg, Fields, Items, array_list, entries_of, field, go_bool, go_float, go_int64, go_nil, go_slice,
  go_string, item, items_of, json_number, linked_hash_map, no_fields, no_items, string_map,
  type_key, typed_object,
}
use sofarpc_cli.Wire.Requests.Prepare.{
  class_name_of, float_or_raw, has_fraction, normalize_entries, normalize_fields, normalize_number,
  normalize_slice, normalize_value, class_name, with_class,
}

-- A value as JSON has it, with numbers as text or decoded, nested less than n deep.
abbrev pub IsJson : ℕ → Arg → Type 0
IsJson zero g = ⊥
IsJson (suc n) go_nil = Unit {0}
IsJson (suc n) (go_bool b) = Unit {0}
IsJson (suc n) (go_string s) = Unit {0}
IsJson (suc n) (go_int64 i) = Unit {0}
IsJson (suc n) (go_float bits) = Unit {0}
IsJson (suc n) (json_number raw) = Unit {0}
IsJson (suc n) (go_slice items) = All (λ g. IsJson n g) (items_of items)
IsJson (suc n) (string_map input) = All (λ e. IsJson n e.1) (entries_of input)
IsJson (suc n) g = ⊥

-- absent on both sides, or related
abbrev pub Both : (Arg → Arg → Type 0) → Option Arg → Option Arg → Type 0
Both P none none = Unit {0}
Both P (some a) (some b) = P a b
Both P none (some b) = ⊥
Both P (some a) none = ⊥

-- the name of a class in a map, and the name without the white space around it
abbrev pub NamesClass : Fields → Bytes → Type 0
NamesClass input name =
    (s : Bytes) × (lookup type_key (entries_of input) ≡ some (go_string s))
    × (trim_space s ≡ name)
    × (is_empty name ≡ false)

class_name-cases :
    (o : Option Arg)
    → ((s : Bytes) × (o ≡ some (go_string s))
        × (is_empty (trim_space s) ≡ false)
        × (class_name o ≡ some (trim_space s)))
      ⊎ ((class_name o ≡ none)
          × ((s : Bytes) → o ≡ some (go_string s) → is_empty (trim_space s) ≡ true))
unfolding class_name
class_name-cases none = inr (refl, λ s e. absurd (cc))
class_name-cases (some (go_string s)) = elim (Bool-cases (is_empty (trim_space s))) [
  | inl blank ↦ inr (rw blank refl, λ t e. let same : s ≡ t = cc in rw⁻¹ same blank)
  | inr there ↦ inl (s, refl, there, rw there refl)
]
class_name-cases (some g) = inr (refl, λ s e. absurd (cc))

module _ (parse_int : Bytes → Option ℤ) (parse_float : Bytes → Option ℕ) where
  -- a number: an integer where it reads as one and has no fraction or exponent, else a float where
  -- it reads as one, else its text
  abbrev pub IsNumber : Bytes → Arg → Type 0
  IsNumber raw g =
      ((i : ℤ) × (has_fraction raw ≡ false) × (parse_int raw ≡ some i) × (g ≡ go_int64 i))
      ⊎ (((has_fraction raw ≡ true) ⊎ (parse_int raw ≡ none))
          × (((bits : ℕ) × (parse_float raw ≡ some bits) × (g ≡ go_float bits))
              ⊎ ((parse_float raw ≡ none) × (g ≡ go_string raw))))

  -- The second value is the first with its Java classes.
  abbrev pub Prepares : ℕ → Arg → Arg → Type 0
  Prepares zero g g' = ⊥
  Prepares (suc n) (json_number raw) g' = IsNumber raw g'
  Prepares (suc n) (go_slice items) g' =
      (items' : Items) × (g' ≡ array_list items')
      × Each (λ x y. Prepares n x y) (items_of items) (items_of items')
  Prepares (suc n) (string_map input) g' =
      (out : Fields) × (((name : Bytes) × NamesClass input name
          × (g' ≡ typed_object name out)
          × (lookup type_key (entries_of out) ≡ none)
          × ((k : Bytes)
              → k ≢ type_key
              → Both (λ x y. Prepares n x y) (lookup k (entries_of input))
                  (lookup k (entries_of out))))
        ⊎ (((name : Bytes) → ¬ NamesClass input name)
            × (g' ≡ linked_hash_map out)
            × ((k : Bytes)
                → Both (λ x y. Prepares n x y) (lookup k (entries_of input))
                    (lookup k (entries_of out)))))
  Prepares (suc n) g g' = g' ≡ g

  float_or_raw-cases :
      (raw : Bytes)
      → ((bits : ℕ) × (parse_float raw ≡ some bits)
          × (float_or_raw parse_int parse_float raw ≡ go_float bits))
        ⊎ ((parse_float raw ≡ none) × (float_or_raw parse_int parse_float raw ≡ go_string raw))
  unfolding float_or_raw
  float_or_raw-cases raw = elim (Option-cases (parse_float raw)) [
    | inl not_read ↦ inr (not_read, rw (not_read, float_or_raw) refl)
    | inr (bits, read) ↦ inl (bits, read, rw (read, float_or_raw) refl)
  ]

  normalize_number-IsNumber :
      (raw : Bytes) → IsNumber raw (normalize_number parse_int parse_float raw)
  unfolding normalize_number
  normalize_number-IsNumber raw =
      let as_float = float_or_raw-cases raw in
      elim (Bool-cases (has_fraction raw)) [
        | inl fraction ↦ inr (inl fraction, rw (fraction, normalize_number) as_float)
        | inr whole ↦ elim (Option-cases (parse_int raw)) [
          | inl not_read ↦ inr (inr not_read, rw (whole, not_read, normalize_number) as_float)
          | inr (i, read) ↦ inl (i, whole, read, rw (whole, read, normalize_number) refl)
        ]
      ]

  -- `known` is the statement for the values inside.
  module _ (P : Arg → Type 0) (R : Arg → Arg → Type 0)
      (known : (g : Arg) → P g → R g (normalize_value parse_int parse_float g)) where
    normalize_slice-Each :
        (items : Items)
        → All P (items_of items)
        → Each R (items_of items) (items_of (normalize_slice parse_int parse_float items))
    unfolding normalize_slice items_of
    normalize_slice-Each no_items a = tt
    normalize_slice-Each (item g items) a = (known g a.0, normalize_slice-Each items a.1)

    lookup-normalize_entries :
        (k : Bytes) (input : Fields)
        → All (λ e. P e.1) (entries_of input)
        → Both R
            (lookup k (entries_of input))
            (lookup k (entries_of (normalize_entries parse_int parse_float input)))
    unfolding normalize_entries entries_of lookup
    lookup-normalize_entries k no_fields a = tt
    lookup-normalize_entries k (field j g input) a = elim (Bool-cases (bytes_eq j k)) [
      | inl same ↦ rw (same, Both) (known g a.0)
      | inr other ↦ rw (other, Both) (lookup-normalize_entries k input a.1)
    ]

    lookup-normalize_fields :
        (k : Bytes) (input : Fields)
        → k ≢ type_key
        → All (λ e. P e.1) (entries_of input)
        → Both R
            (lookup k (entries_of input))
            (lookup k (entries_of (normalize_fields parse_int parse_float input)))
    unfolding normalize_fields entries_of lookup
    lookup-normalize_fields k no_fields ne a = tt
    lookup-normalize_fields k (field j g input) ne a = elim (Bool-cases (bytes_eq j type_key)) [
      | inl type_there ↦
          let other : bytes_eq j k ≡ false =
            ground (arith, bytes_eq_iff j k, bytes_eq_iff j type_key) in
          rw (type_there, other, Both) (lookup-normalize_fields k input ne a.1)
      | inr no_type ↦ elim (Bool-cases (bytes_eq j k)) [
        | inl same ↦ rw (no_type, same, Both) (known g a.0)
        | inr other ↦ rw (no_type, other, Both) (lookup-normalize_fields k input ne a.1)
      ]
    ]

  no_type_left :
      (input : Fields)
      → lookup type_key (entries_of (normalize_fields parse_int parse_float input)) ≡ none
  unfolding normalize_fields entries_of lookup
  no_type_left no_fields = refl
  no_type_left (field j g input) = elim (Bool-cases (bytes_eq j type_key)) [
    | inl type_there ↦ rw type_there (no_type_left input)
    | inr no_type ↦ rw no_type (rw no_type (no_type_left input))
  ]

  by_class :
      (input : Fields) (o : Option Bytes)
      → class_name (lookup type_key (entries_of input)) ≡ o
      → normalize_value parse_int parse_float (string_map input)
        ≡ with_class o
            (normalize_fields parse_int parse_float input)
            (normalize_entries parse_int parse_float input)
  unfolding normalize_value class_name_of
  by_class input o e =
      ap
        (λ x.
          with_class x (normalize_fields parse_int parse_float input)
            (normalize_entries parse_int parse_float input))
        e

  -- What PrepareValue makes of a value as JSON has it, at every depth. A number is an integer where
  -- it reads as one and has no fraction or exponent, else a float where it reads as one, else its
  -- text. A slice is an ArrayList of its items in their order. A map whose "@type" is a text that is
  -- not blank is an object of the class it names, without the white space around it, with every other
  -- entry under its key and no "@type"; any other map is a LinkedHashMap with every entry under its
  -- key, and neither has a key that was not there. All else stays as it is.
  pub normalize_value-Prepares :
      (n : ℕ) (g : Arg) → IsJson n g → Prepares n g (normalize_value parse_int parse_float g)
  unfolding normalize_value with_class
  normalize_value-Prepares zero g h = absurd h
  normalize_value-Prepares (suc n) go_nil h = refl
  normalize_value-Prepares (suc n) (go_bool b) h = refl
  normalize_value-Prepares (suc n) (go_string s) h = refl
  normalize_value-Prepares (suc n) (go_int64 i) h = refl
  normalize_value-Prepares (suc n) (go_float bits) h = refl
  normalize_value-Prepares (suc n) (json_number raw) h = normalize_number-IsNumber raw
  normalize_value-Prepares (suc n) (go_slice items) h = (
    _,
    refl,
    normalize_slice-Each (IsJson n) (λ x y. Prepares n x y) (normalize_value-Prepares n) items h,
  )
  normalize_value-Prepares (suc n) (string_map input) h =
      elim (class_name-cases (lookup type_key (entries_of input))) [
        | inl (s, there, some_name, found) ↦ (
          normalize_fields parse_int parse_float input,
          inl (
            trim_space s,
            (s, there, refl, some_name),
            by_class input (some (trim_space s)) found,
            no_type_left input,
            λ k ne.
                lookup-normalize_fields (IsJson n) (λ x y. Prepares n x y)
                  (normalize_value-Prepares n) k input ne h,
          ),
        )
        | inr (found, blank) ↦ (
          normalize_entries parse_int parse_float input,
          inr (
            λ name named.
                let (s, there, same, some_name) = named in
                absurd (cc (blank s there, same, some_name)),
            by_class input none found,
            λ k.
                lookup-normalize_entries (IsJson n) (λ x y. Prepares n x y)
                  (normalize_value-Prepares n) k input h,
          ),
        )
      ]
  normalize_value-Prepares (suc n) g h = absurd h
