-- ===== src/Wire/RoundTrip/Ordered.antt =====
-- The keys in the order of the writer: each once, as the map has them.
use sofarpc_cli.Prelude.{
  All, Bool-cases, Bytes, List, Option-cases, [], ap, arith, bytes_eq, bytes_eq_iff, false, inl,
  inr, length, none, refl, some, subst, suc, ◌∙◌, ◌∷◌, ◌≡◌,
}
use sofarpc_cli.Prelude.Map.{Map, delete, keys, lookup, lookup-delete}
use sofarpc_cli.Prelude.Sort.{
  bytes_le, contains, contains-insert_sorted, contains-sort_strings, insert_sorted, sort_strings,
}
use sofarpc_cli.Wire.RoundTrip.Entries.{AreDistinct}
use sofarpc_cli.Prelude.UniqueKeys.{HasUniqueKeys, delete-HasUniqueKeys, is_some, lookup-All}
use sofarpc_cli.Wire.Encoder.{
  Arg, go_nil, ordered_map_keys, ordered_object_field_keys, type_key, values_at, value_at,
}

contains-keys : (k : Bytes) (m : Map Arg) → contains k (keys m) ≡ is_some (lookup k m)
unfolding contains keys lookup
contains-keys k [] = refl
contains-keys k ((j, v) ∷ m) = ground (arith, contains-keys k m)

keys-AreDistinct : (m : Map Arg) → HasUniqueKeys m → AreDistinct (keys m)
unfolding keys
keys-AreDistinct [] u = tt
keys-AreDistinct ((k, v) ∷ m) u = (contains-keys k m ∙ ap is_some u.0, keys-AreDistinct m u.1)

insert_sorted-AreDistinct :
    (k : Bytes) (ks : List Bytes)
    → contains k ks ≡ false
    → AreDistinct ks
    → AreDistinct (insert_sorted k ks)
unfolding insert_sorted contains
insert_sorted-AreDistinct k [] c u = (refl, tt)
insert_sorted-AreDistinct k (j ∷ ks) c u = elim (Bool-cases (bytes_le k j)) [
  | inl before ↦ rw before (c, u)
  | inr behind ↦ rw behind (
    ground (arith, contains-insert_sorted j k ks, bytes_eq_iff j k, bytes_eq_iff k j, u.0),
    insert_sorted-AreDistinct k ks (ground arith) u.1,
  )
]

sort_strings-AreDistinct : (ks : List Bytes) → AreDistinct ks → AreDistinct (sort_strings ks)
unfolding sort_strings
sort_strings-AreDistinct [] u = tt
sort_strings-AreDistinct (k ∷ ks) u =
    insert_sorted-AreDistinct k (sort_strings ks) (contains-sort_strings k ks ∙ u.0)
      (sort_strings-AreDistinct ks u.1)

module _ (P : Bytes → Type 0) where
  insert_sorted-All : (k : Bytes) (ks : List Bytes) → P k → All P ks → All P (insert_sorted k ks)
  unfolding insert_sorted
  insert_sorted-All k [] p a = (p, tt)
  insert_sorted-All k (j ∷ ks) p a = elim (Bool-cases (bytes_le k j)) [
    | inl before ↦ rw before (p, a)
    | inr behind ↦ rw behind (a.0, insert_sorted-All k ks p a.1)
  ]

  sort_strings-All : (ks : List Bytes) → All P ks → All P (sort_strings ks)
  unfolding sort_strings
  sort_strings-All [] a = tt
  sort_strings-All (k ∷ ks) a = insert_sorted-All k (sort_strings ks) a.0 (sort_strings-All ks a.1)

  delete-All : (k : Bytes) (m : Map Arg) → All P (keys m) → All P (keys (delete k m))
  unfolding keys delete
  delete-All k [] a = tt
  delete-All k ((j, v) ∷ m) a = elim (Bool-cases (bytes_eq j k)) [
    | inl same ↦ rw same (delete-All k m a.1)
    | inr other ↦ rw other (a.0, delete-All k m a.1)
  ]

  found-All : (k : Bytes) (v : Arg) (m : Map Arg) → All P (keys m) → lookup k m ≡ some v → P k
  unfolding keys lookup
  found-All k v [] a h = absurd (cc)
  found-All k v ((j, w) ∷ m) a h = elim (Bool-cases (bytes_eq j k)) [
    | inl same ↦ subst P ((bytes_eq_iff j k).0 same) a.0
    | inr other ↦ found-All k v m a.1 (rw other at h)
  ]

  pub ordered_object_field_keys-All :
      (m : Map Arg) → All P (keys m) → All P (ordered_object_field_keys m)
  unfolding ordered_object_field_keys
  ordered_object_field_keys-All m a = sort_strings-All (keys m) a

  pub ordered_map_keys-All : (m : Map Arg) → All P (keys m) → All P (ordered_map_keys m)
  unfolding ordered_map_keys
  ordered_map_keys-All m a =
      let extra = sort_strings-All (keys (delete type_key m)) (delete-All type_key m a) in
      elim (Option-cases (lookup type_key m)) [
        | inl none_there ↦ rw (none_there, ordered_map_keys) extra
        | inr (v, there) ↦ rw (there, ordered_map_keys) (found-All type_key v m a there, extra)
      ]

pub ordered_object_field_keys-AreDistinct :
    (m : Map Arg) → HasUniqueKeys m → AreDistinct (ordered_object_field_keys m)
unfolding ordered_object_field_keys
ordered_object_field_keys-AreDistinct m u = sort_strings-AreDistinct (keys m) (keys-AreDistinct m u)

pub ordered_map_keys-AreDistinct :
    (m : Map Arg) → HasUniqueKeys m → AreDistinct (ordered_map_keys m)
unfolding ordered_map_keys
ordered_map_keys-AreDistinct m u =
    let others = delete type_key m in
    let extra =
      sort_strings-AreDistinct (keys others)
        (keys-AreDistinct others (delete-HasUniqueKeys type_key m u)) in
    let gone : lookup type_key others ≡ none =
      ground (arith, lookup-delete type_key type_key m, bytes_eq_iff type_key type_key) in
    elim (Option-cases (lookup type_key m)) [
      | inl none_there ↦ rw (none_there, ordered_map_keys) extra
      | inr (v, there) ↦
          rw (there, ordered_map_keys)
            (
              contains-sort_strings type_key (keys others)
                  ∙ contains-keys type_key others
                  ∙ ap is_some gone,
              extra,
            )
    ]

pub length-values_at :
    (names : List Bytes) (m : Map Arg) → length names ≡ length (values_at names m)
unfolding values_at
length-values_at [] m = refl
length-values_at (k ∷ names) m = ap suc (length-values_at names m)

value_at-All :
    (P : Arg → Type 0) (k : Bytes) (m : Map Arg) → P go_nil → All (λ e. P e.1) m → P (value_at k m)
value_at-All P k m p a = elim (Option-cases (lookup k m)) [
  | inl absent ↦ rw (absent, value_at) p
  | inr (v, there) ↦ rw (there, value_at) (lookup-All (λ e. P e.1) k v m a there)
]

pub values_at-All :
    (P : Arg → Type 0) (names : List Bytes) (m : Map Arg)
    → P go_nil
    → All (λ e. P e.1) m
    → All P (values_at names m)
unfolding values_at
values_at-All P [] m p a = tt
values_at-All P (k ∷ names) m p a = (value_at-All P k m p a, values_at-All P names m p a)
