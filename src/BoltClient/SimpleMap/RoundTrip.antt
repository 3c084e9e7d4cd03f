-- ===== src/BoltClient/SimpleMap/RoundTrip.antt =====
-- DecodeSimpleMap reads back what EncodeSimpleMap wrote, and ends on every input.
use sofarpc_cli.Prelude.UniqueKeys.{is_some, HasUniqueKeys}
use sofarpc_cli.BoltClient.SimpleMap.Keys.{contains-ordered_simple_map_keys}
use sofarpc_cli.BoltClient.SimpleMap.{
  append_entries, append_sized_string, decode_entries, ok, or_nil, read_sized_string, MapError,
  MapResult, stuck, err, keys_of, encode_simple_map, decode_simple_map, ordered_simple_map_keys,
}
use sofarpc_cli.Prelude.{
  Bytes, List, [], arith, bytes_eq_iff, drop-append, if◌then◌else◌, length, length-append, refl,
  some, suc, sym, take-append, zero, ℕ, ◌++◌, ◌<◌, ◌^◌, ◌∙◌, ◌∷◌, ◌≡◌, ◌≤◌, Bool-cases,
  bytes_eq_refl, bytes_eq, length-drop, drop, ◌+◌, subst, ◌≢◌, ◌⊎◌, inl, inr, true, Option, none,
  append-nil, append_assoc,
}
use sofarpc_cli.Prelude.BigEndian.{be32, byte_at, u32_at}
use sofarpc_cli.Prelude.Map.{Map, insert, lookup, lookup-insert}
use sofarpc_cli.Prelude.Sort.{contains, sort_strings}

abbrev IsShort : Bytes → Type 0
IsShort s = length s < 2 ^ 32

-- Keys and values whose lengths fit the four bytes that hold them.
abbrev pub HasShortEntries : Map Bytes → Type 0
HasShortEntries [] = Unit {0}
HasShortEntries ((k, v) ∷ m) = IsShort k × IsShort v × HasShortEntries m

abbrev sized : Bytes → Bytes
sized v = be32 (length v) ++ v

abbrev entries : List Bytes → Map Bytes → Bytes
entries [] m = []
entries (k ∷ ks) m = sized k ++ (sized (or_nil (lookup k m)) ++ entries ks m)

append_entries-entries :
    (buf : Bytes) (ks : List Bytes) (m : Map Bytes) → append_entries buf ks m ≡ buf ++ entries ks m
unfolding append_entries append_sized_string
append_entries-entries buf [] m = sym (append-nil buf)
append_entries-entries buf (k ∷ ks) m =
    append_entries-entries (append_sized_string (append_sized_string buf k) (or_nil (lookup k m)))
      ks m
    ∙ simp append_assoc

u32_at-be32 : (n : ℕ) (rest : Bytes) → n < 2 ^ 32 → u32_at 0 (be32 n ++ rest) ≡ n
unfolding u32_at byte_at
u32_at-be32 n rest h = omega arith

read_sized_string-sized :
    (v rest : Bytes) → IsShort v → read_sized_string (sized v ++ rest) ≡ ok (v, rest)
unfolding read_sized_string
read_sized_string-sized v rest h = ground (
  arith,
  u32_at-be32 (length v) (v ++ rest) h,
  length-append v rest,
  take-append v rest,
  drop-append v rest,
)

abbrev insert_all : List Bytes → Map Bytes → Map Bytes → Map Bytes
insert_all [] m out = out
insert_all (k ∷ ks) m out = insert_all ks m (insert k (or_nil (lookup k m)) out)

abbrev AllShort : List Bytes → Map Bytes → Type 0
AllShort [] m = Unit {0}
AllShort (k ∷ ks) m = IsShort k × IsShort (or_nil (lookup k m)) × AllShort ks m

decode_entries-entries :
    (fuel : ℕ) (ks : List Bytes) (m out : Map Bytes)
    → AllShort ks m
    → length (entries ks m) ≤ fuel
    → decode_entries fuel (entries ks m) out ≡ ok (insert_all ks m out)
unfolding decode_entries
decode_entries-entries zero [] m out h l = refl
decode_entries-entries (suc fuel) [] m out h l = refl
decode_entries-entries zero (k ∷ ks) m out h l = absurd (omega arith)
decode_entries-entries (suc fuel) (k ∷ ks) m out (hk, hv, hs) l =
    let v = or_nil (lookup k m) in
    rw
      (
        read_sized_string-sized k (sized v ++ entries ks m) hk,
        read_sized_string-sized v (entries ks m) hv,
      )
      (decode_entries-entries fuel ks m (insert k v out) hs
        (omega (arith, length-append k (sized v ++ entries ks m), length-append v (entries ks m))))

lookup-insert_all :
    (j : Bytes) (ks : List Bytes) (m out : Map Bytes)
    → lookup j (insert_all ks m out)
      ≡ (if contains j ks then some (or_nil (lookup j m)) else lookup j out)
unfolding contains
lookup-insert_all j [] m out = refl
lookup-insert_all j (k ∷ ks) m out = ground (
  arith,
  lookup-insert_all j ks m (insert k (or_nil (lookup k m)) out),
  lookup-insert k j (or_nil (lookup k m)) out,
  bytes_eq_iff k j,
)

IsShort-entry :
    (k : Bytes) (m : Map Bytes)
    → HasShortEntries m
    → is_some (lookup k m) ≡ true
    → IsShort k × IsShort (or_nil (lookup k m))
unfolding lookup
IsShort-entry k [] h s = cc
IsShort-entry k ((j, v) ∷ m) (hj, hv, hm) s = elim (Bool-cases (bytes_eq j k)) [
  | inl e ↦ rw e (subst IsShort ((bytes_eq_iff j k).0 e) hj, hv)
  | inr ne ↦ rw ne (IsShort-entry k m hm (ground arith))
]

all_short :
    (ks : List Bytes) (m : Map Bytes)
    → HasShortEntries m
    → ((j : Bytes) → contains j ks ≡ true → is_some (lookup j m) ≡ true)
    → AllShort ks m
unfolding contains
all_short [] m h f = tt
all_short (k ∷ ks) m h f =
    let (short_key, short_value) = IsShort-entry k m h (f k (ground (arith, bytes_eq_refl k))) in
    (short_key, short_value, all_short ks m h (λ j c. f j (ground arith)))

or_nil-some : (o : Option Bytes) → (if is_some o then some (or_nil o) else none) ≡ o
or_nil-some none = refl
or_nil-some (some v) = refl

encode_simple_map-entries :
    (m : Map Bytes) → encode_simple_map m ≡ entries (ordered_simple_map_keys m) m
unfolding encode_simple_map
encode_simple_map-entries [] = unfold ordered_simple_map_keys keys_of sort_strings in refl
encode_simple_map-entries (e ∷ m) =
    append_entries-entries [] (ordered_simple_map_keys (e ∷ m)) (e ∷ m)

-- For a map with distinct keys, whose keys and values are shorter than 2 ^ 32 bytes, decoding the
-- encoded map succeeds with a map that has the same value, or none, at every key.
pub decode_simple_map-encode_simple_map :
    (m : Map Bytes)
    → HasUniqueKeys m
    → HasShortEntries m
    → (d : Map Bytes) × (decode_simple_map (encode_simple_map m) ≡ ok d)
      × ((j : Bytes) → lookup j d ≡ lookup j m)
unfolding decode_simple_map
decode_simple_map-encode_simple_map m u h =
    let ks = ordered_simple_map_keys m in
    let short = all_short ks m h (λ j c. sym (contains-ordered_simple_map_keys j m u) ∙ c) in
    (
      insert_all ks m [],
      rw encode_simple_map-entries (decode_entries-entries _ ks m [] short (omega arith)),
      λ j.
          rw (lookup-insert_all j ks m [], contains-ordered_simple_map_keys j m u)
            (unfold lookup in or_nil-some (lookup j m)),
    )

read_sized_string-shrinks :
    (bs v rest : Bytes) → read_sized_string bs ≡ ok (v, rest) → length rest + 4 ≤ length bs
unfolding read_sized_string
read_sized_string-shrinks bs v rest e =
    ground (arith, length-drop (u32_at 0 bs) (drop 4 bs), length-drop 4 bs)

MapResult-cases {ℓ} :
    {A : Type ℓ} (r : MapResult A)
    → ((a : A) × (r ≡ ok a)) ⊎ (((e : MapError) × (r ≡ err e)) ⊎ (r ≡ stuck))
MapResult-cases (ok a) = inl (a, refl)
MapResult-cases (err e) = inr (inl (e, refl))
MapResult-cases stuck = inr (inr refl)

read_sized_string-ne-stuck : (bs : Bytes) → read_sized_string bs ≢ stuck
unfolding read_sized_string
read_sized_string-ne-stuck bs e = ground arith

decode_entries-ne-stuck :
    (fuel : ℕ) (bs : Bytes) (out : Map Bytes)
    → length bs ≤ fuel
    → decode_entries fuel bs out ≢ stuck
unfolding decode_entries
decode_entries-ne-stuck zero [] out h = λ e. cc
decode_entries-ne-stuck (suc fuel) [] out h = λ e. cc
decode_entries-ne-stuck zero (b ∷ bs) out h = absurd (omega arith)
decode_entries-ne-stuck (suc fuel) (b ∷ bs) out h =
    elim (MapResult-cases (read_sized_string (b ∷ bs))) [
      | inr (inr s) ↦ absurd (read_sized_string-ne-stuck (b ∷ bs) s)
      | inr (inl (x, e)) ↦ rw e (λ p. cc)
      | inl ((key, behind), e) ↦ elim (MapResult-cases (read_sized_string behind)) [
        | inr (inr s) ↦ absurd (read_sized_string-ne-stuck behind s)
        | inr (inl (x, e')) ↦ rw (e, e') (λ p. cc)
        | inl ((value, after), e') ↦
            rw (e, e')
              (decode_entries-ne-stuck fuel after (insert key value out) (
                omega (
                  arith,
                  read_sized_string-shrinks (b ∷ bs) key behind e,
                  read_sized_string-shrinks behind value after e',
                )))
      ]
    ]

-- DecodeSimpleMap ends on every input, with a map or with an error.
pub decode_simple_map-ne-stuck : (bs : Bytes) → decode_simple_map bs ≢ stuck
unfolding decode_simple_map
decode_simple_map-ne-stuck bs = decode_entries-ne-stuck (length bs) bs [] (omega arith)
