-- ===== src/Core/InvocationProps/Precedence.antt =====
-- What Merge takes for a key: the declaration of the first source that has one.
use sofarpc_cli.Core.InvocationProps.{
  Declaration, Merged, Source, merge_declaration, normalize_input, redact_declaration, Declarations,
  merge_key, merge_keys, merge, redact, keys_of, merge_sources, has_key, sorted_keys,
}
use sofarpc_cli.Prelude.{
  Bool, Bytes, List, Option, [], arith, bytes_eq, bytes_eq_iff, false, if◌then◌else◌, none, some,
  true, ◌∷◌, ◌≡◌, Option-cases, refl, ap, inl, inr,
}
use sofarpc_cli.Prelude.Map.{lookup, lookup-insert}
use sofarpc_cli.Prelude.Sort.{contains, contains-sort_strings, sort_strings}
use sofarpc_cli.Prelude.Result.{ok, err, Result-cases, ok_injective, >>=-eq-ok}

-- The declaration of the first source that has the key, none where that one unsets it.
unfoldable pub effective : Bytes → List Source → Option Declaration
effective key [] = none
effective key (s ∷ rest) = elim (normalize_input s.declarations) [
  | err e ↦ none
  | ok decls ↦ elim (lookup key decls) [
    | none ↦ effective key rest
    | some d ↦ if d.unset then none else some (redact_declaration d)
  ]
]

-- what has been decided for a key: nothing, that it is masked, or its declaration
abbrev status_of : Option Declaration → Bool → Option (Option Declaration)
status_of (some d) hidden = some (some d)
status_of none true = some none
status_of none false = none

abbrev status : Bytes → Merged → Option (Option Declaration)
status key m = status_of (lookup key m.out) (contains key m.masked)

abbrev decided : Option Declaration → Option (Option Declaration)
decided none = none
decided (some d) = some (if d.unset then none else some d)

abbrev or_else :
    Option (Option Declaration) → Option (Option Declaration) → Option (Option Declaration)
or_else (some x) y = some x
or_else none y = y

abbrev redacted_in : Option Declaration → Option Declaration
redacted_in none = none
redacted_in (some d) = some (redact_declaration d)

status-merge_declaration :
    (k key : Bytes) (d : Declaration) (m : Merged)
    → status k (merge_declaration key d m)
      ≡ (if bytes_eq key k then or_else (status k m) (decided (some d)) else status k m)
unfolding merge_declaration contains
status-merge_declaration k key d m = ground (arith, lookup-insert key k d m.out, bytes_eq_iff key k)

status-merge_key :
    (k key : Bytes) (decls : Declarations) (m : Merged)
    → status k (merge_key key decls m)
      ≡ (if bytes_eq key k then or_else (status k m) (decided (lookup k decls)) else status k m)
unfolding merge_key
status-merge_key k key decls m = elim (Option-cases (lookup key decls)) [
  | inl e ↦ rw (e, merge_key) (ground (arith, bytes_eq_iff key k, ap (λ j. lookup j decls)))
  | inr (d, e) ↦
      rw (e, merge_key)
        (ground
          (arith, status-merge_declaration k key d m, bytes_eq_iff key k, ap (λ j. lookup j decls)))
]

status-merge_keys :
    (k : Bytes) (keys : List Bytes) (decls : Declarations) (m : Merged)
    → status k (merge_keys keys decls m)
      ≡ (if contains k keys then or_else (status k m) (decided (lookup k decls)) else status k m)
unfolding merge_keys contains
status-merge_keys k [] decls m = refl
status-merge_keys k (key ∷ keys) decls m =
    ground (
      arith,
      status-merge_keys k keys decls (merge_key key decls m),
      status-merge_key k key decls m,
    )

pub contains-keys_of :
    (k : Bytes) (decls : Declarations) → contains k (keys_of decls) ≡ has_key k decls
unfolding contains keys_of lookup
contains-keys_of k [] = refl
contains-keys_of k ((j, d) ∷ decls) = ground (arith, contains-keys_of k decls)

-- a whole source, whose keys are all visited
merge_source_status :
    (k : Bytes) (decls : Declarations) (m : Merged)
    → status k (merge_keys (sorted_keys decls) decls m)
      ≡ or_else (status k m) (decided (lookup k decls))
unfolding sorted_keys
merge_source_status k decls m = ground (
  arith,
  status-merge_keys k (sort_strings (keys_of decls)) decls m,
  contains-sort_strings k (keys_of decls),
  contains-keys_of k decls,
)

lookup-redact : (k : Bytes) (m : Declarations) → lookup k (redact m) ≡ redacted_in (lookup k m)
unfolding lookup redact
lookup-redact k [] = refl
lookup-redact k ((j, d) ∷ m) = ground (arith, lookup-redact k m)

-- what the sources left over add to what has been decided
abbrev final : Option (Option Declaration) → Option Declaration → Option Declaration
final (some x) rest = redacted_in x
final none rest = rest

merge_sources-lookup :
    (k : Bytes) (sources : List Source) (m m' : Merged)
    → merge_sources sources m ≡ ok m'
    → redacted_in (lookup k m'.out) ≡ final (status k m) (effective k sources)
unfolding merge_sources effective
merge_sources-lookup k [] m m' h = ground arith
merge_sources-lookup k (s ∷ rest) m m' h = elim (Result-cases (normalize_input s.declarations)) [
  | inr (e, bad) ↦ (let h' = rw bad at h in absurd (cc))
  | inl (decls, good) ↦
      let h' : merge_sources rest (merge_keys (sorted_keys decls) decls m) ≡ ok m' = rw good at h in
      rw (good, effective)
        (ground (
          arith,
          merge_sources-lookup k rest (merge_keys (sorted_keys decls) decls m) m' h',
          merge_source_status k decls m,
        ))
]

abbrev nothing_merged : Merged
nothing_merged = record { out = []; masked = [] }

-- What Merge gives for a key is the declaration of the first source that has the key, without white
-- space and with the mark of redaction where it names an environment variable; it gives none where
-- that source unsets the key, whatever the sources below declare, or where no source has it.
pub lookup-merge :
    (sources : List Source) (out : Declarations) (key : Bytes)
    → merge sources ≡ ok out
    → lookup key out ≡ effective key sources
unfolding merge lookup contains
lookup-merge sources out key h =
    let (m, merged, redacted) = >>=-eq-ok (merge_sources sources nothing_merged) _ h in
    ground (
      arith,
      merge_sources-lookup key sources nothing_merged m merged,
      lookup-redact key m.out,
      ap (lookup key) (ok_injective redacted),
    )
