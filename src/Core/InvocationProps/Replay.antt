-- ===== src/Core/InvocationProps/Replay.antt =====
-- Merge and NormalizePlan: a merged set of declarations is one that a plan can hold.
use sofarpc_cli.Prelude.UniqueKeys.{
  HasUniqueKeys, insert-HasUniqueKeys, insert-All, lookup-All, insert-absent, lookup-middle,
}
use sofarpc_cli.Prelude.Map.{insert, lookup}
use sofarpc_cli.Prelude.Sort.{contains}
use sofarpc_cli.Prelude.TrimSpace.Idempotent.{trim_space_idem}
use sofarpc_cli.Core.InvocationProps.{
  Declaration, ValidationMode, check_declaration, count_of, has_value, normalize_declaration,
  redact_as, redact_declaration, redacted_in_input, redacted_without_env, unset_not_replayable,
  not_exactly_one, normalize, normalize_into, merge_keys, Merged, has_key, merge_declaration,
  merge_key, source_error, sorted_keys, Source, duplicated_key, normalize_input, Declarations,
  empty_key, merge_sources, merge, redact, normalize_plan,
}
use sofarpc_cli.Prelude.{
  Bool, Bytes, arith, false, is_empty, not, true, ◌+◌, ◌==◌, ◌≡◌, ◌&&◌, ◌||◌, Option-cases,
  Bool-cases, All, subst, inl, inr, List, [], ◌∷◌, refl, sym, ap, ◌∙◌, none, ◌++◌, append_assoc,
  append-nil,
}
use sofarpc_cli.Prelude.Result.{
  >>_passed, guard_passed, ok, guard, ok_injective, map_err, map_err_ok, >>=-eq-ok,
}
use sofarpc_cli.Prelude.TrimSpace.{trim_space}

abbrev input_mode : ValidationMode
input_mode = record { allow_redacted = false; allow_unset = true; redact_env = false }

abbrev plan_mode : ValidationMode
plan_mode = record { allow_redacted = true; allow_unset = false; redact_env = true }

abbrev one_of_three : Declaration → Bool
one_of_three d = count_of (has_value d) + count_of (not (is_empty d.env)) + count_of d.unset == 1

-- an entry that the checks of an input have let through
abbrev IsClean : Bytes × Declaration → Type 0
IsClean (k, d) =
    (trim_space k ≡ k)
    × (is_empty k ≡ false)
    × (trim_space d.env ≡ d.env)
    × (one_of_three d ≡ true)
    × (d.redacted ≡ false)

-- one that Merge takes over
abbrev IsKept : Bytes × Declaration → Type 0
IsKept (k, d) = IsClean (k, d) × (d.unset ≡ false)

-- one that the checks of a plan leave as it is
abbrev IsFixed : Bytes × Declaration → Type 0
IsFixed (k, d) =
    (trim_space k ≡ k) × (is_empty k ≡ false) × (normalize_declaration k d plan_mode ≡ ok d)

check_declaration-IsClean :
    (k : Bytes) (d d' : Declaration)
    → check_declaration k input_mode d ≡ ok d'
    → (d ≡ d') × (one_of_three d ≡ true) × (d.redacted ≡ false)
unfolding check_declaration redact_as
check_declaration-IsClean k d d' h =
    let (one, h1) = >>_passed (guard (one_of_three d) (not_exactly_one k)) _ h in
    let (needs, h2) =
      >>_passed (guard (not (is_empty d.env && d.redacted)) (redacted_without_env k)) _ h1 in
    let (input, h3) =
      >>_passed (guard (is_empty d.env || false || not d.redacted) (redacted_in_input k)) _ h2 in
    let (replayed, h4) = >>_passed (guard (not d.unset || true) (unset_not_replayable k)) _ h3 in
    let e : d ≡ d' = ground arith in
    let a = guard_passed _ (not_exactly_one k) one in
    let b = guard_passed _ (redacted_without_env k) needs in
    let c = guard_passed _ (redacted_in_input k) input in (e, a, ground arith)

kept-IsFixed : (k : Bytes) (d : Declaration) → IsKept (k, d) → IsFixed (k, redact_declaration d)
unfolding redact_declaration normalize_declaration check_declaration redact_as
kept-IsFixed k d h =
    let ((trimmed, full, env, one, plain), kept) = h in (trimmed, full, ground arith)

normalize_declaration-IsClean :
    (key : Bytes) (d d' : Declaration)
    → is_empty (trim_space key) ≡ false
    → normalize_declaration (trim_space key) d input_mode ≡ ok d'
    → IsClean (trim_space key, d')
unfolding normalize_declaration
normalize_declaration-IsClean key d d' full h =
    let (e, one, plain) =
      check_declaration-IsClean (trim_space key) (record d { env = trim_space d.env }) d' h in
    let fits : IsClean (trim_space key, record d { env = trim_space d.env }) =
      (trim_space_idem key, full, trim_space_idem d.env, one, plain) in
    subst (λ x. IsClean (trim_space key, x)) e fits

normalize_into-IsClean :
    (decls out out' : Declarations)
    → normalize_into input_mode decls out ≡ ok out'
    → All IsClean out
    → HasUniqueKeys out
    → All IsClean out' × HasUniqueKeys out'
unfolding normalize_into
normalize_into-IsClean [] out out' h a u =
    (subst (All IsClean) (ok_injective h) a, subst HasUniqueKeys (ok_injective h) u)
normalize_into-IsClean ((raw_key, d) ∷ rest) out out' h a u =
    let key = trim_space raw_key in
    let (full, h1) = >>_passed (guard (not (is_empty key)) empty_key) _ h in
    let (fresh, h2) = >>_passed (guard (not (has_key key out)) (duplicated_key key)) _ h1 in
    let (d', one, h3) = >>=-eq-ok (normalize_declaration key d input_mode) _ h2 in
    let f : not (is_empty key) ≡ true = guard_passed _ empty_key full in
    let clean = normalize_declaration-IsClean raw_key d d' (ground arith) one in
    normalize_into-IsClean rest (insert key d' out) out' h3 (insert-All IsClean key d' out a clean)
      (insert-HasUniqueKeys key d' out u)

-- Merge keeps what it has, and takes over what is clean.
abbrev IsGood : Merged → Type 0
IsGood m = All IsKept m.out × HasUniqueKeys m.out

merge_declaration-IsGood :
    (key : Bytes) (d : Declaration) (m : Merged)
    → IsClean (key, d)
    → IsGood m
    → IsGood (merge_declaration key d m)
unfolding merge_declaration
merge_declaration-IsGood key d m clean good =
    elim (Bool-cases (has_key key m.out || contains key m.masked)) [
      | inl old ↦ rw old good
      | inr new ↦ elim (Bool-cases d.unset) [
        | inl masks ↦ simp (new, masks) good
        | inr kept ↦
            simp (new, kept)
              (
                insert-All IsKept key d m.out good.0 (clean, kept),
                insert-HasUniqueKeys key d m.out good.1,
              )
      ]
    ]

merge_key-IsGood :
    (key : Bytes) (decls : Declarations) (m : Merged)
    → All IsClean decls
    → IsGood m
    → IsGood (merge_key key decls m)
unfolding merge_key
merge_key-IsGood key decls m clean good = elim (Option-cases (lookup key decls)) [
  | inl e ↦ rw (e, merge_key) good
  | inr (d, e) ↦
      rw (e, merge_key)
        (merge_declaration-IsGood key d m (lookup-All IsClean key d decls clean e) good)
]

merge_keys-IsGood :
    (keys : List Bytes) (decls : Declarations) (m : Merged)
    → All IsClean decls
    → IsGood m
    → IsGood (merge_keys keys decls m)
unfolding merge_keys
merge_keys-IsGood [] decls m clean good = good
merge_keys-IsGood (key ∷ keys) decls m clean good =
    merge_keys-IsGood keys decls (merge_key key decls m) clean
      (merge_key-IsGood key decls m clean good)

merge_sources-IsGood :
    (sources : List Source) (m m' : Merged) → merge_sources sources m ≡ ok m' → IsGood m → IsGood m'
unfolding merge_sources normalize_input normalize
merge_sources-IsGood [] m m' h good = subst IsGood (ok_injective h) good
merge_sources-IsGood (s ∷ rest) m m' h good =
    let (decls, first, h1) =
      >>=-eq-ok (map_err (source_error s.name) (normalize_input s.declarations)) _ h in
    let (clean, unique) =
      normalize_into-IsClean s.declarations [] decls
        (map_err_ok (source_error s.name) (normalize_input s.declarations) first) tt tt in
    merge_sources-IsGood rest (merge_keys (sorted_keys decls) decls m) m' h1
      (merge_keys-IsGood (sorted_keys decls) decls m clean good)

redact-IsFixed : (m : Declarations) → All IsKept m → All IsFixed (redact m)
unfolding redact
redact-IsFixed [] kept = tt
redact-IsFixed ((k, d) ∷ m) kept = (kept-IsFixed k d kept.0, redact-IsFixed m kept.1)

lookup-redact-none : (k : Bytes) (m : Declarations) → lookup k m ≡ none → lookup k (redact m) ≡ none
unfolding redact lookup
lookup-redact-none k [] h = refl
lookup-redact-none k ((j, d) ∷ m) h = ground (arith, lookup-redact-none k m)

redact-HasUniqueKeys : (m : Declarations) → HasUniqueKeys m → HasUniqueKeys (redact m)
unfolding redact
redact-HasUniqueKeys [] u = tt
redact-HasUniqueKeys ((k, d) ∷ m) u = (lookup-redact-none k m u.0, redact-HasUniqueKeys m u.1)

-- The loop over fixed declarations appends each to those before it.
normalize_into-fixed :
    (m out : Declarations)
    → All IsFixed m
    → HasUniqueKeys (out ++ m)
    → normalize_into plan_mode m out ≡ ok (out ++ m)
unfolding normalize_into
normalize_into-fixed [] out fixed u = ap ok (sym (append-nil out))
normalize_into-fixed ((k, d) ∷ m) out fixed u =
    let ((trimmed, full, one), rest) = fixed in
    let fresh : lookup k out ≡ none = lookup-middle k d out m u in
    let added : insert k d out ++ m ≡ out ++ (k, d) ∷ m =
      rw (insert-absent k d out fresh) (append_assoc out ((k, d) ∷ []) m) in
    let u' : HasUniqueKeys (insert k d out ++ m) = subst HasUniqueKeys (sym added) u in
    let new_key : has_key k out ≡ false = rw (fresh, has_key) refl in
    simp (trimmed, full, new_key, one)
      (normalize_into-fixed m (insert k d out) rest u' ∙ ap ok added)

-- A set of declarations that Merge gives is one that NormalizePlan accepts, and leaves as it is.
pub normalize_plan-merge :
    (sources : List Source) (out : Declarations)
    → merge sources ≡ ok out
    → normalize_plan out ≡ ok out
unfolding merge normalize_plan normalize
normalize_plan-merge sources out h =
    let (m, merged, redacted) =
      >>=-eq-ok (merge_sources sources (record { out = []; masked = [] })) _ h in
    let (kept, unique) =
      merge_sources-IsGood sources (record { out = []; masked = [] }) m merged (tt, tt) in
    subst (λ x. normalize_into plan_mode x [] ≡ ok x) (ok_injective redacted)
      (normalize_into-fixed (redact m.out) [] (redact-IsFixed m.out kept)
        (redact-HasUniqueKeys m.out unique))
