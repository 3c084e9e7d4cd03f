-- ===== src/Core/InvocationProps/Resolve.antt =====
-- Resolve: what it reads from the environment for a key.
use sofarpc_cli.Prelude.Result.{ok, ◌>>=◌, >>=-eq-ok, Result-cases}
use sofarpc_cli.Core.InvocationProps.Precedence.{contains-keys_of}
use sofarpc_cli.Core.InvocationProps.{resolve, normalize_plan, sorted_keys, keys_of}
use sofarpc_cli.Core.InvocationProps.{
  Declaration, Declarations, resolve_declaration, resolve_env, resolve_keys,
}
use sofarpc_cli.Prelude.{
  Bytes, List, Option, Option-cases, [], arith, bytes_eq, if◌then◌else◌, inl, inr, is_empty, none,
  some, ◌∷◌, ◌≡◌, bytes_eq_iff, refl, ap,
}
use sofarpc_cli.Prelude.Map.{Map, lookup, lookup-insert}
use sofarpc_cli.Prelude.Sort.{contains, contains-sort_strings}
use sofarpc_cli.Prelude.TrimSpace.{trim_space}

-- what a declaration gives in an environment
unfoldable pub value_of : (Bytes → Option Bytes) → Option Declaration → Option Bytes
value_of look none = none
value_of look (some d) = elim d.value [
  | some v ↦ some v
  | none ↦ if is_empty (trim_space d.env) then none else look d.env
]

abbrev or_kept : Option Bytes → Option Bytes → Option Bytes
or_kept (some v) old = some v
or_kept none old = old

value_of-none : (look : Bytes → Option Bytes) → value_of look none ≡ none
unfolding value_of
value_of-none look = refl

resolve_env_value :
    (look : Bytes → Option Bytes) (key name v : Bytes)
    → resolve_env look key name ≡ ok v
    → look name ≡ some v
unfolding resolve_env
resolve_env_value look key name v h = ground arith

resolve_declaration-lookup :
    (look : Bytes → Option Bytes) (k key : Bytes) (d : Declaration) (out out' : Map Bytes)
    → resolve_declaration look key d out ≡ ok out'
    → lookup k out'
      ≡ (if bytes_eq key k then or_kept (value_of look (some d)) (lookup k out) else lookup k out)
unfolding resolve_declaration value_of
resolve_declaration-lookup look k key d out out' h = elim (Option-cases d.value) [
  | inr (v, e) ↦ ground (arith, lookup-insert key k v out)
  | inl e ↦ elim (Result-cases (resolve_env look key d.env)) [
    | inl (v, found) ↦
        ground (arith, lookup-insert key k v out, resolve_env_value look key d.env v found)
    | inr (x, missing) ↦ ground arith
  ]
]

resolve_keys-lookup :
    (look : Bytes → Option Bytes) (k : Bytes) (keys : List Bytes) (decls : Declarations)
    (out out' : Map Bytes)
    → resolve_keys look keys decls out ≡ ok out'
    → lookup k out' ≡ (
        if contains k keys
        then or_kept (value_of look (lookup k decls)) (lookup k out)
        else lookup k out)
unfolding resolve_keys contains
resolve_keys-lookup look k [] decls out out' h = ground arith
resolve_keys-lookup look k (key ∷ keys) decls out out' h = elim (Option-cases (lookup key decls)) [
  | inl e ↦
      let h' : resolve_keys look keys decls out ≡ ok out' = rw (e, resolve_keys) at h in
      ground (
        arith,
        resolve_keys-lookup look k keys decls out out' h',
        bytes_eq_iff key k,
        ap (λ j. value_of look (lookup j decls)),
        ap (value_of look) e,
        value_of-none look,
      )
  | inr (d, e) ↦
      let h' : (resolve_declaration look key d out >>= λ x. resolve_keys look keys decls x)
          ≡ ok out' =
        rw (e, resolve_keys) at h in
      let (mid, first, rest) = >>=-eq-ok (resolve_declaration look key d out) _ h' in
      ground (
        arith,
        resolve_keys-lookup look k keys decls mid out' rest,
        resolve_declaration-lookup look k key d out mid first,
        bytes_eq_iff key k,
        ap (λ j. value_of look (lookup j decls)),
        ap (value_of look) e,
      )
]

-- Where Resolve succeeds, a property has the value of the declaration that the plan holds for it
-- after the checks: the value that is written there, or that of the environment variable it names.
pub lookup-resolve :
    (look : Bytes → Option Bytes) (decls normalized : Declarations) (out : Map Bytes) (key : Bytes)
    → normalize_plan decls ≡ ok normalized
    → resolve look decls ≡ ok out
    → lookup key out ≡ value_of look (lookup key normalized)
unfolding resolve sorted_keys lookup
lookup-resolve look decls normalized out key n h =
    let h' : resolve_keys look (sorted_keys normalized) normalized [] ≡ ok out = rw n at h in
    ground (
      arith,
      resolve_keys-lookup look key (sorted_keys normalized) normalized [] out h',
      contains-sort_strings key (keys_of normalized),
      contains-keys_of key normalized,
      value_of-none look,
    )
