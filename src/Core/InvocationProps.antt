-- ===== src/Core/InvocationProps.antt =====
-- internal/core/invocationprops/properties.go: the declarations of invocation properties, their
-- validation, their merge by precedence, and their resolution against the environment. The JSON
-- decoding of a declaration is left out, and an error keeps its kind and its key.
pub mod Precedence
pub mod Replay
pub mod Resolve
use sofarpc_cli.Prelude.Result.{Result, ok, err, ◌>>=◌, ◌>>◌, guard, map_err}
use sofarpc_cli.Prelude.{
  Bool, Bytes, List, Option, [], false, if◌then◌else◌, is_empty, none, not, some, true, ℕ, ◌&&◌,
  ◌+◌, ◌==◌, ◌||◌, ◌∷◌,
}
use sofarpc_cli.Prelude.Map.{Map, insert, lookup}
use sofarpc_cli.Prelude.Sort.{contains, sort_strings}
use sofarpc_cli.Prelude.TrimSpace.{trim_space}

pub record Declaration : Type 0 where
  pub value : Option Bytes
  pub env : Bytes
  pub unset : Bool
  pub redacted : Bool

abbrev pub Declarations : Type 0
Declarations = Map Declaration

pub record Source : Type 0 where
  pub name : Bytes
  pub declarations : Declarations

pub record ValidationMode : Type 0 where
  pub allow_redacted : Bool
  pub allow_unset : Bool
  pub redact_env : Bool

pub data PropsError : Type 0 where
  empty_key : PropsError
  duplicated_key not_exactly_one redacted_without_env : Bytes → PropsError
  redacted_in_input unset_not_replayable env_missing : Bytes → PropsError
  in_source : Bytes → PropsError → PropsError

pub record EnvStatus : Type 0 where
  pub key : Bytes
  pub env_name : Bytes
  pub present : Bool
  pub empty : Bool

abbrev count_of : Bool → ℕ
count_of true = 1
count_of false = 0

abbrev pub has_value : Declaration → Bool
has_value d = elim d.value [ none ↦ false | some v ↦ true ]

-- the declaration that the checks have let through
unfoldable pub redact_as : ValidationMode → Declaration → Declaration
redact_as mode d =
    if not (is_empty d.env) && mode.redact_env then record d { redacted = true } else d

check_declaration : Bytes → ValidationMode → Declaration → Result PropsError Declaration
unfolding redact_as
check_declaration key mode d = do
  guard (count_of (has_value d) + count_of (not (is_empty d.env)) + count_of d.unset == 1)
      (not_exactly_one key)
  guard (not (is_empty d.env && d.redacted)) (redacted_without_env key)
  guard (is_empty d.env || mode.allow_redacted || not d.redacted) (redacted_in_input key)
  guard (not d.unset || mode.allow_unset) (unset_not_replayable key)
  ok (redact_as mode d)

unfoldable pub normalize_declaration :
    Bytes → Declaration → ValidationMode → Result PropsError Declaration
unfolding check_declaration
normalize_declaration key d mode = check_declaration key mode (record d { env = trim_space d.env })

abbrev pub has_key : Bytes → Declarations → Bool
has_key k m = elim (lookup k m) [ none ↦ false | some d ↦ true ]

-- the loop over the declarations, into `out`
unfoldable pub normalize_into :
    ValidationMode → Declarations → Declarations → Result PropsError Declarations
normalize_into mode [] out = ok out
normalize_into mode ((raw_key, d) ∷ rest) out = do
  let key = trim_space raw_key
  guard (not (is_empty key)) empty_key
  guard (not (has_key key out)) (duplicated_key key)
  normalized ← normalize_declaration key d mode
  normalize_into mode rest (insert key normalized out)

unfoldable pub normalize : Declarations → ValidationMode → Result PropsError Declarations
normalize decls mode = normalize_into mode decls []

unfoldable pub normalize_input : Declarations → Result PropsError Declarations
normalize_input decls =
    normalize decls (record { allow_redacted = false; allow_unset = true; redact_env = false })

unfoldable pub normalize_plan : Declarations → Result PropsError Declarations
normalize_plan decls =
    normalize decls (record { allow_redacted = true; allow_unset = false; redact_env = true })

unfoldable pub redact_declaration : Declaration → Declaration
redact_declaration d =
    if is_empty (trim_space d.env) then d else record d { env = trim_space d.env; redacted = true }

unfoldable pub redact : Declarations → Declarations
redact [] = []
redact ((k, d) ∷ m) = (k, redact_declaration d) ∷ redact m

unfoldable pub keys_of : Declarations → List Bytes
keys_of [] = []
keys_of ((k, d) ∷ m) = k ∷ keys_of m

unfoldable pub sorted_keys : Declarations → List Bytes
unfolding keys_of
sorted_keys decls = sort_strings (keys_of decls)

-- what Merge has decided so far
pub record Merged : Type 0 where
  pub out : Declarations
  pub masked : List Bytes

-- one key of a source
unfoldable pub merge_declaration : Bytes → Declaration → Merged → Merged
merge_declaration key d m =
    if has_key key m.out || contains key m.masked
    then m
    else if d.unset
    then record m { masked = key ∷ m.masked }
    else record m { out = insert key d m.out }

unfoldable pub merge_key : Bytes → Declarations → Merged → Merged
merge_key key decls m = elim (lookup key decls) [ none ↦ m | some d ↦ merge_declaration key d m ]

unfoldable pub merge_keys : List Bytes → Declarations → Merged → Merged
merge_keys [] decls m = m
merge_keys (key ∷ keys) decls m = merge_keys keys decls (merge_key key decls m)

unfoldable pub source_error : Bytes → PropsError → PropsError
source_error name e = if is_empty (trim_space name) then e else in_source (trim_space name) e

unfoldable pub merge_sources : List Source → Merged → Result PropsError Merged
unfolding source_error
merge_sources [] m = ok m
merge_sources (s ∷ rest) m = do
  decls ← map_err (source_error s.name) (normalize_input s.declarations)
  merge_sources rest (merge_keys (sorted_keys decls) decls m)

unfoldable pub merge : List Source → Result PropsError Declarations
merge sources = merge_sources sources (record { out = []; masked = [] }) >>= λ m. ok (redact m.out)

-- `look` is os.LookupEnv, which every caller passes.
module _ (look : Bytes → Option Bytes) where
  unfoldable pub resolve_env : Bytes → Bytes → Result PropsError Bytes
  resolve_env key name = elim (look name) [
    | none ↦ err (env_missing key)
    | some v ↦ if is_empty v then err (env_missing key) else ok v
  ]

  unfoldable pub resolve_declaration :
      Bytes → Declaration → Map Bytes → Result PropsError (Map Bytes)
  resolve_declaration key d out = elim d.value [
    | some v ↦ ok (insert key v out)
    | none ↦
        if is_empty (trim_space d.env)
        then ok out
        else (resolve_env key d.env >>= λ v. ok (insert key v out))
  ]

  unfoldable pub resolve_keys :
      List Bytes → Declarations → Map Bytes → Result PropsError (Map Bytes)
  resolve_keys [] decls out = ok out
  resolve_keys (key ∷ keys) decls out = elim (lookup key decls) [
    | none ↦ resolve_keys keys decls out
    | some d ↦ (resolve_declaration key d out >>= λ out'. resolve_keys keys decls out')
  ]

  unfoldable pub resolve : Declarations → Result PropsError (Map Bytes)
  resolve decls = do
    normalized ← normalize_plan decls
    resolve_keys (sorted_keys normalized) normalized []

  env_status : Bytes → Bytes → EnvStatus
  env_status key name = elim (look name) [
    | none ↦ record { key = key; env_name = name; present = false; empty = false }
    | some v ↦ record { key = key; env_name = name; present = true; empty = is_empty v }
  ]

  unfoldable pub env_statuses : List Bytes → Declarations → List EnvStatus
  unfolding env_status
  env_statuses [] decls = []
  env_statuses (key ∷ keys) decls = elim (lookup key decls) [
    | none ↦ env_statuses keys decls
    | some d ↦
        let rest = env_statuses keys decls in
        if is_empty (trim_space d.env) then rest else env_status key d.env ∷ rest
  ]

  unfoldable pub check_env : Declarations → Result PropsError (List EnvStatus)
  check_env decls = do
    normalized ← normalize_plan decls
    ok (env_statuses (sorted_keys normalized) normalized)
