-- ===== src/JavaType.antt =====
-- internal/javatype: the role of a Java type in an invocation (role.go), and the JSON placeholder
-- that a description shows for it (placeholder.go). A lookup of classes is two functions, none
-- where the class is not known.
pub mod Agreement
use sofarpc_cli.Prelude.{
  Bytes, List, Option, [], bytes_eq, codes, if◌then◌else◌, is_empty, length, none, reverse, some,
  suc, zero, ℕ, ◌&&◌, ◌++◌, ◌==◌, ◌||◌, ◌∷◌,
}
use sofarpc_cli.Prelude.Sort.{contains}

pub data Role : Type 0 where
  unknown passthrough container user_type : Role

pub record ClassLookup : Type 0 where
  pub superclass : Bytes → Option Bytes
  pub interfaces : Bytes → Option (List Bytes)

unfoldable pub primitives : List Bytes
primitives =
    codes "boolean"
    ∷ codes "byte"
    ∷ codes "short"
    ∷ codes "int"
    ∷ codes "long"
    ∷ codes "float"
    ∷ codes "double"
    ∷ codes "char"
    ∷ codes "void"
    ∷ []

unfoldable pub passthrough_bases : List Bytes
passthrough_bases =
    codes "java.lang.String"
    ∷ codes "java.lang.CharSequence"
    ∷ codes "java.lang.Boolean"
    ∷ codes "java.lang.Byte"
    ∷ codes "java.lang.Short"
    ∷ codes "java.lang.Integer"
    ∷ codes "java.lang.Long"
    ∷ codes "java.lang.Float"
    ∷ codes "java.lang.Double"
    ∷ codes "java.lang.Character"
    ∷ codes "java.lang.Number"
    ∷ codes "java.lang.Enum"
    ∷ codes "java.math.BigInteger"
    ∷ codes "java.math.BigDecimal"
    ∷ codes "java.util.Date"
    ∷ codes "java.sql.Date"
    ∷ codes "java.sql.Time"
    ∷ codes "java.sql.Timestamp"
    ∷ codes "java.util.UUID"
    ∷ codes "java.time.Instant"
    ∷ codes "java.time.LocalDate"
    ∷ codes "java.time.LocalDateTime"
    ∷ codes "java.time.LocalTime"
    ∷ codes "java.time.OffsetDateTime"
    ∷ codes "java.time.ZonedDateTime"
    ∷ codes "java.time.Duration"
    ∷ codes "java.time.Period"
    ∷ codes "java.time.temporal.Temporal"
    ∷ []

unfoldable pub container_bases : List Bytes
container_bases =
    codes "java.util.Collection"
    ∷ codes "java.util.List"
    ∷ codes "java.util.Set"
    ∷ codes "java.util.Queue"
    ∷ codes "java.util.Deque"
    ∷ codes "java.util.Map"
    ∷ codes "java.lang.Iterable"
    ∷ []

unfoldable pub builtin_role : Bytes → Option Role
builtin_role fqn =
    if contains fqn container_bases
    then some container
    else if contains fqn passthrough_bases
    then some passthrough
    else none

-- The suffix "[]" is taken off while more than two bytes are there; `rev` is turned round.
unfoldable pub strip_arrays : ℕ → Bytes → Bytes
strip_arrays (suc fuel) (b ∷ a ∷ c ∷ rest) =
    let shorter = strip_arrays fuel (c ∷ rest) in
    if b == b']' && a == b'[' then shorter else b ∷ a ∷ c ∷ rest
strip_arrays _ rev = rev

unfoldable pub before_angle : Bytes → Bytes
before_angle [] = []
before_angle (b ∷ bs) = if b == b'<' then [] else b ∷ before_angle bs

unfoldable pub drop_blanks : Bytes → Bytes
drop_blanks [] = []
drop_blanks (b ∷ bs) = if b == b' ' || b == b'\t' then drop_blanks bs else b ∷ bs

unfoldable pub trim : Bytes → Bytes
unfolding drop_blanks
trim s = reverse (drop_blanks (reverse (drop_blanks s)))

unfoldable pub normalize : Bytes → Bytes
unfolding strip_arrays before_angle trim
normalize fqn = trim (before_angle (reverse (strip_arrays (length fqn) (reverse fqn))))

abbrev superclass_of : ClassLookup → Bytes → List Bytes
superclass_of classes fqn = elim (classes.superclass fqn) [
  | none ↦ []
  | some super ↦ if is_empty super then [] else normalize super ∷ []
]

abbrev names_of : List Bytes → List Bytes
names_of [] = []
names_of (i ∷ is) = if is_empty i then names_of is else normalize i ∷ names_of is

abbrev interfaces_of : ClassLookup → Bytes → List Bytes
interfaces_of classes fqn = elim (classes.interfaces fqn) [ none ↦ [] | some is ↦ names_of is ]

-- The walk over the supertypes, nearest first; none means that the fuel ran out.
unfoldable pub walk : ℕ → ClassLookup → List Bytes → List Bytes → Option Role
walk fuel classes seen [] = some user_type
walk zero classes seen (current ∷ frontier) = none
walk (suc fuel) classes seen (current ∷ frontier) =
    let skip = walk fuel classes seen frontier in
    let further =
      walk fuel classes (current ∷ seen)
        (frontier ++ (superclass_of classes current ++ interfaces_of classes current)) in
    if is_empty current || contains current seen
    then skip
    else elim (builtin_role current) [ some role ↦ some role | none ↦ further ]

unfoldable pub classify : ℕ → Bytes → Option ClassLookup → Option Role
classify fuel fqn classes =
    let base = normalize fqn in
    if is_empty base
    then some unknown
    else if contains base primitives
    then some passthrough
    else elim (builtin_role base) [
      | some role ↦ some role
      | none ↦ elim classes [ none ↦ some user_type | some known ↦ walk fuel known [] (base ∷ []) ]
    ]

pub data PlaceholderKind : Type 0 where
  object string bool number decimal date collection mapping : PlaceholderKind

unfoldable pub string_like : List Bytes
string_like =
    codes "java.lang.String"
    ∷ codes "java.lang.CharSequence"
    ∷ codes "java.lang.Character"
    ∷ codes "java.util.UUID"
    ∷ []

unfoldable pub bool_like : List Bytes
bool_like = codes "java.lang.Boolean" ∷ []

unfoldable pub number_like : List Bytes
number_like =
    codes "java.lang.Byte"
    ∷ codes "java.lang.Short"
    ∷ codes "java.lang.Integer"
    ∷ codes "java.lang.Long"
    ∷ codes "java.lang.Float"
    ∷ codes "java.lang.Double"
    ∷ codes "java.lang.Number"
    ∷ []

unfoldable pub decimal_like : List Bytes
decimal_like = codes "java.math.BigDecimal" ∷ codes "java.math.BigInteger" ∷ []

unfoldable pub date_like : List Bytes
date_like =
    codes "java.util.Date"
    ∷ codes "java.sql.Date"
    ∷ codes "java.sql.Time"
    ∷ codes "java.sql.Timestamp"
    ∷ codes "java.time.Instant"
    ∷ codes "java.time.LocalDate"
    ∷ codes "java.time.LocalDateTime"
    ∷ codes "java.time.LocalTime"
    ∷ codes "java.time.OffsetDateTime"
    ∷ codes "java.time.ZonedDateTime"
    ∷ []

unfoldable pub map_bases : List Bytes
map_bases = codes "java.util.Map" ∷ []

unfoldable pub primitive_placeholder : Bytes → PlaceholderKind
primitive_placeholder base =
    if bytes_eq base (codes "boolean")
    then bool
    else if bytes_eq base (codes "char")
    then string
    else if bytes_eq base (codes "void")
    then object
    else number

unfoldable pub placeholder : Bytes → PlaceholderKind
placeholder fqn =
    let base = normalize fqn in
    if is_empty base
    then object
    else if contains base primitives
    then primitive_placeholder base
    else if contains base string_like
    then string
    else if contains base bool_like
    then bool
    else if contains base decimal_like
    then decimal
    else if contains base number_like
    then number
    else if contains base date_like
    then date
    else if contains base map_bases
    then mapping
    else if contains base container_bases
    then collection
    else object
