-- ===== src/Wire/Decoder/State.antt =====
-- internal/sofarpcwire/decoder.go: the decoder's state, its limits and its three tables. `unread` is
-- what `data` holds from `offset` on. What Go keeps by reference, a slice of values or a map, is a
-- node of `heap` under its address, since a map is in the table of refs before it is filled.
use sofarpc_cli.Prelude.{
  Bool, Bytes, List, [], drop, get_elem?, if◌then◌else◌, leb, length, ltb, none, some, suc, zero, ℕ,
  ◌*◌, ◌++◌, ◌+◌, ◌-◌, ◌^◌, ◌∷◌,
}
use sofarpc_cli.Prelude.Int.{ltb_ℤ, negsuc, pos, pos_part, ℤ}
use sofarpc_cli.Prelude.Map.{Map, insert}
use sofarpc_cli.Wire.Result.{
  WireError, WireResult, bad_length, class_defs_full, collection_too_long, err, guard, ok,
  refs_full, too_deep, types_full, ◌>>=◌,
}

-- A float64 by the conversion that made it; the decoder only hands it on.
pub data Float64 : Type 0 where
  of_int : ℤ → Float64
  of_bits32 : ℕ → Float64
  of_bits64 : ℕ → Float64

-- the dynamic types of `any`
pub data Value : Type 0 where
  null : Value
  bool : Bool → Value
  int64 : ℤ → Value
  float64 : Float64 → Value
  text : Bytes → Value
  raw_bytes : Bytes → Value
  texts : List Bytes → Value
  slice_at : ℕ → Value
  map_at : ℕ → Value

pub data Node : Type 0 where
  array : List Value → Node
  object : Map Value → Node

pub record ClassDef : Type 0 where
  pub type_name : Bytes
  pub field_names : List Bytes

-- the limits as they are set
pub record RawLimits : Type 0 where
  pub max_depth : ℤ
  pub max_collection_items : ℤ
  pub max_refs : ℤ
  pub max_scalar_bytes : ℤ

-- the limits after ensureLimits
pub record Limits : Type 0 where
  pub max_depth : ℕ
  pub max_collection_items : ℕ
  pub max_refs : ℕ
  pub max_scalar_bytes : ℕ

pub record Decoder : Type 0 where
  pub unread : Bytes
  pub depth : ℕ
  pub refs : List Value
  pub class_defs : List ClassDef
  pub types : List Bytes
  pub heap : List Node

unfoldable pub default_limits : Limits
default_limits = record {
  max_depth = 128;
  max_collection_items = 100000;
  max_refs = 100000;
  max_scalar_bytes = 16 * 2 ^ 20;
}

or_default : ℤ → ℕ → ℕ
or_default n standard = if ltb_ℤ (pos 0) n then pos_part n else standard

unfoldable pub ensure_limits : RawLimits → Limits
unfolding or_default default_limits
ensure_limits r = record {
  max_depth = or_default r.max_depth default_limits.max_depth;
  max_collection_items = or_default r.max_collection_items default_limits.max_collection_items;
  max_refs = or_default r.max_refs default_limits.max_refs;
  max_scalar_bytes = or_default r.max_scalar_bytes default_limits.max_scalar_bytes;
}

-- a step of the decoder that returns a value
abbrev pub Reader {ℓ} : Type ℓ → Type ℓ
Reader A = Decoder → WireResult (A × Decoder)

-- a decoder over `data`, as its callers make it
unfoldable pub new_decoder : Bytes → Decoder
new_decoder bs = record {
  unread = bs;
  depth = 0;
  refs = [];
  class_defs = [];
  types = [];
  heap = [];
}

-- a reader of `data` as a step of the decoder
unfoldable pub on_unread {ℓ} : {A : Type ℓ} → (Bytes → WireResult (A × Bytes)) → Reader A
on_unread reader d = reader d.unread >>= λ p. ok (p.0, record d { unread = p.1 })

-- `d.offset++` behind a byte that was peeked at
unfoldable pub skip : Decoder → Decoder
skip d = record d { unread = drop 1 d.unread }

-- what `make` returns: a new address
unfoldable pub alloc : Node → Decoder → ℕ × Decoder
alloc node d = (length d.heap, record d { heap = d.heap ++ node ∷ [] })

-- `m[key] = value` for the map at an address
unfoldable pub put_entry : ℕ → Bytes → Value → List Node → List Node
put_entry a key v [] = []
put_entry zero key v (array items ∷ rest) = array items ∷ rest
put_entry zero key v (object entries ∷ rest) = object (insert key v entries) ∷ rest
put_entry (suc a) key v (node ∷ rest) = node ∷ put_entry a key v rest

unfoldable pub leave_value : Decoder → Decoder
leave_value d = record d { depth = d.depth - 1 }

module _ (l : Limits) where
  unfoldable pub enter_value : Reader (Unit {0})
  enter_value d =
      if ltb l.max_depth (d.depth + 1)
      then err too_deep
      else ok (tt, record d { depth = d.depth + 1 })

  unfoldable pub check_collection_length : ℤ → WireResult (Unit {0})
  check_collection_length n =
      if ltb_ℤ n (pos 0)
      then err bad_length
      else guard (leb (pos_part n) l.max_collection_items) collection_too_long

  unfoldable pub add_ref : Value → Reader (Unit {0})
  add_ref v d =
      if ltb l.max_refs (length d.refs + 1)
      then err refs_full
      else ok (tt, record d { refs = d.refs ++ v ∷ [] })

  unfoldable pub add_class_def : ClassDef → Reader (Unit {0})
  add_class_def def d =
      if ltb l.max_refs (length d.class_defs + 1)
      then err class_defs_full
      else ok (tt, record d { class_defs = d.class_defs ++ def ∷ [] })

  unfoldable pub add_type : Bytes → Reader (Unit {0})
  add_type name d =
      if ltb l.max_refs (length d.types + 1)
      then err types_full
      else ok (tt, record d { types = d.types ++ name ∷ [] })

-- a table at a Go int
unfoldable pub entry_at {ℓ} : {A : Type ℓ} → WireError → List A → ℤ → WireResult A
entry_at e xs (negsuc n) = err e
entry_at e xs (pos n) = elim (get_elem? xs n) [ none ↦ err e | some x ↦ ok x ]
