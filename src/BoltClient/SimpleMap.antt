-- ===== src/BoltClient/SimpleMap.antt =====
-- internal/boltclient/client.go: the header maps, EncodeSimpleMap and DecodeSimpleMap.
pub mod RoundTrip
pub mod Keys
use sofarpc_cli.Prelude.UniqueKeys.{is_some}
use sofarpc_cli.Prelude.{
  Bool, Bytes, List, Option, [], codes, drop, false, if◌then◌else◌, length, ltb, none, some, suc,
  take, true, zero, ℕ, ◌&&◌, ◌++◌, ◌==◌, ◌∷◌,
}
use sofarpc_cli.Prelude.BigEndian.{be32, u32_at}
use sofarpc_cli.Prelude.Map.{Map, insert, lookup}
use sofarpc_cli.Prelude.Sort.{sort_strings}

pub data MapError : Type 0 where
  short_length short_string : MapError

-- `stuck` is no Go value: the loop of the decoder ran out of fuel.
pub data MapResult {ℓ} (A : Type ℓ) : Type ℓ where
  ok : A → MapResult A
  err : MapError → MapResult A
  stuck : MapResult A

infixl 5 ◌>>=◌
abbrev pub ◌>>=◌ {ℓ κ} : {A : Type ℓ} {B : Type κ} → MapResult A → (A → MapResult B) → MapResult B
ok a >>= f = f a
err e >>= f = err e
stuck >>= f = stuck

-- `uint32(int32(len(value)))`, then the bytes
unfoldable pub append_sized_string : Bytes → Bytes → Bytes
append_sized_string dst value = dst ++ (be32 (length value) ++ value)

abbrev known_keys : List Bytes
known_keys =
    codes "service"
    ∷ codes "sofa_head_method_name"
    ∷ codes "sofa_head_target_service"
    ∷ codes "sofa_head_generic_type"
    ∷ codes "type"
    ∷ codes "generic.revise"
    ∷ []

abbrev pub or_nil : Option Bytes → Bytes
or_nil none = []
or_nil (some v) = v

unfoldable pub keys_of : Map Bytes → List Bytes
keys_of [] = []
keys_of ((k, v) ∷ m) = k ∷ keys_of m

unfoldable pub has_all : List Bytes → Map Bytes → Bool
has_all [] m = true
has_all (k ∷ ks) m = is_some (lookup k m) && has_all ks m

unfoldable pub ordered_simple_map_keys : Map Bytes → List Bytes
ordered_simple_map_keys m =
    if length m == length known_keys && has_all known_keys m
    then known_keys
    else sort_strings (keys_of m)

unfoldable pub append_entries : Bytes → List Bytes → Map Bytes → Bytes
append_entries buf [] m = buf
append_entries buf (k ∷ ks) m =
    append_entries (append_sized_string (append_sized_string buf k) (or_nil (lookup k m))) ks m

unfoldable pub encode_simple_map : Map Bytes → Bytes
encode_simple_map [] = []
encode_simple_map (e ∷ m) = append_entries [] (ordered_simple_map_keys (e ∷ m)) (e ∷ m)

-- The bytes at the offset, and those after the string.
unfoldable pub read_sized_string : Bytes → MapResult (Bytes × Bytes)
read_sized_string bs =
    let size = u32_at 0 bs in
    let rest = drop 4 bs in
    if ltb (length bs) 4
    then err short_length
    else if ltb (length rest) size
    then err short_string
    else ok (take size rest, drop size rest)

unfoldable pub decode_entries : ℕ → Bytes → Map Bytes → MapResult (Map Bytes)
decode_entries fuel [] out = ok out
decode_entries zero (b ∷ bs) out = stuck
decode_entries (suc fuel) (b ∷ bs) out = do
  (key, behind) ← read_sized_string (b ∷ bs)
  (value, after) ← read_sized_string behind
  decode_entries fuel after (insert key value out)

-- Each entry takes eight bytes at least, so `length data` rounds are enough.
unfoldable pub decode_simple_map : Bytes → MapResult (Map Bytes)
decode_simple_map bs = decode_entries (length bs) bs []
