-- ===== src/Wire/RoundTrip/Scalars.antt =====
-- readValue against writeValue at the values that take no place on the heap.
use sofarpc_cli.Prelude.{
  Option, Bool, Bytes, List, [], ap, append_assoc, arith, false, if◌then◌else◌, refl, suc, true, ℕ,
  ◌++◌, ◌+◌, ◌-◌, ◌/◌, ◌<◌, ◌^◌, ◌∙◌, ◌∷◌, ◌≡◌, ◌≤◌, length,
}
use sofarpc_cli.Prelude.BigEndian.{be32, byte_at, u32_at}
use sofarpc_cli.Prelude.Int.{neg_part, pos_part, ℤ}
use sofarpc_cli.Wire.RoundTrip.Follows.{read_value_by_tag}
use sofarpc_cli.Wire.RoundTrip.{read_int32-write_int, read_int64-write_long}
use sofarpc_cli.Wire.Decoder.State.{
  Decoder, Limits, Node, Value, null, bool, int64, float64, Float64, leave_value, on_unread,
}
use sofarpc_cli.Wire.Decoder.Values.{read_value, read_tagged, read_number}
use sofarpc_cli.Wire.Decoder.Scalars.{read_integer, read_double, between, long_double}
use sofarpc_cli.Wire.Decoder.Tables.{scalar}
use sofarpc_cli.Wire.Result.{WireResult, ok}
use sofarpc_cli.Wire.Writer.{word, write_int, write_long, write_double}

pub int_bytes : ℤ → Bytes
unfolding word
int_bytes v = b'I' ∷ be32 (word (2 ^ 32) v)

pub long_bytes : ℤ → Bytes
unfolding word
long_bytes v = b'L' ∷ (be32 (word (2 ^ 64) v / 2 ^ 32) ++ be32 (word (2 ^ 64) v))

pub double_bytes : ℕ → Bytes
double_bytes bits = b'D' ∷ (be32 (bits / 2 ^ 32) ++ be32 bits)

pub int_bytes-pos : (v : ℤ) → 0 < length (int_bytes v)
unfolding int_bytes
int_bytes-pos v = omega arith

pub long_bytes-pos : (v : ℤ) → 0 < length (long_bytes v)
unfolding long_bytes
long_bytes-pos v = omega arith

pub double_bytes-pos : (bits : ℕ) → 0 < length (double_bytes bits)
unfolding double_bytes
double_bytes-pos bits = omega arith

pub write_int_lem : (v : ℤ) (buf : Bytes) → write_int v buf ≡ buf ++ int_bytes v
unfolding write_int int_bytes
write_int_lem v buf = append_assoc buf (b'I' ∷ []) (be32 (word (2 ^ 32) v))

pub write_long_lem : (v : ℤ) (buf : Bytes) → write_long v buf ≡ buf ++ long_bytes v
unfolding write_long long_bytes
write_long_lem v buf =
    append_assoc buf (b'L' ∷ []) (be32 (word (2 ^ 64) v / 2 ^ 32) ++ be32 (word (2 ^ 64) v))

pub write_double_lem : (bits : ℕ) (buf : Bytes) → write_double bits buf ≡ buf ++ double_bytes bits
unfolding write_double double_bytes
write_double_lem bits buf = append_assoc buf (b'D' ∷ []) (be32 (bits / 2 ^ 32) ++ be32 bits)

module _ (l : Limits) (sprint : List Node → Value → Option Bytes) (n : ℕ) (d : Decoder)
    (shallow : d.depth < l.max_depth) where
  -- a tag whose case only takes bytes
  pub scalar_by_tag :
      (tag : ℕ) (bs rest : Bytes) (v : Value)
      → read_tagged l sprint
          (read_value l sprint n)
          tag
          (record d { unread = bs; depth = d.depth + 1 })
        ≡ ok (v, record d { unread = rest; depth = d.depth + 1 })
      → read_value l sprint (suc n) (record d { unread = tag ∷ bs })
        ≡ ok (v, record d { unread = rest })
  unfolding leave_value
  scalar_by_tag tag bs rest v e =
      let back : d.depth + 1 - 1 ≡ d.depth = omega arith in
      read_value_by_tag l sprint n tag bs d (record d { unread = rest; depth = d.depth + 1 }) v
        shallow e
      ∙ ap (λ (k : ℕ). WireResult.ok (v, record d { unread = rest; depth = k })) back

  pub read_value-nil :
      (rest : Bytes)
      → read_value l sprint (suc n) (record d { unread = b'N' ∷ rest })
        ≡ ok (null, record d { unread = rest })
  unfolding read_tagged
  read_value-nil rest = scalar_by_tag b'N' rest rest null refl

  pub read_value-bool :
      (b : Bool) (rest : Bytes)
      → read_value l sprint (suc n) (record d { unread = (if b then b'T' else b'F') ∷ rest })
        ≡ ok (bool b, record d { unread = rest })
  unfolding read_tagged
  read_value-bool true rest = scalar_by_tag b'T' rest rest (bool true) refl
  read_value-bool false rest = scalar_by_tag b'F' rest rest (bool false) refl

  pub read_value-int :
      (v : ℤ) (rest : Bytes)
      → pos_part v < 2 ^ 31
      → neg_part v ≤ 2 ^ 31
      → read_value l sprint (suc n) (record d { unread = int_bytes v ++ rest })
        ≡ ok (int64 v, record d { unread = rest })
  unfolding read_tagged read_number read_integer between scalar on_unread int_bytes write_int
  read_value-int v rest h k =
      scalar_by_tag b'I' (be32 (word (2 ^ 32) v) ++ rest) rest (int64 v)
        (rw (read_int32-write_int v rest h k) refl)

  pub read_value-long :
      (v : ℤ) (rest : Bytes)
      → pos_part v < 2 ^ 63
      → neg_part v ≤ 2 ^ 63
      → read_value l sprint (suc n) (record d { unread = long_bytes v ++ rest })
        ≡ ok (int64 v, record d { unread = rest })
  unfolding read_tagged read_number read_integer between scalar on_unread long_bytes write_long
  read_value-long v rest h k =
      scalar_by_tag b'L' ((be32 (word (2 ^ 64) v / 2 ^ 32) ++ be32 (word (2 ^ 64) v)) ++ rest) rest
        (int64 v) (rw (read_int64-write_long v rest h k) refl)

  pub read_value-double :
      (bits : ℕ) (rest : Bytes)
      → bits < 2 ^ 64
      → read_value l sprint (suc n) (record d { unread = double_bytes bits ++ rest })
        ≡ ok (float64 (Float64.of_bits64 bits), record d { unread = rest })
  unfolding read_tagged read_number read_integer read_double between scalar on_unread double_bytes
      long_double u32_at byte_at
  read_value-double bits rest h =
      scalar_by_tag b'D' ((be32 (bits / 2 ^ 32) ++ be32 bits) ++ rest) rest
        (float64 (Float64.of_bits64 bits)) (ground arith)
