-- ===== src/Wire/Writer.antt =====
-- internal/sofarpcwire/encoder.go: the writers of scalars, which append to the buffer.
use sofarpc_cli.Prelude.{
  Bytes, [], if◌then◌else◌, is_empty, leb, ltb, ℕ, ◌%◌, ◌++◌, ◌-◌, ◌/◌, ◌^◌, ◌∷◌,
}
use sofarpc_cli.Prelude.BigEndian.{be16, be32}
use sofarpc_cli.Prelude.Int.{negsuc, pos, ℤ}
use sofarpc_cli.Wire.Result.{WireResult, err, ok, string_too_long}
use sofarpc_cli.Wire.Utf8.{rune_count}

-- `uint32(int32(value))` and `uint64(value)` of an int64: two's complement
unfoldable pub word : ℕ → ℤ → ℕ
word size (pos n) = n % size
word size (negsuc n) = size - 1 - n % size

unfoldable pub write_uint16 : ℕ → Bytes → Bytes
write_uint16 n buf = buf ++ be16 n

unfoldable pub write_uint32 : ℕ → Bytes → Bytes
write_uint32 n buf = buf ++ be32 n

unfoldable pub write_uint64 : ℕ → Bytes → Bytes
write_uint64 n buf = buf ++ (be32 (n / 2 ^ 32) ++ be32 n)

unfoldable pub write_int : ℤ → Bytes → Bytes
unfolding write_uint32 word
write_int v buf = write_uint32 (word (2 ^ 32) v) (buf ++ (b'I' ∷ []))

unfoldable pub write_long : ℤ → Bytes → Bytes
unfolding write_uint64 word
write_long v buf = write_uint64 (word (2 ^ 64) v) (buf ++ (b'L' ∷ []))

-- A float64 is its IEEE bits.
unfoldable pub write_double : ℕ → Bytes → Bytes
unfolding write_uint64
write_double bits buf = write_uint64 bits (buf ++ (b'D' ∷ []))

unfoldable pub write_length : ℕ → Bytes → Bytes
unfolding write_uint32
write_length n buf =
    if leb n 0xff then buf ++ (0x6e ∷ (n ∷ [])) else write_uint32 (n % 2 ^ 32) (buf ++ (b'l' ∷ []))

unfoldable pub write_string : Bytes → Bytes → WireResult Bytes
unfolding write_uint16
write_string value buf =
    if is_empty value
    then ok (buf ++ (0 ∷ []))
    else if leb (rune_count value) 0x1f
    then ok (buf ++ (rune_count value ∷ value))
    else if ltb 65535 (rune_count value)
    then err string_too_long
    else ok (write_uint16 (rune_count value) (buf ++ (b'S' ∷ [])) ++ value)

unfoldable pub write_len_string : Bytes → Bytes → Bytes
unfolding write_int
write_len_string value buf = write_int (pos (rune_count value)) buf ++ value

unfoldable pub write_type : Bytes → Bytes → Bytes
unfolding write_uint16
write_type type_name buf =
    write_uint16 (rune_count type_name % 2 ^ 16) (buf ++ (b't' ∷ [])) ++ type_name
