-- ===== src/Wire/Decoder/Scalars.antt =====
-- internal/sofarpcwire: the tags of readValue that hold a number, and readStringWithTag.
use sofarpc_cli.Prelude.{
  Bool, Bytes, Option, [], codes, drop, if◌then◌else◌, leb, length, ltb, none, some, ℕ, ◌&&◌, ◌*◌,
  ◌+◌, ◌==◌, ◌^◌, ◌||◌,
}
use sofarpc_cli.Prelude.BigEndian.{u32_at}
use sofarpc_cli.Prelude.Int.{pos, ℤ, ◌*ℤ◌, ◌+ℤ◌, ◌-ℤ◌}
use sofarpc_cli.Wire.Decoder.State.{Float64, Limits}
use sofarpc_cli.Wire.Reader.{
  read_byte, read_chunked_string, read_int32, read_int64, read_size, signed,
}
use sofarpc_cli.Wire.Result.{
  WireResult, bad_string_tag, err, ok, short_int32, short_int64, ◌>>=◌, printed,
}

unfoldable pub between : ℕ → ℕ → ℕ → Bool
between lo hi tag = leb lo tag && leb tag hi

-- the distance of a tag from the tag of zero, followed by no, one or two bytes
unfoldable pub compact : ℕ → ℕ → Bytes → WireResult (ℤ × Bytes)
compact zero_tag tag bs = ok (pos tag -ℤ pos zero_tag, bs)

unfoldable pub compact_byte : ℕ → ℕ → Bytes → WireResult (ℤ × Bytes)
unfolding read_byte
compact_byte zero_tag tag bs = do
  (b, rest) ← read_byte bs
  ok ((pos tag -ℤ pos zero_tag) *ℤ pos 256 +ℤ pos b, rest)

unfoldable pub compact_short : ℕ → ℕ → Bytes → WireResult (ℤ × Bytes)
unfolding read_size
compact_short zero_tag tag bs = do
  (b, rest) ← read_size bs
  ok ((pos tag -ℤ pos zero_tag) *ℤ pos 65536 +ℤ pos b, rest)

-- The integer that a tag begins, with `none` for another tag. The tags of an int and those of a long
-- give the same Go value.
unfoldable pub read_integer : ℕ → Bytes → Option (WireResult (ℤ × Bytes))
unfolding between compact compact_byte compact_short
read_integer tag bs =
    if between 0x80 0xbf tag
    then some (compact 0x90 tag bs)
    else if between 0xc0 0xcf tag
    then some (compact_byte 0xc8 tag bs)
    else if between 0xd0 0xd7 tag
    then some (compact_short 0xd4 tag bs)
    else if tag == b'I' || tag == 0x77
    then some (read_int32 bs)
    else if between 0xd8 0xef tag
    then some (compact 0xe0 tag bs)
    else if between 0xf0 0xff tag
    then some (compact_byte 0xf8 tag bs)
    else if between 0x38 0x3f tag
    then some (compact_short 0x3c tag bs)
    else if tag == b'L'
    then some (read_int64 bs)
    else none

-- a byte and a word as signed numbers
unfoldable pub byte_double : Bytes → WireResult (Float64 × Bytes)
unfolding read_byte signed
byte_double bs = do (b, rest) ← read_byte bs; ok (Float64.of_int (signed (2 ^ 7) b), rest)

unfoldable pub short_double : Bytes → WireResult (Float64 × Bytes)
unfolding read_size signed
short_double bs = do (b, rest) ← read_size bs; ok (Float64.of_int (signed (2 ^ 15) b), rest)

unfoldable pub float_double : Bytes → WireResult (Float64 × Bytes)
float_double bs =
    if ltb (length bs) 4 then err short_int32 else ok (Float64.of_bits32 (u32_at 0 bs), drop 4 bs)

unfoldable pub long_double : Bytes → WireResult (Float64 × Bytes)
long_double bs =
    if ltb (length bs) 8
    then err short_int64
    else ok (Float64.of_bits64 (u32_at 0 bs * 2 ^ 32 + u32_at 4 bs), drop 8 bs)

unfoldable pub read_double : ℕ → Bytes → Option (WireResult (Float64 × Bytes))
unfolding byte_double short_double float_double long_double
read_double tag bs =
    if tag == 0x67
    then some (ok (Float64.of_int (pos 0), bs))
    else if tag == 0x68
    then some (ok (Float64.of_int (pos 1), bs))
    else if tag == 0x69
    then some (byte_double bs)
    else if tag == 0x6a
    then some (short_double bs)
    else if tag == 0x6b
    then some (float_double bs)
    else if tag == b'D'
    then some (long_double bs)
    else none

-- `sprint` is fmt.Sprint at a Go integer.
module _ (l : Limits) (sprint : ℤ → Option Bytes) where
  unfoldable pub print_integer : WireResult (ℤ × Bytes) → WireResult (Bytes × Bytes)
  print_integer r = do (i, rest) ← r; s ← printed (sprint i); ok (s, rest)

  unfoldable pub string_of_tag : ℕ → Bytes → WireResult (Bytes × Bytes)
  string_of_tag tag bs =
      if tag == b'S' || tag == b's' || leb tag 0x1f
      then read_chunked_string l.max_scalar_bytes tag bs
      else err bad_string_tag

  unfoldable pub read_string_with_tag : ℕ → Bytes → WireResult (Bytes × Bytes)
  unfolding string_of_tag print_integer
  read_string_with_tag tag bs =
      if tag == b'N'
      then ok ([], bs)
      else if tag == b'T'
      then ok (codes "true", bs)
      else if tag == b'F'
      then ok (codes "false", bs)
      else elim (read_integer tag bs) [ none ↦ string_of_tag tag bs | some r ↦ print_integer r ]

  unfoldable pub read_string_value : Bytes → WireResult (Bytes × Bytes)
  unfolding read_byte
  read_string_value bs = do (tag, rest) ← read_byte bs; read_string_with_tag tag rest
