-- ===== src/Wire/Decoder/Leaves.antt =====
-- The readers of numbers and texts leave no more than they found.
use sofarpc_cli.Prelude.{Bytes, Option, [], arith, length, length-drop, none, some, ℕ, ◌∷◌, ◌≤◌}
use sofarpc_cli.Prelude.Int.{ℤ}
use sofarpc_cli.Wire.Decoder.Scalars.{
  between, byte_double, compact, compact_byte, compact_short, float_double, long_double,
  print_integer, read_double, read_integer, read_string_value, read_string_with_tag, short_double,
  string_of_tag,
}
use sofarpc_cli.Wire.Decoder.State.{Limits}
use sofarpc_cli.Wire.Reader.{read_byte, read_int32, read_int64, read_size}
use sofarpc_cli.Wire.Result.{WireResult, ok, ◌>>=◌, printed}
use sofarpc_cli.Wire.Totality.{>>=-Shrinks, Shrinks, read_chunked_string-Shrinks, read_size-Shrinks}

pub read_byte-Shrinks : (bs : Bytes) → Shrinks (length bs) (read_byte bs)
unfolding read_byte
read_byte-Shrinks [] = tt
read_byte-Shrinks (b ∷ bs) = omega arith

pub read_int32-Shrinks : (bs : Bytes) → Shrinks (length bs) (read_int32 bs)
unfolding read_int32
read_int32-Shrinks bs = ground (arith, length-drop 4 bs)

pub read_int64-Shrinks : (bs : Bytes) → Shrinks (length bs) (read_int64 bs)
unfolding read_int64
read_int64-Shrinks bs = ground (arith, length-drop 8 bs)

abbrev pub MayShrink {ℓ} : {A : Type ℓ} → ℕ → Option (WireResult (A × Bytes)) → Type 0
MayShrink n none = Unit {0}
MayShrink n (some r) = Shrinks n r

compact_byte-Shrinks : (z tag : ℕ) (bs : Bytes) → Shrinks (length bs) (compact_byte z tag bs)
unfolding compact_byte
compact_byte-Shrinks z tag bs =
    >>=-Shrinks (length bs) (read_byte bs) _ (read_byte-Shrinks bs) λ a rest h. omega arith

compact_short-Shrinks : (z tag : ℕ) (bs : Bytes) → Shrinks (length bs) (compact_short z tag bs)
unfolding compact_short
compact_short-Shrinks z tag bs =
    >>=-Shrinks (length bs) (read_size bs) _ (read_size-Shrinks bs) λ a rest h. omega arith

pub read_integer-MayShrink : (tag : ℕ) (bs : Bytes) → MayShrink (length bs) (read_integer tag bs)
unfolding read_integer compact between
read_integer-MayShrink tag bs = ground (
  arith,
  compact_byte-Shrinks 0xc8 tag bs,
  compact_short-Shrinks 0xd4 tag bs,
  read_int32-Shrinks bs,
  compact_byte-Shrinks 0xf8 tag bs,
  compact_short-Shrinks 0x3c tag bs,
  read_int64-Shrinks bs,
)

byte_double-Shrinks : (bs : Bytes) → Shrinks (length bs) (byte_double bs)
unfolding byte_double
byte_double-Shrinks bs =
    >>=-Shrinks (length bs) (read_byte bs) _ (read_byte-Shrinks bs) λ a rest h. omega arith

short_double-Shrinks : (bs : Bytes) → Shrinks (length bs) (short_double bs)
unfolding short_double
short_double-Shrinks bs =
    >>=-Shrinks (length bs) (read_size bs) _ (read_size-Shrinks bs) λ a rest h. omega arith

pub read_double-MayShrink : (tag : ℕ) (bs : Bytes) → MayShrink (length bs) (read_double tag bs)
unfolding read_double float_double long_double
read_double-MayShrink tag bs =
    ground
      (arith, byte_double-Shrinks bs, short_double-Shrinks bs, length-drop 4 bs, length-drop 8 bs)

module _ (l : Limits) (sprint : ℤ → Option Bytes) where
  after_printed :
      (n : ℕ) (o : Option Bytes) (rest : Bytes)
      → length rest ≤ n
      → Shrinks n (printed o >>= λ s. ok (s, rest))
  after_printed n none rest k = tt
  after_printed n (some s) rest k = k

  print_integer-Shrinks :
      (n : ℕ) (r : WireResult (ℤ × Bytes)) → Shrinks n r → Shrinks n (print_integer l sprint r)
  unfolding print_integer
  print_integer-Shrinks n r h =
      >>=-Shrinks n r _ h λ i rest k. after_printed (length rest) (sprint i) rest (omega arith)

  string_of_tag-Shrinks :
      (tag : ℕ) (bs : Bytes) → Shrinks (length bs) (string_of_tag l sprint tag bs)
  unfolding string_of_tag
  string_of_tag-Shrinks tag bs =
      ground (arith, read_chunked_string-Shrinks l.max_scalar_bytes tag bs)

  integer_or_text :
      (tag : ℕ) (bs : Bytes) (o : Option (WireResult (ℤ × Bytes)))
      → MayShrink (length bs) o
      → Shrinks
          (length bs)
          (elim o [ none ↦ string_of_tag l sprint tag bs | some r ↦ print_integer l sprint r ])
  integer_or_text tag bs none h = string_of_tag-Shrinks tag bs
  integer_or_text tag bs (some r) h = print_integer-Shrinks (length bs) r h

  pub read_string_with_tag-Shrinks :
      (tag : ℕ) (bs : Bytes) → Shrinks (length bs) (read_string_with_tag l sprint tag bs)
  unfolding read_string_with_tag
  read_string_with_tag-Shrinks tag bs =
      ground (arith, integer_or_text tag bs (read_integer tag bs) (read_integer-MayShrink tag bs))

  pub read_string_value-Shrinks : (bs : Bytes) → Shrinks (length bs) (read_string_value l sprint bs)
  unfolding read_string_value
  read_string_value-Shrinks bs =
      >>=-Shrinks (length bs) (read_byte bs) _ (read_byte-Shrinks bs)
        λ tag rest h. read_string_with_tag-Shrinks tag rest
