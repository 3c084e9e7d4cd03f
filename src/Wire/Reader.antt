-- ===== src/Wire/Reader.antt =====
-- internal/sofarpcwire/decoder_primitive.go: the readers of bytes, integers and strings. The input
-- is what `data` holds from `offset` on, and each reader returns what it leaves; `limit` is
-- `limits.MaxScalarBytes` once ensureLimits has run.
use sofarpc_cli.Prelude.{
  Bytes, Option, [], drop, if◌then◌else◌, leb, length, ltb, none, some, suc, take, zero, ℕ, ◌*◌,
  ◌++◌, ◌+◌, ◌-◌, ◌==◌, ◌^◌, ◌||◌, ◌∷◌, ◌&&◌,
}
use sofarpc_cli.Prelude.BigEndian.{u32_at}
use sofarpc_cli.Prelude.Int.{ltb_ℤ, negsuc, pos, pos_part, ℤ}
use sofarpc_cli.Wire.Result.{
  ◌>>◌, WireResult, bad_chunk_tag, bad_length, err, guard, ok, scalar_too_long, short_int32,
  short_int64, short_utf8, stuck, unexpected_eof, ◌>>=◌, short_bytes,
}
use sofarpc_cli.Wire.Utf8.{rune_size}

unfoldable pub read_byte : Bytes → WireResult (ℕ × Bytes)
read_byte [] = err unexpected_eof
read_byte (b ∷ bs) = ok (b, bs)

unfoldable pub peek_byte : Bytes → Option ℕ
peek_byte [] = none
peek_byte (b ∷ bs) = some b

-- a word as a signed integer
unfoldable pub signed : ℕ → ℕ → ℤ
signed half n = if ltb n half then pos n else negsuc (half + half - 1 - n)

unfoldable pub read_int32 : Bytes → WireResult (ℤ × Bytes)
unfolding signed
read_int32 bs =
    if ltb (length bs) 4 then err short_int32 else ok (signed (2 ^ 31) (u32_at 0 bs), drop 4 bs)

unfoldable pub read_int64 : Bytes → WireResult (ℤ × Bytes)
unfolding signed
read_int64 bs =
    if ltb (length bs) 8
    then err short_int64
    else ok (signed (2 ^ 63) (u32_at 0 bs * 2 ^ 32 + u32_at 4 bs), drop 8 bs)

unfoldable pub check_scalar_byte_length : ℕ → ℕ → WireResult (Unit {0})
check_scalar_byte_length limit n = guard (leb n limit) scalar_too_long

-- the loop of readUTF8Bytes: the bytes of so many runes
unfoldable pub take_runes : ℕ → Bytes → WireResult (Bytes × Bytes)
take_runes zero bs = ok ([], bs)
take_runes (suc n) [] = err short_utf8
take_runes (suc n) (b ∷ bs) = do
  let size = rune_size (b ∷ bs)
  (raw, rest) ← take_runes n (drop size (b ∷ bs))
  ok (take size (b ∷ bs) ++ raw, rest)

unfoldable pub read_utf8_bytes : ℕ → ℤ → Bytes → WireResult (Bytes × Bytes)
read_utf8_bytes limit char_len bs = if ltb_ℤ char_len (pos 0) then err bad_length else do
  (raw, rest) ← take_runes (pos_part char_len) bs
  check_scalar_byte_length limit (length raw)
  ok (raw, rest)

-- the two bytes of a length
unfoldable pub read_size : Bytes → WireResult (ℕ × Bytes)
unfolding read_byte
read_size bs = do (hi, rest) ← read_byte bs; (lo, rest') ← read_byte rest; ok (hi * 256 + lo, rest')

-- the length of the chunk that a tag begins, and what follows it
unfoldable pub chunk_length : ℕ → Bytes → WireResult (ℕ × Bytes)
unfolding read_size
chunk_length tag bs =
    if leb tag 0x1f
    then ok (tag, bs)
    else if tag == b'S' || tag == b's'
    then read_size bs
    else err bad_chunk_tag

unfoldable pub read_chunks : ℕ → ℕ → ℕ → Bytes → Bytes → WireResult (Bytes × Bytes)
read_chunks zero limit tag out bs = stuck
read_chunks (suc fuel) limit tag out bs = do
  (char_len, body) ← chunk_length tag bs
  (chunk, rest) ← read_utf8_bytes limit (pos char_len) body
  check_scalar_byte_length limit (length out + length chunk)
  let more = read_byte rest >>= λ p. read_chunks fuel limit p.0 (out ++ chunk) p.1
  if tag == b's' then more else ok (out ++ chunk, rest)

-- Each round after the first takes a tag, so there are at most as many as bytes.
unfoldable pub read_chunked_string : ℕ → ℕ → Bytes → WireResult (Bytes × Bytes)
read_chunked_string limit tag bs = read_chunks (suc (length bs)) limit tag [] bs

unfoldable pub bytes_length : ℕ → Bytes → WireResult (ℕ × Bytes)
unfolding read_size
bytes_length tag bs =
    if leb 0x20 tag && leb tag 0x2f
    then ok (tag - 0x20, bs)
    else if tag == b'B' || tag == b'b'
    then read_size bs
    else err bad_chunk_tag

unfoldable pub read_byte_chunks : ℕ → ℕ → ℕ → Bytes → Bytes → WireResult (Bytes × Bytes)
read_byte_chunks zero limit tag out bs = stuck
read_byte_chunks (suc fuel) limit tag out bs = do
  (size, body) ← bytes_length tag bs
  guard (leb size (length body)) short_bytes
  check_scalar_byte_length limit (length out + size)
  let more = read_byte (drop size body) >>= λ p.
      read_byte_chunks fuel limit p.0 (out ++ take size body) p.1
  if tag == b'b' then more else ok (out ++ take size body, drop size body)

unfoldable pub read_bytes_with_tag : ℕ → ℕ → Bytes → WireResult (Bytes × Bytes)
read_bytes_with_tag limit tag bs = read_byte_chunks (suc (length bs)) limit tag [] bs
