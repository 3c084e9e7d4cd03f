-- ===== src/Wire/RoundTrip.antt =====
-- The readers of scalars against the writers.
pub mod Follows
pub mod Image
pub mod Scalars
pub mod Success
pub mod Texts
pub mod TooDeep
pub mod Back
pub mod Lists
pub mod ListBack
pub mod ListRead
pub mod Entries
pub mod EntriesBack
pub mod EntrySteps
pub mod Containers
pub mod MapBack
pub mod MapRead
pub mod FieldsBack
pub mod DefKeys
pub mod Objects
pub mod ObjectBack
pub mod NewObject
pub mod WriteObject
pub mod Ordered
pub mod Leaf
pub mod Ascii
pub mod Cases
pub mod ValueBack
pub mod Decoded
use sofarpc_cli.Prelude.{
  Bytes, List, [], append_assoc, arith, drop, drop-append, length, refl, take-append, ◌++◌, ◌<◌,
  ◌^◌, ◌∷◌, ◌≡◌, ◌≤◌, leb, Bool-cases, ltb, ◌==◌, is_empty, ℕ, suc, ◌%◌, ◌∙◌, inl, inr, true, false,
  ◌+◌,
}
use sofarpc_cli.Prelude.BigEndian.{byte_at, u32_at, be16_value, be16}
use sofarpc_cli.Prelude.Int.{neg_part, negsuc, pos, pos_part, ℤ, ltb_ℤ}
use sofarpc_cli.Wire.Reader.{
  read_int32, read_int64, take_runes, read_utf8_bytes, read_chunks, read_chunked_string, read_byte,
  check_scalar_byte_length, chunk_length,
}
use sofarpc_cli.Wire.Result.{ok, ◌>>=◌}
use sofarpc_cli.Wire.Utf8.{
  AreRunes, concat, cons_of, rune_size-append, count_runes-concat, rune_count,
}
use sofarpc_cli.Wire.Writer.{write_int, write_long, write_string}

take_runes-concat :
    (rs : List Bytes) (rest : Bytes)
    → AreRunes rs
    → take_runes (length rs) (concat rs ++ rest) ≡ ok (concat rs, rest)
unfolding take_runes
take_runes-concat [] rest h = refl
take_runes-concat (r ∷ rs) rest (hr, h) =
    let (size, some_bytes) = rune_size-append r (concat rs ++ rest) hr in
    let (b, bs, e) = cons_of r (concat rs ++ rest) some_bytes in
    rw (append_assoc, e)
      (rw (← e) (
        rw (size, drop-append r (concat rs ++ rest), take-append r (concat rs ++ rest))
          (rw (take_runes-concat rs rest h))))

-- An int64 in the range of an int32 is read back by readInt32 from the bytes that writeInt put
-- behind its tag, and what follows is left.
pub read_int32-write_int :
    (v : ℤ) (rest : Bytes)
    → pos_part v < 2 ^ 31
    → neg_part v ≤ 2 ^ 31
    → read_int32 (drop 1 (write_int v []) ++ rest) ≡ ok (v, rest)
unfolding read_int32 write_int u32_at byte_at
read_int32-write_int (pos n) rest h k = ground arith
read_int32-write_int (negsuc n) rest h k = ground arith

-- Every int64 is read back by readInt64 from the bytes that writeLong put behind its tag, and what
-- follows is left.
pub read_int64-write_long :
    (v : ℤ) (rest : Bytes)
    → pos_part v < 2 ^ 63
    → neg_part v ≤ 2 ^ 63
    → read_int64 (drop 1 (write_long v []) ++ rest) ≡ ok (v, rest)
unfolding read_int64 write_long u32_at byte_at
read_int64-write_long (pos n) rest h k = ground arith
read_int64-write_long (negsuc n) rest h k = ground arith

pub rune_count-concat : (rs : List Bytes) → AreRunes rs → rune_count (concat rs) ≡ length rs
unfolding rune_count
rune_count-concat rs h = count_runes-concat (length (concat rs)) rs h (omega arith)

check_scalar_fits : (limit n : ℕ) → n ≤ limit → check_scalar_byte_length limit n ≡ ok tt
unfolding check_scalar_byte_length
check_scalar_fits limit n h = rw le→leb
  where
    le→leb : leb n limit ≡ true
    le→leb = ground arith

pub read_utf8_bytes-concat :
    (limit : ℕ) (rs : List Bytes) (rest : Bytes)
    → AreRunes rs
    → length (concat rs) ≤ limit
    → read_utf8_bytes limit (pos (length rs)) (concat rs ++ rest) ≡ ok (concat rs, rest)
unfolding read_utf8_bytes
read_utf8_bytes-concat limit rs rest h le =
    rw (sign, take_runes-concat rs rest h) (rw (check_scalar_fits limit (length (concat rs)) le))
  where
    sign : ltb_ℤ (pos (length rs)) (pos 0) ≡ false
    sign = ground arith

-- a value whose chunk is the last
read_chunks_last :
    (fuel limit tag : ℕ) (rs : List Bytes) (body rest : Bytes)
    → AreRunes rs
    → length (concat rs) ≤ limit
    → chunk_length tag body ≡ ok (length rs, concat rs ++ rest)
    → (tag == b's') ≡ false
    → read_chunks (suc fuel) limit tag [] body ≡ ok (concat rs, rest)
unfolding read_chunks
read_chunks_last fuel limit tag rs body rest h le e last =
    rw (e, read_utf8_bytes-concat limit rs rest h le)
      (rw (check_scalar_fits limit (0 + length (concat rs)) (omega arith)) (rw last))

not_empty : (rs : List Bytes) → AreRunes rs → 0 < length rs → is_empty (concat rs) ≡ false
not_empty [] h l = absurd (omega arith)
not_empty (r ∷ rs) (hr, h) l =
    let (b, bs, e) = cons_of r (concat rs) (rune_size-append r [] hr).1 in rw e

-- A text in well-formed UTF-8 of at most 65535 code points that is no longer than the reader's
-- limit is written, and is read back from its tag and its bytes, and what follows is left.
pub read_chunked_string-write_string :
    (limit : ℕ) (rs : List Bytes)
    → AreRunes rs
    → length rs < 2 ^ 16
    → length (concat rs) ≤ limit
    → (written : Bytes) × (write_string (concat rs) [] ≡ ok written)
      × ((rest : Bytes)
          → (read_byte (written ++ rest) >>= λ p. read_chunked_string limit p.0 p.1)
            ≡ ok (concat rs, rest))
unfolding write_string read_byte read_chunked_string
read_chunked_string-write_string limit [] h n le = (
  0 ∷ [],
  refl,
  λ rest. read_chunks_last _ limit 0 [] rest rest h le (unfold chunk_length in refl) refl,
)
read_chunked_string-write_string limit (r ∷ rs) h n le =
    elim (Bool-cases (leb (length (r ∷ rs)) 0x1f)) [
      | inl short ↦ (
        length (r ∷ rs) ∷ concat (r ∷ rs),
        rw (not_empty (r ∷ rs) h (omega arith), rune_count-concat (r ∷ rs) h, short),
        λ rest.
            read_chunks_last _ limit (length (r ∷ rs)) (r ∷ rs) (concat (r ∷ rs) ++ rest) rest h le
              (unfold chunk_length in rw short) (ground arith),
      )
      | inr long ↦ (
        b'S' ∷ (be16 (length (r ∷ rs)) ++ concat (r ∷ rs)),
        rw (not_empty (r ∷ rs) h (omega arith), rune_count-concat (r ∷ rs) h, long, within),
        λ rest.
            read_chunks_last _ limit b'S' (r ∷ rs)
              (be16 (length (r ∷ rs)) ++ (concat (r ∷ rs) ++ rest)) rest h le
              (unfold chunk_length in rw (be16_value (length (r ∷ rs)) ∙ wraps)) refl,
      )
    ]
  where
    within : ltb 65535 (length (r ∷ rs)) ≡ false
    within = ground arith

    wraps : length (r ∷ rs) % 2 ^ 16 ≡ length (r ∷ rs)
    wraps = omega arith
