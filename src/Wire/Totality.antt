-- ===== src/Wire/Totality.antt =====
-- The readers of chunked values end on every input.
use sofarpc_cli.Prelude.{
  Bytes, [], arith, drop, if◌then◌else◌, inl, inr, length, length-drop, refl, suc, zero, ℕ, ◌++◌,
  ◌<◌, ◌==◌, ◌∷◌, ◌≡◌, ◌≢◌, ◌≤◌, ◌⊎◌, take, leb, ◌+◌,
}
use sofarpc_cli.Prelude.Int.{pos, pos_part, ℤ}
use sofarpc_cli.Wire.Reader.{
  check_scalar_byte_length, chunk_length, read_byte, read_chunked_string, read_chunks,
  read_utf8_bytes, take_runes, read_bytes_with_tag, bytes_length, read_byte_chunks, read_size,
}
use sofarpc_cli.Wire.Result.{
  ◌>>◌, ◌>>=◌, WireError, WireResult, err, ok, stuck, ◌>>◌, guard, short_bytes,
}
use sofarpc_cli.Wire.Utf8.{rune_size}

WireResult-cases {ℓ} :
    {A : Type ℓ} (r : WireResult A)
    → ((a : A) × (r ≡ ok a)) ⊎ (((e : WireError) × (r ≡ err e)) ⊎ (r ≡ stuck))
WireResult-cases (ok a) = inl (a, refl)
WireResult-cases (err e) = inr (inl (e, refl))
WireResult-cases stuck = inr (inr refl)

-- What a reader leaves is no longer than its input, and it does not run out of fuel.
abbrev pub Shrinks {ℓ} : {A : Type ℓ} → ℕ → WireResult (A × Bytes) → Type 0
Shrinks n (ok (a, rest)) = length rest ≤ n
Shrinks n (err e) = Unit {0}
Shrinks n stuck = ⊥

chunk_length-Shrinks : (tag : ℕ) (bs : Bytes) → Shrinks (length bs) (chunk_length tag bs)
unfolding chunk_length
chunk_length-Shrinks tag [] = ground arith
chunk_length-Shrinks tag (a ∷ []) = ground arith
chunk_length-Shrinks tag (a ∷ b ∷ bs) = ground arith

take_runes-Shrinks : (n : ℕ) (bs : Bytes) → Shrinks (length bs) (take_runes n bs)
unfolding take_runes
take_runes-Shrinks zero bs = omega arith
take_runes-Shrinks (suc n) [] = tt
take_runes-Shrinks (suc n) (b ∷ bs) = ground (
  arith,
  take_runes-Shrinks n (drop (rune_size (b ∷ bs)) (b ∷ bs)),
  length-drop (rune_size (b ∷ bs)) (b ∷ bs),
)

pub read_utf8_bytes-Shrinks :
    (limit : ℕ) (n : ℤ) (bs : Bytes) → Shrinks (length bs) (read_utf8_bytes limit n bs)
unfolding read_utf8_bytes check_scalar_byte_length
read_utf8_bytes-Shrinks limit n bs = ground (arith, take_runes-Shrinks (pos_part n) bs)

Shrinks-mono {ℓ} :
    {A : Type ℓ} (m n : ℕ) (r : WireResult (A × Bytes)) → m ≤ n → Shrinks m r → Shrinks n r
Shrinks-mono m n (ok (a, rest)) h s = omega arith
Shrinks-mono m n (err e) h s = tt
Shrinks-mono m n stuck h s = s

Shrinks-ne-stuck {ℓ} : {A : Type ℓ} (n : ℕ) (r : WireResult (A × Bytes)) → Shrinks n r → r ≢ stuck
Shrinks-ne-stuck n (ok p) s = λ q. cc
Shrinks-ne-stuck n (err e) s = λ q. cc
Shrinks-ne-stuck n stuck s = absurd s

pub >>=-Shrinks {ℓ κ} :
    {A : Type ℓ} {B : Type κ} (n : ℕ) (r : WireResult (A × Bytes))
    (f : A × Bytes → WireResult (B × Bytes))
    → Shrinks n r
    → ((a : A) (bs : Bytes) → length bs ≤ n → Shrinks (length bs) (f (a, bs)))
    → Shrinks n (r >>= f)
>>=-Shrinks n (ok (a, bs)) f s g = Shrinks-mono (length bs) n (f (a, bs)) s (g a bs s)
>>=-Shrinks n (err e) f s g = tt
>>=-Shrinks n stuck f s g = s

pub read_size-Shrinks : (bs : Bytes) → Shrinks (length bs) (read_size bs)
unfolding read_size
read_size-Shrinks [] = tt
read_size-Shrinks (a ∷ []) = tt
read_size-Shrinks (a ∷ b ∷ bs) = omega arith

-- one round behind its chunk
after_chunk :
    (fuel limit tag : ℕ) (out chunk rest : Bytes)
    → ((t : ℕ) (bs : Bytes)
        → length bs < fuel
        → Shrinks (length bs) (read_chunks fuel limit t (out ++ chunk) bs))
    → length rest < suc fuel
    → Shrinks (length rest) (
        check_scalar_byte_length limit (length out + length chunk)
        >> (if tag == b's'
            then read_byte rest >>= (λ p. read_chunks fuel limit p.0 (out ++ chunk) p.1)
            else ok (out ++ chunk, rest)))
unfolding check_scalar_byte_length read_byte
after_chunk fuel limit tag out chunk [] f l = ground arith
after_chunk fuel limit tag out chunk (b ∷ bs) f l = ground (
  arith,
  Shrinks-mono (length bs) (suc (length bs)) (read_chunks fuel limit b (out ++ chunk) bs)
      (omega arith) (f b bs (omega arith)),
)

read_chunks-Shrinks :
    (fuel limit tag : ℕ) (out bs : Bytes)
    → length bs < fuel
    → Shrinks (length bs) (read_chunks fuel limit tag out bs)
unfolding read_chunks
read_chunks-Shrinks zero limit tag out bs h = absurd (omega arith)
read_chunks-Shrinks (suc fuel) limit tag out bs h =
    >>=-Shrinks (length bs) (chunk_length tag bs) _ (chunk_length-Shrinks tag bs) λ n body l.
      >>=-Shrinks (length body) (read_utf8_bytes limit (pos n) body) _
        (read_utf8_bytes-Shrinks limit (pos n) body)
        λ chunk rest l'.
          after_chunk fuel limit tag out chunk rest
            (λ t bs' k. read_chunks-Shrinks fuel limit t (out ++ chunk) bs' k) (omega arith)

pub read_chunked_string-Shrinks :
    (limit tag : ℕ) (bs : Bytes) → Shrinks (length bs) (read_chunked_string limit tag bs)
unfolding read_chunked_string
read_chunked_string-Shrinks limit tag bs =
    read_chunks-Shrinks (suc (length bs)) limit tag [] bs (omega arith)

bytes_length-Shrinks : (tag : ℕ) (bs : Bytes) → Shrinks (length bs) (bytes_length tag bs)
unfolding bytes_length
bytes_length-Shrinks tag bs = ground (arith, read_size-Shrinks bs)

-- one round behind its length, `tail` being what its bytes leave
after_bytes :
    (fuel limit tag size : ℕ) (out body tail : Bytes)
    → ((t : ℕ) (bs : Bytes)
        → length bs < fuel
        → Shrinks (length bs) (read_byte_chunks fuel limit t (out ++ take size body) bs))
    → length body < suc fuel
    → length tail ≤ length body
    → Shrinks (length body) (
        guard (leb size (length body)) short_bytes
        >> (check_scalar_byte_length limit (length out + size)
            >> (if tag == b'b'
                then read_byte tail
                  >>= (λ p. read_byte_chunks fuel limit p.0 (out ++ take size body) p.1)
                else ok (out ++ take size body, tail))))
unfolding check_scalar_byte_length read_byte
after_bytes fuel limit tag size out body [] f l k = ground arith
after_bytes fuel limit tag size out body (b ∷ bs) f l k = ground (
  arith,
  Shrinks-mono (length bs) (length body) (read_byte_chunks fuel limit b (out ++ take size body) bs)
      (omega arith) (f b bs (omega arith)),
)

read_byte_chunks-Shrinks :
    (fuel limit tag : ℕ) (out bs : Bytes)
    → length bs < fuel
    → Shrinks (length bs) (read_byte_chunks fuel limit tag out bs)
unfolding read_byte_chunks
read_byte_chunks-Shrinks zero limit tag out bs h = absurd (omega arith)
read_byte_chunks-Shrinks (suc fuel) limit tag out bs h =
    >>=-Shrinks (length bs) (bytes_length tag bs) _ (bytes_length-Shrinks tag bs) λ size body l.
      after_bytes fuel limit tag size out body (drop size body)
        (λ t bs' k. read_byte_chunks-Shrinks fuel limit t (out ++ take size body) bs' k)
        (omega arith) (omega (arith, length-drop size body))

pub read_bytes_with_tag-Shrinks :
    (limit tag : ℕ) (bs : Bytes) → Shrinks (length bs) (read_bytes_with_tag limit tag bs)
unfolding read_bytes_with_tag
read_bytes_with_tag-Shrinks limit tag bs =
    read_byte_chunks-Shrinks (suc (length bs)) limit tag [] bs (omega arith)

-- The reader of a chunked text ends on every input, with a text or with an error.
pub read_chunked_string-ne-stuck :
    (limit tag : ℕ) (bs : Bytes) → read_chunked_string limit tag bs ≢ stuck
read_chunked_string-ne-stuck limit tag bs =
    Shrinks-ne-stuck (length bs) _ (read_chunked_string-Shrinks limit tag bs)
