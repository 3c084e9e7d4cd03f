-- ===== src/Wire/RoundTrip/Texts.antt =====
-- readValue and readStringValue against writeString.
use sofarpc_cli.Prelude.{
  Option, Bool-cases, Bytes, List, [], ap, append_assoc, arith, false, if◌then◌else◌, inl, inr,
  is_empty, leb, length, ltb, refl, subst, suc, sym, true, ℕ, ◌++◌, ◌<◌, ◌^◌, ◌∙◌, ◌∷◌, ◌≡◌, ◌≤◌,
  ◌⊎◌,
}
use sofarpc_cli.Prelude.BigEndian.{be16}
use sofarpc_cli.Prelude.Int.{ℤ}
use sofarpc_cli.Wire.RoundTrip.Scalars.{scalar_by_tag}
use sofarpc_cli.Wire.RoundTrip.{read_chunked_string-write_string, rune_count-concat}
use sofarpc_cli.Wire.Decoder.State.{Decoder, Limits, Node, Value, text, on_unread, int64}
use sofarpc_cli.Wire.Decoder.Values.{read_value, read_tagged, read_number, read_blob}
use sofarpc_cli.Wire.Decoder.Scalars.{
  read_integer, read_double, between, read_string_with_tag, string_of_tag, read_string_value,
}
use sofarpc_cli.Wire.Decoder.Tables.{scalar}
use sofarpc_cli.Wire.Reader.{read_byte, read_chunked_string}
use sofarpc_cli.Wire.Result.{WireResult, ok, ◌>>=◌}
use sofarpc_cli.Wire.Writer.{write_string}
use sofarpc_cli.Wire.Utf8.{AreRunes, concat, rune_count}

-- a text in well-formed UTF-8 that writeString takes
abbrev pub IsText : Bytes → Type 0
IsText s = (rs : List Bytes) × AreRunes rs × (concat rs ≡ s) × (length rs < 2 ^ 16)

string_tag : Bytes → ℕ
string_tag s = if is_empty s then 0 else if leb (rune_count s) 0x1f then rune_count s else b'S'

string_rest : Bytes → Bytes
string_rest s =
    if is_empty s then [] else if leb (rune_count s) 0x1f then s else be16 (rune_count s) ++ s

pub string_bytes : Bytes → Bytes
unfolding string_tag string_rest
string_bytes s = string_tag s ∷ string_rest s

pub write_string_lem : (s buf : Bytes) → IsText s → write_string s buf ≡ ok (buf ++ string_bytes s)
unfolding write_string string_bytes
write_string_lem s buf (rs, runes, e, few) =
    let count : rune_count s ≡ length rs = ap rune_count (sym e) ∙ rune_count-concat rs runes in
    let within : ltb 65535 (rune_count s) ≡ false = ground arith in
    elim (Bool-cases (is_empty s)) [
      | inl none_left ↦ rw none_left refl
      | inr some_left ↦ elim (Bool-cases (leb (rune_count s) 0x1f)) [
        | inl short ↦ rw (some_left, short) refl
        | inr long ↦
            rw (some_left, long, within)
              (ap ok (
                append_assoc (buf ++ (b'S' ∷ [])) (be16 (rune_count s)) s
                ∙ append_assoc buf (b'S' ∷ []) (be16 (rune_count s) ++ s)))
      ]
    ]

-- the tags of a text
string_tag_cases : (s : Bytes) → (leb (string_tag s) 0x1f ≡ true) ⊎ (string_tag s ≡ b'S')
unfolding string_tag
string_tag_cases s = elim (Bool-cases (is_empty s)) [
  | inl none_left ↦ inl (rw none_left refl)
  | inr some_left ↦ elim (Bool-cases (leb (rune_count s) 0x1f)) [
    | inl short ↦ inl (rw (some_left, short) short)
    | inr long ↦ inr (rw (some_left, long) refl)
  ]
]

-- which none of the marks that the readers look ahead for is
pub string_bytes-mark :
    (s bs : Bytes)
    → (b : ℕ) × (rest : Bytes) × (string_bytes s ++ bs ≡ b ∷ rest)
      × ((leb b 0x1f ≡ true) ⊎ (b ≡ b'S'))
unfolding string_bytes
string_bytes-mark s bs = (string_tag s, string_rest s ++ bs, refl, string_tag_cases s)

pub string_bytes-pos : (s : Bytes) → 0 < length (string_bytes s)
unfolding string_bytes
string_bytes-pos s = omega arith

pub length-string_bytes : (s : Bytes) → length s ≤ length (string_bytes s)
unfolding string_bytes
length-string_bytes [] = omega arith
length-string_bytes (b ∷ s) = elim (Bool-cases (leb (rune_count (b ∷ s)) 0x1f)) [
  | inl short ↦ rw short (omega arith)
  | inr long ↦ rw long (omega arith)
]

chunked_string_back :
    (limit : ℕ) (s rest : Bytes)
    → IsText s
    → length s ≤ limit
    → read_chunked_string limit (string_tag s) (string_rest s ++ rest) ≡ ok (s, rest)
unfolding string_bytes read_byte
chunked_string_back limit s rest (rs, runes, e, few) fits =
    let (written, wrote, read_back) =
      read_chunked_string-write_string limit rs runes few (rw e fits) in
    let same : WireResult.ok (string_bytes s) ≡ ok written =
      sym (write_string_lem s [] (rs, runes, e, few))
      ∙ ap (λ t. write_string t []) (sym e)
      ∙ wrote in
    let bytes : string_bytes s ≡ written = cc in
    subst (λ t. read_chunked_string limit (string_tag s) (string_rest s ++ rest) ≡ ok (t, rest)) e
      (ap (λ bs. read_byte (bs ++ rest) >>= λ p. read_chunked_string limit p.0 p.1) bytes
        ∙ read_back rest)

module _ (l : Limits) (print : ℤ → Option Bytes) where
  string_with_tag :
      (tag : ℕ) (bs : Bytes)
      → (leb tag 0x1f ≡ true) ⊎ (tag ≡ b'S')
      → read_string_with_tag l print tag bs ≡ read_chunked_string l.max_scalar_bytes tag bs
  unfolding read_string_with_tag string_of_tag read_integer between
  string_with_tag tag bs (inl h) = ground arith
  string_with_tag tag bs (inr h) =
      subst (λ t. read_string_with_tag l print t bs ≡ read_chunked_string l.max_scalar_bytes t bs)
        (sym h) refl

  pub read_string_value-string :
      (s rest : Bytes)
      → IsText s
      → length s ≤ l.max_scalar_bytes
      → read_string_value l print (string_bytes s ++ rest) ≡ ok (s, rest)
  unfolding read_string_value read_byte string_bytes
  read_string_value-string s rest good fits =
      string_with_tag (string_tag s) (string_rest s ++ rest) (string_tag_cases s)
      ∙ chunked_string_back l.max_scalar_bytes s rest good fits

module _ (l : Limits) (sprint : List Node → Value → Option Bytes) (n : ℕ) (d : Decoder)
    (shallow : d.depth < l.max_depth) where
  text_tag :
      (tag : ℕ) (d1 : Decoder)
      → (leb tag 0x1f ≡ true) ⊎ (tag ≡ b'S')
      → read_tagged l sprint (read_value l sprint n) tag d1
        ≡ scalar text (read_string_with_tag l (λ i. sprint [] (int64 i)) tag) d1
  unfolding read_tagged read_number read_integer read_double read_blob between
  text_tag tag d1 (inl h) = ground arith
  text_tag tag d1 (inr h) = rw h refl

  pub read_value-string :
      (s rest : Bytes)
      → IsText s
      → length s ≤ l.max_scalar_bytes
      → read_value l sprint (suc n) (record d { unread = string_bytes s ++ rest })
        ≡ ok (text s, record d { unread = rest })
  unfolding string_bytes scalar on_unread
  read_value-string s rest good fits =
      scalar_by_tag l sprint n d shallow (string_tag s) (string_rest s ++ rest) rest (text s) (
        text_tag (string_tag s) _ (string_tag_cases s)
        ∙ (let e =
              string_with_tag l (λ i. sprint [] (int64 i)) (string_tag s) (string_rest s ++ rest)
                (string_tag_cases s)
              ∙ chunked_string_back l.max_scalar_bytes s rest good fits in
            rw e refl))
