-- ===== src/Wire/Decoder/Decode.antt =====
-- What the calls of readValue get: an end on every input, tables within their limits, and an error
-- for a value that is nested too deep.
use sofarpc_cli.Prelude.{
  Option, Bytes, List, arith, inl, inr, length, refl, suc, ◌<◌, ◌≡◌, ◌≤◌, ◌⊎◌,
}
use sofarpc_cli.Wire.Decoder.Reads.{Reads, fails, reads}
use sofarpc_cli.Wire.Decoder.State.{
  Decoder, Limits, Node, RawLimits, Value, ensure_limits, new_decoder,
}
use sofarpc_cli.Wire.Decoder.Totality.{read_value-Reads}
use sofarpc_cli.Wire.Decoder.Values.{decode}
use sofarpc_cli.Wire.Result.{WireError, WireResult, err, ok}

decode-Reads :
    (r : RawLimits) (sprint : List Node → Value → Option Bytes) (bs : Bytes)
    → Reads (ensure_limits r) 1 (new_decoder bs) (decode r sprint bs)
unfolding decode new_decoder
decode-Reads r sprint bs =
    let l = ensure_limits r in
    read_value-Reads l sprint (suc l.max_depth) (new_decoder bs) (omega arith) (omega arith)

ending :
    {l : Limits} (d : Decoder) {r : WireResult (Value × Decoder)}
    → Reads l 1 d r
    → ((e : WireError) × (r ≡ err e))
      ⊎ ((v : Value) × (d' : Decoder) × (r ≡ ok (v, d'))
          × (d'.depth ≡ d.depth)
          × (length d'.unread < length d.unread))
ending d (reads v d' s) = inr (v, d', refl, s.same_depth, omega arith)
ending d (fails e) = inl (e, refl)

-- Whatever the input is and however the limits are set, readValue runs no loop or nesting without
-- end of its own: it ends with a value, back at the depth where it began and behind at least one
-- byte, or with an error, among which is stack_overflow for a call of fmt.Sprint on the key of a map
-- that does not return and so ends the process.
pub decode_total :
    (r : RawLimits) (sprint : List Node → Value → Option Bytes) (bs : Bytes)
    → ((e : WireError) × (decode r sprint bs ≡ err e))
      ⊎ ((v : Value) × (d : Decoder) × (decode r sprint bs ≡ ok (v, d))
          × (d.depth ≡ 0)
          × (length d.unread < length bs))
unfolding new_decoder
decode_total r sprint bs = ending (new_decoder bs) (decode-Reads r sprint bs)

ending_within :
    {l : Limits} (bs : Bytes) {r : WireResult (Value × Decoder)} (v : Value) (d : Decoder)
    → Reads l 1 (new_decoder bs) r
    → r ≡ ok (v, d)
    → (length d.refs ≤ l.max_refs)
      × (length d.class_defs ≤ l.max_refs)
      × (length d.types ≤ l.max_refs)
unfolding new_decoder
ending_within bs v d (reads v' d' s) e = ground (
  arith,
  s.refs_within (omega arith),
  s.class_defs_within (omega arith),
  s.types_within (omega arith),
)
ending_within bs v d (fails x) e = absurd (cc)

-- When a value has been read, no table holds more entries than the limit of refs that is in force.
pub decode-within_limits :
    (r : RawLimits) (sprint : List Node → Value → Option Bytes) (bs : Bytes) (v : Value)
    (d : Decoder)
    → decode r sprint bs ≡ ok (v, d)
    → (length d.refs ≤ (ensure_limits r).max_refs)
      × (length d.class_defs ≤ (ensure_limits r).max_refs)
      × (length d.types ≤ (ensure_limits r).max_refs)
decode-within_limits r sprint bs v d e = ending_within bs v d (decode-Reads r sprint bs) e
