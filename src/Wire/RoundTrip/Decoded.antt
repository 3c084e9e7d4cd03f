-- ===== src/Wire/RoundTrip/Decoded.antt =====
-- Decode of what a fresh writer has written.
use sofarpc_cli.Prelude.{
  some, Option, Bytes, List, [], append-nil, arith, length, refl, suc, sym, ℕ, ◌++◌, ◌<◌, ◌^◌, ◌∙◌,
  ◌≡◌, ◌≤◌,
}
use sofarpc_cli.Prelude.Map.{lookup}
use sofarpc_cli.Wire.RoundTrip.Back.{Agree, IsReady}
use sofarpc_cli.Wire.RoundTrip.Image.{IsImage}
use sofarpc_cli.Wire.RoundTrip.ValueBack.{IsSound, levels, write_value-back}
use sofarpc_cli.Wire.Encoder.{Arg, HessianWriter, new_hessian_writer}
use sofarpc_cli.Wire.Encoder.Values.{write_value}
use sofarpc_cli.Wire.Decoder.State.{
  Decoder, Limits, Node, RawLimits, Reader, Value, ensure_limits, new_decoder, text,
}
use sofarpc_cli.Wire.Decoder.Values.{decode, read_value}
use sofarpc_cli.Wire.Result.{ok}

-- no more bytes than any of the limits, of which those of refs and of items are below 2^31
pub record Holds (l : Limits) (bs : Bytes) : Type 0 where
  pub refs_hold : length bs ≤ l.max_refs
  pub items_hold : length bs ≤ l.max_collection_items
  pub scalars_hold : length bs ≤ l.max_scalar_bytes
  pub refs_small : l.max_refs < 2 ^ 31
  pub items_small : l.max_collection_items < 2 ^ 31

no_defs : Agree [] []
unfolding lookup
no_defs = record { as_many = refl; same_defs = λ name names ref p ps h. absurd (cc) }

pub fresh-IsReady :
    (l : Limits) (need : ℕ) (bs : Bytes)
    → Holds l bs
    → need ≤ l.max_depth
    → IsReady l need new_hessian_writer.object_defs (new_decoder bs) bs
unfolding new_decoder new_hessian_writer
fresh-IsReady l need bs holds deep = record {
  room = omega arith;
  shallow = omega arith;
  agree = no_defs;
}

on_empty_heap :
    (bs : Bytes) (n : ℕ) (h : List Node) (v : Value) (g : Arg)
    → IsImage n (length (new_decoder bs).heap) h v g
    → IsImage n 0 h v g
unfolding new_decoder
on_empty_heap bs n h v g image = image

from_start :
    (read : Reader Value) (written bs : Bytes)
    → written ≡ bs
    → read (new_decoder bs) ≡ read (record (new_decoder bs) { unread = written })
unfolding new_decoder
from_start read written bs same = rw same refl

-- What writeValue has written with a new writer is decoded to a value that stands for what was
-- written, and no byte is left: where texts are in well-formed UTF-8 of at most 65535 code points,
-- integers fit their encoding, names of types and fields are neither empty nor hold a NUL and no map
-- has a key twice; where the limits of the decoder are no less than the number of bytes, those of refs
-- and of items are below 2^31, and its depth is at least three times that of the value; and where fmt.Sprint gives a text as it is.
pub decode-write_value :
    (limits : RawLimits) (sprint : List Node → Value → Option Bytes) (n : ℕ) (g : Arg)
    (w : HessianWriter)
    → ((h : List Node) (s : Bytes) → sprint h (text s) ≡ some s)
    → IsSound n g
    → levels n ≤ (ensure_limits limits).max_depth
    → Holds (ensure_limits limits) w.buf
    → write_value n g new_hessian_writer ≡ ok w
    → (v : Value) × (d : Decoder) × (decode limits sprint w.buf ≡ ok (v, d))
      × (d.unread ≡ [])
      × IsImage n 0 d.heap v g
unfolding decode new_hessian_writer
decode-write_value limits sprint n g w prints_text sound deep holds h =
    let l = ensure_limits limits in
    let (written, e, some_bytes, back) =
      write_value-back l holds.refs_small holds.items_small sprint prints_text n (suc l.max_depth) g
        new_hessian_writer w (omega arith) sound h in
    let same : written ++ [] ≡ w.buf = append-nil written ∙ sym e in
    let (v, d, found, follows, agree, image) =
      back (new_decoder w.buf) [] (rw same (fresh-IsReady l (levels n) w.buf holds deep)) in
    (
      v,
      record d { unread = [] },
      from_start (read_value l sprint (suc l.max_depth)) (written ++ []) w.buf same ∙ found,
      refl,
      on_empty_heap w.buf n d.heap v g image,
    )
