-- ===== src/Wire/RoundTrip/Leaf.antt =====
-- The cases of writeValue that write no other value.
use sofarpc_cli.Prelude.Int.{neg_part, pos_part, ℤ}
use sofarpc_cli.Prelude.{
  Option, Bytes, List, arith, length, length-append, refl, suc, ℕ, ◌++◌, ◌<◌, ◌≡◌, if◌then◌else◌,
  ◌^◌, ◌≤◌, sym, ap, subst, ◌∙◌, Bool, [], ◌∷◌,
}
use sofarpc_cli.Prelude.Map.{Map}
use sofarpc_cli.Wire.RoundTrip.Back.{IsReady, WroteBack}
use sofarpc_cli.Wire.RoundTrip.Follows.{HasRoom}
use sofarpc_cli.Wire.RoundTrip.Image.{IsImage}
use sofarpc_cli.Wire.Encoder.{
  Arg, HessianWriter, go_bool, go_float, go_nil, go_string, on_buf, put, put_string,
}
use sofarpc_cli.Wire.Writer.{write_double, write_int, write_long}
use sofarpc_cli.Wire.RoundTrip.Scalars.{
  double_bytes, double_bytes-pos, int_bytes, int_bytes-pos, long_bytes, long_bytes-pos,
  read_value-bool, read_value-double, read_value-int, read_value-long, read_value-nil,
  write_double_lem, write_int_lem, write_long_lem,
}
use sofarpc_cli.Wire.RoundTrip.Entries.{put_string_lem}
use sofarpc_cli.Wire.RoundTrip.Texts.{
  IsText, read_value-string, string_bytes, string_bytes-pos, length-string_bytes,
}
use sofarpc_cli.Wire.Decoder.Values.{read_value}
use sofarpc_cli.Wire.Decoder.State.{bool, float64, int64, null, text, Float64}
use sofarpc_cli.Wire.Decoder.State.{Decoder, Limits, Reader, Value, Node}
use sofarpc_cli.Wire.Result.{ok_inverse, WireResult, ok}

module _ (l : Limits) (read : Reader Value) (need n : ℕ) where
  pub leaf-WroteBack :
      (g : Arg) (w : HessianWriter) (bytes : Bytes) (v : Value)
      → 0 < length bytes
      → ((d : Decoder) (rest : Bytes)
          → d.depth < l.max_depth
          → HasRoom l (record d { unread = bytes ++ rest })
          → read (record d { unread = bytes ++ rest }) ≡ ok (v, record d { unread = rest }))
      → ((base : ℕ) (h : List Node) → IsImage n base h v g)
      → WroteBack l read (suc need) n g w (record w { buf = w.buf ++ bytes })
  leaf-WroteBack g w bytes v some_bytes found image = (
    bytes,
    refl,
    some_bytes,
    λ d rest ready.
        let size = length-append bytes rest in
        (
          v,
          d,
          found d rest (omega (arith, ready.shallow)) ready.room,
          record {
            same_depth = refl;
            fewer = omega (arith, size);
            refs_paid = omega (arith, size);
            class_defs_paid = omega (arith, size);
            types_paid = omega (arith, size);
            heap_grows = omega arith;
            heap_kept = λ i h. refl;
          },
          ready.agree,
          image (length d.heap) d.heap,
        ),
  )

  pub less_shallow :
      {defs : Map ℕ} {d : Decoder} {bs : Bytes}
      → IsReady l (suc need) defs d bs
      → IsReady l need defs d bs
  less_shallow ready = record {
    room = ready.room;
    shallow = omega (arith, ready.shallow);
    agree = ready.agree;
  }

  pub WroteBack-deeper :
      (g : Arg) (w w' : HessianWriter)
      → WroteBack l read need n g w w'
      → WroteBack l read (suc need) n g w w'
  WroteBack-deeper g w w' (written, e, some_bytes, back) =
      (written, e, some_bytes, λ d rest ready. back d rest (less_shallow ready))

-- the reader has a level left
module _ (l : Limits) (sprint : List Node → Value → Option Bytes) (r need n : ℕ) where
  leaf :
      (g : Arg) (w w' : HessianWriter) (bytes : Bytes) (v : Value)
      → 0 < length bytes
      → WireResult.ok (record w { buf = w.buf ++ bytes }) ≡ ok w'
      → ((d : Decoder) (rest : Bytes)
          → d.depth < l.max_depth
          → HasRoom l (record d { unread = bytes ++ rest })
          → read_value l sprint (suc r) (record d { unread = bytes ++ rest })
            ≡ ok (v, record d { unread = rest }))
      → ((base : ℕ) (h : List Node) → IsImage (suc n) base h v g)
      → WroteBack l (read_value l sprint (suc r)) (suc need) (suc n) g w w'
  leaf g w w' bytes v some_bytes wrote found image =
      subst (WroteBack l (read_value l sprint (suc r)) (suc need) (suc n) g w) (ok_inverse wrote) (
        leaf-WroteBack l (read_value l sprint (suc r)) need (suc n) g w bytes v some_bytes found
          image)

  pub nil-leaf :
      (w w' : HessianWriter)
      → WireResult.ok (put b'N' w) ≡ ok w'
      → WroteBack l (read_value l sprint (suc r)) (suc need) (suc n) go_nil w w'
  nil-leaf w w' h =
      leaf go_nil w w' (b'N' ∷ []) null (omega arith) h
        (λ d rest shallow room. read_value-nil l sprint r d shallow rest) (λ base heap. refl)

  pub bool-leaf :
      (b : Bool) (w w' : HessianWriter)
      → WireResult.ok (put (if b then b'T' else b'F') w) ≡ ok w'
      → WroteBack l (read_value l sprint (suc r)) (suc need) (suc n) (go_bool b) w w'
  bool-leaf b w w' h =
      leaf (go_bool b) w w' ((if b then b'T' else b'F') ∷ []) (bool b) (omega arith) h
        (λ d rest shallow room. read_value-bool l sprint r d shallow b rest) (λ base heap. refl)

  pub string-leaf :
      (s : Bytes) (w w' : HessianWriter)
      → IsText s
      → put_string s w ≡ ok w'
      → WroteBack l (read_value l sprint (suc r)) (suc need) (suc n) (go_string s) w w'
  string-leaf s w w' sound h =
      leaf (go_string s) w w' (string_bytes s) (text s) (string_bytes-pos s)
        (sym (put_string_lem s w sound) ∙ h)
        (λ d rest shallow room.
          read_value-string l sprint r d shallow s rest sound
            (omega (arith, room, length-string_bytes s, length-append (string_bytes s) rest)))
        (λ base heap. refl)

  pub int-leaf :
      (g : Arg) (i : ℤ) (w w' : HessianWriter)
      → pos_part i < 2 ^ 31
      → neg_part i ≤ 2 ^ 31
      → ((base : ℕ) (h : List Node) → IsImage (suc n) base h (int64 i) g)
      → WireResult.ok (on_buf (write_int i) w) ≡ ok w'
      → WroteBack l (read_value l sprint (suc r)) (suc need) (suc n) g w w'
  int-leaf g i w w' small_pos small_neg image h =
      leaf g w w' (int_bytes i) (int64 i) (int_bytes-pos i)
        (ap (λ bs. WireResult.ok (record w { buf = bs })) (sym (write_int_lem i w.buf)) ∙ h)
        (λ d rest shallow room. read_value-int l sprint r d shallow i rest small_pos small_neg)
        image

  pub long-leaf :
      (g : Arg) (i : ℤ) (w w' : HessianWriter)
      → pos_part i < 2 ^ 63
      → neg_part i ≤ 2 ^ 63
      → ((base : ℕ) (h : List Node) → IsImage (suc n) base h (int64 i) g)
      → WireResult.ok (on_buf (write_long i) w) ≡ ok w'
      → WroteBack l (read_value l sprint (suc r)) (suc need) (suc n) g w w'
  long-leaf g i w w' small_pos small_neg image h =
      leaf g w w' (long_bytes i) (int64 i) (long_bytes-pos i)
        (ap (λ bs. WireResult.ok (record w { buf = bs })) (sym (write_long_lem i w.buf)) ∙ h)
        (λ d rest shallow room. read_value-long l sprint r d shallow i rest small_pos small_neg)
        image

  pub double-leaf :
      (bits : ℕ) (w w' : HessianWriter)
      → bits < 2 ^ 64
      → WireResult.ok (on_buf (write_double bits) w) ≡ ok w'
      → WroteBack l (read_value l sprint (suc r)) (suc need) (suc n) (go_float bits) w w'
  double-leaf bits w w' small h =
      leaf (go_float bits) w w' (double_bytes bits) (float64 (Float64.of_bits64 bits))
        (double_bytes-pos bits)
        (ap (λ bs. WireResult.ok (record w { buf = bs })) (sym (write_double_lem bits w.buf)) ∙ h)
        (λ d rest shallow room. read_value-double l sprint r d shallow bits rest small)
        (λ base heap. refl)
