-- ===== src/Wire/Requests/ReadBack.antt =====
-- The content of a request, read back: the SofaRequest and the arguments behind it.
use sofarpc_cli.Prelude.Int.{ℤ}
use sofarpc_cli.Prelude.Result.{Result}
use sofarpc_cli.Wire.RoundTrip.Decoded.{Holds, fresh-IsReady}
use sofarpc_cli.Prelude.Sort.{contains}
use sofarpc_cli.Prelude.{
  some, All, Bytes, List, [], append-nil, append_assoc, ap, arith, codes, length, refl, suc, sym, ℕ,
  ◌++◌, ◌+◌, ◌-◌, ◌<◌, ◌^◌, ◌∙◌, ◌∷◌, ◌≡◌, ◌≤◌, false, is_empty, bytes_eq, true, subst, Option,
}
use sofarpc_cli.Prelude.Separated.{lacks}
use sofarpc_cli.Wire.Decoder.State.{
  Decoder, Limits, Node, Value, text, new_decoder, RawLimits, ensure_limits,
}
use sofarpc_cli.Wire.Decoder.Values.{read_items, read_value, decode}
use sofarpc_cli.Wire.Encoder.{
  Arg, HessianWriter, go_string, go_strings, request_class, string_map, new_hessian_writer,
}
use sofarpc_cli.Wire.Encoder.Values.{
  pointed_string, write_object, write_value, write_values, write_sofa_request,
}
use sofarpc_cli.Wire.Requests.Build.{
  prop_fields, encode_sofa_request, build_generic_request-content, request_depth,
  build_generic_request, EncodedRequest, prepare_args,
}
use sofarpc_cli.Wire.Requests.{RequestParts, RequestSpec, build_request_parts}
use sofarpc_cli.Wire.Result.{ok, bind_ok}
use sofarpc_cli.Wire.RoundTrip.Ascii.{IsAscii-IsText}
use sofarpc_cli.Wire.RoundTrip.Back.{
  IsName, IsReady, IsReady-next, WroteBack, read_items-write_values,
}
use sofarpc_cli.Wire.RoundTrip.Cases.{shallower}
use sofarpc_cli.Wire.RoundTrip.Entries.{AreDistinct}
use sofarpc_cli.Wire.RoundTrip.Image.{Each, Each-map, IsImage, IsImage-stays, IsObject}
use sofarpc_cli.Wire.RoundTrip.Leaf.{WroteBack-deeper}
use sofarpc_cli.Wire.RoundTrip.ValueBack.{IsSound, levels, write_value-back}
use sofarpc_cli.Wire.RoundTrip.WriteObject.{write_object-back}

abbrev pub request_names : List Bytes
request_names =
    codes "targetAppName"
    ∷ codes "methodName"
    ∷ codes "targetServiceUniqueName"
    ∷ codes "requestProps"
    ∷ codes "methodArgSigs"
    ∷ []

-- the values of the fields of the SofaRequest
abbrev pub request_values : RequestSpec Arg → RequestParts → List Arg
request_values spec parts =
    pointed_string parts.target_app
    ∷ go_string spec.method
    ∷ go_string parts.unique_name
    ∷ string_map (prop_fields parts.request_props)
    ∷ go_strings spec.param_types
    ∷ []

IsAscii-IsName :
    (s : Bytes)
    → All (λ b. b < 128) s
    → length s < 2 ^ 16
    → is_empty s ≡ false
    → lacks 0 s ≡ true
    → IsName s
IsAscii-IsName s a few some_left whole = (IsAscii-IsText s a few, some_left, whole)

request_class-IsName : IsName request_class
unfolding lacks
request_class-IsName = IsAscii-IsName request_class (omega arith) (omega arith) refl refl

pub request_names-All : All IsName request_names
unfolding lacks
request_names-All = (
  IsAscii-IsName (codes "targetAppName") (omega arith) (omega arith) refl refl,
  (
    IsAscii-IsName (codes "methodName") (omega arith) (omega arith) refl refl,
    (
      IsAscii-IsName (codes "targetServiceUniqueName") (omega arith) (omega arith) refl refl,
      (
        IsAscii-IsName (codes "requestProps") (omega arith) (omega arith) refl refl,
        (IsAscii-IsName (codes "methodArgSigs") (omega arith) (omega arith) refl refl, tt),
      ),
    ),
  ),
)

request_names-AreDistinct : AreDistinct request_names
unfolding contains bytes_eq
request_names-AreDistinct = (refl, (refl, (refl, (refl, (refl, tt)))))

Each-from_start :
    (n base : ℕ) (h : List Node) (xs : List Value) (gs : List Arg)
    → Each (IsImage n base h) xs gs
    → Each (IsImage n 0 h) xs gs
Each-from_start n base h xs gs each =
    Each-map (IsImage n base h) (IsImage n 0 h) xs gs
      (λ x y. IsImage-stays base 0 h h (omega arith) (λ i node le k. k) n x y) each

-- an object and the values behind it, from a new writer to a new decoder
module _ (l : Limits) (refs_small : l.max_refs < 2 ^ 31)
    (items_small : l.max_collection_items < 2 ^ 31) (sprint : List Node → Value → Option Bytes)
    (prints_text : (h : List Node) (s : Bytes) → sprint h (text s) ≡ some s) (n : ℕ)
    (deep : levels (suc n) ≤ l.max_depth) where
  value_back :
      (k : ℕ) (g : Arg) (w w' : HessianWriter)
      → IsSound n g
      → write_value n g w ≡ ok w'
      → WroteBack l (read_value l sprint (suc (k + (l.max_depth - 2)))) (suc (levels n)) n g w w'
  value_back k g w w' sound h =
      WroteBack-deeper l (read_value l sprint (suc (k + (l.max_depth - 2)))) (levels n) n g w w' (
        write_value-back l refs_small items_small sprint prints_text n (suc (k + (l.max_depth - 2)))
          g w w' (omega arith) sound h)

  write_object_and_values-back :
      (name : Bytes) (names : List Bytes) (gs args : List Arg) (w w' w'' : HessianWriter)
      → IsName name
      → All IsName names
      → AreDistinct names
      → All (λ g. IsSound n g) gs
      → All (λ g. IsSound n g) args
      → length names ≡ length gs
      → write_object (write_value n) name names gs w ≡ ok w'
      → write_values (write_value n) args w' ≡ ok w''
      → (written : Bytes) × (w''.buf ≡ w.buf ++ written)
        × ((d : Decoder)
            → IsReady l (levels (suc n)) w.object_defs d written
            → (v : Value) × (d1 : Decoder) × (xs : List Value) × (d2 : Decoder) × (read_value l
                  sprint
                  (suc l.max_depth)
                  (record d { unread = written })
                ≡ ok (v, d1))
              × (read_items l sprint (read_value l sprint (suc l.max_depth)) (length args) [] d1
                  ≡ ok (xs, d2))
              × (d2.unread ≡ [])
              × IsObject (IsImage n (length d.heap) d1.heap) (length d.heap) d1.heap v name names gs
              × Each (IsImage n 0 d2.heap) xs args)
  write_object_and_values-back name names gs args w w' w'' good goods once sounds args_sound same h
        k =
      let (first, e1, some_bytes, back1) =
        write_object-back l refs_small items_small sprint (l.max_depth - 2) (levels n) n
          (write_value n) (IsSound n) value_back name names gs w w' good goods once sounds same h in
      let (others, e2, count, back2) =
        read_items-write_values l sprint (read_value l sprint (suc l.max_depth)) (write_value n)
          (levels n) n (IsSound n)
          (λ g x x' s t.
            write_value-back l refs_small items_small sprint prints_text n (suc l.max_depth) g x x'
              (omega arith) s t)
          args w' w'' args_sound k in
      let fuel : suc (suc (suc (l.max_depth - 2))) ≡ suc l.max_depth = omega arith in
      (
        first ++ (others ++ []),
        e2
            ∙ ap (λ bs. bs ++ others) e1
            ∙ append_assoc w.buf first others
            ∙ ap (λ bs. w.buf ++ (first ++ bs)) (sym (append-nil others)),
        λ d ready.
            let (v, d1, r1, f1, a1, image) = back1 d (others ++ []) ready in
            let ready1 = IsReady-next l ready f1 a1 in
            let (xs, d2, r2, f2, a2, (ys, e, each)) =
              back2 d1 [] [] (shallower (omega arith) ready1) in
            (
              v,
              record d1 { unread = others ++ [] },
              xs,
              record d2 { unread = [] },
              subst
                  (λ fuel.
                    read_value l sprint fuel (record d { unread = first ++ (others ++ []) })
                    ≡ ok (v, record d1 { unread = others ++ [] }))
                  fuel r1,
              r2,
              refl,
              image,
              rw e (Each-from_start n (length d1.heap) d2.heap ys args each),
            ),
      )

-- The content of a request that BuildGenericRequest has built is read back value by value: the
-- SofaRequest with the name of the application, the method, the unique name, the properties and the
-- types of the parameters, then the arguments as PrepareArgs gives them, and no byte is left. It
-- holds where texts are in well-formed UTF-8 of at most 65535 code points, integers fit their
-- encoding, names of types and fields are neither empty nor hold a NUL and no map has a key twice;
-- where the limits of the decoder are no less than the number of bytes, those of refs and of items
-- are below 2^31, and its depth is at least three times that of the request and three more; and where fmt.Sprint gives a text as it is.
pub decode-build_generic_request :
    (limits : RawLimits) (sprint : List Node → Value → Option Bytes) (parse_int : Bytes → Option ℤ)
    (parse_float : Bytes → Option ℕ) (spec : RequestSpec Arg) (parts : RequestParts)
    (e : EncodedRequest) (n : ℕ)
    → ((h : List Node) (s : Bytes) → sprint h (text s) ≡ some s)
    → build_request_parts spec ≡ Result.ok parts
    → build_generic_request parse_int parse_float spec ≡ Result.ok e
    → n
      ≡ request_depth
          (prop_fields parts.request_props)
          (prepare_args parse_int parse_float spec.args)
    → All (λ g. IsSound n g) (request_values spec parts)
    → All (λ g. IsSound n g) (prepare_args parse_int parse_float spec.args)
    → levels (suc n) ≤ (ensure_limits limits).max_depth
    → Holds (ensure_limits limits) e.content
    → (v : Value) × (d1 : Decoder) × (xs : List Value) × (d2 : Decoder) × (decode limits sprint
          e.content
        ≡ ok (v, d1))
      × (read_items
            (ensure_limits limits)
            sprint
            (read_value (ensure_limits limits) sprint (suc (ensure_limits limits).max_depth))
            (length (prepare_args parse_int parse_float spec.args))
            []
            d1
          ≡ ok (xs, d2))
      × (d2.unread ≡ [])
      × IsObject
          (IsImage n 0 d1.heap)
          0
          d1.heap
          v
          request_class
          request_names
          (request_values spec parts)
      × Each (IsImage n 0 d2.heap) xs (prepare_args parse_int parse_float spec.args)
unfolding decode encode_sofa_request write_sofa_request new_hessian_writer new_decoder
decode-build_generic_request limits sprint parse_int parse_float spec parts e n prints_text built h
      same sounds args_sound deep holds =
    let l = ensure_limits limits in
    let args = prepare_args parse_int parse_float spec.args in
    let (w, encoded, content) =
      build_generic_request-content parse_int parse_float spec parts e built h in
    let encoded' : encode_sofa_request parse_int parse_float spec parts ≡ ok w = encoded in
    let (w1, one, more) =
      bind_ok
        (write_object (write_value n) request_class request_names (request_values spec parts)
          new_hessian_writer)
        (write_values (write_value n) args) (rw (sym same) at encoded') in
    let (written, all, back) =
      write_object_and_values-back l holds.refs_small holds.items_small sprint prints_text n deep
        request_class request_names (request_values spec parts) args new_hessian_writer w1 w
        request_class-IsName request_names-All request_names-AreDistinct sounds args_sound refl one
        more in
    let whole : e.content ≡ written = content ∙ all in
    let ready =
      subst (IsReady l (levels (suc n)) [] (new_decoder e.content)) whole
        (fresh-IsReady l (levels (suc n)) e.content holds deep) in
    let (v, d1, xs, d2, first, others, done, request, each) = back (new_decoder e.content) ready in
    (
      v,
      d1,
      xs,
      d2,
      subst (λ bs. read_value l sprint (suc l.max_depth) (new_decoder bs) ≡ ok (v, d1)) (sym whole)
          first,
      others,
      done,
      request,
      each,
    )
