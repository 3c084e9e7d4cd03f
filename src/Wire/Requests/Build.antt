-- ===== src/Wire/Requests/Build.antt =====
-- internal/sofarpcwire/wire.go: BuildGenericRequest as a whole, with the content that its writer
-- leaves. The writer has fuel for the deepest of the values; an error does not keep the index of
-- the argument it is about.
use sofarpc_cli.Prelude.Result.{Result, ok_injective}
use sofarpc_cli.Prelude.{Bytes, List, Option, [], ap, refl, suc, sym, ℕ, ◌≡◌, ◌∷◌, ◌∙◌}
use sofarpc_cli.Prelude.Int.{ℤ}
use sofarpc_cli.Prelude.Map.{Map}
use sofarpc_cli.Wire.Encoder.{
  Arg, Fields, HessianWriter, depth, field, fields_depth, go_string, max, new_hessian_writer,
  no_fields, request_class, string_map,
}
use sofarpc_cli.Wire.Encoder.Values.{write_sofa_request, write_value, write_values}
use sofarpc_cli.Wire.Requests.Prepare.{normalize_value}
use sofarpc_cli.Wire.Requests.{
  RequestError, RequestParts, RequestProp, RequestSpec, build_request_parts, map_prop, text_prop,
}
use sofarpc_cli.Wire.Result.{WireError, WireResult, ◌>>=◌}

pub record EncodedRequest : Type 0 where
  pub class : Bytes
  pub header : Map Bytes
  pub content : Bytes
  pub target_service_unique_name : Bytes

pub data BuildError : Type 0 where
  refused : RequestError → BuildError
  encode_error : WireError → BuildError
  out_of_fuel : BuildError

unfoldable pub text_fields : Map Bytes → Fields
text_fields [] = no_fields
text_fields ((k, v) ∷ m) = field k (go_string v) (text_fields m)

-- the properties as values of the writer
unfoldable pub prop_fields : Map RequestProp → Fields
unfolding text_fields
prop_fields [] = no_fields
prop_fields ((k, text_prop s) ∷ m) = field k (go_string s) (prop_fields m)
prop_fields ((k, map_prop m') ∷ m) = field k (string_map (text_fields m')) (prop_fields m)

-- the levels that the request and its arguments have
unfoldable pub request_depth : Fields → List Arg → ℕ
request_depth props [] = max 2 (suc (fields_depth props))
request_depth props (g ∷ args) = max (depth g) (request_depth props args)

module _ (parse_int : Bytes → Option ℤ) (parse_float : Bytes → Option ℕ) where
  unfoldable pub prepare_args : List Arg → List Arg
  prepare_args [] = []
  prepare_args (arg ∷ args) = normalize_value parse_int parse_float arg ∷ prepare_args args

  -- the writer's part: the SofaRequest and the arguments behind it
  unfoldable pub encode_sofa_request : RequestSpec Arg → RequestParts → WireResult HessianWriter
  encode_sofa_request spec parts =
      let args = prepare_args spec.args in
      let props = prop_fields parts.request_props in
      let fuel = request_depth props args in
      (write_sofa_request (write_value fuel) spec.method parts.unique_name props spec.param_types
          parts.target_app new_hessian_writer
        >>= write_values (write_value fuel) args)

  encoded : RequestParts → WireResult HessianWriter → Result BuildError EncodedRequest
  encoded parts (WireResult.ok w) = Result.ok (record {
    class = request_class;
    header = parts.header;
    content = w.buf;
    target_service_unique_name = parts.unique_name;
  })
  encoded parts (WireResult.err e) = Result.err (encode_error e)
  encoded parts WireResult.stuck = Result.err out_of_fuel

  built : RequestSpec Arg → Result RequestError RequestParts → Result BuildError EncodedRequest
  unfolding encoded
  built spec (Result.err e) = Result.err (refused e)
  built spec (Result.ok parts) = encoded parts (encode_sofa_request spec parts)

  unfoldable pub build_generic_request : RequestSpec Arg → Result BuildError EncodedRequest
  unfolding built
  build_generic_request spec = built spec (build_request_parts spec)

  pub build_generic_request-content :
      (spec : RequestSpec Arg) (parts : RequestParts) (e : EncodedRequest)
      → build_request_parts spec ≡ Result.ok parts
      → build_generic_request spec ≡ Result.ok e
      → (w : HessianWriter) × (encode_sofa_request spec parts ≡ WireResult.ok w)
        × (e.content ≡ w.buf)
  unfolding build_generic_request encoded
  build_generic_request-content spec parts e found h =
      of_encoded (encode_sofa_request spec parts) refl (rw found at h)
    where
      of_encoded :
          (r : WireResult HessianWriter)
          → encode_sofa_request spec parts ≡ r
          → encoded parts r ≡ Result.ok e
          → (w : HessianWriter) × (encode_sofa_request spec parts ≡ WireResult.ok w)
            × (e.content ≡ w.buf)
      of_encoded (WireResult.ok w) same k = (w, same, sym (ap (λ x. x.content) (ok_injective k)))
      of_encoded (WireResult.err x) same k = absurd (cc)
      of_encoded WireResult.stuck same k = absurd (cc)

  pub build_generic_request-written :
      (spec : RequestSpec Arg) (parts : RequestParts) (w : HessianWriter)
      → build_request_parts spec ≡ Result.ok parts
      → encode_sofa_request spec parts ≡ WireResult.ok w
      → (e : EncodedRequest) × (build_generic_request spec ≡ Result.ok e)
        × (e.class ≡ request_class)
        × (e.header ≡ parts.header)
        × (e.target_service_unique_name ≡ parts.unique_name)
  unfolding build_generic_request built encoded
  build_generic_request-written spec parts w found done =
      let e : EncodedRequest = record {
        class = request_class;
        header = parts.header;
        content = w.buf;
        target_service_unique_name = parts.unique_name;
      } in
      (e, ap (built spec) found ∙ ap (encoded parts) done, refl, refl, refl)
