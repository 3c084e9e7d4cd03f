-- ===== src/Wire/Requests/Success.antt =====
-- BuildGenericRequest succeeds on what its writer can write.
use sofarpc_cli.Prelude.{
  All, Bytes, List, Option, [], arith, none, refl, some, suc, zero, ℕ, ◌∷◌, ◌≡◌, ◌≤◌, sym,
}
use sofarpc_cli.Prelude.Int.{ℤ}
use sofarpc_cli.Prelude.Map.{Map}
use sofarpc_cli.Prelude.Result.{Result}
use sofarpc_cli.Wire.Encoder.{
  Arg, Fields, depth, entries_of, fields_depth, max, new_hessian_writer, request_class, string_map,
  go_strings,
}
use sofarpc_cli.Wire.Encoder.Values.{pointed_string, write_sofa_request, write_value}
use sofarpc_cli.Wire.Requests.Build.{
  EncodedRequest, build_generic_request, build_generic_request-written, encode_sofa_request,
  prepare_args, prop_fields, request_depth, text_fields,
}
use sofarpc_cli.Wire.Requests.ReadBack.{request_names, request_names-All, request_values}
use sofarpc_cli.Wire.Requests.{
  RequestParts, RequestProp, RequestSpec, build_request_parts, map_prop, text_prop,
}
use sofarpc_cli.Wire.RoundTrip.Success.{
  IsKnown, IsKnown-string, IsText-All, Succeeds, All-three, bind-Succeeds, max_bounds,
  write_object-Succeeds, write_value-Succeeds, write_values-Succeeds,
}
use sofarpc_cli.Wire.RoundTrip.ValueBack.{IsSound}

All-deeper :
    (m n : ℕ) (gs : List Arg) → m ≤ n → All (λ g. depth g ≤ m) gs → All (λ g. depth g ≤ n) gs
All-deeper m n [] le h = tt
All-deeper m n (g ∷ gs) le h = (omega arith, All-deeper m n gs le h.1)

request_depth-bounds :
    (props : Fields) (args : List Arg)
    → (2 ≤ request_depth props args)
      × (suc (fields_depth props) ≤ request_depth props args)
      × All (λ g. depth g ≤ request_depth props args) args
unfolding request_depth
request_depth-bounds props [] = let b = max_bounds 2 (suc (fields_depth props)) in (b.0, b.1, tt)
request_depth-bounds props (g ∷ args) =
    let b = max_bounds (depth g) (request_depth props args) in
    let (two, deep, each) = request_depth-bounds props args in
    (
      omega arith,
      omega arith,
      (
        b.0,
        All-deeper (request_depth props args) (max (depth g) (request_depth props args)) args b.1
            each,
      ),
    )

pointed_string-depth : (s : Option Bytes) → depth (pointed_string s) ≤ 2
unfolding depth
pointed_string-depth none = omega arith
pointed_string-depth (some s) = omega arith

text_fields-IsKnown :
    (n : ℕ) (m : Map Bytes) → All (λ e. IsKnown n e.1) (entries_of (text_fields m))
unfolding text_fields entries_of
text_fields-IsKnown n [] = tt
text_fields-IsKnown n ((k, s) ∷ m) = (IsKnown-string n s, text_fields-IsKnown n m)

texts_IsKnown : (n : ℕ) (m : Map Bytes) → IsKnown n (string_map (text_fields m))
texts_IsKnown zero m = tt
texts_IsKnown (suc n) m = text_fields-IsKnown n m

prop_fields-IsKnown :
    (n : ℕ) (m : Map RequestProp) → All (λ e. IsKnown n e.1) (entries_of (prop_fields m))
unfolding prop_fields entries_of
prop_fields-IsKnown n [] = tt
prop_fields-IsKnown n ((k, text_prop s) ∷ m) = (IsKnown-string n s, prop_fields-IsKnown n m)
prop_fields-IsKnown n ((k, map_prop m') ∷ m) = (texts_IsKnown n m', prop_fields-IsKnown n m)

props_IsKnown : (n : ℕ) (m : Map RequestProp) → IsKnown n (string_map (prop_fields m))
props_IsKnown zero m = tt
props_IsKnown (suc n) m = prop_fields-IsKnown n m

pointed_string-IsKnown : (n : ℕ) (s : Option Bytes) → IsKnown n (pointed_string s)
pointed_string-IsKnown zero s = tt
pointed_string-IsKnown (suc n) none = tt
pointed_string-IsKnown (suc n) (some s) = tt

strings_IsKnown : (n : ℕ) (ss : List Bytes) → IsKnown n (go_strings ss)
strings_IsKnown zero ss = tt
strings_IsKnown (suc n) ss = tt

module _ (parse_int : Bytes → Option ℤ) (parse_float : Bytes → Option ℕ) where
  encode_sofa_request-Succeeds :
      (spec : RequestSpec Arg) (parts : RequestParts) (n : ℕ)
      → n
        ≡ request_depth
            (prop_fields parts.request_props)
            (prepare_args parse_int parse_float spec.args)
      → All (λ g. IsSound n g) (request_values spec parts)
      → All (λ g. IsSound n g) (prepare_args parse_int parse_float spec.args)
      → All (λ g. IsKnown n g) (prepare_args parse_int parse_float spec.args)
      → Succeeds (encode_sofa_request parse_int parse_float spec parts)
  unfolding encode_sofa_request write_sofa_request depth
  encode_sofa_request-Succeeds spec parts n same sounds args_sound known =
      let props = prop_fields parts.request_props in
      let args = prepare_args parse_int parse_float spec.args in
      let (two, deep, each) = rw (sym same) at (request_depth-bounds props args) in
      let values =
        All-three (λ g. depth g ≤ n) (λ g. IsSound n g) (λ g. IsKnown n g)
          (request_values spec parts)
          (
            omega (arith, pointed_string-depth parts.target_app),
            (omega arith, (omega arith, (deep, (two, tt)))),
          )
          sounds
          (
            pointed_string-IsKnown n parts.target_app,
            (
              IsKnown-string n spec.method,
              (
                IsKnown-string n parts.unique_name,
                (props_IsKnown n parts.request_props, (strings_IsKnown n spec.param_types, tt)),
              ),
            ),
          ) in
      rw (sym same) (
        bind-Succeeds _ _
          (write_object-Succeeds n (write_value n) (write_value-Succeeds n) request_class
            request_names (request_values spec parts) new_hessian_writer
            (IsText-All request_names request_names-All) refl values)
          (λ w. write_values-Succeeds n (write_value n) (write_value-Succeeds n) args w (
            All-three (λ g. depth g ≤ n) (λ g. IsSound n g) (λ g. IsKnown n g) args each args_sound
              known)))

  -- BuildGenericRequest succeeds on every request that passes the checks in front of its writer: the
  -- request has the class of a SofaRequest, the header and the unique name of the service. It holds
  -- where the values of the SofaRequest and the arguments as PrepareArgs gives them have texts in
  -- well-formed UTF-8 of at most 65535 code points, integers that fit their encoding, names of types
  -- and fields that are neither empty nor hold a NUL, and no map with a key twice, and where the
  -- arguments are of types that writeValue takes.
  pub build_generic_request_succeeds :
      (spec : RequestSpec Arg) (parts : RequestParts) (n : ℕ)
      → build_request_parts spec ≡ Result.ok parts
      → n
        ≡ request_depth
            (prop_fields parts.request_props)
            (prepare_args parse_int parse_float spec.args)
      → All (λ g. IsSound n g) (request_values spec parts)
      → All (λ g. IsSound n g) (prepare_args parse_int parse_float spec.args)
      → All (λ g. IsKnown n g) (prepare_args parse_int parse_float spec.args)
      → (e : EncodedRequest) × (build_generic_request parse_int parse_float spec ≡ Result.ok e)
        × (e.class ≡ request_class)
        × (e.header ≡ parts.header)
        × (e.target_service_unique_name ≡ parts.unique_name)
  build_generic_request_succeeds spec parts n built same sounds args_sound known =
      let (w, done) = encode_sofa_request-Succeeds spec parts n same sounds args_sound known in
      build_generic_request-written parse_int parse_float spec parts w built done
