-- ===== src/Wire/Requests/Baggage.antt =====
-- The baggage of a request: what stands in the properties that are sent.
use sofarpc_cli.Wire.Requests.Keys.{contains-raw_keys, collect_baggage-key, collect_baggage-twice}
use sofarpc_cli.Prelude.{
  Bytes, [], arith, false, is_empty, refl, ◌∷◌, ◌≡◌, bytes_eq_iff, ap, inl, inr, true, not, some,
  ◌==◌, length, ◌≢◌,
}
use sofarpc_cli.Prelude.Map.{Map, insert, lookup, lookup-insert}
use sofarpc_cli.Prelude.Sort.{contains, contains-sort_strings, sort_strings}
use sofarpc_cli.Prelude.TrimSpace.{trim_space}
use sofarpc_cli.Prelude.Result.{err, Result-cases, ok, guard, >>_passed, >>=-eq-ok, ok_injective}
use sofarpc_cli.Wire.Requests.{
  RequestProp, add_request_baggage, collect_baggage, map_prop, raw_keys, request_baggage_key,
  text_at, RequestSpec, build_request_parts, fixed_generic_request_props, args_mismatch,
  method_is_required, service_is_required, RequestParts, RequestError,
}

visits :
    (key value : Bytes) (baggage : Map Bytes)
    → lookup key baggage ≡ some value
    → contains key (sort_strings (raw_keys baggage)) ≡ true
visits key value baggage found =
    ground (arith, contains-sort_strings key (raw_keys baggage), contains-raw_keys key baggage)

-- Baggage that is not empty goes through the loop.
add_request_baggage-collects :
    (key value : Bytes) (props props' : Map RequestProp) (baggage : Map Bytes)
    → add_request_baggage props baggage ≡ ok props'
    → lookup key baggage ≡ some value
    → (out : Map Bytes) × (collect_baggage (sort_strings (raw_keys baggage)) baggage [] [] ≡ ok out)
      × (insert request_baggage_key (map_prop out) props ≡ props')
unfolding add_request_baggage lookup
add_request_baggage-collects key value props props' [] h found = absurd (cc)
add_request_baggage-collects key value props props' (entry ∷ baggage) h found =
    let all = entry ∷ baggage in
    let nonempty : (length all == 0) ≡ false = ground arith in
    let (out, collected, added) =
      >>=-eq-ok (collect_baggage (sort_strings (raw_keys all)) all [] []) _ (rw nonempty at h) in
    (out, collected, ok_injective added)

add_request_baggage-key :
    (props props' : Map RequestProp) (baggage : Map Bytes) (key value : Bytes)
    → add_request_baggage props baggage ≡ ok props'
    → lookup key baggage ≡ some value
    → (out : Map Bytes) × (lookup request_baggage_key props' ≡ some (map_prop out))
      × (lookup (trim_space key) out ≡ some value)
add_request_baggage-key props props' baggage key value h found =
    let keys = sort_strings (raw_keys baggage) in
    let (out, collected, added) =
      add_request_baggage-collects key value props props' baggage h found in
    let stored =
      collect_baggage-key key keys baggage [] [] out collected (visits key value baggage found) in
    let text : text_at key baggage ≡ value = rw (found, text_at) refl in
    (
      out,
      ground (
        arith,
        lookup-insert request_baggage_key request_baggage_key (map_prop out) props,
        bytes_eq_iff request_baggage_key request_baggage_key,
        ap (lookup request_baggage_key) added,
      ),
      ground arith,
    )

build_request_parts-props :
    {A : Type 0} (spec : RequestSpec A) (parts : RequestParts)
    → build_request_parts spec ≡ ok parts
    → add_request_baggage fixed_generic_request_props spec.request_baggage ≡ ok parts.request_props
unfolding build_request_parts
build_request_parts-props spec parts h =
    let (a, h1) =
      >>_passed (guard (not (is_empty (trim_space spec.service))) service_is_required) _ h in
    let (b, h2) =
      >>_passed (guard (not (is_empty (trim_space spec.method))) method_is_required) _ h1 in
    let (c, h3) =
      >>_passed (guard (length spec.param_types == length spec.args) args_mismatch) _ h2 in
    let (props, added, e) =
      >>=-eq-ok (add_request_baggage fixed_generic_request_props spec.request_baggage) _ h3 in
    let same : props ≡ parts.request_props =
      ap (λ (p : RequestParts). p.request_props) (ok_injective e) in
    rw⁻¹ same added

-- Where BuildGenericRequest gets to its writer, the properties hold the whole baggage: every entry
-- stands there with its value, under its key without the white space around it.
pub build_request_parts-baggage :
    {A : Type 0} (spec : RequestSpec A) (parts : RequestParts) (key value : Bytes)
    → build_request_parts spec ≡ ok parts
    → lookup key spec.request_baggage ≡ some value
    → (out : Map Bytes) × (lookup request_baggage_key parts.request_props ≡ some (map_prop out))
      × (lookup (trim_space key) out ≡ some value)
build_request_parts-baggage spec parts key value h found =
    add_request_baggage-key fixed_generic_request_props parts.request_props spec.request_baggage key
      value (build_request_parts-props spec parts h) found

-- BuildGenericRequest rejects a request with two keys of baggage that are the same without the white
-- space around them.
pub build_request_parts-duplicated :
    {A : Type 0} (spec : RequestSpec A) (j k v w : Bytes)
    → lookup j spec.request_baggage ≡ some v
    → lookup k spec.request_baggage ≡ some w
    → j ≢ k
    → trim_space j ≡ trim_space k
    → (e : RequestError) × (build_request_parts spec ≡ err e)
build_request_parts-duplicated spec j k v w first second distinct same =
    elim (Result-cases (build_request_parts spec)) [
      | inr failed ↦ failed
      | inl (parts, h) ↦
          let baggage = spec.request_baggage in
          let (out, collected, added) =
            add_request_baggage-collects j v fixed_generic_request_props parts.request_props baggage
              (build_request_parts-props spec parts h) first in
          absurd (
            distinct (
              collect_baggage-twice j k (sort_strings (raw_keys baggage)) baggage [] [] out
                collected (visits j v baggage first) (visits k w baggage second) same))
    ]
