-- ===== src/Wire/Requests/UniqueName.antt =====
-- TargetServiceUniqueName: services that differ have names that differ.
use sofarpc_cli.Prelude.{
  Bool, Bytes, [], ap, codes, if◌then◌else◌, is_empty, refl, true, ◌++◌, ◌∷◌, ◌≡◌, Bool-cases, inl,
  inr, append_assoc, sym, ◌∙◌, append-nil,
}
use sofarpc_cli.Prelude.Separated.{is_tail, lacks, same_parts}
use sofarpc_cli.Prelude.TrimSpace.{trim_space}
use sofarpc_cli.Wire.Requests.{target_service_unique_name, version_or_default}

unfoldable pub no_colon : Bytes → Bool
unfolding lacks
no_colon bs = lacks 58 bs

-- the end of a name
abbrev id_part : Bytes → Bytes
id_part unique_id = if is_empty unique_id then [] else codes ":" ++ unique_id

id_part-is_tail : (u : Bytes) → is_tail 58 (id_part u) ≡ true
id_part-is_tail [] = refl
id_part-is_tail (b ∷ u) = refl

id_part_injective : (u w : Bytes) → id_part u ≡ id_part w → u ≡ w
id_part_injective [] [] h = refl
id_part_injective [] (c ∷ w) h = absurd (cc)
id_part_injective (b ∷ u) [] h = absurd (cc)
id_part_injective (b ∷ u) (c ∷ w) h = cc

name_parts :
    (service version unique_id : Bytes)
    → target_service_unique_name service version unique_id
      ≡ trim_space service
        ++ (codes ":"
            ++ (version_or_default (trim_space version) ++ id_part (trim_space unique_id)))
unfolding target_service_unique_name
name_parts service version unique_id =
    let name = trim_space service in
    let v = version_or_default (trim_space version) in
    let u = trim_space unique_id in
    elim (Bool-cases (is_empty (trim_space unique_id))) [
      | inl e ↦ simp e (
          append_assoc name (codes ":") v ∙ ap (λ x. name ++ (codes ":" ++ x)) (sym (append-nil v)))
      | inr e ↦ simp e (
          append_assoc (name ++ codes ":" ++ v) (codes ":") u
          ∙ append_assoc (name ++ codes ":") v (codes ":" ++ u)
          ∙ append_assoc name (codes ":") (v ++ (codes ":" ++ u)))
    ]

-- Two calls whose service and version, without the white space around them, hold no colon have the
-- same unique name only if these are the same, as well as the unique ids without the white space
-- around them; a version that is empty then counts as 1.0.
pub target_service_unique_name_injective :
    (s s' v v' u u' : Bytes)
    → no_colon (trim_space s) ≡ true
    → no_colon (trim_space s') ≡ true
    → no_colon (version_or_default (trim_space v)) ≡ true
    → no_colon (version_or_default (trim_space v')) ≡ true
    → target_service_unique_name s v u ≡ target_service_unique_name s' v' u'
    → (trim_space s ≡ trim_space s')
      × (version_or_default (trim_space v) ≡ version_or_default (trim_space v'))
      × (trim_space u ≡ trim_space u')
unfolding no_colon
target_service_unique_name_injective s s' v v' u u' p p' q q' h =
    let version = version_or_default (trim_space v) in
    let version' = version_or_default (trim_space v') in
    let tail = id_part (trim_space u) in
    let tail' = id_part (trim_space u') in
    let h' = sym (name_parts s v u) ∙ h ∙ name_parts s' v' u' in
    let (a, rest) =
      same_parts 58 (trim_space s) (trim_space s') (codes ":" ++ (version ++ tail))
        (codes ":" ++ (version' ++ tail')) p p' refl refl h' in
    let after : version ++ tail ≡ version' ++ tail' = cc in
    let (b, c) =
      same_parts 58 version version' tail tail' q q' (id_part-is_tail (trim_space u))
        (id_part-is_tail (trim_space u')) after in
    (a, b, id_part_injective (trim_space u) (trim_space u') c)
