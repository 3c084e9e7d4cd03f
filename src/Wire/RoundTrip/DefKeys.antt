-- ===== src/Wire/RoundTrip/DefKeys.antt =====
-- objectDefKey tells definitions apart, and the tables of definitions grow alike.
use sofarpc_cli.Prelude.{
  All, Bool-cases, Bytes, List, [], ap, append-nil, arith, bytes_eq, bytes_eq_iff, drop, false,
  if◌then◌else◌, inl, inr, is_empty, length, length-append, none, refl, some, some-injective, suc,
  sym, ℕ, ◌++◌, ◌∙◌, ◌∷◌, ◌≡◌, ◌≢◌,
}
use sofarpc_cli.Prelude.Map.{Map, insert, lookup, lookup-insert}
use sofarpc_cli.Prelude.Separated.{same_parts}
use sofarpc_cli.Wire.RoundTrip.Back.{Agree, IsName, get_elem?-lt}
use sofarpc_cli.Wire.RoundTrip.ListRead.{get_elem?-append_here, get_elem?-append_left}
use sofarpc_cli.Prelude.UniqueKeys.{length-insert}
use sofarpc_cli.Wire.Encoder.{join_names, object_def_key}
use sofarpc_cli.Wire.Decoder.State.{ClassDef}

not_nil : (a r : Bytes) → is_empty a ≡ false → a ++ r ≢ []
not_nil [] r h = λ e. absurd (cc)
not_nil (b ∷ a) r h = λ e. absurd (cc)

nothing_behind : (ys : Bytes) → [] ≢ 0 ∷ ys
nothing_behind ys = λ e. absurd (cc)

join_names_injective :
    (xs ys : List Bytes) → All IsName xs → All IsName ys → join_names xs ≡ join_names ys → xs ≡ ys
unfolding join_names
join_names_injective [] [] p q h = refl
join_names_injective [] (b ∷ []) p q h = absurd (not_nil b [] q.0.1 (append-nil b ∙ sym h))
join_names_injective [] (b ∷ c ∷ ys) p q h = absurd (not_nil b _ q.0.1 (sym h))
join_names_injective (a ∷ []) [] p q h = absurd (not_nil a [] p.0.1 (append-nil a ∙ h))
join_names_injective (a ∷ c ∷ xs) [] p q h = absurd (not_nil a _ p.0.1 h)
join_names_injective (a ∷ []) (b ∷ []) p q h = ap (λ x. x ∷ []) h
join_names_injective (a ∷ []) (b ∷ c ∷ ys) p q h =
    let parts =
      same_parts 0 a b [] (0 ∷ join_names (c ∷ ys)) p.0.2 q.0.2 refl refl (append-nil a ∙ h) in
    absurd (nothing_behind (join_names (c ∷ ys)) parts.1)
join_names_injective (a ∷ c ∷ xs) (b ∷ []) p q h =
    let parts =
      same_parts 0 a b (0 ∷ join_names (c ∷ xs)) [] p.0.2 q.0.2 refl refl
        (h ∙ sym (append-nil b)) in
    absurd (nothing_behind (join_names (c ∷ xs)) (sym parts.1))
join_names_injective (a ∷ c ∷ xs) (b ∷ d ∷ ys) p q h =
    let parts =
      same_parts 0 a b (0 ∷ join_names (c ∷ xs)) (0 ∷ join_names (d ∷ ys)) p.0.2 q.0.2 refl refl
        h in
    let rest = join_names_injective (c ∷ xs) (d ∷ ys) p.1 q.1 (ap (drop 1) parts.1) in
    cc (parts.0, rest)

object_def_key_injective :
    (s t : Bytes) (xs ys : List Bytes)
    → IsName s
    → IsName t
    → All IsName xs
    → All IsName ys
    → object_def_key s xs ≡ object_def_key t ys
    → (s ≡ t) × (xs ≡ ys)
unfolding object_def_key
object_def_key_injective s t xs ys p q ps qs h =
    let parts = same_parts 0 s t (0 ∷ join_names xs) (0 ∷ join_names ys) p.2 q.2 refl refl h in
    (parts.0, join_names_injective xs ys ps qs (ap (drop 1) parts.1))

pub Agree-insert :
    (name : Bytes) (names : List Bytes) (defs : Map ℕ) (class_defs : List ClassDef)
    → IsName name
    → All IsName names
    → lookup (object_def_key name names) defs ≡ none
    → Agree defs class_defs
    → Agree
        (insert (object_def_key name names) (length defs) defs)
        (class_defs ++ record { type_name = name; field_names = names } ∷ [])
Agree-insert name names defs class_defs good goods new agree =
    let key = object_def_key name names in
    let def : ClassDef = record { type_name = name; field_names = names } in
    let longer : length (insert key (length defs) defs) ≡ suc (length defs) =
      rw (length-insert key (length defs) defs, new) refl in
    record {
      as_many = omega (arith, longer, length-append class_defs (def ∷ []), agree.as_many);
      same_defs = λ t fs ref p ps found.
          let key' = object_def_key t fs in
          let found' : (if bytes_eq key key' then some (length defs) else lookup key' defs)
              ≡ some ref =
            sym (lookup-insert key key' (length defs) defs) ∙ found in
          elim (Bool-cases (bytes_eq key key')) [
            | inl same ↦
                let e =
                  object_def_key_injective name t names fs good p goods ps
                    ((bytes_eq_iff key key').0 same) in
                let at : length defs ≡ ref = some-injective _ _ (rw same at found') in
                let same_def : def ≡ record { type_name = t; field_names = fs } = cc (e.0, e.1) in
                rw⁻¹ at (
                  rw⁻¹ (agree.as_many) (get_elem?-append_here class_defs [] def ∙ ap some same_def))
            | inr other ↦
                let old = agree.same_defs t fs ref p ps (rw other at found') in
                get_elem?-append_left class_defs (def ∷ []) ref (get_elem?-lt class_defs ref _ old)
                ∙ old
          ];
    }
