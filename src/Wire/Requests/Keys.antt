-- ===== src/Wire/Requests/Keys.antt =====
-- The loop over the keys of a baggage: it stores each key once, with its value.
use sofarpc_cli.Prelude.{
  Bytes, List, [], arith, false, is_empty, refl, ◌∷◌, ◌≡◌, Bool-cases, bytes_eq, bytes_eq_iff, sym,
  ap, subst, inl, inr, true, not, some,
}
use sofarpc_cli.Prelude.Map.{Map, insert, lookup, lookup-insert}
use sofarpc_cli.Prelude.Sort.{contains}
use sofarpc_cli.Prelude.TrimSpace.{trim_space}
use sofarpc_cli.Prelude.UniqueKeys.{is_some}
use sofarpc_cli.Prelude.Result.{ok, guard, >>_passed, guard_passed, ok_injective}
use sofarpc_cli.Wire.Requests.{
  collect_baggage, raw_keys, text_at, validate_request_baggage_key, empty_baggage_key,
  duplicated_baggage_key,
}

pub contains-raw_keys : (k : Bytes) (m : Map Bytes) → contains k (raw_keys m) ≡ is_some (lookup k m)
unfolding contains raw_keys lookup
contains-raw_keys k [] = refl
contains-raw_keys k ((j, v) ∷ m) = ground (arith, contains-raw_keys k m)

-- one step of the loop
collect_baggage-step :
    (raw : Bytes) (keys : List Bytes) (baggage : Map Bytes) (seen : List Bytes)
    (out out' : Map Bytes)
    → collect_baggage (raw ∷ keys) baggage seen out ≡ ok out'
    → (is_empty (trim_space raw) ≡ false)
      × (contains (trim_space raw) seen ≡ false)
      × (collect_baggage keys baggage
            (trim_space raw ∷ seen)
            (insert (trim_space raw) (text_at raw baggage) out)
          ≡ ok out')
unfolding collect_baggage validate_request_baggage_key
collect_baggage-step raw keys baggage seen out out' h =
    let (full, h1) = >>_passed (guard (not (is_empty (trim_space raw))) empty_baggage_key) _ h in
    let (fresh, h2) =
      >>_passed
        (guard (not (contains (trim_space raw) seen)) (duplicated_baggage_key (trim_space raw))) _
        h1 in
    let a = guard_passed (not (is_empty (trim_space raw))) empty_baggage_key full in
    let b =
      guard_passed (not (contains (trim_space raw) seen)) (duplicated_baggage_key (trim_space raw))
        fresh in
    (ground arith, ground arith, h2)

-- What the loop has stored under a key it has seen stays.
collect_baggage-seen :
    (k : Bytes) (keys : List Bytes) (baggage : Map Bytes) (seen : List Bytes) (out out' : Map Bytes)
    → collect_baggage keys baggage seen out ≡ ok out'
    → contains k seen ≡ true
    → lookup k out' ≡ lookup k out
unfolding collect_baggage contains
collect_baggage-seen k [] baggage seen out out' h c = ap (lookup k) (sym (ok_injective h))
collect_baggage-seen k (raw ∷ keys) baggage seen out out' h c =
    let (full, fresh, rest) = collect_baggage-step raw keys baggage seen out out' h in
    let key = trim_space raw in
    let value = text_at raw baggage in
    ground (
      arith,
      collect_baggage-seen k keys baggage (key ∷ seen) (insert key value out) out' rest,
      lookup-insert key k value out,
      bytes_eq_iff key k,
    )

-- Every key it visits is stored, with its value.
pub collect_baggage-key :
    (k : Bytes) (keys : List Bytes) (baggage : Map Bytes) (seen : List Bytes) (out out' : Map Bytes)
    → collect_baggage keys baggage seen out ≡ ok out'
    → contains k keys ≡ true
    → lookup (trim_space k) out' ≡ some (text_at k baggage)
unfolding contains
collect_baggage-key k [] baggage seen out out' h c = absurd (cc)
collect_baggage-key k (raw ∷ keys) baggage seen out out' h c =
    let (full, fresh, rest) = collect_baggage-step raw keys baggage seen out out' h in
    let key = trim_space raw in
    let out1 = insert key (text_at raw baggage) out in
    elim (Bool-cases (bytes_eq raw k)) [
      | inl same ↦
          let e : raw ≡ k = (bytes_eq_iff raw k).0 same in
          let first : lookup key out' ≡ some (text_at raw baggage) = ground (
            arith,
            collect_baggage-seen key keys baggage (key ∷ seen) out1 out' rest,
            lookup-insert key key (text_at raw baggage) out,
            bytes_eq_iff key key,
          ) in
          subst (λ r. lookup (trim_space r) out' ≡ some (text_at r baggage)) e first
      | inr other ↦ collect_baggage-key k keys baggage (key ∷ seen) out1 out' rest (rw other at c)
    ]

-- A key that the loop takes is new under its trimmed form.
collect_baggage-fresh :
    (k : Bytes) (keys : List Bytes) (baggage : Map Bytes) (seen : List Bytes) (out out' : Map Bytes)
    → collect_baggage keys baggage seen out ≡ ok out'
    → contains k keys ≡ true
    → contains (trim_space k) seen ≡ false
unfolding contains
collect_baggage-fresh k [] baggage seen out out' h c = absurd (cc)
collect_baggage-fresh k (raw ∷ keys) baggage seen out out' h c =
    let (full, fresh, rest) = collect_baggage-step raw keys baggage seen out out' h in
    let key = trim_space raw in
    let out1 = insert key (text_at raw baggage) out in
    ground (
      arith,
      collect_baggage-fresh k keys baggage (key ∷ seen) out1 out' rest,
      bytes_eq_iff raw k,
      ap (λ r. contains (trim_space r) seen),
    )

-- Two keys of one trimmed form stop the loop.
pub collect_baggage-twice :
    (j k : Bytes) (keys : List Bytes) (baggage : Map Bytes) (seen : List Bytes)
    (out out' : Map Bytes)
    → collect_baggage keys baggage seen out ≡ ok out'
    → contains j keys ≡ true
    → contains k keys ≡ true
    → trim_space j ≡ trim_space k
    → j ≡ k
unfolding contains
collect_baggage-twice j k [] baggage seen out out' h c d e = absurd (cc)
collect_baggage-twice j k (raw ∷ keys) baggage seen out out' h c d e =
    let (full, fresh, rest) = collect_baggage-step raw keys baggage seen out out' h in
    let key = trim_space raw in
    let out1 = insert key (text_at raw baggage) out in
    ground (
      arith,
      collect_baggage-twice j k keys baggage (key ∷ seen) out1 out' rest,
      collect_baggage-fresh j keys baggage (key ∷ seen) out1 out' rest,
      collect_baggage-fresh k keys baggage (key ∷ seen) out1 out' rest,
      bytes_eq_iff raw j,
      bytes_eq_iff raw k,
      bytes_eq_iff key (trim_space j),
      bytes_eq_iff key (trim_space k),
      ap trim_space,
    )
