-- ===== src/Prelude/TrimSpace/Idempotent.antt =====
-- White space is trimmed off a text once: a second time changes nothing.
use sofarpc_cli.Prelude.{
  Bool-cases, Bytes, [], append_assoc, arith, drop, length, length-drop, refl, reverse, suc, zero,
  ℕ, ◌+◌, ◌++◌, ◌==◌, ◌∷◌, ◌≡◌, ◌≤◌, inl, inr, ap, sym, ◌∙◌, take,
}
use mathlib.Core.List.{reverse_aux, reverse-append, reverse-reverse}
use sofarpc_cli.Prelude.TrimSpace.{drop_spaces, leading_space, trailing_space, trim_space}

drop_all :
    (size : Bytes → ℕ) (fuel : ℕ) (bs : Bytes)
    → size [] ≡ 0
    → length bs ≤ fuel
    → size (drop_spaces size fuel bs) ≡ 0
unfolding drop_spaces
drop_all size zero [] e h = e
drop_all size zero (b ∷ bs) e h = absurd (omega arith)
drop_all size (suc fuel) [] e h = ground (arith, drop_all size fuel [] e (omega arith))
drop_all size (suc fuel) (b ∷ bs) e h = ground (
  arith,
  length-drop (size (b ∷ bs)) (b ∷ bs),
  drop_all size fuel (drop (size (b ∷ bs)) (b ∷ bs)) e,
)

drop_none : (size : Bytes → ℕ) (fuel : ℕ) (bs : Bytes) → size bs ≡ 0 → drop_spaces size fuel bs ≡ bs
unfolding drop_spaces
drop_none size zero bs e = refl
drop_none size (suc fuel) bs e = ground arith

take-drop : (n : ℕ) (bs : Bytes) → take n bs ++ drop n bs ≡ bs
take-drop zero bs = refl
take-drop (suc n) [] = refl
take-drop (suc n) (b ∷ bs) = ap (◌∷◌ b) (take-drop n bs)

-- what is left is an end of the text
drop_spaces_suffix :
    (size : Bytes → ℕ) (fuel : ℕ) (bs : Bytes)
    → (pre : Bytes) × (pre ++ drop_spaces size fuel bs ≡ bs)
unfolding drop_spaces
drop_spaces_suffix size zero bs = ([], refl)
drop_spaces_suffix size (suc fuel) bs = elim (Bool-cases (size bs == 0)) [
  | inl e ↦ ([], rw e refl)
  | inr e ↦
      let (pre, ih) = drop_spaces_suffix size fuel (drop (size bs) bs) in
      (take (size bs) bs ++ pre, rw (e, append_assoc) (rw ih (take-drop (size bs) bs)))
]

leading_prefix : (t y : Bytes) → leading_space (t ++ y) ≡ 0 → leading_space t ≡ 0
unfolding leading_space
leading_prefix [] y h = refl
leading_prefix (a ∷ []) [] h = h
leading_prefix (a ∷ []) (c ∷ []) h = ground arith
leading_prefix (a ∷ []) (c ∷ d ∷ y) h = ground arith
leading_prefix (a ∷ b ∷ []) [] h = h
leading_prefix (a ∷ b ∷ []) (c ∷ y) h = ground arith
leading_prefix (a ∷ b ∷ c ∷ t) y h = h

length-reverse_aux : (xs ys : Bytes) → length (reverse_aux xs ys) ≡ length xs + length ys
length-reverse_aux [] ys = omega arith
length-reverse_aux (x ∷ xs) ys = omega (arith, length-reverse_aux xs (x ∷ ys))

length-reverse : (xs : Bytes) → length (reverse xs) ≡ length xs
length-reverse xs = omega (arith, length-reverse_aux xs [])

-- what both ends without white space leave
trim_space_fixed :
    (t : Bytes) → leading_space t ≡ 0 → trailing_space (reverse t) ≡ 0 → trim_space t ≡ t
unfolding trim_space
trim_space_fixed t h k =
    rw (drop_none leading_space (length t) t h, drop_none trailing_space (length t) (reverse t) k)
      (reverse-reverse t)

trim_right : Bytes → Bytes
trim_right left = reverse (drop_spaces trailing_space (length left) (reverse left))

trim_right_suffix : (left : Bytes) → (post : Bytes) × (trim_right left ++ post ≡ left)
unfolding trim_right
trim_right_suffix left =
    let (pre, e) = drop_spaces_suffix trailing_space (length left) (reverse left) in
    (
      reverse pre,
      sym (reverse-append pre (drop_spaces trailing_space (length left) (reverse left)))
          ∙ ap reverse e
          ∙ reverse-reverse left,
    )

trim_right_ends : (left : Bytes) → trailing_space (reverse (trim_right left)) ≡ 0
unfolding trim_right trailing_space
trim_right_ends left =
    rw (reverse-reverse (drop_spaces trailing_space (length left) (reverse left))) (
      drop_all trailing_space (length left) (reverse left) refl
        (omega (arith, length-reverse left)))

pub trim_space_idem : (s : Bytes) → trim_space (trim_space s) ≡ trim_space s
unfolding trim_space trim_right leading_space
trim_space_idem s =
    let left = drop_spaces leading_space (length s) s in
    let (post, e) = trim_right_suffix left in
    let starts : leading_space left ≡ 0 = drop_all leading_space (length s) s refl (omega arith) in
    trim_space_fixed (trim_right left) (leading_prefix (trim_right left) post (rw e starts))
      (trim_right_ends left)
