-- ===== src/Wire/RoundTrip/Back.antt =====
-- The statement of the round trip for one value and for the items of a list.
use sofarpc_cli.Prelude.Separated.{lacks}
use sofarpc_cli.Prelude.{
  Option, All, Bytes, List, [], ap, append-nil, append_assoc, arith, get_elem?, length,
  length-append, refl, some, subst, suc, sym, zero, ℕ, ◌++◌, ◌+◌, ◌<◌, ◌∙◌, ◌∷◌, ◌≡◌, ◌≤◌, is_empty,
  true, false,
}
use sofarpc_cli.Prelude.Map.{Map, lookup}
use sofarpc_cli.Wire.RoundTrip.Follows.{
  Follows, HasRoom, Follows-HasRoom, Follows-trans, Follows-refl, Keeps,
}
use sofarpc_cli.Wire.RoundTrip.Image.{IsImage, Each, IsImage-stays, Stays, Each-map}
use sofarpc_cli.Wire.RoundTrip.Texts.{IsText}
use sofarpc_cli.Wire.Encoder.{Arg, HessianWriter, Writing, object_def_key}
use sofarpc_cli.Wire.Encoder.Values.{write_values}
use sofarpc_cli.Wire.Decoder.State.{ClassDef, Decoder, Limits, Node, Reader, Value}
use sofarpc_cli.Wire.Decoder.Values.{read_items}
use sofarpc_cli.Wire.Result.{ok_inverse, bind_ok, WireResult, ok}

-- a name that is not empty and that no NUL stands in, as the key of a definition needs it
abbrev pub IsName : Bytes → Type 0
IsName s = IsText s × (is_empty s ≡ false) × (lacks 0 s ≡ true)

-- The table of definitions of the reader is that of the writer.
pub record Agree (defs : Map ℕ) (class_defs : List ClassDef) : Type 0 where
  pub as_many : length class_defs ≡ length defs
  pub same_defs :
      (name : Bytes) (names : List Bytes) (ref : ℕ)
      → IsName name
      → All IsName names
      → lookup (object_def_key name names) defs ≡ some ref
      → get_elem? class_defs ref ≡ some (record { type_name = name; field_names = names })

-- what the round trip asks of a decoder in front of so many bytes
pub record IsReady (l : Limits) (need : ℕ) (defs : Map ℕ) (d : Decoder) (bs : Bytes) : Type 0 where
  pub room : HasRoom l (record d { unread = bs })
  pub shallow : d.depth + need ≤ l.max_depth
  pub agree : Agree defs d.class_defs

-- A reader succeeds, and leaves `rest`.
abbrev pub Outcome {ℓ} :
    {A : Type ℓ}
    → Decoder
    → Bytes
    → Bytes
    → Map ℕ
    → WireResult (A × Decoder)
    → (A → Decoder → Type 0)
    → Type ℓ
Outcome {A = A} d bs rest defs r Q =
    (a : A) × (d' : Decoder) × (r ≡ ok (a, record d' { unread = rest }))
    × Follows (record d { unread = bs }) (record d' { unread = rest })
    × Agree defs d'.class_defs
    × Q a d'

module _ (l : Limits) where
  -- what was written reads back
  abbrev pub WroteBack : Reader Value → ℕ → ℕ → Arg → HessianWriter → HessianWriter → Type 0
  WroteBack read need n g w w' =
      (written : Bytes) × (w'.buf ≡ w.buf ++ written)
      × (0 < length written)
      × ((d : Decoder) (rest : Bytes)
          → IsReady l need w.object_defs d (written ++ rest)
          → Outcome d (written ++ rest) rest w'.object_defs
              (read (record d { unread = written ++ rest }))
              (λ v d'. IsImage n (length d.heap) d'.heap v g))

  -- behind a reader that succeeded
  pub IsReady-next :
      {need : ℕ} {defs defs' : Map ℕ} {d d' : Decoder} {bs bs' : Bytes}
      → IsReady l need defs d bs
      → Follows (record d { unread = bs }) (record d' { unread = bs' })
      → Agree defs' d'.class_defs
      → IsReady l need defs' d' bs'
  IsReady-next r f a = record {
    room = Follows-HasRoom r.room f;
    shallow = omega (arith, r.shallow, f.same_depth);
    agree = a;
  }

pub get_elem?-lt {ℓ} :
    {A : Type ℓ} (xs : List A) (i : ℕ) (x : A) → get_elem? xs i ≡ some x → i < length xs
get_elem?-lt [] i x h = absurd (cc)
get_elem?-lt (y ∷ xs) zero x h = omega arith
get_elem?-lt (y ∷ xs) (suc i) x h = omega (arith, get_elem?-lt xs i x h)

pub Keeps-Stays : (base : ℕ) (h h' : List Node) → Keeps (length h) h h' → Stays base h h'
Keeps-Stays base h h' keeps i node le e = keeps i (get_elem?-lt h i node e) ∙ e

-- `read` and `write` are readValue and writeValue one level down.
module _ (l : Limits) (sprint : List Node → Value → Option Bytes) (read : Reader Value)
    (write : Arg → Writing) (need n : ℕ) (Sound : Arg → Type 0)
    (back : (g : Arg) (w w' : HessianWriter)
      → Sound g
      → write g w ≡ ok w'
      → WroteBack l read need n g w w') where
  pub read_items-write_values :
      (gs : List Arg) (w w' : HessianWriter)
      → All Sound gs
      → write_values write gs w ≡ ok w'
      → (written : Bytes) × (w'.buf ≡ w.buf ++ written)
        × (length gs ≤ length written)
        × ((d : Decoder) (rest : Bytes) (items : List Value)
            → IsReady l need w.object_defs d (written ++ rest)
            → Outcome d
                (written ++ rest)
                rest
                w'.object_defs
                (read_items l sprint read (length gs) items (record d { unread = written ++ rest }))
                (λ found d'.
                  (xs : List Value) × (found ≡ items ++ xs)
                  × Each (IsImage n (length d.heap) d'.heap) xs gs))
  unfolding write_values read_items
  read_items-write_values [] w w' sound h = (
    [],
    ap (λ (x : HessianWriter). x.buf) (sym (ok_inverse h)) ∙ sym (append-nil w.buf),
    omega arith,
    λ d rest items ready. (
      items,
      d,
      refl,
      Follows-refl _,
      subst (λ (x : HessianWriter). Agree x.object_defs d.class_defs) (ok_inverse h) ready.agree,
      ([], sym (append-nil items), tt),
    ),
  )
  read_items-write_values (g ∷ gs) w w' sound h =
      let (w1, one, more) = bind_ok (write g w) _ h in
      let (first, e1, some_bytes, back1) = back g w w1 sound.0 one in
      let (others, e2, count, back2) = read_items-write_values gs w1 w' sound.1 more in
      (
        first ++ others,
        e2 ∙ ap (λ bs. bs ++ others) e1 ∙ append_assoc w.buf first others,
        omega (arith, length-append first others),
        λ d rest items ready.
            let split = append_assoc first others rest in
            let ready1 = subst (IsReady l need w.object_defs d) split ready in
            let (v, d1, r1, f1, a1, image) = back1 d (others ++ rest) ready1 in
            let (found, d2, r2, f2, a2, (xs, e, each)) =
              back2 d1 rest (items ++ v ∷ []) (IsReady-next l ready1 f1 a1) in
            (
              found,
              d2,
              rw split (rw r1 r2),
              rw split (Follows-trans f1 f2),
              a2,
              (
                v ∷ xs,
                e ∙ append_assoc items (v ∷ []) xs,
                (
                  IsImage-stays (length d.heap) (length d.heap) d1.heap d2.heap (omega arith)
                      (Keeps-Stays (length d.heap) d1.heap d2.heap f2.heap_kept) n v g image,
                  Each-map (IsImage n (length d1.heap) d2.heap) (IsImage n (length d.heap) d2.heap)
                      xs gs
                      (λ x y.
                        IsImage-stays (length d1.heap) (length d.heap) d2.heap d2.heap f1.heap_grows
                          (λ i node le k. k) n x y)
                      each,
                ),
              ),
            ),
      )
