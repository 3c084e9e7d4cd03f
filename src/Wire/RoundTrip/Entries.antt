-- ===== src/Wire/RoundTrip/Entries.antt =====
-- The loop of readMap against the loop of writeMap.
use sofarpc_cli.Prelude.UniqueKeys.{insert-absent}
use sofarpc_cli.Wire.Decoder.Tables.{at_end}
use sofarpc_cli.Wire.Encoder.{Arg, HessianWriter, put_string}
use sofarpc_cli.Wire.Result.{ok}
use sofarpc_cli.Wire.RoundTrip.Back.{get_elem?-lt}
use sofarpc_cli.Wire.RoundTrip.Follows.{Keeps}
use sofarpc_cli.Wire.RoundTrip.Image.{EachEntry, EachEntry-map, IsImage, IsImage-stays}
use sofarpc_cli.Wire.RoundTrip.Texts.{IsText, string_bytes, string_bytes-mark, write_string_lem}
use sofarpc_cli.Prelude.{
  All, Bytes, List, [], ap, arith, bytes_eq_iff, false, get_elem?, length, none, refl, some, suc,
  zero, ℕ, ◌<◌, ◌∷◌, ◌≡◌, ◌≢◌, leb, ◌≤◌, ◌∙◌, ◌⊎◌, inl, inr, true, ◌++◌, append_assoc,
}
use sofarpc_cli.Prelude.Map.{Map, insert, lookup, lookup-insert}
use sofarpc_cli.Prelude.Sort.{contains}
use sofarpc_cli.Wire.Decoder.State.{Node, Value, array, object, put_entry, Decoder}

-- each name once
abbrev pub AreDistinct : List Bytes → Type 0
AreDistinct [] = Unit {0}
AreDistinct (k ∷ ks) = (contains k ks ≡ false) × AreDistinct ks

abbrev pub AreNew : Map Value → List Bytes → Type 0
AreNew m names = All (λ k. lookup k m ≡ none) names

pub AreNew-insert :
    (k : Bytes) (v : Value) (m : Map Value) (names : List Bytes)
    → contains k names ≡ false
    → AreNew m names
    → AreNew (insert k v m) names
unfolding contains
AreNew-insert k v m [] c new = tt
AreNew-insert k v m (j ∷ names) c new = (
  ground (arith, lookup-insert k j v m, bytes_eq_iff k j, bytes_eq_iff j k, new.0),
  AreNew-insert k v m names (ground arith) new.1,
)

-- all nodes of a heap but one stay
abbrev pub KeepsBut : ℕ → List Node → List Node → Type 0
KeepsBut a h h' = (i : ℕ) → i < length h → i ≢ a → get_elem? h' i ≡ get_elem? h i

pub length-put_entry :
    (a : ℕ) (k : Bytes) (v : Value) (h : List Node) → length (put_entry a k v h) ≡ length h
unfolding put_entry
length-put_entry a k v [] = refl
length-put_entry zero k v (array items ∷ h) = refl
length-put_entry zero k v (object m ∷ h) = refl
length-put_entry (suc a) k v (node ∷ h) = ap suc (length-put_entry a k v h)

get_elem?-put_entry_other :
    (a i : ℕ) (k : Bytes) (v : Value) (h : List Node)
    → i ≢ a
    → get_elem? (put_entry a k v h) i ≡ get_elem? h i
unfolding put_entry
get_elem?-put_entry_other a i k v [] ne = refl
get_elem?-put_entry_other zero zero k v (array items ∷ h) ne = refl
get_elem?-put_entry_other zero zero k v (object m ∷ h) ne = absurd (ne refl)
get_elem?-put_entry_other zero (suc i) k v (array items ∷ h) ne = refl
get_elem?-put_entry_other zero (suc i) k v (object m ∷ h) ne = refl
get_elem?-put_entry_other (suc a) zero k v (node ∷ h) ne = refl
get_elem?-put_entry_other (suc a) (suc i) k v (node ∷ h) ne =
    get_elem?-put_entry_other a i k v h (λ e. ne (ap suc e))

get_elem?-put_entry :
    (a : ℕ) (k : Bytes) (v : Value) (m : Map Value) (h : List Node)
    → get_elem? h a ≡ some (object m)
    → get_elem? (put_entry a k v h) a ≡ some (object (insert k v m))
unfolding put_entry
get_elem?-put_entry a k v m [] e = absurd (cc)
get_elem?-put_entry zero k v m (array items ∷ h) e = absurd (cc)
get_elem?-put_entry zero k v m (object m' ∷ h) e =
    let same : m' ≡ m = cc in ap (λ x. some (object (insert k v x))) same
get_elem?-put_entry (suc a) k v m (node ∷ h) e = get_elem?-put_entry a k v m h e

at_end-mark : (b : ℕ) (bs : Bytes) → (leb b 0x1f ≡ true) ⊎ (b ≡ b'S') → at_end (b ∷ bs) ≡ some false
unfolding at_end
at_end-mark b bs (inl h) = ground arith
at_end-mark b bs (inr h) = rw h refl

pub at_end-string_bytes : (s bs : Bytes) → at_end (string_bytes s ++ bs) ≡ some false
at_end-string_bytes s bs =
    let (b, rest, e, mark) = string_bytes-mark s bs in rw e (at_end-mark b rest mark)

pub put_string_lem :
    (s : Bytes) (w : HessianWriter)
    → IsText s
    → put_string s w ≡ ok (record w { buf = w.buf ++ string_bytes s })
unfolding put_string
put_string_lem s w good = rw (write_string_lem s w.buf good) refl

-- the nodes behind an entry that is put
module _ (a : ℕ) (k : Bytes) (v : Value) (m : Map Value) (h h' : List Node)
    (here : get_elem? h a ≡ some (object m)) (below : a < length h) (grows : length h ≤ length h')
    (keeps : Keeps (length h) h h') where
  pub put_here : get_elem? (put_entry a k v h') a ≡ some (object (insert k v m))
  put_here = get_elem?-put_entry a k v m h' (keeps a below ∙ here)

  put_KeepsBut : KeepsBut a h (put_entry a k v h')
  put_KeepsBut i lt ne = get_elem?-put_entry_other a i k v h' ne ∙ keeps i lt

  put_grows : length h ≤ length (put_entry a k v h')
  put_grows = omega (arith, length-put_entry a k v h')

-- an image that stands above a map stays when the map changes
IsImage-KeepsBut :
    (n base a : ℕ) (h h' : List Node) (v : Value) (g : Arg)
    → a < base
    → KeepsBut a h h'
    → IsImage n base h v g
    → IsImage n base h' v g
IsImage-KeepsBut n base a h h' v g lt keeps image =
    IsImage-stays base base h h' (omega arith)
      (λ i node le e. keeps i (get_elem?-lt h i node e) (λ same. absurd (omega (arith, same))) ∙ e)
      n v g image

-- what the loop leaves of the heap, and the entries that it has added to the map
abbrev pub Filled : ℕ → ℕ → List Node → Map Value → List Bytes → List Arg → Decoder → Type 0
Filled n a h m names gs d' =
    (added : Map Value) × (get_elem? d'.heap a ≡ some (object (m ++ added)))
    × EachEntry (IsImage n (length h) d'.heap) added names gs
    × (length h ≤ length d'.heap)
    × KeepsBut a h d'.heap

pub Filled-next :
    (n a : ℕ) (h h' : List Node) (m : Map Value) (name : Bytes) (v : Value) (g : Arg)
    (names : List Bytes) (gs : List Arg) (d' : Decoder)
    → a < length h
    → lookup name m ≡ none
    → length h ≤ length h'
    → Keeps (length h) h h'
    → IsImage n (length h) h' v g
    → Filled n a (put_entry a name v h') (insert name v m) names gs d'
    → Filled n a h m (name ∷ names) (g ∷ gs) d'
Filled-next n a h h' m name v g names gs d' below new grows keeps image
      (added, at, each, more, but) =
    let same = length-put_entry a name v h' in
    let added_here : insert name v m ++ added ≡ m ++ (name, v) ∷ added =
      rw (insert-absent name v m new) (append_assoc m ((name, v) ∷ []) added) in
    let stays : KeepsBut a h d'.heap =
      λ i lt ne. but i (omega arith) ne ∙ get_elem?-put_entry_other a i name v h' ne ∙ keeps i lt in
    let put_stays : KeepsBut a h' (put_entry a name v h') =
      λ i lt ne. get_elem?-put_entry_other a i name v h' ne in
    let image' : IsImage n (length h) d'.heap v g =
      IsImage-KeepsBut n (length h) a (put_entry a name v h') d'.heap v g below but
        (IsImage-KeepsBut n (length h) a h' (put_entry a name v h') v g below put_stays image) in
    (
      (name, v) ∷ added,
      at ∙ ap (λ x. some (object x)) added_here,
      (
        refl,
        image',
        EachEntry-map (IsImage n (length (put_entry a name v h')) d'.heap)
            (IsImage n (length h) d'.heap) added names gs
            (λ x y.
              IsImage-stays (length (put_entry a name v h')) (length h) d'.heap d'.heap
                (omega arith) (λ i node le k. k) n x y)
            each,
      ),
      omega arith,
      stays,
    )
