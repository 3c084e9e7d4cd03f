-- ===== src/Wire/Decoder/Reads.antt =====
-- What every reader of the decoder guarantees, and how it is carried through a chain of readers.
use sofarpc_cli.Prelude.{
  Bool, arith, false, if◌then◌else◌, length, refl, true, ℕ, ◌+◌, ◌≡◌, ◌≢◌, ◌≤◌,
}
use sofarpc_cli.Wire.Decoder.State.{Decoder, Limits}
use sofarpc_cli.Wire.Result.{WireError, WireResult, err, ok, stuck, ◌>>=◌}

-- From one state of the decoder to a later one, with at least k bytes taken in between.
pub record Advances (l : Limits) (k : ℕ) (d d' : Decoder) : Type 0 where
  pub same_depth : d'.depth ≡ d.depth
  pub took : length d'.unread + k ≤ length d.unread
  pub more_refs : length d.refs ≤ length d'.refs
  pub refs_within : length d.refs ≤ l.max_refs → length d'.refs ≤ l.max_refs
  pub more_class_defs : length d.class_defs ≤ length d'.class_defs
  pub class_defs_within : length d.class_defs ≤ l.max_refs → length d'.class_defs ≤ l.max_refs
  pub more_types : length d.types ≤ length d'.types
  pub types_within : length d.types ≤ l.max_refs → length d'.types ≤ l.max_refs
  pub more_heap : length d.heap ≤ length d'.heap

pub Advances-trans :
    {l : Limits} {j k : ℕ} {d e f : Decoder}
    → Advances l j d e
    → Advances l k e f
    → Advances l (j + k) d f
Advances-trans a b = record {
  same_depth = omega arith;
  took = omega arith;
  more_refs = omega arith;
  refs_within = λ h. b.refs_within (a.refs_within h);
  more_class_defs = omega arith;
  class_defs_within = λ h. b.class_defs_within (a.class_defs_within h);
  more_types = omega arith;
  types_within = λ h. b.types_within (a.types_within h);
  more_heap = omega arith;
}

pub weaken : {l : Limits} {k : ℕ} {d d' : Decoder} → Advances l k d d' → Advances l 0 d d'
weaken a = record {
  same_depth = a.same_depth;
  took = omega arith;
  more_refs = a.more_refs;
  refs_within = a.refs_within;
  more_class_defs = a.more_class_defs;
  class_defs_within = a.class_defs_within;
  more_types = a.more_types;
  types_within = a.types_within;
  more_heap = a.more_heap;
}

-- A reader ends, with an error or further on.
pub data Reads {ℓ} {A : Type ℓ} (l : Limits) (k : ℕ) (d : Decoder)
    : WireResult (A × Decoder) → Type ℓ where
  reads : (a : A) (d' : Decoder) → Advances l k d d' → Reads l k d (ok (a, d'))
  fails : (e : WireError) → Reads l k d (err e)

-- the same where no state is returned
pub data Ends {ℓ} {A : Type ℓ} : WireResult A → Type ℓ where
  gives : (a : A) → Ends (ok a)
  refuses : (e : WireError) → Ends (err e)

module _ {l : Limits} where
  pub after {ℓ} :
      {A : Type ℓ} {j k : ℕ} {d e : Decoder} {r : WireResult (A × Decoder)}
      → Advances l j d e
      → Reads l k e r
      → Reads l (j + k) d r
  after s (reads a d' t) = reads a d' (Advances-trans s t)
  after s (fails e) = fails e

  pub weaken-Reads {ℓ} :
      {A : Type ℓ} {k : ℕ} {d : Decoder} {r : WireResult (A × Decoder)}
      → Reads l k d r
      → Reads l 0 d r
  weaken-Reads (reads a d' s) = reads a d' (weaken s)
  weaken-Reads (fails e) = fails e

  pub >>=-Reads {ℓ κ} :
      {A : Type ℓ} {B : Type κ} {j k n : ℕ} {d : Decoder} {m : WireResult (A × Decoder)}
      (f : A × Decoder → WireResult (B × Decoder))
      → d.depth ≡ n
      → Reads l j d m
      → ((a : A) (e : Decoder) → e.depth ≡ n → Advances l j d e → Reads l k e (f (a, e)))
      → Reads l (j + k) d (m >>= f)
  >>=-Reads f h (reads a d' s) next_reads = after s (next_reads a d' (omega arith) s)
  >>=-Reads f h (fails e) next_reads = fails e

  pub Ends->>= {ℓ κ} :
      {A : Type ℓ} {B : Type κ} {k : ℕ} {d : Decoder} {m : WireResult A}
      (f : A → WireResult (B × Decoder))
      → Ends m
      → ((a : A) → Reads l k d (f a))
      → Reads l k d (m >>= f)
  Ends->>= f (gives a) g = g a
  Ends->>= f (refuses e) g = fails e

  pub if-Reads {ℓ} :
      {A : Type ℓ} {k : ℕ} {d : Decoder} {r s : WireResult (A × Decoder)} (b : Bool)
      → Reads l k d r
      → Reads l k d s
      → Reads l k d (if b then r else s)
  if-Reads true p q = p
  if-Reads false p q = q

  pub unchanged : (d : Decoder) → Advances l 0 d d
  unchanged d = record {
    same_depth = refl;
    took = omega arith;
    more_refs = omega arith;
    refs_within = λ h. h;
    more_class_defs = omega arith;
    class_defs_within = λ h. h;
    more_types = omega arith;
    types_within = λ h. h;
    more_heap = omega arith;
  }

  pub return-Reads {ℓ} : {A : Type ℓ} {d : Decoder} (a : A) → Reads l 0 d (ok (a, d))
  return-Reads {d = d} a = reads a d (unchanged d)

pub Reads-ne-stuck {ℓ} :
    {A : Type ℓ} {l : Limits} {k : ℕ} {d : Decoder} {r : WireResult (A × Decoder)}
    → Reads l k d r
    → r ≢ stuck
Reads-ne-stuck (reads a d' s) = λ p. cc
Reads-ne-stuck (fails e) = λ p. cc
