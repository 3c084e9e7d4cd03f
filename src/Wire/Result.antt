-- ===== src/Wire/Result.antt =====
-- Errors of the codec as values. `stuck` is no Go value: a loop of the model ran out of fuel. Nor is
-- stack_overflow: the process ends in a call of fmt.Sprint that does not return.
use sofarpc_cli.Prelude.{Bool, Bytes, Option, false, none, some, true, ◌≡◌, refl}

pub data WireError : Type 0 where
  unexpected_eof short_int32 short_int64 short_utf8 short_bytes bad_length : WireError
  bad_chunk_tag bad_string_tag scalar_too_long string_too_long : WireError
  bad_tag not_int too_deep collection_too_long refs_full class_defs_full types_full : WireError
  stack_overflow : WireError
  object_mismatch uint64_out_of_range unsupported_value : WireError
  unknown_type unknown_class unknown_ref unterminated_list unterminated_map : WireError

pub data WireResult {ℓ} (A : Type ℓ) : Type ℓ where
  ok : A → WireResult A
  err : WireError → WireResult A
  stuck : WireResult A

infixl 5 ◌>>=◌ ◌>>◌
abbrev pub ◌>>=◌ {ℓ κ} :
    {A : Type ℓ} {B : Type κ} → WireResult A → (A → WireResult B) → WireResult B
ok a >>= f = f a
err e >>= f = err e
stuck >>= f = stuck

abbrev pub ◌>>◌ {ℓ} : {B : Type ℓ} → WireResult (Unit {0}) → WireResult B → WireResult B
m >> k = m >>= λ _. k

abbrev pub guard : Bool → WireError → WireResult (Unit {0})
guard true e = ok tt
guard false e = err e

-- a call of fmt.Sprint, none where it does not return
abbrev pub printed : Option Bytes → WireResult Bytes
printed none = err stack_overflow
printed (some s) = ok s

pub ok_inverse {ℓ} : {A : Type ℓ} {a b : A} → ok a ≡ ok b → a ≡ b
ok_inverse h = cc

pub bind_ok {ℓ κ} :
    {A : Type ℓ} {B : Type κ} (m : WireResult A) (f : A → WireResult B) {b : B}
    → (m >>= f) ≡ ok b
    → (a : A) × (m ≡ ok a) × (f a ≡ ok b)
bind_ok (ok a) f h = (a, refl, h)
bind_ok (err e) f h = absurd (cc)
bind_ok stuck f h = absurd (cc)

pub bind_assoc {ℓ κ ι} :
    {A : Type ℓ} {B : Type κ} {C : Type ι} (m : WireResult A) (f : A → WireResult B)
    (g : B → WireResult C)
    → (m >>= f >>= g) ≡ (m >>= λ a. f a >>= g)
bind_assoc (ok a) f g = refl
bind_assoc (err e) f g = refl
bind_assoc stuck f g = refl
