-- ===== src/Prelude/Error.antt =====
-- The exceptions that the modelled code throws, as values, and the computations that throw them.
use Prim.Native.String.{String}
use mathlib.Core.Path.{◌≡◌, refl}
use mathlib.Core.Bool.{Bool, true, false}
use noleax.Prelude.Tests.{if◌then◌else◌}

-- One constructor for each exception class; the text is the one passed to its constructor.
pub data Error : Type 0 where
  event_validation_error : String → Error
  generation_state_error : String → Error
  completeness_validation_error : String → Error
  stack_validation_error : String → Error
  module_validation_error : String → Error
  custom_hook_validation_error : String → Error
  record_codec_error : String → Error
  wire_format_error : String → Error
  trace_read_error : String → Error
  trace_write_error : String → Error
  memory_snapshot_validation_error : String → Error
  -- No exception of the source: a loop of the model ran out of its fuel.
  out_of_fuel : Error

pub data Result {ℓ} (A : Type ℓ) : Type ℓ where
  ok : A → Result A
  err : Error → Result A

-- `if (test) throw e;`
abbrev pub throw_if : Bool → Error → Result (Unit {0})
throw_if true thrown = err thrown
throw_if false thrown = ok tt

-- The rest of a function, which an exception skips.
infixl 5 ◌>>=◌ ◌>>◌
abbrev pub ◌>>=◌ {κ μ} : {S : Type κ} {T : Type μ} → Result S → (S → Result T) → Result T
err thrown >>= rest = err thrown
ok value >>= rest = rest value

abbrev pub ◌>>◌ {μ} : {T : Type μ} → Result (Unit {0}) → Result T → Result T
first >> rest = first >>= λ done. rest

-- `P` of the value, where there is one: what a computation that may throw guarantees.
abbrev pub Holds {ℓ} : {A : Type ℓ} → (A → Type 0) → Result A → Type 0
Holds P (ok a) = P a
Holds P (err e) = Unit {0}

module _ {ℓ} {A : Type ℓ} (P : A → Type 0) where
  pub Holds-ok : (r : Result A) {a : A} → r ≡ ok a → Holds P r → P a
  Holds-ok r e h = rw e at h

  pub Holds-throw_if :
      (b : Bool) (e : Error) (r : Result A) → (b ≡ false → Holds P r) → Holds P (throw_if b e >> r)
  Holds-throw_if true e r h = tt
  Holds-throw_if false e r h = h refl

  pub Holds-bind {κ} :
      {B : Type κ} (Q : B → Type 0) (m : Result B) (f : B → Result A)
      → Holds Q m
      → ((b : B) → Q b → Holds P (f b))
      → Holds P (m >>= f)
  Holds-bind Q (ok b) f h k = k b h
  Holds-bind Q (err e) f h k = tt

  pub Holds-if :
      (b : Bool) (r s : Result A)
      → (b ≡ true → Holds P r)
      → (b ≡ false → Holds P s)
      → Holds P (if b then r else s)
  Holds-if true r s h k = h refl
  Holds-if false r s h k = k refl

  pub Holds-then : (m : Result (Unit {0})) (r : Result A) → Holds P r → Holds P (m >> r)
  Holds-then (ok u) r h = h
  Holds-then (err e) r h = tt

pub Holds-mono {ℓ} :
    {A : Type ℓ} (Q P : A → Type 0) (r : Result A) → ((a : A) → Q a → P a) → Holds Q r → Holds P r
Holds-mono Q P (ok a) f h = f a h
Holds-mono Q P (err e) f h = tt

pub Holds-intro {ℓ} :
    {A : Type ℓ} (P : A → Type 0) (r : Result A) → ((a : A) → r ≡ ok a → P a) → Holds P r
Holds-intro P (ok a) f = f a refl
Holds-intro P (err e) f = tt
