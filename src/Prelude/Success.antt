-- ===== src/Prelude/Success.antt =====
-- Whether a computation ends without an exception.
use noleax.Prelude.{◌≡◌, refl, ◌∙◌, Bool, true, false, not, ◌&&◌, if◌then◌else◌}
use noleax.Prelude.Error.{Error, Result, ok, err, throw_if, ◌>>=◌, ◌>>◌, Holds}

abbrev pub is_ok {ℓ} : {A : Type ℓ} → Result A → Bool
is_ok (ok a) = true
is_ok (err e) = false

module _ {ℓ} {A : Type ℓ} where
  pub is_ok-bind {κ} :
      {B : Type κ} (Q : B → Type 0) (m : Result B) (f : B → Result A) (b : Bool)
      → Holds Q m
      → ((a : B) → Q a → is_ok (f a) ≡ b)
      → is_ok (m >>= f) ≡ (is_ok m && b)
  is_ok-bind Q (ok a) f b h k = k a h
  is_ok-bind Q (err e) f b h k = refl

  -- A guard, a validation, and a rest that throws nothing.
  pub is_ok-checked :
      (b c : Bool) (e : Error) (m : Result (Unit {0})) (r : Result A)
      → is_ok m ≡ c
      → is_ok r ≡ true
      → is_ok (throw_if b e >> (m >> r)) ≡ (not b && c)
  is_ok-checked true c e m r h k = refl
  is_ok-checked false c e (ok u) r h k = k ∙ h
  is_ok-checked false c e (err x) r h k = h

  pub is_ok-guarded :
      (b : Bool) (e : Error) (r : Result A) → is_ok r ≡ true → is_ok (throw_if b e >> r) ≡ not b
  is_ok-guarded true e r k = refl
  is_ok-guarded false e r k = k

  pub is_ok-if :
      (b : Bool) (m r : Result A)
      → is_ok m ≡ true
      → is_ok r ≡ true
      → is_ok (if b then m else r) ≡ true
  is_ok-if true m r h k = h
  is_ok-if false m r h k = k

  pub is_ok-total {κ} :
      {B : Type κ} (m : Result B) (f : B → Result A)
      → is_ok m ≡ true
      → ((b : B) → is_ok (f b) ≡ true)
      → is_ok (m >>= f) ≡ true
  is_ok-total (ok b) f h k = k b
  is_ok-total (err e) f h k = h
