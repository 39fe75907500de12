-- ===== src/Prelude/Results.antt =====
-- Results over an error type of the caller's own, with the `?` operator.
use mathlib.Core.Path.{◌≡◌, refl}
use mathlib.Core.Logic.{◌⊎◌, inl, inr}
use mathlib.Core.Bool.{Bool, true, false}
use mathlib.Core.Option.{Option, none, some}

pub data Outcome {ℓ} (E : Type 0) (A : Type ℓ) : Type ℓ where
  done : A → Outcome E A
  failed : E → Outcome E A

module _ {E : Type 0} where
  abbrev pub fail_if : Bool → E → Outcome E (Unit {0})
  fail_if true failure = failed failure
  fail_if false failure = done tt

  abbrev pub done_or {ℓ} : {A : Type ℓ} → Option A → E → Outcome E A
  done_or none failure = failed failure
  done_or (some value) failure = done value

  infixl 5 ◌>>=◌ ◌>>◌
  abbrev pub ◌>>=◌ {ℓ ι} : {V : Type ℓ} {W : Type ι} → Outcome E V → (V → Outcome E W) → Outcome E W
  failed failure >>= next = failed failure
  done value >>= next = next value

  abbrev pub ◌>>◌ {ι} : {W : Type ι} → Outcome E (Unit {0}) → Outcome E W → Outcome E W
  first >> next = first >>= λ v. next

  -- What a `?` that went on has read, and what came of it.
  pub >>=-done {ℓ ι} :
      {V : Type ℓ} {W : Type ι} (first : Outcome E V) (next : V → Outcome E W) {w : W}
      → (first >>= next) ≡ done w
      → (v : V) × (first ≡ done v) × (next v ≡ done w)
  >>=-done (failed failure) next p = cc
  >>=-done (done v) next p = (v, refl, p)

  pub fail_if-done : (b : Bool) (e : E) → fail_if b e ≡ done tt → b ≡ false
  fail_if-done true e p = cc
  fail_if-done false e p = refl

  pub >>=-return {ℓ} : {V : Type ℓ} (first : Outcome E V) → (first >>= λ v. done v) ≡ first
  >>=-return (failed failure) = refl
  >>=-return (done v) = refl

  pub >>=_assoc {ℓ ι κ} :
      {V : Type ℓ} {W : Type ι} {X : Type κ} (first : Outcome E V) (second : V → Outcome E W)
      (third : W → Outcome E X)
      → ((first >>= second) >>= third) ≡ (first >>= λ v. second v >>= third)
  >>=_assoc (failed failure) second third = refl
  >>=_assoc (done v) second third = refl

  pub done-injective {ℓ} : {V : Type ℓ} (v w : V) → ◌≡◌ {A = Outcome E V} (done v) (done w) → v ≡ w
  done-injective v w e = cc

  pub Outcome-cases {ℓ} :
      {V : Type ℓ} (got : Outcome E V)
      → ((v : V) × (got ≡ done v)) ⊎ ((failure : E) × (got ≡ failed failure))
  Outcome-cases (failed failure) = inr (failure, refl)
  Outcome-cases (done v) = inl (v, refl)
