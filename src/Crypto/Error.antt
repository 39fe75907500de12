-- ===== src/Crypto/Error.antt =====
-- crates/asli-crypto/src/error.rs: the errors of the crate, and `Result` with the `?` operator.
use asli.Prelude.{ℕ, ◌≡◌, refl, List, Bool, true, false, Option, none, some, ◌⊎◌, inl, inr}

pub data Error : Type 0 where
  rng token_prefix token_alphabet token_length token_checksum : Error
  token_version : ℕ → Error
  field_length : List ℕ → ℕ → ℕ → Error
  seal_failed open_failed inner_malformed : Error
  inner_version content_type : ℕ → Error
  bad_public_key bad_signature room_binding not_utf8 : Error
  chunk_count chunk_mismatch chunk_incomplete chunk_too_large announce_field : Error

pub data Result {ℓ} (A : Type ℓ) : Type ℓ where
  ok : A → Result A
  err : Error → Result A

-- `if test { return Err(e) }`
abbrev pub refuse_if : Bool → Error → Result (Unit {0})
refuse_if true failure = err failure
refuse_if false failure = ok tt

-- `Option::ok_or`, and `map_err(|_| e)` on a library's result.
abbrev pub ok_or {ℓ} : {A : Type ℓ} → Option A → Error → Result A
ok_or none failure = err failure
ok_or (some value) failure = ok value

-- `?` on a result whose value is used, and on one without a value.
infixl 5 ◌>>=◌ ◌>>◌
abbrev pub ◌>>=◌ {ℓ ι} : {V : Type ℓ} {W : Type ι} → Result V → (V → Result W) → Result W
err failure >>= next = err failure
ok value >>= next = next value

abbrev pub ◌>>◌ {ι} : {W : Type ι} → Result (Unit {0}) → Result W → Result W
first >> next = first >>= λ done. next

pub ok_or_ok {ℓ} : {A : Type ℓ} (o : Option A) (e : Error) (a : A) → ok_or o e ≡ ok a → o ≡ some a
ok_or_ok none e a p = cc
ok_or_ok (some b) e a p = cc

pub refuse_if_ok : (b : Bool) (e : Error) → refuse_if b e ≡ ok tt → b ≡ false
refuse_if_ok true e p = cc
refuse_if_ok false e p = refl

-- What a `?` that went on has read, and what came of it.
pub >>=-ok {ℓ ι} :
    {V : Type ℓ} {W : Type ι} (first : Result V) (next : V → Result W) {w : W}
    → (first >>= next) ≡ ok w
    → (v : V) × (first ≡ ok v) × (next v ≡ ok w)
>>=-ok (err failure) next p = cc
>>=-ok (ok v) next p = (v, refl, p)

pub Result-cases {ℓ} :
    {V : Type ℓ} (got : Result V)
    → ((v : V) × (got ≡ ok v)) ⊎ ((failure : Error) × (got ≡ err failure))
Result-cases (err failure) = inr (failure, refl)
Result-cases (ok v) = inl (v, refl)
