-- ===== src/Net/Error.antt =====
-- crates/asli-net/src/error.rs: the errors of the crate, and `Result` with the `?` operator. The
-- fixed strings that an error names are constructors.
use asli.Prelude.{ℕ, ◌≡◌, refl, List, Bool, true, false, ◌⊎◌, inl, inr}
use asli.Crypto.Error as CryptoError
use asli.Net.State.{AuthFailCode}

pub data What : Type 0 where
  bad_frame unserializable protocol_version no_forwarding no_device_keys never_seen : What
  crypto_suite envelope_encoding msg_early clip_early chunk_early announce_early image_early : What
  fetch_last_early challenge_late client_only : What

pub data FieldName : Type 0 where
  msg_id_field n_field ct_field nonce_s_field : FieldName

pub data Error : Type 0 where
  malformed unsupported out_of_order : What → Error
  field_length : FieldName → ℕ → ℕ → Error
  bad_base64 : FieldName → Error
  content_too_large : ℕ → ℕ → Error
  auth_failed : AuthFailCode → Error
  crypto_failed : CryptoError.Error → Error
  transport : List ℕ → Error
  unknown_type : Error

pub data Result {ℓ} (A : Type ℓ) : Type ℓ where
  ok : A → Result A
  err : Error → Result A

abbrev pub refuse_if : Bool → Error → Result (Unit {0})
refuse_if true failure = err failure
refuse_if false failure = ok tt

-- `?` on a result of crates/asli-crypto.
abbrev pub from_crypto {ℓ} : {A : Type ℓ} → CryptoError.Result A → Result A
from_crypto (CryptoError.ok value) = ok value
from_crypto (CryptoError.err failure) = err (crypto_failed failure)

infixl 5 ◌>>=◌ ◌>>◌
abbrev pub ◌>>=◌ {ℓ ι} : {V : Type ℓ} {W : Type ι} → Result V → (V → Result W) → Result W
err failure >>= next = err failure
ok value >>= next = next value

abbrev pub ◌>>◌ {ι} : {W : Type ι} → Result (Unit {0}) → Result W → Result W
first >> next = first >>= λ done. next

pub Result-cases {ℓ} :
    {V : Type ℓ} (got : Result V)
    → ((v : V) × (got ≡ ok v)) ⊎ ((failure : Error) × (got ≡ err failure))
Result-cases (err failure) = inr (failure, refl)
Result-cases (ok v) = inl (v, refl)

-- What a `?` that went on has read, and what came of it.
pub >>=-ok {ℓ ι} :
    {V : Type ℓ} {W : Type ι} (first : Result V) (next : V → Result W) {w : W}
    → (first >>= next) ≡ ok w
    → (v : V) × (first ≡ ok v) × (next v ≡ ok w)
>>=-ok (err failure) next p = cc
>>=-ok (ok v) next p = (v, refl, p)

pub from_crypto_ok {ℓ} :
    {V : Type ℓ} (got : CryptoError.Result V) {v : V}
    → from_crypto got ≡ ok v
    → got ≡ CryptoError.ok v
from_crypto_ok (CryptoError.ok v) e = cc
from_crypto_ok (CryptoError.err failure) e = cc
