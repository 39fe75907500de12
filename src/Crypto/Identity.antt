-- ===== src/Crypto/Identity.antt =====
-- crates/asli-crypto/src/kdf.rs and crates/asli-crypto/src/identity.rs: the keys that come from the
-- account's secret. A signing key is its seed; `Prk` is its bytes.
use asli.Prelude.{ℕ, ◌==◌, not, List, [], ◌∷◌, ◌++◌, length}
use asli.Prelude.Bytes.{to_be}
use asli.Crypto.Error.{Result, ok, ◌>>=◌, ◌>>◌, refuse_if, field_length}
use asli.Crypto.Token.{key_len}
use asli.Crypto.Base32
use asli.Crypto.Auth.{room_id_for_public_key}
use asli.Crypto.Primitives.{Primitives}

-- "asli/v1/root-salt"
abbrev pub label_root_salt : List ℕ
label_root_salt =
    b'a' ∷ b's' ∷ b'l' ∷ b'i' ∷ b'/' ∷ b'v' ∷ b'1' ∷ b'/' ∷ b'r' ∷ b'o' ∷ b'o' ∷ b't' ∷ b'-' ∷ b's'
    ∷ b'a' ∷ b'l' ∷ b't' ∷ []

-- "asli/v1/device-sign"
abbrev pub label_device_sign : List ℕ
label_device_sign =
    b'a' ∷ b's' ∷ b'l' ∷ b'i' ∷ b'/' ∷ b'v' ∷ b'1' ∷ b'/' ∷ b'd' ∷ b'e' ∷ b'v' ∷ b'i' ∷ b'c' ∷ b'e'
    ∷ b'-' ∷ b's' ∷ b'i' ∷ b'g' ∷ b'n' ∷ []

-- "asli/v1/clip-enc"
abbrev pub label_clip_enc : List ℕ
label_clip_enc =
    b'a' ∷ b's' ∷ b'l' ∷ b'i' ∷ b'/' ∷ b'v' ∷ b'1' ∷ b'/' ∷ b'c' ∷ b'l' ∷ b'i' ∷ b'p' ∷ b'-' ∷ b'e'
    ∷ b'n' ∷ b'c' ∷ []

-- "secret"
abbrev pub secret_field : List ℕ
secret_field = b's' ∷ b'e' ∷ b'c' ∷ b'r' ∷ b'e' ∷ b't' ∷ []

-- `key_from_slice` of kdf.rs.
unfoldable pub key_from_slice : List ℕ → List ℕ → Result (List ℕ)
key_from_slice field bytes = do
  refuse_if (not (length bytes == key_len)) (field_length field key_len (length bytes))
  ok bytes

pub record Identity : Type 0 where
  pub secret : List ℕ
  pub prk : List ℕ
  pub signing_key : List ℕ
  pub room_id_bytes : List ℕ

module _ (crypto : Primitives) where
  -- `Prk::extract`, `Prk::sign_seed` and `Prk::enc_key`.
  unfoldable pub extract : List ℕ → List ℕ
  extract secret = crypto.hkdf.extract label_root_salt secret

  unfoldable pub sign_seed : List ℕ → List ℕ
  sign_seed prk = crypto.hkdf.expand prk label_device_sign

  unfoldable pub enc_key : List ℕ → ℕ → List ℕ
  enc_key prk epoch = crypto.hkdf.expand prk (label_clip_enc ++ to_be 4 epoch)

  unfoldable pub public_key : Identity → List ℕ
  public_key i = crypto.ed.verifying_key i.signing_key

  unfoldable pub from_secret : List ℕ → Identity
  unfolding extract sign_seed
  from_secret secret =
      let prk = extract secret in
      let signing_key = sign_seed prk in
      record {
        secret = secret;
        prk = prk;
        signing_key = signing_key;
        room_id_bytes =
            room_id_for_public_key crypto.sha crypto.ed (crypto.ed.verifying_key signing_key);
      }

  unfoldable pub from_secret_slice : List ℕ → Result Identity
  unfolding key_from_slice
  from_secret_slice secret = do key ← key_from_slice secret_field secret; ok (from_secret key)

-- The room id as text.
unfoldable pub room_id : Identity → List ℕ
room_id i = Base32.encode i.room_id_bytes
