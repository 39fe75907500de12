-- ===== src/Crypto/Device.antt =====
-- crates/asli-crypto/src/device.rs: a device's own keys, and a secret sealed to one device. A
-- signing key is its seed, and a box secret its bytes.
pub mod Boxes
use asli.Prelude.{ℕ, ◌+◌, ltb, not, List, [], ◌∷◌, ◌++◌, Option, none, some, length, drop, take}
use asli.Prelude.Bytes.{slice}
use asli.Crypto.Error.{
  Result, ok, ◌>>=◌, ◌>>◌, refuse_if, ok_or, rng, seal_failed, open_failed, bad_public_key,
}
use asli.Crypto.Primitives.{Primitives}

-- "asli/v2/device-salt"
abbrev pub label_device_salt : List ℕ
label_device_salt =
    b'a' ∷ b's' ∷ b'l' ∷ b'i' ∷ b'/' ∷ b'v' ∷ b'2' ∷ b'/' ∷ b'd' ∷ b'e' ∷ b'v' ∷ b'i' ∷ b'c' ∷ b'e'
    ∷ b'-' ∷ b's' ∷ b'a' ∷ b'l' ∷ b't' ∷ []

-- "asli/v2/device-sign"
abbrev pub label_device_sign : List ℕ
label_device_sign =
    b'a' ∷ b's' ∷ b'l' ∷ b'i' ∷ b'/' ∷ b'v' ∷ b'2' ∷ b'/' ∷ b'd' ∷ b'e' ∷ b'v' ∷ b'i' ∷ b'c' ∷ b'e'
    ∷ b'-' ∷ b's' ∷ b'i' ∷ b'g' ∷ b'n' ∷ []

-- "asli/v2/device-box"
abbrev pub label_device_box : List ℕ
label_device_box =
    b'a' ∷ b's' ∷ b'l' ∷ b'i' ∷ b'/' ∷ b'v' ∷ b'2' ∷ b'/' ∷ b'd' ∷ b'e' ∷ b'v' ∷ b'i' ∷ b'c' ∷ b'e'
    ∷ b'-' ∷ b'b' ∷ b'o' ∷ b'x' ∷ []

abbrev pub box_pub_len : ℕ
box_pub_len = 32

abbrev pub sealed_box_overhead : ℕ
sealed_box_overhead = 72

pub record DeviceKeys : Type 0 where
  pub secret : List ℕ
  pub signing_key : List ℕ
  pub box_secret : List ℕ

module _ (crypto : Primitives) where
  unfoldable pub from_secret : List ℕ → DeviceKeys
  from_secret secret =
      let prk = crypto.hkdf.extract label_device_salt secret in
      record {
        secret = secret;
        signing_key = crypto.hkdf.expand prk label_device_sign;
        box_secret = crypto.hkdf.expand prk label_device_box;
      }

  -- `random` is what the operating system's generator returns, `none` its failure.
  unfoldable pub generate : Option (List ℕ) → Result DeviceKeys
  unfolding from_secret
  generate random = do secret ← ok_or random rng; ok (from_secret secret)

  unfoldable pub sign_pub : DeviceKeys → List ℕ
  sign_pub keys = crypto.ed.verifying_key keys.signing_key

  unfoldable pub box_pub : DeviceKeys → List ℕ
  box_pub keys = crypto.x25519.public_key keys.box_secret

  unfoldable pub sign : DeviceKeys → List ℕ → List ℕ
  sign keys message = crypto.ed.sign keys.signing_key message

  unfoldable pub box_key : List ℕ → List ℕ → List ℕ → List ℕ → List ℕ
  box_key shared eph_pub recipient label =
      crypto.hkdf.expand (crypto.hkdf.extract (eph_pub ++ recipient) shared) label

  -- The first 32 bytes are the sender's key, the next 24 the nonce.
  unfoldable pub open_box : DeviceKeys → List ℕ → List ℕ → Result (List ℕ)
  unfolding box_key box_pub
  open_box keys label sealed = do
    refuse_if (ltb (length sealed) sealed_box_overhead) open_failed
    let eph_pub = take 32 sealed
    let nonce = slice 32 24 sealed
    let shared = crypto.x25519.diffie_hellman keys.box_secret eph_pub
    refuse_if (not (crypto.x25519.was_contributory shared)) open_failed
    let key = box_key shared eph_pub (box_pub keys) label
    ok_or (crypto.aead.decrypt key nonce label (drop 56 sealed)) open_failed

  unfoldable pub seal_box_with : List ℕ → List ℕ → List ℕ → List ℕ → List ℕ → Result (List ℕ)
  unfolding box_key
  seal_box_with eph_secret nonce recipient label plaintext = do
    let eph_pub = crypto.x25519.public_key eph_secret
    let shared = crypto.x25519.diffie_hellman eph_secret recipient
    refuse_if (not (crypto.x25519.was_contributory shared)) bad_public_key
    let key = box_key shared eph_pub recipient label
    ciphertext ← ok_or (crypto.aead.encrypt key nonce label plaintext) seal_failed
    ok (eph_pub ++ (nonce ++ ciphertext))

  -- The two draws of the generator, the ephemeral secret's and the nonce's.
  unfoldable pub seal_box :
      Option (List ℕ) → Option (List ℕ) → List ℕ → List ℕ → List ℕ → Result (List ℕ)
  unfolding seal_box_with
  seal_box secret_random nonce_random recipient label plaintext = do
    eph_secret ← ok_or secret_random rng
    nonce ← ok_or nonce_random rng
    seal_box_with eph_secret nonce recipient label plaintext
