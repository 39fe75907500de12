-- ===== src/Crypto/Device/Boxes.antt =====
-- A box, opened by the device that it was sealed to.
use asli.Prelude.{
  ℕ, ◌+◌, ◌≡◌, ◌≤◌, refl, sym, ◌∙◌, ap, arith, ltb, not, false, true, List, Option, some, ◌++◌,
  length, length-append, take, drop, le→ltb,
}
use asli.Prelude.Bytes.{slice, take-append_of, drop-append_of, drop-drop}
use asli.Crypto.Error.{ok, ok_or, ok_or_ok, >>=-ok, refuse_if, bad_public_key, seal_failed, rng}
use asli.Crypto.Aead.{IsTagged}
use asli.Crypto.Primitives.{Primitives}
use asli.Crypto.Device.{
  DeviceKeys, box_key, box_pub, open_box, seal_box, seal_box_with, sealed_box_overhead,
}

module _ (crypto : Primitives) where
  open_parts :
      (keys : DeviceKeys) (label eph_pub nonce ciphertext plaintext : List ℕ)
      → length eph_pub ≡ 32
      → length nonce ≡ 24
      → 16 ≤ length ciphertext
      → crypto.x25519.was_contributory (crypto.x25519.diffie_hellman keys.box_secret eph_pub) ≡ true
      → crypto.aead.decrypt
          (box_key crypto
            (crypto.x25519.diffie_hellman keys.box_secret eph_pub)
            eph_pub
            (box_pub crypto keys)
            label)
          nonce
          label
          ciphertext
        ≡ some plaintext
      → open_box crypto keys label (eph_pub ++ (nonce ++ ciphertext)) ≡ ok plaintext
  unfolding open_box slice
  open_parts keys label eph_pub nonce ciphertext plaintext size nonce_size long contributes opens =
      let sealed = eph_pub ++ (nonce ++ ciphertext) in
      let whole : length sealed ≡ 32 + (24 + length ciphertext) = omega (
        arith,
        length-append eph_pub (nonce ++ ciphertext),
        length-append nonce ciphertext,
        size,
        nonce_size,
      ) in
      let enough : ltb (length sealed) sealed_box_overhead ≡ false =
        le→ltb _ _ (omega (arith, whole)) in
      let front : take 32 sealed ≡ eph_pub = take-append_of 32 eph_pub _ size in
      let past : drop 32 sealed ≡ nonce ++ ciphertext = drop-append_of 32 eph_pub _ size in
      let middle : take 24 (drop 32 sealed) ≡ nonce =
        ap (take 24) past ∙ take-append_of 24 nonce _ nonce_size in
      let rest : drop 56 sealed ≡ ciphertext =
        drop-drop 32 24 sealed ∙ ap (drop 24) past ∙ drop-append_of 24 nonce _ nonce_size in
      rw (enough, front, middle, rest, contributes, opens) refl

  -- What was sealed to a device's key opens with that device's keys, for the same label: both sides
  -- derive one key. The nonce has 24 bytes, and the cipher's output holds its tag.
  pub open_box-seal_box_with :
      (keys : DeviceKeys) (eph_secret nonce label plaintext sealed : List ℕ)
      → length nonce ≡ 24
      → sealed_box_overhead ≤ length sealed
      → seal_box_with crypto eph_secret nonce (box_pub crypto keys) label plaintext ≡ ok sealed
      → open_box crypto keys label sealed ≡ ok plaintext
  unfolding seal_box_with box_pub
  open_box-seal_box_with keys eph_secret nonce label plaintext sealed nonce_size long e =
      let eph_pub = crypto.x25519.public_key eph_secret in
      let agree = crypto.x25519.agrees eph_secret keys.box_secret in
      let shared = crypto.x25519.diffie_hellman eph_secret (box_pub crypto keys) in
      let key = box_key crypto shared eph_pub (box_pub crypto keys) label in
      let (done, tested, more) =
        >>=-ok (refuse_if (not (crypto.x25519.was_contributory shared)) bad_public_key) _ e in
      let (ciphertext, made, last) =
        >>=-ok (ok_or (crypto.aead.encrypt key nonce label plaintext) seal_failed) _ more in
      let size = (crypto.x25519.public_key-IsArray eph_secret).size in
      let shape : sealed ≡ eph_pub ++ (nonce ++ ciphertext) = cc in
      let opens =
        crypto.aead.decrypts key nonce label plaintext ciphertext
          (ok_or_ok _ seal_failed ciphertext made) in
      let tag : 16 ≤ length ciphertext = omega (
        arith,
        long,
        ap length shape,
        length-append eph_pub (nonce ++ ciphertext),
        length-append nonce ciphertext,
        size,
        nonce_size,
      ) in
      let contributes : crypto.x25519.was_contributory shared ≡ true = ground (arith, tested) in
      rw shape (
        open_parts keys label eph_pub nonce ciphertext plaintext size nonce_size tag
          (rw (sym agree) contributes) (rw (sym agree) opens))

  -- A sealed box is 72 bytes longer than what it holds.
  pub length-seal_box_with :
      (eph_secret nonce recipient label plaintext sealed : List ℕ)
      → IsTagged crypto.aead
      → length nonce ≡ 24
      → seal_box_with crypto eph_secret nonce recipient label plaintext ≡ ok sealed
      → length sealed ≡ length plaintext + sealed_box_overhead
  unfolding seal_box_with
  length-seal_box_with eph_secret nonce recipient label plaintext sealed tagged nonce_size e =
      let eph_pub = crypto.x25519.public_key eph_secret in
      let shared = crypto.x25519.diffie_hellman eph_secret recipient in
      let key = box_key crypto shared eph_pub recipient label in
      let (done, tested, more) =
        >>=-ok (refuse_if (not (crypto.x25519.was_contributory shared)) bad_public_key) _ e in
      let (ciphertext, made, last) =
        >>=-ok (ok_or (crypto.aead.encrypt key nonce label plaintext) seal_failed) _ more in
      let shape : sealed ≡ eph_pub ++ (nonce ++ ciphertext) = cc in
      omega (
        arith,
        ap length shape,
        length-append eph_pub (nonce ++ ciphertext),
        length-append nonce ciphertext,
        (crypto.x25519.public_key-IsArray eph_secret).size,
        nonce_size,
        tagged key nonce label plaintext ciphertext (ok_or_ok _ seal_failed ciphertext made),
      )

  -- What `seal_box` sealed with a nonce of 24 bytes opens on the device it was sealed to.
  pub open_box-seal_box :
      (keys : DeviceKeys) (secret_random nonce_random : Option (List ℕ))
      (label plaintext sealed : List ℕ)
      → IsTagged crypto.aead
      → ((nonce : List ℕ) → nonce_random ≡ some nonce → length nonce ≡ 24)
      → seal_box crypto secret_random nonce_random (box_pub crypto keys) label plaintext ≡ ok sealed
      → open_box crypto keys label sealed ≡ ok plaintext
  unfolding seal_box
  open_box-seal_box keys secret_random nonce_random label plaintext sealed tagged drawn e =
      let (eph_secret, one, more) = >>=-ok (ok_or secret_random rng) _ e in
      let (nonce, two, last) = >>=-ok (ok_or nonce_random rng) _ more in
      let size = drawn nonce (ok_or_ok _ rng nonce two) in
      let long =
        length-seal_box_with eph_secret nonce (box_pub crypto keys) label plaintext sealed tagged
          size last in
      open_box-seal_box_with keys eph_secret nonce label plaintext sealed size (omega (arith, long))
        last
