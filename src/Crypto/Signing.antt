-- ===== src/Crypto/Signing.antt =====
-- crates/asli-crypto/src/file.rs and crates/asli-crypto/src/enroll.rs: `sign` and `verify`, which
-- both files have, for bodies that end in a signature.
use asli.Prelude.{
  ℕ, ◌-◌, ◌+◌, ◌≡◌, refl, ltb, false, List, ◌++◌, length, length-append, take, drop, arith, le→ltb,
}
use asli.Prelude.Bytes.{take-append_of, drop-append_of}
use asli.Crypto.Error.{Result, ok, ◌>>◌, refuse_if, inner_malformed}
use asli.Crypto.Auth.{verify_signature}
use asli.Crypto.Primitives.{Primitives}
use asli.Crypto.Device as Device
use asli.Crypto.Device.{DeviceKeys, sign_pub}
use asli.Crypto.Card.{signature_len}

module _ (crypto : Primitives) where
  unfoldable pub sign : DeviceKeys → List ℕ → List ℕ → List ℕ → List ℕ
  sign keys label room body =
      let covered = label ++ (room ++ body) in body ++ Device.sign crypto keys covered

  -- The rest of the body has the 64 bytes of a signature.
  unfoldable pub verify : List ℕ → List ℕ → List ℕ → List ℕ → Result (Unit {0})
  verify label room body sign_pub = do
    refuse_if (ltb (length body) signature_len) inner_malformed
    let split = length body - signature_len
    let covered = label ++ (room ++ take split body)
    verify_signature crypto.sha crypto.ed sign_pub covered (drop split body)

  -- What a device signed verifies under its key.
  pub verify-sign :
      (keys : DeviceKeys) (label room body : List ℕ)
      → verify label room (sign keys label room body) (sign_pub crypto keys) ≡ ok tt
  unfolding verify sign verify_signature sign_pub Device.sign
  verify-sign keys label room body =
      let sig = Device.sign crypto keys (label ++ (room ++ body)) in
      let size : length sig ≡ 64 =
        (crypto.ed.sign-IsArray keys.signing_key (label ++ (room ++ body))).size in
      let whole : length (body ++ sig) ≡ length body + 64 =
        omega (arith, length-append body sig, size) in
      let long : ltb (length (body ++ sig)) signature_len ≡ false =
        le→ltb _ _ (omega (arith, whole)) in
      let split : length (body ++ sig) - 64 ≡ length body = omega (arith, whole) in
      rw
        (
          long,
          split,
          take-append_of (length body) body sig refl,
          drop-append_of (length body) body sig refl,
          crypto.ed.from_bytes-verifying_key,
          crypto.ed.verifies,
        )
        refl
