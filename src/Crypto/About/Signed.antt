-- ===== src/Crypto/About/Signed.antt =====
-- crates/asli-crypto/src/about.rs: a goodbye back from what its device signed.
use asli.Prelude.{
  ℕ, ◌-◌, ◌≡◌, refl, subst, arith, List, [], ◌∷◌, ◌++◌, length, IsU64, length-append, append-nil,
}
use asli.Prelude.Bytes.{to_be, length-to_be, take-append_of}
use asli.Crypto.Error.{ok}
use asli.Crypto.Primitives.{Primitives}
use asli.Crypto.Device.{DeviceKeys, sign_pub}
use asli.Crypto.Device as Device
use asli.Crypto.Signing.{sign, verify-sign}
use asli.Crypto.Fields.{reader}
use asli.Crypto.Fields.Reading.{
  Ahead, reader-Ahead, advance-Ahead, read_bytes-Ahead, read_be-Ahead, version-Ahead, done-Ahead,
}
use asli.Crypto.About.{Leave, unsigned, label_leave, encode_leave, decode_leave}

module _ (crypto : Primitives) where
  pub unsigned-sign :
      (keys : DeviceKeys) (label room body : List ℕ)
      → unsigned (sign crypto keys label room body) ≡ body
  unfolding sign Device.sign
  unsigned-sign keys label room body =
      let sig = crypto.ed.sign keys.signing_key (label ++ (room ++ body)) in
      let size : length sig ≡ 64 = (crypto.ed.sign-IsArray keys.signing_key _).size in
      let split : length (body ++ sig) - 64 ≡ length body =
        omega (arith, length-append body sig, size) in
      rw split (take-append_of (length body) body sig refl)

  -- A goodbye that a device encoded decodes to itself under the key of that device.
  pub decode_leave-encode_leave :
      (l : Leave) (keys : DeviceKeys) (room : List ℕ)
      → length l.from_device_id ≡ 16
      → IsU64 l.ts_ms
      → decode_leave crypto (encode_leave crypto l keys room) room (sign_pub crypto keys) ≡ ok l
  unfolding decode_leave encode_leave
  decode_leave-encode_leave l keys room id time =
      let body = (1 ∷ l.from_device_id) ++ (to_be 8 l.ts_ms ++ []) in
      let fields = (1 ∷ l.from_device_id) ++ to_be 8 l.ts_ms in
      let shape : fields ≡ body = simp append-nil in
      let a0 = subst (Ahead (reader fields)) shape (reader-Ahead fields) in
      let a1 = advance-Ahead _ 1 (1 ∷ []) _ refl a0 in
      let a2 = advance-Ahead _ 16 l.from_device_id _ id a1 in
      let a3 = advance-Ahead _ 8 (to_be 8 l.ts_ms) [] (length-to_be 8 l.ts_ms) a2 in
      rw
        (
          verify-sign crypto keys label_leave room fields,
          unsigned-sign keys label_leave room fields,
          version-Ahead _ _ a0,
          read_bytes-Ahead _ 16 l.from_device_id _ id a1,
          read_be-Ahead _ 8 l.ts_ms [] (omega (arith, time)) a2,
          done-Ahead _ a3,
        )
        refl
