-- ===== src/Crypto/Enroll/Granting.antt =====
-- crates/asli-crypto/src/enroll.rs: a grant is opened by the device that it was made for.
use asli.Prelude.{
  ℕ, ◌≡◌, ◌≤◌, refl, sym, ◌∙◌, ap, subst, arith, ltb, ◌==◌, Bool, false, true, List, [], ◌∷◌, ◌++◌,
  length, length-append, append_assoc, append-nil, Option, some, u32_max,
}
use asli.Prelude.Bytes.{
  to_be, length-to_be, same_bytes_self, take-append_of, byte_at, slice, byte_at-append,
}
use asli.Crypto.Error.{ok, >>=-ok, ok_or, rng}
use asli.Crypto.Primitives.{Primitives}
use asli.Crypto.Device.{
  DeviceKeys, sign_pub, box_pub, open_box, seal_box, seal_box_with, sealed_box_overhead,
}
use asli.Crypto.Device.Boxes.{open_box-seal_box}
use asli.Crypto.Aead.{IsTagged}
use asli.Crypto.Device as Device
use asli.Crypto.Signing.{sign, verify, verify-sign}
use asli.Crypto.Fields.{Reader, reader, write_blob}
use asli.Crypto.Fields.Reading.{
  Ahead, reader-Ahead, advance-Ahead, read_bytes-Ahead, read_blob-Ahead, version-Ahead, done-Ahead,
}
use asli.Crypto.Fields.Writing.{write_blob-ok}
use asli.Crypto.Enroll.{JoinCode, JoinRequest, label_grant, made_by, generate, fingerprint}
use asli.Crypto.Enroll.Messages.{grant, open_grant, open_granted, signature_ends, flag}

pub signature_ends-Ahead :
    (r : Reader) (sig : List ℕ) → length sig ≡ 64 → Ahead r (sig ++ []) → signature_ends r ≡ ok tt
unfolding signature_ends
signature_ends-Ahead r sig size a =
    rw (read_bytes-Ahead r 64 sig [] size a, done-Ahead _ (advance-Ahead r 64 sig [] size a)) refl

module _ (crypto : Primitives) where
  -- The body of a grant before its signature.
  abbrev granted_fields : JoinRequest → List ℕ → List ℕ → List ℕ
  granted_fields q approver sealed =
      (((1 ∷ q.request_id) ++ q.sign_pub) ++ approver) ++ (to_be 4 (length sealed) ++ sealed)

  layout :
      (id key approver size sealed sig : List ℕ)
      → ((((1 ∷ id) ++ key) ++ approver) ++ (size ++ sealed)) ++ sig
        ≡ 1 ∷ (id ++ (key ++ (approver ++ (size ++ (sealed ++ (sig ++ []))))))
  layout id key approver size sealed sig = simp (append_assoc, append-nil)

  open_grant-parts :
      (code : JoinCode) (room : List ℕ) (keys : DeviceKeys) (q : JoinRequest)
      (approver sealed sig : List ℕ)
      → length q.request_id ≡ 16
      → length q.sign_pub ≡ 32
      → length approver ≡ 32
      → length sealed ≤ u32_max
      → length sig ≡ 64
      → open_grant crypto code room keys q.request_id (granted_fields q approver sealed ++ sig)
        ≡ open_granted crypto code room keys q.request_id
            (granted_fields q approver sealed ++ sig)
            q.request_id
            q.sign_pub
            approver
            sealed
  unfolding open_grant
  open_grant-parts code room keys q approver sealed sig id key made fits size =
      let body = granted_fields q approver sealed ++ sig in
      let shape = layout q.request_id q.sign_pub approver (to_be 4 (length sealed)) sealed sig in
      let a0 = subst (Ahead (reader body)) shape (reader-Ahead body) in
      let a1 = advance-Ahead _ 1 (1 ∷ []) _ refl a0 in
      let a2 = advance-Ahead _ 16 q.request_id _ id a1 in
      let a3 = advance-Ahead _ 32 q.sign_pub _ key a2 in
      let a4 = advance-Ahead _ 32 approver _ made a3 in
      let a5 = advance-Ahead _ 4 (to_be 4 (length sealed)) _ (length-to_be 4 _) a4 in
      let a6 = advance-Ahead _ (length sealed) sealed _ refl a5 in
      rw
        (
          version-Ahead _ _ a0,
          read_bytes-Ahead _ 16 q.request_id _ id a1,
          read_bytes-Ahead _ 32 q.sign_pub _ key a2,
          read_bytes-Ahead _ 32 approver _ made a3,
          read_blob-Ahead _ sealed _ (omega (arith, fits)) a4,
          signature_ends-Ahead _ sig size a6,
        )
        refl

  grant-fields :
      (secret_random nonce_random : Option (List ℕ)) (approver : DeviceKeys) (room : List ℕ)
      (q : JoinRequest) (secret : List ℕ) (never : Bool) (body : List ℕ)
      → grant crypto secret_random nonce_random approver room q secret never ≡ ok body
      → (sealed : List ℕ) × (seal_box crypto secret_random nonce_random q.box_pub label_grant
            (1 ∷ secret ++ (flag never ∷ []))
          ≡ ok sealed)
        × (length sealed ≤ u32_max)
        × (body
            ≡ sign crypto approver label_grant room
                (granted_fields q (sign_pub crypto approver) sealed))
  unfolding grant
  grant-fields secret_random nonce_random approver room q secret never body e =
      let (sealed, made, more) =
        >>=-ok (seal_box crypto secret_random nonce_random q.box_pub label_grant _) _ e in
      let (written, wrote, last) = >>=-ok (write_blob _ sealed) _ more in
      let (shape, fits) = write_blob-ok _ sealed written wrote in
      let out : body ≡ sign crypto approver label_grant room written = cc in
      (sealed, made, fits, out ∙ ap (sign crypto approver label_grant room) shape)

  -- The two flags and the key of what a grant holds.
  open_granted-inner :
      (code : JoinCode) (room : List ℕ) (keys : DeviceKeys) (q : JoinRequest)
      (body approver sealed secret : List ℕ) (never : Bool)
      → length secret ≡ 32
      → q.sign_pub ≡ sign_pub crypto keys
      → made_by crypto code approver ≡ true
      → verify crypto label_grant room body approver ≡ ok tt
      → open_box crypto keys label_grant sealed ≡ ok (1 ∷ secret ++ (flag never ∷ []))
      → open_granted crypto code room keys q.request_id body q.request_id q.sign_pub approver sealed
        ≡ ok (record { secret = secret; never_exported = never })
  unfolding open_granted slice byte_at
  open_granted-inner code room keys q body approver sealed secret never size mine maker signed
        opens =
      let inner = 1 ∷ secret ++ (flag never ∷ []) in
      let kept = take-append_of 32 secret (flag never ∷ []) size in
      let last : byte_at 33 inner ≡ flag never =
        byte_at-append 33 (1 ∷ secret) (flag never) [] (omega (arith, size)) in
      let whole : length inner ≡ 34 = omega (arith, size, length-append secret (flag never ∷ [])) in
      let small : ltb 1 (flag never) ≡ false = ground arith in
      let read : (flag never == 1) ≡ never = ground arith in
      rw
        (
          maker, same_bytes_self, mine, same_bytes_self, signed, opens, whole, last, small, read,
          kept,
        )
        refl

  made_by-generate :
      (random : Option (List ℕ)) (approver : DeviceKeys) (code : JoinCode)
      → generate crypto random approver ≡ ok code
      → made_by crypto code (sign_pub crypto approver) ≡ true
  unfolding generate made_by
  made_by-generate random approver code e =
      let (secret, drawn, made) = >>=-ok (ok_or random rng) _ e in
      let same : fingerprint crypto (sign_pub crypto approver) ≡ code.approver_fingerprint =
        ground arith in
      rw (sym same) (same_bytes_self _)

  -- A device that asked to join opens the grant that the maker of the code made for its request,
  -- and finds the account key and its flag. The request has the keys of the device, an id of 16
  -- bytes, and the account key 32; the nonce has 24 bytes, and the cipher adds a tag of 16.
  pub open_grant-grant :
      (random secret_random nonce_random : Option (List ℕ)) (approver keys : DeviceKeys)
      (code : JoinCode) (room : List ℕ) (q : JoinRequest) (secret : List ℕ) (never : Bool)
      (body : List ℕ)
      → IsTagged crypto.aead
      → ((nonce : List ℕ) → nonce_random ≡ some nonce → length nonce ≡ 24)
      → generate crypto random approver ≡ ok code
      → length q.request_id ≡ 16
      → q.sign_pub ≡ sign_pub crypto keys
      → q.box_pub ≡ box_pub crypto keys
      → length secret ≡ 32
      → grant crypto secret_random nonce_random approver room q secret never ≡ ok body
      → open_grant crypto code room keys q.request_id body
        ≡ ok (record { secret = secret; never_exported = never })
  unfolding sign sign_pub Device.sign
  open_grant-grant random secret_random nonce_random approver keys code room q secret never body
        tagged drawn made id mine boxed size e =
      let (sealed, shut, fits, shape) =
        grant-fields secret_random nonce_random approver room q secret never body e in
      let fields = granted_fields q (sign_pub crypto approver) sealed in
      let sig = Device.sign crypto approver (label_grant ++ (room ++ fields)) in
      let sized : length sig ≡ 64 = (crypto.ed.sign-IsArray approver.signing_key _).size in
      let key : length q.sign_pub ≡ 32 =
        ap length mine ∙ (crypto.ed.key-IsArray keys.signing_key).size in
      let maker : length (sign_pub crypto approver) ≡ 32 =
        (crypto.ed.key-IsArray approver.signing_key).size in
      let opens =
        open_box-seal_box crypto keys secret_random nonce_random label_grant _ sealed tagged drawn
          (rw (sym boxed) shut) in
      rw shape (
        open_grant-parts code room keys q (sign_pub crypto approver) sealed sig id key maker fits
          sized
        ∙ open_granted-inner code room keys q (fields ++ sig) (sign_pub crypto approver) sealed
            secret never size mine (made_by-generate random approver code made)
            (verify-sign crypto approver label_grant room fields) opens)
