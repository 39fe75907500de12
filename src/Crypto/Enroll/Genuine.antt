-- ===== src/Crypto/Enroll/Genuine.antt =====
-- crates/asli-crypto/src/enroll.rs: what it takes for a grant to be opened.
use asli.Prelude.{ℕ, ◌≡◌, arith, not, ◌||◌, Bool, true, List}
use asli.Prelude.Bytes.{same_bytes, same_bytes→eq, slice}
use asli.Crypto.Error.{ok, >>=-ok, refuse_if, refuse_if_ok, bad_signature}
use asli.Crypto.Primitives.{Primitives}
use asli.Crypto.Device.{DeviceKeys, sign_pub}
use asli.Crypto.Signing.{verify}
use asli.Crypto.Fields.{reader, read_blob}
use asli.Crypto.Enroll.{JoinCode, Granted, label_grant, made_by}
use asli.Crypto.Enroll.Messages.{open_grant, open_granted, signature_ends}
use asli.Crypto.Fields.Steps.{read_bytes-step, version-step}

module _ (crypto : Primitives) where
  -- What a device that opens a grant may rely on: the grant names the request, the key of this device
  -- and the device that made the code, in their places in the body, and is signed by that device for
  -- the meeting room.
  pub record Genuine (code : JoinCode) (room : List ℕ) (keys : DeviceKeys)
      (request_id body : List ℕ) : Type 0 where
    pub request : slice 1 16 body ≡ request_id
    pub device : slice 17 32 body ≡ sign_pub crypto keys
    pub maker : made_by crypto code (slice 49 32 body) ≡ true
    pub signed : verify crypto label_grant room body (slice 49 32 body) ≡ ok tt

  open_granted-Genuine :
      (code : JoinCode) (room : List ℕ) (keys : DeviceKeys) (request_id body sealed : List ℕ)
      (g : Granted)
      → open_granted crypto code room keys request_id body
          (slice 1 16 body)
          (slice 17 32 body)
          (slice 49 32 body)
          sealed
        ≡ ok g
      → Genuine code room keys request_id body
  unfolding open_granted
  open_granted-Genuine code room keys request_id body sealed g e =
      let named = made_by crypto code (slice 49 32 body) in
      let wanted = same_bytes (slice 1 16 body) request_id in
      let mine = same_bytes (slice 17 32 body) (sign_pub crypto keys) in
      let wrong : Bool = not named || (not wanted || not mine) in
      let (passed, tested, more) = >>=-ok (refuse_if wrong bad_signature) _ e in
      let clear = refuse_if_ok wrong bad_signature (ground arith) in
      let (verified, sound, later) =
        >>=-ok (verify crypto label_grant room body (slice 49 32 body)) _ more in
      record {
        request = same_bytes→eq _ _ (ground (arith, clear));
        device = same_bytes→eq _ _ (ground (arith, clear));
        maker = ground (arith, clear);
        signed = sound;
      }

  -- A grant that opens is genuine: for this request and this device, and from the device that made the
  -- code.
  pub open_grant-Genuine :
      (code : JoinCode) (room : List ℕ) (keys : DeviceKeys) (request_id body : List ℕ) (g : Granted)
      → open_grant crypto code room keys request_id body ≡ ok g
      → Genuine code room keys request_id body
  unfolding open_grant
  open_grant-Genuine code room keys request_id body g e =
      let e1 = version-step (reader body) _ g e in
      let e2 = read_bytes-step _ 16 _ g e1 in
      let e3 = read_bytes-step _ 32 _ g e2 in
      let e4 = read_bytes-step _ 32 _ g e3 in
      let (sealed, read, e5) = >>=-ok (read_blob _) _ e4 in
      let (ended, last, e6) = >>=-ok (signature_ends sealed.1) _ e5 in
      open_granted-Genuine code room keys request_id body sealed.0 g e6
