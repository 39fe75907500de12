-- ===== src/Crypto/Enroll/Messages.antt =====
-- crates/asli-crypto/src/enroll.rs: the messages of a join: the request, the grant, the refusal and
-- the addresses of the approving device.
use asli.Prelude.{
  ℕ, ◌+◌, ◌==◌, ltb, not, ◌||◌, ◌&&◌, Bool, false, if◌then◌else◌, List, [], ◌∷◌, ◌++◌, Option,
  length,
}
use asli.Prelude.Bytes.{same_bytes, byte_at, slice}
use asli.Crypto.Error.{
  Result, ok, err, ◌>>=◌, ◌>>◌, refuse_if, inner_malformed, bad_public_key, bad_signature,
  announce_field,
}
use asli.Crypto.Token.{key_len}
use asli.Crypto.Primitives.{Primitives}
use asli.Crypto.Device.{DeviceKeys, sign_pub, box_pub, open_box, seal_box}
use asli.Crypto.Card.{signature_len}
use asli.Crypto.Signing.{sign, verify}
use asli.Crypto.Fields.{
  Reader, reader, write_bytes, write_u8, write_u64, write_text, write_blob, read_bytes, read_be,
  read_text, read_blob, done, version, write_texts, read_texts, read_u8,
}
use asli.Crypto.Enroll.{
  JoinCode, JoinRequest, Granted, label_request, label_grant, label_decline, request_id_len,
  made_by,
}

abbrev pub max_where_addrs : ℕ
max_where_addrs = 4

unfoldable pub where_body : List (List ℕ) → Result (List ℕ)
where_body addrs = do
  refuse_if (length addrs == 0 || ltb max_where_addrs (length addrs)) announce_field
  write_texts (write_u8 (write_u8 [] 1) (length addrs)) addrs

unfoldable pub read_where : List ℕ → Result (List (List ℕ))
read_where body = do
  r ← version (reader body)
  count ← read_u8 r
  refuse_if (count.0 == 0 || ltb max_where_addrs count.0) announce_field
  addrs ← read_texts count.0 count.1
  done addrs.1
  ok addrs.0

-- `u8::from` of a `bool`.
abbrev pub flag : Bool → ℕ
flag b = if b then 1 else 0

-- `signature_ends`
unfoldable pub signature_ends : Reader → Result (Unit {0})
signature_ends r = do signature ← read_bytes r signature_len; done signature.1

module _ (crypto : Primitives) where
  unfoldable pub encode_request : JoinRequest → DeviceKeys → List ℕ → Result (List ℕ)
  encode_request q keys meeting_room = do
    refuse_if
        (not (same_bytes (sign_pub crypto keys) q.sign_pub)
          || not (same_bytes (box_pub crypto keys) q.box_pub))
        bad_public_key
    let ids = write_bytes (write_bytes (write_u8 [] 1) q.request_id) q.device_id
    let fixed = write_u64 (write_bytes (write_bytes ids q.sign_pub) q.box_pub) q.ts_ms
    with_name ← write_text fixed q.name
    body ← write_text with_name q.os
    ok (sign crypto keys label_request meeting_room body)

  unfoldable pub decode_request : List ℕ → List ℕ → Result JoinRequest
  unfolding signature_ends
  decode_request body meeting_room = do
    r ← version (reader body)
    request_id ← read_bytes r request_id_len
    device_id ← read_bytes request_id.1 16
    sign_pub ← read_bytes device_id.1 32
    box_pub ← read_bytes sign_pub.1 32
    ts_ms ← read_be 8 box_pub.1
    name ← read_text ts_ms.1
    os ← read_text name.1
    signature_ends os.1
    verify crypto label_request meeting_room body sign_pub.0
    ok (record {
      request_id = request_id.0;
      device_id = device_id.0;
      sign_pub = sign_pub.0;
      box_pub = box_pub.0;
      ts_ms = ts_ms.0;
      name = name.0;
      os = os.0;
    })

  -- The two draws of the generator are those of `seal_box`.
  unfoldable pub grant :
      Option (List ℕ)
      → Option (List ℕ)
      → DeviceKeys
      → List ℕ
      → JoinRequest
      → List ℕ
      → Bool
      → Result (List ℕ)
  grant secret_random nonce_random approver meeting_room q account_secret never_exported = do
    let inner = 1 ∷ account_secret ++ (flag never_exported ∷ [])
    sealed ← seal_box crypto secret_random nonce_random q.box_pub label_grant inner
    let ids = write_bytes (write_bytes (write_u8 [] 1) q.request_id) q.sign_pub
    body ← write_blob (write_bytes ids (sign_pub crypto approver)) sealed
    ok (sign crypto approver label_grant meeting_room body)

  -- `open_grant` after the reading of its fields.
  unfoldable pub open_granted :
      JoinCode
      → List ℕ
      → DeviceKeys
      → List ℕ
      → List ℕ
      → List ℕ
      → List ℕ
      → List ℕ
      → List ℕ
      → Result Granted
  unfolding made_by
  open_granted code meeting_room keys request_id body for_request for_key approver sealed = do
    refuse_if
        (not (made_by crypto code approver)
          || (not (same_bytes for_request request_id)
              || not (same_bytes for_key (sign_pub crypto keys))))
        bad_signature
    verify crypto label_grant meeting_room body approver
    inner ← open_box crypto keys label_grant sealed
    refuse_if
        (not (length inner == 2 + key_len)
          || (not (byte_at 0 inner == 1) || ltb 1 (byte_at 33 inner)))
        inner_malformed
    ok (record { secret = slice 1 32 inner; never_exported = byte_at 33 inner == 1 })

  unfoldable pub open_grant : JoinCode → List ℕ → DeviceKeys → List ℕ → List ℕ → Result Granted
  unfolding open_granted signature_ends
  open_grant code meeting_room keys request_id body = do
    r ← version (reader body)
    for_request ← read_bytes r request_id_len
    for_key ← read_bytes for_request.1 32
    approver ← read_bytes for_key.1 32
    sealed ← read_blob approver.1
    signature_ends sealed.1
    open_granted code meeting_room keys request_id body for_request.0 for_key.0 approver.0 sealed.0

  unfoldable pub decline : DeviceKeys → List ℕ → List ℕ → List ℕ
  decline approver meeting_room request_id =
      let body = write_bytes (write_u8 [] 1) request_id in
      sign crypto approver label_decline meeting_room (write_bytes body (sign_pub crypto approver))

  -- The closure of `is_decline_for`.
  unfoldable pub check_decline : JoinCode → List ℕ → List ℕ → List ℕ → Result Bool
  unfolding signature_ends made_by
  check_decline code meeting_room request_id body = do
    r ← version (reader body)
    for_request ← read_bytes r request_id_len
    approver ← read_bytes for_request.1 32
    signature_ends approver.1
    verify crypto label_decline meeting_room body approver.0
    ok (made_by crypto code approver.0 && same_bytes for_request.0 request_id)

  unfoldable pub is_decline_for : JoinCode → List ℕ → List ℕ → List ℕ → Bool
  unfolding check_decline
  is_decline_for code meeting_room request_id body =
      elim (check_decline code meeting_room request_id body) [
        | ok genuine ↦ genuine
        | err failure ↦ false
      ]
