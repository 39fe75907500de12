-- ===== src/Crypto/Card.antt =====
-- crates/asli-crypto/src/msg.rs: the signature that ends a body, and a device's signed card.
pub mod Signed
use asli.Prelude.{ℕ, ◌-◌, ◌==◌, ltb, not, ◌||◌, List, [], ◌∷◌, ◌++◌, length, take, drop}
use asli.Prelude.Bytes.{same_bytes, byte_at}
use asli.Crypto.Error.{
  Result, ok, ◌>>=◌, ◌>>◌, refuse_if, inner_malformed, inner_version, bad_public_key,
}
use asli.Crypto.Auth.{verify_signature}
use asli.Crypto.Primitives.{Primitives}
use asli.Crypto.Device.{DeviceKeys, sign, sign_pub, box_pub}
use asli.Crypto.Fields.{
  reader, write_bytes, write_u8, write_u64, write_text, read_bytes, read_u8, read_be, read_text,
  done,
}

abbrev pub signature_len : ℕ
signature_len = 64

-- "asli/v2/card"
abbrev pub label_card : List ℕ
label_card = b'a' ∷ b's' ∷ b'l' ∷ b'i' ∷ b'/' ∷ b'v' ∷ b'2' ∷ b'/' ∷ b'c' ∷ b'a' ∷ b'r' ∷ b'd' ∷ []

unfoldable pub signed_bytes : List ℕ → List ℕ → List ℕ → List ℕ
signed_bytes label room_id body = label ++ (room_id ++ body)

pub record Card : Type 0 where
  pub device_id : List ℕ
  pub sign_pub : List ℕ
  pub box_pub : List ℕ
  pub ts_ms : ℕ
  pub conn_id : List ℕ
  pub name : List ℕ
  pub os : List ℕ

module _ (crypto : Primitives) where
  unfoldable pub sign_into : DeviceKeys → List ℕ → List ℕ → List ℕ → List ℕ
  unfolding signed_bytes
  sign_into keys label room_id body =
      write_bytes body (sign crypto keys (signed_bytes label room_id body))

  unfoldable pub verify_tail : List ℕ → List ℕ → List ℕ → List ℕ → Result (List ℕ)
  unfolding signed_bytes
  verify_tail label room_id body sign_pub = do
    refuse_if (ltb (length body) signature_len) inner_malformed
    let split = length body - signature_len
    let covered = take split body
    verify_signature crypto.sha crypto.ed sign_pub (signed_bytes label room_id covered)
        (drop split body)
    ok covered

  unfoldable pub encode : Card → DeviceKeys → List ℕ → Result (List ℕ)
  unfolding sign_into
  encode card keys room_id = do
    refuse_if
        (not (same_bytes (sign_pub crypto keys) card.sign_pub)
          || not (same_bytes (box_pub crypto keys) card.box_pub))
        bad_public_key
    let ids = write_bytes (write_bytes (write_u8 [] 1) card.device_id) card.sign_pub
    let fixed = write_u64 (write_bytes ids card.box_pub) card.ts_ms
    with_conn ← write_text fixed card.conn_id
    with_name ← write_text with_conn card.name
    body ← write_text with_name card.os
    ok (sign_into keys label_card room_id body)

  unfoldable pub decode : List ℕ → List ℕ → Result Card
  unfolding verify_tail
  decode body room_id = do
    version ← read_u8 (reader body)
    refuse_if (not (version.0 == 1)) (inner_version (byte_at 0 body))
    device_id ← read_bytes version.1 16
    sign_pub ← read_bytes device_id.1 32
    box_pub ← read_bytes sign_pub.1 32
    ts_ms ← read_be 8 box_pub.1
    conn_id ← read_text ts_ms.1
    name ← read_text conn_id.1
    os ← read_text name.1
    signature ← read_bytes os.1 signature_len
    done signature.1
    covered ← verify_tail label_card room_id body sign_pub.0
    ok (record {
      device_id = device_id.0;
      sign_pub = sign_pub.0;
      box_pub = box_pub.0;
      ts_ms = ts_ms.0;
      conn_id = conn_id.0;
      name = name.0;
      os = os.0;
    })
