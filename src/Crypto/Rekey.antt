-- ===== src/Crypto/Rekey.antt =====
-- crates/asli-crypto/src/rekey.rs: a new account key for the devices that stay, sealed to each and
-- signed by the device that made it.
use asli.Prelude.{
  ℕ, zero, suc, ◌+◌, ◌-◌, ◌==◌, ltb, if◌then◌else◌, not, ◌||◌, List, [], ◌∷◌, ◌++◌, Option, none,
  some, length, take, drop,
}
use asli.Prelude.Bytes.{same_bytes, byte_at}
use asli.Crypto.Error.{Result, ok, ◌>>=◌, ◌>>◌, refuse_if, inner_malformed, inner_version}
use asli.Crypto.Auth.{verify_signature}
use asli.Crypto.Primitives.{Primitives}
use asli.Crypto.Device.{DeviceKeys, sign, seal_box, open_box}
use asli.Crypto.Card.{signature_len}
use asli.Crypto.Fields.{
  Reader, reader, write_bytes, write_u8, write_u64, write_blob, read_bytes, read_u8, read_be,
  read_blob, done,
}

-- "asli/v2/rekey"
abbrev pub label_rekey : List ℕ
label_rekey =
    b'a' ∷ b's' ∷ b'l' ∷ b'i' ∷ b'/' ∷ b'v' ∷ b'2' ∷ b'/' ∷ b'r' ∷ b'e' ∷ b'k' ∷ b'e' ∷ b'y' ∷ []

abbrev pub max_recipients : ℕ
max_recipients = 64

pub record Recipient : Type 0 where
  pub device_id : List ℕ
  pub box_pub : List ℕ

pub record Rekeyed : Type 0 where
  pub from_device_id : List ℕ
  pub ts_ms : ℕ
  pub secret : List ℕ
  pub recipients : List (List ℕ)

unfoldable pub sender : List ℕ → Result (List ℕ)
sender body = do
  version ← read_u8 (reader body)
  refuse_if (not (version.0 == 1)) (inner_version version.0)
  from ← read_bytes version.1 16
  ok from.0

-- The loop over the entries: the ids it has read, the last entry for `device_id`, and the reader.
unfoldable pub read_entries :
    ℕ → List ℕ → Option (List ℕ) → Reader → Result (List (List ℕ) × Option (List ℕ) × Reader)
read_entries zero device_id mine r = ok ([], mine, r)
read_entries (suc count) device_id mine r = do
  to ← read_bytes r 16
  sealed ← read_blob to.1
  rest ←
      read_entries count device_id (if same_bytes to.0 device_id then some sealed.0 else mine)
        sealed.1
  ok (to.0 ∷ rest.0, rest.1, rest.2)

module _ (crypto : Primitives) where
  -- The loop over the recipients. `random idx` holds the two draws of round `idx`.
  unfoldable pub seal_entries :
      (ℕ → Option (List ℕ) × Option (List ℕ))
      → ℕ
      → List ℕ
      → List ℕ
      → List Recipient
      → Result (List ℕ)
  seal_entries random idx inner body [] = ok body
  seal_entries random idx inner body (recipient ∷ rest) = do
    sealed ← seal_box crypto (random idx).0 (random idx).1 recipient.box_pub label_rekey inner
    next ← write_blob (write_bytes body recipient.device_id) sealed
    seal_entries random (idx + 1) inner next rest

  unfoldable pub bundle :
      (ℕ → Option (List ℕ) × Option (List ℕ))
      → DeviceKeys
      → List ℕ
      → List ℕ
      → ℕ
      → List Recipient
      → List ℕ
      → Result (List ℕ)
  unfolding seal_entries
  bundle random from from_device_id old_room ts_ms recipients new_secret = do
    refuse_if (ltb 255 (length recipients)) inner_malformed
    refuse_if (ltb max_recipients (length recipients)) inner_malformed
    let head = write_u64 (write_bytes (write_u8 [] 1) from_device_id) ts_ms
    body ← seal_entries random 0 (1 ∷ new_secret) (write_u8 head (length recipients)) recipients
    ok (write_bytes body (sign crypto from (label_rekey ++ (old_room ++ body))))

  -- The entry for this device, opened.
  unfoldable pub open_entry : DeviceKeys → List ℕ → Result (List ℕ)
  open_entry keys sealed = do
    inner ← open_box crypto keys label_rekey sealed
    refuse_if (not (length inner == 33) || not (byte_at 0 inner == 1)) inner_malformed
    ok (drop 1 inner)

  -- The source's `open`.
  unfoldable pub open_rekey :
      DeviceKeys → List ℕ → List ℕ → List ℕ → List ℕ → Result (Option Rekeyed)
  unfolding read_entries open_entry
  open_rekey keys device_id old_room from_sign_pub body = do
    refuse_if (ltb (length body) signature_len) inner_malformed
    let split = length body - signature_len
    let covered = take split body
    verify_signature crypto.sha crypto.ed from_sign_pub (label_rekey ++ (old_room ++ covered))
        (drop split body)
    version ← read_u8 (reader covered)
    refuse_if (not (version.0 == 1)) (inner_version (byte_at 0 body))
    from ← read_bytes version.1 16
    ts_ms ← read_be 8 from.1
    count ← read_u8 ts_ms.1
    entries ← read_entries count.0 device_id none count.1
    done entries.2
    elim entries.1 [
      | none ↦ ok none
      | some sealed ↦ do
        secret ← open_entry keys sealed
        ok (
            some (record {
              from_device_id = from.0;
              ts_ms = ts_ms.0;
              secret = secret;
              recipients = entries.0;
            }))
    ]
