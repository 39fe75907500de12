-- ===== src/Crypto/Offer.antt =====
-- crates/asli-crypto/src/file.rs: the offer of a file and its answer, which are signed. The pieces
-- are in Crypto.File.
pub mod Addresses
pub mod Signed
mod Runs
use asli.Prelude.{
  ℕ, ◌+◌, ◌==◌, ltb, not, ◌||◌, if◌then◌else◌, Bool, true, false, max, List, [], ◌∷◌, Option, none,
  some, length,
}
use asli.Prelude.Bytes.{to_be}
use asli.Prelude.Utf8.{as_bytes, from_utf8}
use asli.Crypto.Error.{
  Result, ok, err, ◌>>=◌, ◌>>◌, refuse_if, ok_or, inner_malformed, announce_field, not_utf8,
}
use asli.Crypto.Primitives.{Primitives}
use asli.Crypto.Device.{DeviceKeys, seal_box, open_box}
use asli.Crypto.Clip.{div_ceil}
use asli.Crypto.File.{chunk_bytes_max, offer_id_len}
use asli.Crypto.Signing.{sign, verify}
use asli.Crypto.About.{unsigned, bool_from}
use asli.Crypto.Token.{key_len}
use asli.Crypto.Fields.{
  Reader, reader, write_bytes, write_u8, write_u64, write_text, write_texts, write_blob, read_bytes,
  read_u8, read_be, read_text, read_texts, read_blob, done, version,
}

abbrev pub hash_len : ℕ
hash_len = 32

abbrev pub max_name_bytes : ℕ
max_name_bytes = 255

abbrev pub max_direct_addrs : ℕ
max_direct_addrs = 4

-- "asli/v2/file-offer"
abbrev pub label_offer : List ℕ
label_offer =
    b'a' ∷ b's' ∷ b'l' ∷ b'i' ∷ b'/' ∷ b'v' ∷ b'2' ∷ b'/' ∷ b'f' ∷ b'i' ∷ b'l' ∷ b'e' ∷ b'-' ∷ b'o'
    ∷ b'f' ∷ b'f' ∷ b'e' ∷ b'r' ∷ []

-- "asli/v2/file-direct-key"
abbrev pub label_direct_key : List ℕ
label_direct_key =
    b'a' ∷ b's' ∷ b'l' ∷ b'i' ∷ b'/' ∷ b'v' ∷ b'2' ∷ b'/' ∷ b'f' ∷ b'i' ∷ b'l' ∷ b'e' ∷ b'-' ∷ b'd'
    ∷ b'i' ∷ b'r' ∷ b'e' ∷ b'c' ∷ b't' ∷ b'-' ∷ b'k' ∷ b'e' ∷ b'y' ∷ []

-- "asli/v2/file-answer"
abbrev pub label_answer : List ℕ
label_answer =
    b'a' ∷ b's' ∷ b'l' ∷ b'i' ∷ b'/' ∷ b'v' ∷ b'2' ∷ b'/' ∷ b'f' ∷ b'i' ∷ b'l' ∷ b'e' ∷ b'-' ∷ b'a'
    ∷ b'n' ∷ b's' ∷ b'w' ∷ b'e' ∷ b'r' ∷ []

pub record Direct : Type 0 where
  pub addrs : List (List ℕ)
  pub sealed_key : List ℕ

pub record Offer : Type 0 where
  pub offer_id : List ℕ
  pub from_device_id : List ℕ
  pub to_device_id : List ℕ
  pub size : ℕ
  pub sha256 : List ℕ
  pub chunk_bytes : ℕ
  pub ts_ms : ℕ
  pub reply_to : List ℕ
  pub name : List ℕ
  pub direct : Option Direct

pub record Answer : Type 0 where
  pub offer_id : List ℕ
  pub from_device_id : List ℕ
  pub accepted : Bool
  pub reply_to : List ℕ

unfoldable pub chunk_count : Offer → ℕ
chunk_count o = if o.chunk_bytes == 0 then 0 else max (div_ceil o.size o.chunk_bytes) 1

-- No addresses, or too many.
abbrev pub is_wrong_count : ℕ → Bool
is_wrong_count n = n == 0 || ltb max_direct_addrs n

unfoldable pub write_direct : List ℕ → Option Direct → Result (List ℕ)
unfolding write_texts write_blob
write_direct out none = ok (write_u8 out 0)
write_direct out (some d) = do
  refuse_if (is_wrong_count (length d.addrs)) announce_field
  with_addrs ← write_texts (write_u8 out (length d.addrs)) d.addrs
  write_blob with_addrs d.sealed_key

-- What follows a count that is not zero.
unfoldable pub read_addrs : ℕ → Reader → Result (Option Direct × Reader)
read_addrs count r = do
  addrs ← read_texts count r
  sealed ← read_blob addrs.1
  ok (some (record { addrs = addrs.0; sealed_key = sealed.0 }), sealed.1)

unfoldable pub read_direct : Reader → Result (Option Direct × Reader)
unfolding read_addrs
read_direct r = do
  count ← read_u8 r
  refuse_if (ltb max_direct_addrs count.0) announce_field
  (if count.0 == 0 then ok (none, count.1) else read_addrs count.0 count.1)

-- `claimed_sender`, which the offer and the answer have alike.
unfoldable pub claimed_by : List ℕ → Result (List ℕ)
claimed_by body = do
  r ← version (reader body)
  offer_id ← read_bytes r offer_id_len
  sender ← read_bytes offer_id.1 16
  ok sender.0

module _ (crypto : Primitives) where
  -- `Direct::new`; the two draws of the generator are those of `seal_box`.
  unfoldable pub new_direct :
      Option (List ℕ) → Option (List ℕ) → List (List ℕ) → List ℕ → List ℕ → Result Direct
  new_direct secret_random nonce_random addrs to_box_pub key = do
    refuse_if (is_wrong_count (length addrs)) announce_field
    sealed ← seal_box crypto secret_random nonce_random to_box_pub label_direct_key key
    ok (record { addrs = addrs; sealed_key = sealed })

  unfoldable pub open_key : Direct → DeviceKeys → Result (List ℕ)
  open_key d keys = do
    opened ← open_box crypto keys label_direct_key d.sealed_key
    refuse_if (not (length opened == key_len)) inner_malformed
    ok opened

  unfoldable pub encode_offer : Offer → DeviceKeys → List ℕ → Result (List ℕ)
  unfolding write_direct
  encode_offer o keys room = do
    refuse_if (ltb 65535 (length (as_bytes o.name))) announce_field
    refuse_if (ltb max_name_bytes (length (as_bytes o.name))) announce_field
    let ids = write_bytes (write_bytes (write_u8 [] 1) o.offer_id) o.from_device_id
    let hash = write_bytes (write_u64 (write_bytes ids o.to_device_id) o.size) o.sha256
    with_reply ←
        write_text (write_u64 (write_bytes hash (to_be 4 o.chunk_bytes)) o.ts_ms) o.reply_to
    let with_len = write_bytes with_reply (to_be 2 (length (as_bytes o.name)))
    body ← write_direct (write_bytes with_len (as_bytes o.name)) o.direct
    ok (sign crypto keys label_offer room body)

  unfoldable pub decode_offer : List ℕ → List ℕ → List ℕ → Result Offer
  unfolding read_direct
  decode_offer body room sign_pub = do
    verify crypto label_offer room body sign_pub
    r ← version (reader (unsigned body))
    offer_id ← read_bytes r offer_id_len
    from_device_id ← read_bytes offer_id.1 16
    to_device_id ← read_bytes from_device_id.1 16
    size ← read_be 8 to_device_id.1
    sha256 ← read_bytes size.1 hash_len
    chunk_bytes ← read_be 4 sha256.1
    ts_ms ← read_be 8 chunk_bytes.1
    reply_to ← read_text ts_ms.1
    name_len ← read_be 2 reply_to.1
    refuse_if (ltb max_name_bytes name_len.0) announce_field
    bytes ← read_bytes name_len.1 name_len.0
    name ← ok_or (from_utf8 bytes.0) not_utf8
    direct ← read_direct bytes.1
    done direct.1
    refuse_if (chunk_bytes.0 == 0 || ltb chunk_bytes_max chunk_bytes.0) inner_malformed
    ok (record {
      offer_id = offer_id.0;
      from_device_id = from_device_id.0;
      to_device_id = to_device_id.0;
      size = size.0;
      sha256 = sha256.0;
      chunk_bytes = chunk_bytes.0;
      ts_ms = ts_ms.0;
      reply_to = reply_to.0;
      name = name;
      direct = direct.0;
    })

  unfoldable pub encode_answer : Answer → DeviceKeys → List ℕ → Result (List ℕ)
  encode_answer a keys room = do
    let ids = write_bytes (write_bytes (write_u8 [] 1) a.offer_id) a.from_device_id
    body ← write_text (write_u8 ids (if a.accepted then 1 else 0)) a.reply_to
    ok (sign crypto keys label_answer room body)

  unfoldable pub decode_answer : List ℕ → List ℕ → List ℕ → Result Answer
  decode_answer body room sign_pub = do
    verify crypto label_answer room body sign_pub
    r ← version (reader (unsigned body))
    offer_id ← read_bytes r offer_id_len
    from_device_id ← read_bytes offer_id.1 16
    code ← read_u8 from_device_id.1
    accepted ← bool_from code.0
    reply_to ← read_text code.1
    done reply_to.1
    ok (record {
      offer_id = offer_id.0;
      from_device_id = from_device_id.0;
      accepted = accepted;
      reply_to = reply_to.0;
    })
