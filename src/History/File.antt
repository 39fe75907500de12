-- ===== src/History/File.antt =====
-- crates/asli-history/src: the key of the file (key.rs) and the records of the file (lib.rs). Reading
-- goes through what is left of the file, in rounds of one record.
use asli.Prelude.{
  ℕ, zero, suc, ◌+◌, ◌≡◌, ◌==◌, ltb, if◌then◌else◌, not, ◌||◌, List, [], ◌∷◌, ◌++◌, Option, none,
  some, length, take, drop, u32_max,
}
use asli.Prelude.Bytes.{to_be, from_be, slice, byte_at, same_bytes}
use asli.Prelude.Utf8.{from_utf8}
use asli.Prelude.Results.{done, failed, ◌>>=◌, ◌>>◌, fail_if}
use asli.Crypto.Error as CryptoError
use asli.Crypto.Primitives.{Primitives}
use asli.Crypto.Identity.{label_root_salt}
use asli.Crypto.Clip.{ContentType, Inner, text, image_png, seal, open_clip}
use asli.History.{
  Error, Result, Content, Entry, malformed, crypto_failed, unsupported_version, content_bytes,
}
use asli.History as History

-- "ASLIHIST"
abbrev pub magic : List ℕ
magic = b'A' ∷ b'S' ∷ b'L' ∷ b'I' ∷ b'H' ∷ b'I' ∷ b'S' ∷ b'T' ∷ []

abbrev pub format_version : ℕ
format_version = 1

abbrev pub header_len : ℕ
header_len = 9

abbrev pub id_len : ℕ
id_len = 16

abbrev pub nonce_len : ℕ
nonce_len = 24

abbrev pub max_record_bytes : ℕ
max_record_bytes = 67108864

abbrev pub min_record_bytes : ℕ
min_record_bytes = 56

-- "asli/history/v1" and a zero byte
abbrev pub room : List ℕ
room =
    b'a' ∷ b's' ∷ b'l' ∷ b'i' ∷ b'/' ∷ b'h' ∷ b'i' ∷ b's' ∷ b't' ∷ b'o' ∷ b'r' ∷ b'y' ∷ b'/' ∷ b'v'
    ∷ b'1' ∷ 0 ∷ []

-- "asli/v1/history"
abbrev pub label_history : List ℕ
label_history =
    b'a' ∷ b's' ∷ b'l' ∷ b'i' ∷ b'/' ∷ b'v' ∷ b'1' ∷ b'/' ∷ b'h' ∷ b'i' ∷ b's' ∷ b't' ∷ b'o' ∷ b'r'
    ∷ b'y' ∷ []

unfoldable pub content_type : Content → ContentType
content_type (History.text t) = text
content_type (History.image_png bytes) = image_png

unfoldable pub from_parts : ContentType → List ℕ → Result Content
from_parts text bytes = elim (from_utf8 bytes) [
  | none ↦ failed malformed
  | some t ↦ done (History.text t)
]
from_parts image_png bytes = done (History.image_png bytes)

-- `?` on a result of crates/asli-crypto.
abbrev pub from_crypto {ℓ} : {A : Type ℓ} → CryptoError.Result A → Result A
from_crypto (CryptoError.ok value) = done value
from_crypto (CryptoError.err failure) = failed (crypto_failed failure)

pub from_crypto-done {ℓ} :
    {V : Type ℓ} (got : CryptoError.Result V) {v : V}
    → from_crypto got ≡ done v
    → got ≡ CryptoError.ok v
from_crypto-done (CryptoError.ok v) e = cc
from_crypto-done (CryptoError.err failure) e = cc

unfoldable pub inner_of : Entry → Inner
unfolding content_type
inner_of e = record {
  content_type = content_type e.content;
  device_id = e.device_id;
  seq = 0;
  ts_ms = e.ts_ms;
  content = content_bytes e.content;
}

unfoldable pub entry_of : List ℕ → Inner → Result Entry
unfolding from_parts
entry_of id i = do
  content ← from_parts i.content_type i.content
  done (record { id = id; ts_ms = i.ts_ms; content = content; device_id = i.device_id })

module _ (crypto : Primitives) where
  unfoldable pub derive : List ℕ → List ℕ
  derive secret = crypto.hkdf.expand (crypto.hkdf.extract label_root_salt secret) label_history

  -- A record with its length in front. `random` is what the generator returns for the nonce.
  unfoldable pub record_of : List ℕ → Option (List ℕ) → Entry → Result (List ℕ)
  unfolding inner_of
  record_of key random e = do
    sealed ← from_crypto (seal crypto.aead random key 0 room e.id (inner_of e))
    let size = id_len + (nonce_len + length sealed.ciphertext)
    fail_if (ltb u32_max size) malformed
    done (to_be 4 size ++ (e.id ++ (sealed.nonce ++ sealed.ciphertext)))

  -- The loop of `persist`; the generator returns `nonces idx` in round `idx`.
  unfoldable pub records_of : List ℕ → (ℕ → Option (List ℕ)) → ℕ → List Entry → Result (List ℕ)
  unfolding record_of
  records_of key nonces idx [] = done []
  records_of key nonces idx (e ∷ es) = do
    first ← record_of key (nonces idx) e
    rest ← records_of key nonces (idx + 1) es
    done (first ++ rest)

  -- What `persist` writes.
  unfoldable pub file_of : List ℕ → (ℕ → Option (List ℕ)) → List Entry → Result (List ℕ)
  unfolding records_of
  file_of key nonces es = do
    records ← records_of key nonces 0 es
    done (magic ++ (format_version ∷ records))

  -- A record of the right length.
  unfoldable pub open_record : List ℕ → List ℕ → Result Entry
  unfolding entry_of
  open_record key bytes = do
    inner ←
        from_crypto
          (open_clip crypto.aead key 0 room (take 16 bytes) (slice 16 24 bytes) (drop 40 bytes))
    entry_of (take 16 bytes) inner

  -- The loop of `decode_all`, from here to the end of the file.
  unfoldable pub decode_records : ℕ → List ℕ → List ℕ → Result (List Entry)
  unfolding open_record
  decode_records zero key rest = done []
  decode_records (suc rounds) key rest =
      let len = from_be (take 4 rest) in
      let body = drop 4 rest in
      let later = decode_records rounds key (drop len body) in
      if ltb (length rest) 4
      then done []
      else if ltb len min_record_bytes || ltb max_record_bytes len
      then failed malformed
      else if ltb (length body) len
      then done []
      else (do e ← open_record key (take len body); es ← later; done (e ∷ es))

  -- A round for each byte is more than enough.
  unfoldable pub decode_all : List ℕ → List ℕ → Result (List Entry)
  unfolding decode_records
  decode_all raw key = if length raw == 0 then done [] else (do
    fail_if (ltb (length raw) header_len || not (same_bytes (take 8 raw) magic)) malformed
    fail_if (not (byte_at 8 raw == format_version)) (unsupported_version (byte_at 8 raw))
    decode_records (length raw) key (drop 9 raw))
