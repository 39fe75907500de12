-- ===== src/Crypto/Announce.antt =====
-- crates/asli-crypto/src/announce.rs: a device's name and system, padded to one size and sealed. A
-- write into the zeroed buffer at the running offset is the concatenation of what is written, and
-- the untouched rest of the buffer is the zero padding.
pub mod Labels
use asli.Prelude.{
  ℕ, zero, suc, ◌+◌, ◌-◌, ◌==◌, ltb, leb, if◌then◌else◌, not, ◌||◌, List, [], ◌∷◌, ◌++◌, Option,
  none, some, length, replicate, drop, get_elem?,
}
use asli.Prelude.Bytes.{to_be, from_be, slice, byte_at}
use asli.Prelude.Utf8.{as_bytes, from_utf8, encode_char}
use asli.Crypto.Error.{
  Result, ok, ◌>>=◌, ◌>>◌, refuse_if, ok_or, rng, inner_malformed, inner_version, announce_field,
  not_utf8,
}
use asli.Crypto.Aead.{Aead}
use asli.Crypto.Clip.{Sealed, seal_typed, open_typed, device_id_len}
use asli.Crypto.Msg.{any_set}

abbrev pub type_announce : ℕ
type_announce = 5

abbrev pub announce_version : ℕ
announce_version = 1

abbrev pub max_field_bytes : ℕ
max_field_bytes = 64

abbrev pub plaintext_len : ℕ
plaintext_len = 256

pub record Announce : Type 0 where
  pub device_id : List ℕ
  pub ts_ms : ℕ
  pub name : List ℕ
  pub os : List ℕ

-- The last boundary of a character that is no further than `max` bytes: the characters, in front,
-- whose bytes fit.
unfoldable pub truncate_utf8 : List ℕ → ℕ → List ℕ
truncate_utf8 [] max = []
truncate_utf8 (c ∷ cs) max =
    let rest = truncate_utf8 cs (max - length (encode_char c)) in
    if leb (length (encode_char c)) max then c ∷ rest else []

unfoldable pub encode : Announce → Result (List ℕ)
encode a = do
  let name = as_bytes a.name
  let os = as_bytes a.os
  refuse_if (ltb 255 (length name) || ltb 255 (length os)) announce_field
  refuse_if (ltb max_field_bytes (length name) || ltb max_field_bytes (length os)) announce_field
  let written =
      announce_version ∷ device_id_len ∷ a.device_id
      ++ (to_be 8 a.ts_ms ++ (length name ∷ name ++ (length os ∷ os)))
  ok (written ++ replicate (plaintext_len - length written) 0)

-- One text with its length in front, and where the next one starts.
unfoldable pub field : List ℕ → ℕ → Result (List ℕ × ℕ)
field buf at = do
  len ← ok_or (get_elem? buf at) inner_malformed
  refuse_if (ltb max_field_bytes len) announce_field
  let start = at + 1
  refuse_if (ltb (length buf) (start + len)) inner_malformed
  text ← ok_or (from_utf8 (slice start len buf)) not_utf8
  ok (text, start + len)

unfoldable pub decode : List ℕ → Result Announce
decode buf = do
  refuse_if (not (length buf == plaintext_len)) inner_malformed
  refuse_if (not (byte_at 0 buf == announce_version)) (inner_version (byte_at 0 buf))
  refuse_if (not (byte_at 1 buf == device_id_len)) inner_malformed
  name ← field buf 26
  os ← field buf name.1
  refuse_if (any_set (drop os.1 buf)) inner_malformed
  ok (record {
    device_id = slice 2 16 buf;
    ts_ms = from_be (slice 18 8 buf);
    name = name.0;
    os = os.0;
  })

module _ (aead : Aead) where
  unfoldable pub seal_with_nonce :
      List ℕ → ℕ → List ℕ → List ℕ → List ℕ → Announce → Result (List ℕ)
  unfolding encode
  seal_with_nonce enc_key epoch room_id msg_id nonce announce = do
    plaintext ← encode announce
    seal_typed aead type_announce enc_key epoch room_id msg_id nonce plaintext

  -- `random` is what the operating system's generator returns, `none` its failure.
  unfoldable pub seal : Option (List ℕ) → List ℕ → ℕ → List ℕ → List ℕ → Announce → Result Sealed
  unfolding seal_with_nonce
  seal random enc_key epoch room_id msg_id announce = do
    nonce ← ok_or random rng
    ciphertext ← seal_with_nonce enc_key epoch room_id msg_id nonce announce
    ok (record { nonce = nonce; ciphertext = ciphertext })

  -- The source's `open`.
  unfoldable pub open_announce : List ℕ → ℕ → List ℕ → List ℕ → List ℕ → List ℕ → Result Announce
  unfolding decode
  open_announce enc_key epoch room_id msg_id nonce ciphertext = do
    plaintext ← open_typed aead type_announce enc_key epoch room_id msg_id nonce ciphertext
    decode plaintext
