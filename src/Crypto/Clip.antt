-- ===== src/Crypto/Clip.antt =====
-- crates/asli-crypto/src/clip.rs: the inner plaintext of a clip, its padding, its associated data
-- and its sealing. A write into the zeroed buffer at the running offset is the concatenation of
-- what is written, and the untouched rest of the buffer is the zero padding.
pub mod Padding
pub mod Layout
pub mod Sealing
pub mod Runs
use asli.Prelude.{
  ℕ, zero, suc, ◌+◌, ◌-◌, ◌*◌, ◌/◌, ◌==◌, ltb, leb, if◌then◌else◌, not, u32_max, List, [], ◌∷◌,
  ◌++◌, Option, none, some, length, replicate,
}
use asli.Prelude.Bytes.{to_be, from_be, slice, byte_at}
use asli.Crypto.Error.{
  Error, Result, ok, err, ◌>>=◌, ◌>>◌, refuse_if, ok_or, rng, seal_failed, open_failed,
  inner_malformed, inner_version, content_type,
}
use asli.Crypto.Aead.{Aead}

abbrev pub protocol_version : ℕ
protocol_version = 1

abbrev pub type_clip : ℕ
type_clip = 1

abbrev pub msg_id_len : ℕ
msg_id_len = 16

abbrev pub device_id_len : ℕ
device_id_len = 16

abbrev pub room_id_len : ℕ
room_id_len = 16

-- "asli/v1/aad"
abbrev pub label_aad : List ℕ
label_aad = b'a' ∷ b's' ∷ b'l' ∷ b'i' ∷ b'/' ∷ b'v' ∷ b'1' ∷ b'/' ∷ b'a' ∷ b'a' ∷ b'd' ∷ []

abbrev pub inner_version_byte : ℕ
inner_version_byte = 1

abbrev pub inner_header_len : ℕ
inner_header_len = 39

pub data ContentType : Type 0 where
  text image_png : ContentType

unfoldable pub code : ContentType → ℕ
code text = 1
code image_png = 2

unfoldable pub from_code : ℕ → Result ContentType
from_code c = if c == 1 then ok text else if c == 2 then ok image_png else err (content_type c)

-- A device id is its 16 bytes.
pub record Inner : Type 0 where
  pub content_type : ContentType
  pub device_id : List ℕ
  pub seq : ℕ
  pub ts_ms : ℕ
  pub content : List ℕ

unfoldable pub build_aad : ℕ → ℕ → ℕ → List ℕ → List ℕ → List ℕ
build_aad version type_code epoch room_id msg_id =
    label_aad
    ++ (version ∷ type_code ∷ to_be 4 epoch ++ (room_id_len ∷ room_id ++ (msg_id_len ∷ msg_id)))

abbrev pub small_max : ℕ
small_max = 65536

-- `while bucket < len { bucket *= 2; }`, for at most so many rounds.
unfoldable pub double_until : ℕ → ℕ → ℕ → ℕ
double_until zero bucket len = bucket
double_until (suc rounds) bucket len =
    let more = double_until rounds (bucket * 2) len in if ltb bucket len then more else bucket

abbrev pub div_ceil : ℕ → ℕ → ℕ
div_ceil a b = (a + (b - 1)) / b

-- Eight doublings lead from 256 to `small_max`.
unfoldable pub padded_len : ℕ → ℕ
unfolding double_until
padded_len len =
    if leb len small_max then double_until 8 256 len else div_ceil len small_max * small_max

-- `u32::try_from(len).unwrap_or(u32::MAX)`
abbrev pub clamp_u32 : ℕ → ℕ
clamp_u32 n = if leb n u32_max then n else u32_max

unfoldable pub inner_header : Inner → List ℕ
inner_header i =
    inner_version_byte ∷ code i.content_type ∷ device_id_len ∷ i.device_id
    ++ (to_be 8 i.seq ++ (to_be 8 i.ts_ms ++ to_be 4 (clamp_u32 (length i.content))))

unfoldable pub encode_inner : Inner → List ℕ
unfolding inner_header
encode_inner i =
    let body_len = inner_header_len + length i.content in
    inner_header i ++ (i.content ++ replicate (padded_len body_len - body_len) 0)

unfoldable pub decode_inner : List ℕ → Result Inner
decode_inner buf = do
  refuse_if (ltb (length buf) inner_header_len) inner_malformed
  refuse_if (not (byte_at 0 buf == inner_version_byte)) (inner_version (byte_at 0 buf))
  kind ← from_code (byte_at 1 buf)
  refuse_if (not (byte_at 2 buf == device_id_len)) inner_malformed
  let content_len = from_be (slice 35 4 buf)
  refuse_if (ltb (length buf) (inner_header_len + content_len)) inner_malformed
  ok (record {
    content_type = kind;
    device_id = slice 3 16 buf;
    seq = from_be (slice 19 8 buf);
    ts_ms = from_be (slice 27 8 buf);
    content = slice 39 content_len buf;
  })

pub record Sealed : Type 0 where
  pub nonce : List ℕ
  pub ciphertext : List ℕ

module _ (aead : Aead) where
  open aead use {encrypt, decrypt}

  unfoldable pub seal_typed : ℕ → List ℕ → ℕ → List ℕ → List ℕ → List ℕ → List ℕ → Result (List ℕ)
  seal_typed type_code enc_key epoch room_id msg_id nonce plaintext =
      ok_or
        (encrypt enc_key nonce (build_aad protocol_version type_code epoch room_id msg_id)
          plaintext)
        seal_failed

  unfoldable pub open_typed : ℕ → List ℕ → ℕ → List ℕ → List ℕ → List ℕ → List ℕ → Result (List ℕ)
  open_typed type_code enc_key epoch room_id msg_id nonce ciphertext =
      ok_or
        (decrypt enc_key nonce (build_aad protocol_version type_code epoch room_id msg_id)
          ciphertext)
        open_failed

  unfoldable pub seal_with_nonce : List ℕ → ℕ → List ℕ → List ℕ → List ℕ → List ℕ → Result (List ℕ)
  seal_with_nonce = seal_typed type_clip

  -- `random` is what the operating system's generator returns, `none` its failure.
  unfoldable pub seal : Option (List ℕ) → List ℕ → ℕ → List ℕ → List ℕ → Inner → Result Sealed
  unfolding seal_with_nonce
  seal random enc_key epoch room_id msg_id inner = do
    nonce ← ok_or random rng
    ciphertext ← seal_with_nonce enc_key epoch room_id msg_id nonce (encode_inner inner)
    ok (record { nonce = nonce; ciphertext = ciphertext })

  -- The source's `open`.
  unfoldable pub open_clip : List ℕ → ℕ → List ℕ → List ℕ → List ℕ → List ℕ → Result Inner
  open_clip enc_key epoch room_id msg_id nonce ciphertext = do
    plaintext ← open_typed type_clip enc_key epoch room_id msg_id nonce ciphertext
    decode_inner plaintext
