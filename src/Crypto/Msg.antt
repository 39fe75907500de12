-- ===== src/Crypto/Msg.antt =====
-- crates/asli-crypto/src/msg.rs: the kinds of device messages, their framing and sealing. The
-- source's `usize` has 64 bits, so that six and a length of 32 bits do not overflow it.
pub mod Framing
pub mod Runs
use asli.Prelude.{
  ℕ, ◌+◌, ◌-◌, ◌*◌, ◌/◌, ◌%◌, ◌==◌, ltb, leb, if◌then◌else◌, Bool, true, false, not, ◌&&◌, ◌||◌,
  u32_max, List, [], ◌∷◌, ◌++◌, Option, none, some, length, take, drop, replicate,
}
use asli.Prelude.Bytes.{to_be, from_be, slice, byte_at}
use asli.Crypto.Error.{
  Result, ok, err, ◌>>=◌, ◌>>◌, refuse_if, ok_or, rng, inner_malformed, inner_version,
  announce_field, not_utf8,
}
use asli.Crypto.Aead.{Aead}
use asli.Crypto.Clip.{Sealed, div_ceil, seal_typed, open_typed}

abbrev pub type_msg : ℕ
type_msg = 6

abbrev pub msg_version : ℕ
msg_version = 1

abbrev pub pad_to : ℕ
pad_to = 256

pub data Kind : Type 0 where
  card join_request join_grant join_decline rekey join_where about leave : Kind
  file_offer file_answer file_chunk file_ack file_cancel : Kind
  other : ℕ → Kind

unfoldable pub code : Kind → ℕ
code card = 1
code join_request = 2
code join_grant = 3
code join_decline = 4
code rekey = 5
code join_where = 6
code about = 7
code leave = 8
code file_offer = 16
code file_answer = 17
code file_chunk = 18
code file_ack = 19
code file_cancel = 20
code (other c) = c

unfoldable pub from_code : ℕ → Kind
from_code c =
    if c == 1
    then card
    else if c == 2
    then join_request
    else if c == 3
    then join_grant
    else if c == 4
    then join_decline
    else if c == 5
    then rekey
    else if c == 6
    then join_where
    else if c == 7
    then about
    else if c == 8
    then leave
    else if c == 16
    then file_offer
    else if c == 17
    then file_answer
    else if c == 18
    then file_chunk
    else if c == 19
    then file_ack
    else if c == 20
    then file_cancel
    else other c

-- The plaintext of `seal`.
unfoldable pub frame : Kind → List ℕ → List ℕ
unfolding code
frame kind body =
    let used = 2 + 4 + length body in
    msg_version ∷ code kind ∷ to_be 4 (length body)
    ++ (body ++ replicate (div_ceil used pad_to * pad_to - used) 0)

unfoldable pub any_set : List ℕ → Bool
any_set [] = false
any_set (b ∷ bs) = not (b == 0) || any_set bs

-- What `open` does with the plaintext.
unfoldable pub unframe : List ℕ → Result (Kind × List ℕ)
unframe plaintext = do
  refuse_if (ltb (length plaintext) 6 || not (length plaintext % pad_to == 0)) inner_malformed
  refuse_if (not (byte_at 0 plaintext == msg_version)) (inner_version (byte_at 0 plaintext))
  let kind = from_code (byte_at 1 plaintext)
  let len = from_be (slice 2 4 plaintext)
  let end = 6 + len
  refuse_if (ltb (length plaintext) end) inner_malformed
  refuse_if (any_set (drop end plaintext)) inner_malformed
  ok (kind, slice 6 len plaintext)

module _ (aead : Aead) where
  -- `random` is what the operating system's generator returns, `none` its failure.
  unfoldable pub seal :
      Option (List ℕ) → List ℕ → ℕ → List ℕ → List ℕ → Kind → List ℕ → Result Sealed
  unfolding frame
  seal random enc_key epoch room_id msg_id kind body = do
    refuse_if (ltb u32_max (length body)) inner_malformed
    nonce ← ok_or random rng
    ciphertext ← seal_typed aead type_msg enc_key epoch room_id msg_id nonce (frame kind body)
    ok (record { nonce = nonce; ciphertext = ciphertext })

  -- The source's `open`.
  unfoldable pub open_msg : List ℕ → ℕ → List ℕ → List ℕ → List ℕ → List ℕ → Result (Kind × List ℕ)
  unfolding unframe
  open_msg enc_key epoch room_id msg_id nonce ciphertext = do
    plaintext ← open_typed aead type_msg enc_key epoch room_id msg_id nonce ciphertext
    unframe plaintext
