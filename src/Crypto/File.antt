-- ===== src/Crypto/File.antt =====
-- crates/asli-crypto/src/file.rs: the pieces of a file, their acknowledgements and the
-- cancellation. The offer and the answer, which are signed, are in Crypto.Offer.
pub mod Codecs
pub mod Runs
use asli.Prelude.{ℕ, ◌+◌, ◌==◌, ltb, leb, if◌then◌else◌, List, [], ◌∷◌, ◌++◌, length}
use asli.Prelude.Bytes.{to_be}
use asli.Crypto.Error.{Result, ok, err, ◌>>=◌, ◌>>◌, refuse_if, chunk_too_large, inner_malformed}
use asli.Crypto.Fields.{
  write_bytes, write_u8, Reader, reader, read_bytes, read_u8, read_be, done, version,
}

abbrev pub offer_id_len : ℕ
offer_id_len = 16

abbrev pub chunk_bytes_max : ℕ
chunk_bytes_max = 262144

-- The source's `Chunk`, its `data` here `content`.
pub record FileChunk : Type 0 where
  pub offer_id : List ℕ
  pub index : ℕ
  pub content : List ℕ

-- A length that does not fit a u32 is above the limit too, and gets the same error.
unfoldable pub encode_chunk : FileChunk → Result (List ℕ)
encode_chunk c = do
  refuse_if (ltb chunk_bytes_max (length c.content)) chunk_too_large
  let body = write_u8 [] 1
  let body = write_bytes body c.offer_id
  let body = write_bytes body (to_be 4 c.index)
  let body = write_bytes body (to_be 4 (length c.content))
  ok (write_bytes body c.content)

unfoldable pub decode_chunk : List ℕ → Result FileChunk
decode_chunk body = do
  r ← version (reader body)
  offer_id ← read_bytes r offer_id_len
  index ← read_be 4 offer_id.1
  len ← read_be 4 index.1
  refuse_if (ltb chunk_bytes_max len.0) chunk_too_large
  content ← read_bytes len.1 len.0
  done content.1
  ok (record { offer_id = offer_id.0; index = index.0; content = content.0 })

pub data AckState : Type 0 where
  receiving finished corrupt : AckState

pub record Ack : Type 0 where
  pub offer_id : List ℕ
  pub received : ℕ
  pub state : AckState

unfoldable pub state_code : AckState → ℕ
state_code receiving = 0
state_code finished = 1
state_code corrupt = 2

unfoldable pub state_from : ℕ → Result AckState
state_from code =
    if code == 0
    then ok receiving
    else if code == 1
    then ok finished
    else if code == 2
    then ok corrupt
    else err inner_malformed

unfoldable pub encode_ack : Ack → List ℕ
encode_ack a =
    let body = write_u8 [] 1 in
    let body = write_bytes body a.offer_id in
    let body = write_bytes body (to_be 4 a.received) in write_u8 body (state_code a.state)

unfoldable pub decode_ack : List ℕ → Result Ack
decode_ack body = do
  r ← version (reader body)
  offer_id ← read_bytes r offer_id_len
  received ← read_be 4 offer_id.1
  code ← read_u8 received.1
  state ← state_from code.0
  done code.1
  ok (record { offer_id = offer_id.0; received = received.0; state = state })

-- A cancellation is the id of its offer.
pub record Cancel : Type 0 where
  pub offer_id : List ℕ

unfoldable pub encode_cancel : Cancel → List ℕ
encode_cancel c = write_bytes (write_u8 [] 1) c.offer_id

unfoldable pub decode_cancel : List ℕ → Result Cancel
decode_cancel body = do
  r ← version (reader body)
  offer_id ← read_bytes r offer_id_len
  done offer_id.1
  ok (record { offer_id = offer_id.0 })
