-- ===== src/Crypto/Chunk.antt =====
-- crates/asli-crypto/src/chunk.rs: a payload in sealed pieces, and their assembly.
pub mod Binding
pub mod Pieces
pub mod Assembling
pub mod Arrival
pub mod Delivery
pub mod Runs
use asli.Prelude.{
  ℕ, zero, suc, ◌+◌, ◌-◌, ◌*◌, ◌/◌, ◌==◌, ltb, leb, if◌then◌else◌, Bool, true, false, not, ◌&&◌,
  ◌||◌, u32_max, sat_add, max, List, [], ◌∷◌, ◌++◌, Option, none, some, length, replicate, take,
  drop, get_elem?, set,
}
use asli.Prelude.Bytes.{same_bytes, to_be}
use asli.Crypto.Error.{
  Error, Result, ok, err, ◌>>=◌, ◌>>◌, refuse_if, ok_or, rng, seal_failed, open_failed,
  inner_malformed, chunk_count, chunk_mismatch, chunk_incomplete, chunk_too_large,
}
use asli.Crypto.Aead.{Aead}
use asli.Crypto.Clip.{
  ContentType, image_png, text, Inner, encode_inner, decode_inner, inner_header_len, div_ceil,
  protocol_version, room_id_len, msg_id_len,
}

abbrev pub type_clip_begin : ℕ
type_clip_begin = 2

abbrev pub type_clip_chunk : ℕ
type_clip_chunk = 3

abbrev pub type_clip_end : ℕ
type_clip_end = 4

-- "asli/v1/caad"
abbrev pub label_chunk_aad : List ℕ
label_chunk_aad =
    b'a' ∷ b's' ∷ b'l' ∷ b'i' ∷ b'/' ∷ b'v' ∷ b'1' ∷ b'/' ∷ b'c' ∷ b'a' ∷ b'a' ∷ b'd' ∷ []

abbrev pub max_chunks : ℕ
max_chunks = 4096

pub record ChunkPos : Type 0 where
  pub idx : ℕ
  pub chunk_count : ℕ
  pub final_chunk : Bool

pub chunk_type_code : ℕ → Bool → ℕ
chunk_type_code idx final_chunk =
    if final_chunk then type_clip_end else if idx == 0 then type_clip_begin else type_clip_chunk

pub type_code : ChunkPos → ℕ
unfolding chunk_type_code
type_code pos = chunk_type_code pos.idx pos.final_chunk

-- `u8::from(bool)`
abbrev pub bool_byte : Bool → ℕ
bool_byte b = if b then 1 else 0

pub build_chunk_aad : ℕ → ℕ → ℕ → List ℕ → List ℕ → ChunkPos → List ℕ
build_chunk_aad version kind epoch room_id msg_id pos =
    label_chunk_aad
    ++ (version ∷ kind ∷ to_be 4 epoch
        ++ (room_id_len ∷ room_id
            ++ (msg_id_len ∷ msg_id
                ++ (to_be 4 pos.idx
                    ++ (to_be 4 pos.chunk_count ++ (bool_byte pos.final_chunk ∷ []))))))

pub record SealedChunk : Type 0 where
  pub idx : ℕ
  pub chunk_count : ℕ
  pub final_chunk : Bool
  pub nonce : List ℕ
  pub ciphertext : List ℕ

-- `plaintext.chunks(n)` for a positive `n`; each piece takes an element at least, so the length of
-- the text is fuel enough.
pub chunks_fuel : ℕ → ℕ → List ℕ → List (List ℕ)
chunks_fuel zero n xs = []
chunks_fuel (suc fuel) n [] = []
chunks_fuel (suc fuel) n (x ∷ xs) = take n (x ∷ xs) ∷ chunks_fuel fuel n (drop n (x ∷ xs))

pub chunks : ℕ → List ℕ → List (List ℕ)
unfolding chunks_fuel
chunks n xs = chunks_fuel (length xs) n xs

-- `payload_len.div_ceil(chunk_bytes).max(1)`
abbrev pub total_for : ℕ → ℕ → ℕ
total_for payload_len chunk_bytes = max (div_ceil payload_len chunk_bytes) 1

pub chunk_count_for : ℕ → ℕ → ℕ
chunk_count_for payload_len chunk_bytes =
    let total = total_for payload_len (max chunk_bytes 1) in
    if leb total u32_max then total else u32_max

-- Where the piece `idx` of `count` sits; `checked_add` fails at the largest u32 alone.
abbrev pub pos_of : ℕ → ℕ → ChunkPos
pos_of idx count = record {
  idx = idx;
  chunk_count = count;
  final_chunk = ltb idx u32_max && idx + 1 == count;
}

module _ (aead : Aead) where
  open aead use {encrypt, decrypt}

  pub seal_chunk_with_nonce :
      List ℕ → ℕ → List ℕ → List ℕ → List ℕ → ChunkPos → List ℕ → Result (List ℕ)
  seal_chunk_with_nonce enc_key epoch room_id msg_id nonce pos piece =
      ok_or
        (encrypt enc_key nonce
          (build_chunk_aad protocol_version (type_code pos) epoch room_id msg_id pos) piece)
        seal_failed

  pub open_chunk : List ℕ → ℕ → List ℕ → List ℕ → List ℕ → ChunkPos → List ℕ → Result (List ℕ)
  open_chunk enc_key epoch room_id msg_id nonce pos ciphertext =
      ok_or
        (decrypt enc_key nonce
          (build_chunk_aad protocol_version (type_code pos) epoch room_id msg_id pos) ciphertext)
        open_failed

  -- The loop over the pieces. `random idx` is what the generator returns in round `idx`.
  pub seal_pieces :
      (ℕ → Option (List ℕ))
      → List ℕ
      → ℕ
      → List ℕ
      → List ℕ
      → ℕ
      → ℕ
      → List (List ℕ)
      → Result (List SealedChunk)
  unfolding seal_chunk_with_nonce
  seal_pieces random enc_key epoch room_id msg_id count idx [] = ok []
  seal_pieces random enc_key epoch room_id msg_id count idx (piece ∷ rest) = do
    refuse_if (ltb u32_max idx) chunk_count
    nonce ← ok_or (random idx) rng
    ciphertext ← seal_chunk_with_nonce enc_key epoch room_id msg_id nonce (pos_of idx count) piece
    out ← seal_pieces random enc_key epoch room_id msg_id count (idx + 1) rest
    ok (
        record {
          idx = idx;
          chunk_count = count;
          final_chunk = (pos_of idx count).final_chunk;
          nonce = nonce;
          ciphertext = ciphertext;
        }
        ∷ out)

  pub seal_plaintext_chunks :
      (ℕ → Option (List ℕ)) → List ℕ → ℕ → List ℕ → List ℕ → List ℕ → ℕ → Result (List SealedChunk)
  unfolding seal_pieces chunks
  seal_plaintext_chunks random enc_key epoch room_id msg_id plaintext chunk_bytes = do
    let total = total_for (length plaintext) (max chunk_bytes 1)
    refuse_if (ltb u32_max total) chunk_count
    refuse_if (ltb max_chunks total) chunk_count
    seal_pieces random enc_key epoch room_id msg_id total 0 (chunks (max chunk_bytes 1) plaintext)

  pub seal_chunks :
      (ℕ → Option (List ℕ)) → List ℕ → ℕ → List ℕ → List ℕ → Inner → ℕ → Result (List SealedChunk)
  unfolding seal_plaintext_chunks
  seal_chunks random enc_key epoch room_id msg_id inner chunk_bytes =
      seal_plaintext_chunks random enc_key epoch room_id msg_id (encode_inner inner) chunk_bytes

pub record Assembly : Type 0 where
  pub msg_id : List ℕ
  pub epoch : ℕ
  pub chunk_count : ℕ
  pub pieces : List (Option (List ℕ))
  pub received : ℕ
  pub bytes : ℕ
  pub max_bytes : ℕ

pub new : List ℕ → ℕ → ℕ → ℕ → Result Assembly
new msg_id epoch count max_bytes = do
  refuse_if (count == 0 || ltb max_chunks count) chunk_count
  ok (record {
    msg_id = msg_id;
    epoch = epoch;
    chunk_count = count;
    pieces = replicate count none;
    received = 0;
    bytes = 0;
    max_bytes = max_bytes;
  })

pub is_complete : Assembly → Bool
is_complete a = a.received == a.chunk_count

abbrev pub mismatched : Assembly → List ℕ → ℕ → ℕ → Bool
mismatched a msg_id epoch count =
    not (same_bytes msg_id a.msg_id) || (not (epoch == a.epoch) || not (count == a.chunk_count))

-- The slot is free: the cap is tested, then the piece is stored.
pub store : Assembly → ℕ → List ℕ → Assembly × Result (Unit {0})
store a idx piece =
    let next = sat_add a.bytes (length piece) in
    if ltb a.max_bytes next then (a, err chunk_too_large) else (
      record a { bytes = next; pieces = set a.pieces idx (some piece); received = a.received + 1 },
      ok tt,
    )

-- The assembly after the call, with what the call returns.
pub accept : Assembly → List ℕ → ℕ → ℕ → ℕ → List ℕ → Assembly × Result (Unit {0})
unfolding store
accept a msg_id epoch idx count piece =
    if mismatched a msg_id epoch count
    then (a, err chunk_mismatch)
    else elim (get_elem? a.pieces idx) [
      | none ↦ (a, err chunk_mismatch)
      | some (some held) ↦ (a, err chunk_mismatch)
      | some none ↦ store a idx piece
    ]

-- The loop of `finish` over the pieces.
pub join : List (Option (List ℕ)) → Result (List ℕ)
join [] = ok []
join (none ∷ rest) = err chunk_incomplete
join (some piece ∷ rest) = do joined ← join rest; ok (piece ++ joined)

pub finish : Assembly → Result Inner
unfolding is_complete join
finish a = do
  refuse_if (not (is_complete a)) chunk_incomplete
  joined ← join a.pieces
  refuse_if (ltb (length joined) inner_header_len) inner_malformed
  decode_inner joined

pub may_chunk : ContentType → Bool
may_chunk image_png = true
may_chunk text = false
