-- ===== src/Crypto/File/Codecs.antt =====
-- Decoding what was encoded.
use asli.Prelude.{
  ℕ, ◌≤◌, ◌≡◌, refl, arith, ltb, false, IsU32, List, [], ◌∷◌, ◌++◌, length, append_assoc,
  append-nil, le→ltb,
}
use asli.Prelude.Bytes.{to_be, length-to_be}
use asli.Crypto.Error.{ok, ◌>>=◌}
use asli.Crypto.Fields.Reading.{
  reader-Ahead, advance-Ahead, read_bytes-Ahead, read_u8-Ahead, read_be-Ahead, version-Ahead,
  done-Ahead,
}
use asli.Crypto.File.{
  FileChunk, Ack, AckState, receiving, finished, corrupt, state_code, state_from, chunk_bytes_max,
  encode_chunk, decode_chunk, encode_ack, decode_ack,
}

state_from-state_code : (s : AckState) → state_from (state_code s) ≡ ok s
unfolding state_from state_code
state_from-state_code receiving = refl
state_from-state_code finished = refl
state_from-state_code corrupt = refl

layout : (xs ys zs ws : List ℕ) → ((xs ++ ys) ++ zs) ++ ws ≡ xs ++ (ys ++ (zs ++ (ws ++ [])))
layout xs ys zs ws = simp (append_assoc, append-nil)

-- The parts of a piece, in their order.
decode_chunk-parts :
    (c : FileChunk)
    → length c.offer_id ≡ 16
    → IsU32 c.index
    → length c.content ≤ chunk_bytes_max
    → decode_chunk
        (1 ∷ (c.offer_id ++ (to_be 4 c.index ++ (to_be 4 (length c.content) ++ (c.content ++ [])))))
      ≡ ok c
unfolding decode_chunk
decode_chunk-parts c i f s =
    let be = to_be 4 (length c.content) in
    let a0 = reader-Ahead (1 ∷ (c.offer_id ++ (to_be 4 c.index ++ (be ++ (c.content ++ []))))) in
    let a1 = advance-Ahead _ 1 (1 ∷ []) _ refl a0 in
    let a2 = advance-Ahead _ 16 c.offer_id _ i a1 in
    let a3 = advance-Ahead _ 4 (to_be 4 c.index) _ (length-to_be 4 c.index) a2 in
    let a4 = advance-Ahead _ 4 be _ (length-to_be 4 (length c.content)) a3 in
    let a5 = advance-Ahead _ (length c.content) c.content [] refl a4 in
    let fits : ltb chunk_bytes_max (length c.content) ≡ false = le→ltb _ _ s in
    rw
      (
        version-Ahead _ _ a0,
        read_bytes-Ahead _ 16 c.offer_id _ i a1,
        read_be-Ahead _ 4 c.index _ (omega (arith, f)) a2,
        read_be-Ahead _ 4 (length c.content) _ (omega (arith, s)) a3,
        fits,
        read_bytes-Ahead _ (length c.content) c.content [] refl a4,
        done-Ahead _ a5,
      )
      refl

-- A piece of a file with an id of 16 bytes, a u32 index and at most 256 KiB encodes to a body that
-- decodes to that piece.
pub decode_chunk-encode_chunk :
    (c : FileChunk)
    → length c.offer_id ≡ 16
    → IsU32 c.index
    → length c.content ≤ chunk_bytes_max
    → (encode_chunk c >>= decode_chunk) ≡ ok c
unfolding encode_chunk
decode_chunk-encode_chunk c i f s =
    let be = to_be 4 (length c.content) in
    let fits : ltb chunk_bytes_max (length c.content) ≡ false = le→ltb _ _ s in
    rw (fits, layout c.offer_id (to_be 4 c.index) be c.content) (decode_chunk-parts c i f s)

decode_ack-parts :
    (a : Ack)
    → length a.offer_id ≡ 16
    → IsU32 a.received
    → decode_ack (1 ∷ (a.offer_id ++ (to_be 4 a.received ++ (state_code a.state ∷ [])))) ≡ ok a
unfolding decode_ack
decode_ack-parts a i f =
    let a0 = reader-Ahead (1 ∷ (a.offer_id ++ (to_be 4 a.received ++ (state_code a.state ∷ [])))) in
    let a1 = advance-Ahead _ 1 (1 ∷ []) _ refl a0 in
    let a2 = advance-Ahead _ 16 a.offer_id _ i a1 in
    let a3 = advance-Ahead _ 4 (to_be 4 a.received) _ (length-to_be 4 a.received) a2 in
    let a4 = advance-Ahead _ 1 (state_code a.state ∷ []) [] refl a3 in
    rw
      (
        version-Ahead _ _ a0,
        read_bytes-Ahead _ 16 a.offer_id _ i a1,
        read_be-Ahead _ 4 a.received _ (omega (arith, f)) a2,
        read_u8-Ahead _ (state_code a.state) [] a3,
        state_from-state_code a.state,
        done-Ahead _ a4,
      )
      refl

-- An acknowledgement with an id of 16 bytes and a u32 count encodes to a body that decodes to it.
pub decode_ack-encode_ack :
    (a : Ack) → length a.offer_id ≡ 16 → IsU32 a.received → decode_ack (encode_ack a) ≡ ok a
unfolding encode_ack
decode_ack-encode_ack a i f =
    rw (append_assoc a.offer_id (to_be 4 a.received) (state_code a.state ∷ []))
      (decode_ack-parts a i f)
