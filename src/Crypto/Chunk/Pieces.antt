-- ===== src/Crypto/Chunk/Pieces.antt =====
-- Splitting a payload and opening its sealed pieces.
use asli.Prelude.{
  ℕ, zero, suc, ◌+◌, ◌≤◌, ◌<◌, ◌≡◌, refl, arith, List, [], ◌∷◌, ◌++◌, length, length-drop, drop,
  take-append-drop, Option,
}
use asli.Crypto.Error.{Result, ok, ◌>>=◌, ok_or_ok, seal_failed}
use asli.Crypto.Aead.{Aead}
use asli.Crypto.Clip.{protocol_version}
use asli.Crypto.Chunk.{
  ChunkPos, SealedChunk, chunks, chunks_fuel, pos_of, build_chunk_aad, type_code,
  seal_chunk_with_nonce, open_chunk, seal_pieces,
}

abbrev pub concat : List (List ℕ) → List ℕ
concat [] = []
concat (p ∷ ps) = p ++ concat ps

concat-chunks_fuel :
    (fuel n : ℕ) (xs : List ℕ) → 0 < n → length xs ≤ fuel → concat (chunks_fuel fuel n xs) ≡ xs
unfolding chunks_fuel
concat-chunks_fuel zero n [] h k = refl
concat-chunks_fuel zero n (x ∷ xs) h k = absurd (omega arith)
concat-chunks_fuel (suc fuel) n [] h k = refl
concat-chunks_fuel (suc fuel) n (x ∷ xs) h k =
    rw (concat-chunks_fuel fuel n (drop n (x ∷ xs)) h (omega (arith, length-drop n (x ∷ xs))))
      (take-append-drop n (x ∷ xs))

-- The pieces of a payload, put together, are the payload: the fuel of `chunks` is enough.
pub concat-chunks : (n : ℕ) (xs : List ℕ) → 0 < n → concat (chunks n xs) ≡ xs
unfolding chunks
concat-chunks n xs h = concat-chunks_fuel (length xs) n xs h (omega arith)

module _ (aead : Aead) where
  open aead use {encrypt, decrypt, decrypts}

  open_chunk-seal_chunk :
      (key : List ℕ) (epoch : ℕ) (room msg nonce : List ℕ) (pos : ChunkPos) (piece sealed : List ℕ)
      → seal_chunk_with_nonce aead key epoch room msg nonce pos piece ≡ ok sealed
      → open_chunk aead key epoch room msg nonce pos sealed ≡ ok piece
  unfolding seal_chunk_with_nonce open_chunk
  open_chunk-seal_chunk key epoch room msg nonce pos piece sealed e =
      let aad = build_chunk_aad protocol_version (type_code pos) epoch room msg pos in
      rw
        (decrypts key nonce aad piece sealed
          (ok_or_ok (encrypt key nonce aad piece) seal_failed sealed e))
        refl

  -- Each sealed chunk, opened at the position that it claims.
  unfoldable pub open_all : List ℕ → ℕ → List ℕ → List ℕ → List SealedChunk → Result (List (List ℕ))
  open_all key epoch room msg [] = ok []
  open_all key epoch room msg (c ∷ cs) = do
    piece ←
        open_chunk aead key epoch room msg c.nonce
          (record { idx = c.idx; chunk_count = c.chunk_count; final_chunk = c.final_chunk })
          c.ciphertext
    rest ← open_all key epoch room msg cs
    ok (piece ∷ rest)

  -- One round of a successful sealing.
  pub seal_pieces_cons :
      (random : ℕ → Option (List ℕ)) (key : List ℕ) (epoch : ℕ) (room msg : List ℕ) (count idx : ℕ)
      (piece : List ℕ) (rest : List (List ℕ)) (out : List SealedChunk)
      → seal_pieces aead random key epoch room msg count idx (piece ∷ rest) ≡ ok out
      → (nonce : List ℕ) × (sealed : List ℕ) × (more : List SealedChunk) × (seal_chunk_with_nonce
            aead key epoch room msg nonce
            (pos_of idx count)
            piece
          ≡ ok sealed)
        × (seal_pieces aead random key epoch room msg count (idx + 1) rest ≡ ok more)
        × (out
            ≡ record {
              idx = idx;
              chunk_count = count;
              final_chunk = (pos_of idx count).final_chunk;
              nonce = nonce;
              ciphertext = sealed;
            }
              ∷ more)
  unfolding seal_pieces
  seal_pieces_cons random key epoch room msg count idx piece rest out e = ground arith

  pub open_all-seal_pieces :
      (random : ℕ → Option (List ℕ)) (key : List ℕ) (epoch : ℕ) (room msg : List ℕ) (count idx : ℕ)
      (pieces : List (List ℕ)) (out : List SealedChunk)
      → seal_pieces aead random key epoch room msg count idx pieces ≡ ok out
      → open_all key epoch room msg out ≡ ok pieces
  unfolding open_all
  open_all-seal_pieces random key epoch room msg count idx [] out e =
      let none_out : out ≡ [] = unfold seal_pieces in ground arith in rw none_out refl
  open_all-seal_pieces random key epoch room msg count idx (piece ∷ rest) out e =
      let (nonce, sealed, more, one, others, shape) =
        seal_pieces_cons random key epoch room msg count idx piece rest out e in
      rw
        (
          shape,
          open_chunk-seal_chunk key epoch room msg nonce (pos_of idx count) piece sealed one,
          open_all-seal_pieces random key epoch room msg count (idx + 1) rest more others,
        )
        refl
