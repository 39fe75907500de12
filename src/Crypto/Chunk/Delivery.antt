-- ===== src/Crypto/Chunk/Delivery.antt =====
-- From a clip through its sealed chunks back to the clip.
use asli.Prelude.{
  ℕ, zero, suc, ◌+◌, ◌-◌, ◌≤◌, ◌<◌, ◌≡◌, refl, sym, ap, ◌∙◌, arith, List, [], ◌∷◌, length,
  length-drop, drop, Option, u64_max, u32_max, max, le→leb, leb, if◌then◌else◌, ◌==◌, true,
}
use native.Mathlib.Nat.{div-eq_of_lt}
use asli.Crypto.Error.{ok}
use asli.Crypto.Aead.{Aead}
use asli.Crypto.Clip.{Inner, encode_inner, decode_inner, div_ceil, inner_header_len}
use asli.Crypto.Clip.Layout.{IsValid, decode_inner-encode_inner, length-encode_inner}
use asli.Crypto.Clip.Padding.{padded_len_bounds}
use asli.Crypto.Chunk.{
  SealedChunk, Assembly, chunks, chunks_fuel, seal_pieces, seal_plaintext_chunks, seal_chunks,
  total_for, chunk_count_for, new, finish, max_chunks,
}
use asli.Crypto.Chunk.Pieces.{
  concat, concat-chunks, open_all, open_all-seal_pieces, seal_pieces_cons,
}
use asli.Crypto.Chunk.Arrival.{Arrival, IsDelivery, total_bytes, accept_all, finish-accept_all}

div_round : (l n : ℕ) → 0 < n → 0 < l → div_ceil l n ≡ suc (div_ceil (l - n) n)
div_round l n h k = grind arith

length-chunks_fuel :
    (fuel n : ℕ) (xs : List ℕ)
    → 0 < n
    → length xs ≤ fuel
    → length (chunks_fuel fuel n xs) ≡ div_ceil (length xs) n
unfolding chunks_fuel
length-chunks_fuel zero n [] h k = sym (div-eq_of_lt (omega arith))
length-chunks_fuel zero n (x ∷ xs) h k = absurd (omega arith)
length-chunks_fuel (suc fuel) n [] h k = sym (div-eq_of_lt (omega arith))
length-chunks_fuel (suc fuel) n (x ∷ xs) h k =
    let rest =
      length-chunks_fuel fuel n (drop n (x ∷ xs)) h (omega (arith, length-drop n (x ∷ xs))) in
    omega (
      arith,
      rest,
      ap (λ (m : ℕ). div_ceil m n) (length-drop n (x ∷ xs)),
      div_round (length (x ∷ xs)) n h (omega arith),
    )

pub length-chunks : (n : ℕ) (xs : List ℕ) → 0 < n → length (chunks n xs) ≡ div_ceil (length xs) n
unfolding chunks
length-chunks n xs h = length-chunks_fuel (length xs) n xs h (omega arith)

div_ceil-pos : (l n : ℕ) → 0 < n → 0 < l → 0 < div_ceil l n
div_ceil-pos l n h k = omega (arith, div_round l n h k)

-- Chunks that count up from `k` to `count`, each naming the total, the last alone marked as final.
abbrev pub Numbered : ℕ → ℕ → List SealedChunk → Type 0
Numbered count k [] = k ≡ count
Numbered count k (c ∷ cs) =
    (c.idx ≡ k)
    × (c.chunk_count ≡ count)
    × (c.final_chunk ≡ (k + 1 == count))
    × Numbered count (k + 1) cs

module _ (aead : Aead) where
  seal_pieces-Numbered :
      (random : ℕ → Option (List ℕ)) (key : List ℕ) (epoch : ℕ) (room msg : List ℕ) (count k : ℕ)
      (pieces : List (List ℕ)) (out : List SealedChunk)
      → seal_pieces aead random key epoch room msg count k pieces ≡ ok out
      → k + length pieces ≡ count
      → count ≤ max_chunks
      → Numbered count k out
  seal_pieces-Numbered random key epoch room msg count k [] out e h small =
      let none_out : out ≡ [] = unfold seal_pieces in ground arith in rw none_out (omega arith)
  seal_pieces-Numbered random key epoch room msg count k (piece ∷ rest) out e h small =
      let (nonce, sealed, more, one, others, shape) =
        seal_pieces_cons aead random key epoch room msg count k piece rest out e in
      rw shape (
        refl,
        refl,
        ground arith,
        seal_pieces-Numbered random key epoch room msg count (k + 1) rest more others (omega arith)
            small,
      )

  -- What a successful sealing has made: its count is in range, and its loop ran over the pieces.
  seal_plaintext_chunks_inv :
      (random : ℕ → Option (List ℕ)) (key : List ℕ) (epoch : ℕ) (room msg plaintext : List ℕ)
      (n : ℕ) (out : List SealedChunk)
      → seal_plaintext_chunks aead random key epoch room msg plaintext n ≡ ok out
      → (total_for (length plaintext) (max n 1) ≤ max_chunks)
        × (seal_pieces aead random key epoch room msg
              (total_for (length plaintext) (max n 1))
              0
              (chunks (max n 1) plaintext)
            ≡ ok out)
  unfolding seal_plaintext_chunks
  seal_plaintext_chunks_inv random key epoch room msg plaintext n out e = ground arith

  -- A sealed clip is at most 4096 chunks, numbered from 0 with none missing, each naming the same total,
  -- and the last one alone is marked as final; opened, they are the pieces of the encoded clip.
  pub seal_chunks-Numbered :
      (random : ℕ → Option (List ℕ)) (key : List ℕ) (epoch : ℕ) (room msg : List ℕ) (i : Inner)
      (n : ℕ) (out : List SealedChunk)
      → IsValid i
      → seal_chunks aead random key epoch room msg i n ≡ ok out
      → Numbered (chunk_count_for (length (encode_inner i)) n) 0 out
        × (open_all aead key epoch room msg out ≡ ok (chunks (max n 1) (encode_inner i)))
        × (chunk_count_for (length (encode_inner i)) n ≤ max_chunks)
  unfolding seal_chunks chunk_count_for
  seal_chunks-Numbered random key epoch room msg i n out v e =
      let (small, loop) =
        seal_plaintext_chunks_inv random key epoch room msg (encode_inner i) n out e in
      let long : 0 < length (encode_inner i) = omega (
        arith,
        length-encode_inner i v.device,
        (padded_len_bounds (inner_header_len + length i.content)).0,
      ) in
      let whole : length (chunks (max n 1) (encode_inner i))
          ≡ total_for (length (encode_inner i)) (max n 1) =
        omega (
          arith,
          length-chunks (max n 1) (encode_inner i) (omega arith),
          div_ceil-pos (length (encode_inner i)) (max n 1) (omega arith) long,
        ) in
      let fits : leb (total_for (length (encode_inner i)) (max n 1)) u32_max ≡ true =
        le→leb _ _ (omega (arith, small)) in
      rw fits (
        seal_pieces-Numbered random key epoch room msg _ 0 _ out loop (omega (arith, whole)) small,
        open_all-seal_pieces aead random key epoch room msg _ 0 _ out loop,
        small,
      )

  -- A clip that was sealed in chunks comes out of the receiver's assembly as it went in, whatever the
  -- order in which the opened chunks arrive, each once, if its size is within the receiver's cap.
  pub finish-seal_chunks :
      (random : ℕ → Option (List ℕ)) (key : List ℕ) (epoch : ℕ) (room msg : List ℕ) (i : Inner)
      (n limit : ℕ) (out : List SealedChunk) (pieces : List (List ℕ)) (arrivals : List Arrival)
      (a : Assembly)
      → IsValid i
      → seal_chunks aead random key epoch room msg i n ≡ ok out
      → open_all aead key epoch room msg out ≡ ok pieces
      → new msg epoch (chunk_count_for (length (encode_inner i)) n) limit ≡ ok a
      → IsDelivery pieces arrivals
      → total_bytes arrivals ≤ limit
      → limit < u64_max
      → finish (accept_all a arrivals) ≡ ok i
  unfolding chunk_count_for seal_chunks
  finish-seal_chunks random key epoch room msg i n limit out pieces arrivals a v e opened start d
        fits wide =
      let (small, loop) =
        seal_plaintext_chunks_inv random key epoch room msg (encode_inner i) n out e in
      let parts = chunks (max n 1) (encode_inner i) in
      let same : pieces ≡ parts =
        ground
          (arith, opened, open_all-seal_pieces aead random key epoch room msg _ 0 parts out loop) in
      let long : inner_header_len ≤ length (encode_inner i) = omega (
        arith,
        length-encode_inner i v.device,
        (padded_len_bounds (inner_header_len + length i.content)).0,
      ) in
      let whole : length parts ≡ total_for (length (encode_inner i)) (max n 1) = omega (
        arith,
        length-chunks (max n 1) (encode_inner i) (omega arith),
        div_ceil-pos (length (encode_inner i)) (max n 1) (omega arith) (omega (arith, long)),
      ) in
      let count : (if leb (total_for (length (encode_inner i)) (max n 1)) u32_max
            then total_for (length (encode_inner i)) (max n 1)
            else u32_max)
          ≡ length pieces =
        rw
          (
            le→leb (total_for (length (encode_inner i)) (max n 1)) u32_max (omega (arith, small)),
            same,
          )
          (sym whole) in
      let joined : concat pieces ≡ encode_inner i =
        rw same (concat-chunks (max n 1) (encode_inner i) (omega arith)) in
      finish-accept_all msg epoch limit pieces arrivals a (rw count at start) d fits wide
        (rw joined long)
      ∙ ap decode_inner joined
      ∙ decode_inner-encode_inner i v
