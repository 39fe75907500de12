-- ===== src/Crypto/Chunk/Runs.antt =====
-- Concrete transfers, and the theorems at concrete inputs.
use asli.Prelude.{
  ℕ, suc, ◌+◌, ◌≤◌, ◌≡◌, ◌≢◌, ◌↔◌, refl, sym, arith, Bool, true, false, List, [], ◌∷◌, length,
  Option, some, none, max, take, drop,
}
use asli.Prelude.Bytes.{same_bytes, to_be, IsArray}
use asli.Crypto.Error.{ok, err, chunk_mismatch, chunk_too_large}
use asli.Crypto.Aead.{transparent}
use asli.Crypto.Clip.{Inner, image_png, code, padded_len, encode_inner}
use asli.Crypto.Clip.Layout.{IsValid}
use asli.Crypto.Chunk.{
  SealedChunk, Assembly, seal_chunks, chunk_count_for, open_chunk, new, accept, finish,
}
use asli.Crypto.Chunk.Pieces.{open_all}
use asli.Crypto.Chunk.Assembling as Assembling
use asli.Crypto.Chunk.Assembling.{
  fresh, new-IsValid, accept-IsValid, accept_refused, finish_incomplete,
}
use asli.Crypto.Chunk.Arrival.{Arrival, IsDelivery, accept_all}
use asli.Crypto.Chunk.Delivery.{finish-seal_chunks}

abbrev sixteen : ℕ → List ℕ
sixteen b = b ∷ b ∷ b ∷ b ∷ b ∷ b ∷ b ∷ b ∷ b ∷ b ∷ b ∷ b ∷ b ∷ b ∷ b ∷ b ∷ []

abbrev picture : Inner
picture = record {
  content_type = image_png;
  device_id = sixteen 7;
  seq = 3;
  ts_ms = 99;
  content = 137 ∷ 80 ∷ 78 ∷ 71 ∷ [];
}

picture-IsValid : IsValid picture
picture-IsValid = omega arith

abbrev nonces : ℕ → Option (List ℕ)
nonces k = some (sixteen k)

abbrev first_piece : List ℕ
first_piece = take 200 (encode_inner picture)

abbrev last_piece : List ℕ
last_piece = drop 200 (encode_inner picture)

abbrev sent : List SealedChunk
sent =
    record {
      idx = 0;
      chunk_count = 2;
      final_chunk = false;
      nonce = sixteen 0;
      ciphertext = first_piece;
    }
    ∷ record {
      idx = 1;
      chunk_count = 2;
      final_chunk = true;
      nonce = sixteen 1;
      ciphertext = last_piece;
    }
    ∷ []

sealed_picture :
    seal_chunks transparent nonces (sixteen 4) 1 (sixteen 1) (sixteen 9) picture 200 ≡ ok sent
unfolding seal_chunks encode_inner padded_len to_be code
sealed_picture = refl

opened_picture :
    open_all transparent (sixteen 4) 1 (sixteen 1) (sixteen 9) sent
    ≡ ok (first_piece ∷ last_piece ∷ [])
unfolding open_all open_chunk
opened_picture = refl

abbrev receiver : Assembly
receiver = fresh (sixteen 9) 1 2 1000

started : new (sixteen 9) 1 (chunk_count_for (length (encode_inner picture)) 200) 1000 ≡ ok receiver
unfolding new chunk_count_for encode_inner padded_len to_be code
started = refl

repeated :
    (accept (accept receiver (sixteen 9) 1 1 2 (5 ∷ [])).0 (sixteen 9) 1 1 2 (5 ∷ [])).1
    ≡ err chunk_mismatch
unfolding accept same_bytes
repeated = refl

too_large :
    (accept receiver (sixteen 9) 1 0 2 (take 1001 (asli.Prelude.replicate 1001 1))).1
    ≡ err chunk_too_large
unfolding accept same_bytes
too_large = refl

-- The last chunk first.
abbrev arrivals : List Arrival
arrivals = (1, last_piece) ∷ (0, first_piece) ∷ []

delivery : IsDelivery (first_piece ∷ last_piece ∷ []) arrivals
delivery = record { genuine = (refl, (refl, tt)); distinct = omega arith; whole = refl }

finish-seal_chunks_example : finish (accept_all receiver arrivals) ≡ ok picture
unfolding encode_inner padded_len to_be code
finish-seal_chunks_example =
    finish-seal_chunks transparent nonces (sixteen 4) 1 (sixteen 1) (sixteen 9) picture 200 1000
      sent (first_piece ∷ last_piece ∷ []) arrivals receiver picture-IsValid sealed_picture
      opened_picture started delivery (omega arith) (omega arith)

receiver-IsValid : Assembling.IsValid receiver
receiver-IsValid = record {
  slots = refl;
  counted = refl;
  measured = refl;
  capped = omega arith;
  few = omega arith;
  some_chunk = omega arith;
}

other_epoch : (accept receiver (sixteen 9) 2 1 2 (5 ∷ [])).1 ≡ err chunk_mismatch
unfolding accept same_bytes
other_epoch = refl

sixteen-IsArray : (b : ℕ) → b ≤ 255 → IsArray 16 (sixteen b)
sixteen-IsArray b h = record { size = refl; bytes = omega arith }
