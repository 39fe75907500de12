-- ===== src/Crypto/Chunk/Binding.antt =====
-- What the associated data of a chunk binds.
use asli.Prelude.{ℕ, ◌≡◌, ◌≢◌, sym, ap, ◌∙◌, arith, Bool, List, [], ◌∷◌, ◌++◌, drop, IsU32}
use asli.Prelude.Bytes.{IsArray, to_be, byte_at, length-to_be, to_be-injective, append-split}
use asli.Crypto.Clip.{build_aad}
use asli.Crypto.Chunk.{ChunkPos, build_chunk_aad, bool_byte}

pub record IsValidPos (p : ChunkPos) : Type 0 where
  pub idx_fits : IsU32 p.idx
  pub count_fits : IsU32 p.chunk_count

bool_byte-injective : (b c : Bool) → bool_byte b ≡ bool_byte c → b ≡ c
bool_byte-injective b c e = ground arith

ChunkPos-path :
    (p q : ChunkPos)
    → p.idx ≡ q.idx
    → p.chunk_count ≡ q.chunk_count
    → p.final_chunk ≡ q.final_chunk
    → p ≡ q
ChunkPos-path p q a b c = λ i. record { idx = a i; chunk_count = b i; final_chunk = c i }

tail_position :
    (p q : ChunkPos)
    → IsValidPos p
    → IsValidPos q
    → to_be 4 p.idx ++ (to_be 4 p.chunk_count ++ (bool_byte p.final_chunk ∷ []))
      ≡ to_be 4 q.idx ++ (to_be 4 q.chunk_count ++ (bool_byte q.final_chunk ∷ []))
    → p ≡ q
unfolding byte_at
tail_position p q vp vq e =
    let (i, e1) =
      append-split (to_be 4 p.idx) _ (to_be 4 q.idx) _
        (length-to_be 4 p.idx ∙ sym (length-to_be 4 q.idx)) e in
    let (c, e2) =
      append-split (to_be 4 p.chunk_count) _ (to_be 4 q.chunk_count) _
        (length-to_be 4 p.chunk_count ∙ sym (length-to_be 4 q.chunk_count)) e1 in
    ChunkPos-path p q
      (to_be-injective 4 p.idx q.idx (omega (arith, vp.idx_fits)) (omega (arith, vq.idx_fits)) i)
      (to_be-injective 4 p.chunk_count q.chunk_count (omega (arith, vp.count_fits))
        (omega (arith, vq.count_fits)) c)
      (bool_byte-injective p.final_chunk q.final_chunk (ap (byte_at 0) e2))

-- Two equal associated data of chunks, for ids of 16 bytes and u32 fields, name the same epoch, room,
-- message and position: a relay cannot move a chunk, claim another total or another last chunk, or
-- present it in another message.
pub build_chunk_aad-injective :
    (v v' k k' epoch epoch' : ℕ) (room room' msg msg' : List ℕ) (p q : ChunkPos)
    → IsU32 epoch
    → IsU32 epoch'
    → IsArray 16 room
    → IsArray 16 room'
    → IsArray 16 msg
    → IsArray 16 msg'
    → IsValidPos p
    → IsValidPos q
    → build_chunk_aad v k epoch room msg p ≡ build_chunk_aad v' k' epoch' room' msg' q
    → (v ≡ v') × (k ≡ k') × (epoch ≡ epoch') × (room ≡ room') × (msg ≡ msg') × (p ≡ q)
unfolding build_chunk_aad byte_at
build_chunk_aad-injective v v' k k' e e' room room' msg msg' p q he he' hr hr' hm hm' vp vq h =
    let (ee, h1) =
      append-split (to_be 4 e) _ (to_be 4 e') _ (length-to_be 4 e ∙ sym (length-to_be 4 e'))
        (ap (drop 14) h) in
    let (rr, h2) = append-split room _ room' _ (hr.size ∙ sym hr'.size) (ap (drop 1) h1) in
    let (mm, h3) = append-split msg _ msg' _ (hm.size ∙ sym hm'.size) (ap (drop 1) h2) in
    (
      ap (byte_at 12) h,
      ap (byte_at 13) h,
      to_be-injective 4 e e' (omega (arith, he)) (omega (arith, he')) ee,
      rr,
      mm,
      tail_position p q vp vq h3,
    )

-- The associated data of a chunk is never that of a whole clip, whatever both are built from.
pub build_chunk_aad-ne-build_aad :
    (v v' k k' epoch epoch' : ℕ) (room room' msg msg' : List ℕ) (p : ChunkPos)
    → build_chunk_aad v k epoch room msg p ≢ build_aad v' k' epoch' room' msg'
unfolding build_chunk_aad build_aad byte_at
build_chunk_aad-ne-build_aad v v' k k' epoch epoch' room room' msg msg' p e =
    absurd (omega (arith, ap (byte_at 8) e))
