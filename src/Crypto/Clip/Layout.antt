-- ===== src/Crypto/Clip/Layout.antt =====
-- The bytes of a clip's plaintext and of its associated data.
use asli.Prelude.{
  ℕ, ◌+◌, ◌-◌, ◌≤◌, ◌≡◌, ◌≢◌, refl, sym, ap, ◌∙◌, arith, ltb, List, ◌∷◌, ◌++◌, append_assoc, length,
  length-append, length-replicate, drop, replicate, IsU32, IsU64, u32_max, le→ltb, le→leb, false,
}
use asli.Prelude.Bytes.{
  IsArray, to_be, from_be, slice, byte_at, length-to_be, from_be-to_be, to_be-injective,
  take-append_of, drop-append_of, drop-drop, append-split,
}
use asli.Crypto.Error.{ok, err, chunk_incomplete}
use asli.Crypto.Clip.{
  Inner, ContentType, text, image_png, code, from_code, build_aad, padded_len, inner_header_len,
  encode_inner, decode_inner, clamp_u32, device_id_len, inner_version_byte,
}
use asli.Crypto.Clip.Padding.{padded_len_bounds}

-- What the types of the source's fields say, and that the content's length is a u32.
pub record IsValid (i : Inner) : Type 0 where
  pub device : IsArray 16 i.device_id
  pub seq_fits : IsU64 i.seq
  pub ts_fits : IsU64 i.ts_ms
  pub small : length i.content ≤ u32_max

from_code-code : (t : ContentType) → from_code (code t) ≡ ok t
unfolding from_code code
from_code-code text = refl
from_code-code image_png = refl

-- The fields of a buffer laid out as the encoder lays it out.
record Fields (buf id s t l rest : List ℕ) : Type 0 where
  id_at : slice 3 16 buf ≡ id
  seq_at : slice 19 8 buf ≡ s
  ts_at : slice 27 8 buf ≡ t
  len_at : slice 35 4 buf ≡ l
  rest_at : drop 39 buf ≡ rest

parts-Fields :
    (a b c : ℕ) (id s t l rest : List ℕ)
    → length id ≡ 16
    → length s ≡ 8
    → length t ≡ 8
    → length l ≡ 4
    → Fields (a ∷ b ∷ c ∷ id ++ (s ++ (t ++ (l ++ rest)))) id s t l rest
unfolding slice
parts-Fields a b c id s t l rest hi hs ht hl = record {
  id_at = take-append_of 16 id _ hi;
  seq_at = rw d16 (take-append_of 8 s _ hs);
  ts_at = rw d24 (take-append_of 8 t _ ht);
  len_at = rw d32 (take-append_of 4 l _ hl);
  rest_at = drop-drop 32 4 body ∙ rw d32 (drop-append_of 4 l rest hl);
}
  where
    body : List ℕ
    body = id ++ (s ++ (t ++ (l ++ rest)))

    d16 : drop 16 body ≡ s ++ (t ++ (l ++ rest))
    d16 = drop-append_of 16 id _ hi

    d24 : drop 24 body ≡ t ++ (l ++ rest)
    d24 = drop-drop 16 8 body ∙ rw d16 (drop-append_of 8 s _ hs)

    d32 : drop 32 body ≡ l ++ rest
    d32 = drop-drop 24 8 body ∙ rw d24 (drop-append_of 8 t _ ht)

abbrev padding : Inner → List ℕ
padding i =
    replicate
      (padded_len (inner_header_len + length i.content) - (inner_header_len + length i.content)) 0

encode_inner-layout :
    (i : Inner)
    → encode_inner i
      ≡ inner_version_byte ∷ code i.content_type ∷ device_id_len ∷ i.device_id
        ++ (to_be 8 i.seq
            ++ (to_be 8 i.ts_ms
                ++ (to_be 4 (clamp_u32 (length i.content)) ++ (i.content ++ padding i))))
unfolding encode_inner
encode_inner-layout i = simp append_assoc

-- The plaintext has exactly the padded length of its header and content.
pub length-encode_inner :
    (i : Inner)
    → IsArray 16 i.device_id
    → length (encode_inner i) ≡ padded_len (inner_header_len + length i.content)
unfolding encode_inner
length-encode_inner i d = omega (
  arith,
  d.size,
  length-append i.device_id
      (to_be 8 i.seq ++ (to_be 8 i.ts_ms ++ to_be 4 (clamp_u32 (length i.content)))),
  length-append (to_be 8 i.seq) (to_be 8 i.ts_ms ++ to_be 4 (clamp_u32 (length i.content))),
  length-append (to_be 8 i.ts_ms) (to_be 4 (clamp_u32 (length i.content))),
  length-append
      (i.device_id
        ++ (to_be 8 i.seq ++ (to_be 8 i.ts_ms ++ to_be 4 (clamp_u32 (length i.content)))))
      (i.content ++ padding i),
  length-append i.content (padding i),
  length-replicate {A = ℕ}
      (padded_len (inner_header_len + length i.content) - (inner_header_len + length i.content)) 0,
  length-to_be 8 i.seq,
  length-to_be 8 i.ts_ms,
  length-to_be 4 (clamp_u32 (length i.content)),
  (padded_len_bounds (inner_header_len + length i.content)).0,
)

slice_content :
    (n : ℕ) (buf xs tail : List ℕ) → length xs ≡ n → drop 39 buf ≡ xs ++ tail → slice 39 n buf ≡ xs
unfolding slice
slice_content n buf xs tail h e = rw e (take-append_of n xs tail h)

-- A buffer with a clip's fields in their places decodes to that clip, whatever follows.
decode_inner-Fields :
    (i : Inner) (buf tail : List ℕ)
    → IsValid i
    → byte_at 0 buf ≡ inner_version_byte
    → byte_at 1 buf ≡ code i.content_type
    → byte_at 2 buf ≡ device_id_len
    → Fields buf i.device_id
        (to_be 8 i.seq)
        (to_be 8 i.ts_ms)
        (to_be 4 (length i.content))
        (i.content ++ tail)
    → inner_header_len + length i.content ≤ length buf
    → decode_inner buf ≡ ok i
unfolding decode_inner
decode_inner-Fields i buf tail v e0 e1 e2 f long =
    let n : from_be (slice 35 4 buf) ≡ length i.content =
      rw f.len_at (from_be-to_be 4 (length i.content) (omega (arith, v.small))) in
    let s : from_be (slice 19 8 buf) ≡ i.seq =
      rw f.seq_at (from_be-to_be 8 i.seq (omega (arith, v.seq_fits))) in
    let t : from_be (slice 27 8 buf) ≡ i.ts_ms =
      rw f.ts_at (from_be-to_be 8 i.ts_ms (omega (arith, v.ts_fits))) in
    let c : slice 39 (length i.content) buf ≡ i.content =
      slice_content (length i.content) buf i.content tail refl f.rest_at in
    let head : ltb (length buf) inner_header_len ≡ false = le→ltb _ _ (omega arith) in
    let body : ltb (length buf) (inner_header_len + length i.content) ≡ false = le→ltb _ _ long in
    rw (head, e0, e1, from_code-code, e2, n, body, s, t, c, f.id_at) refl

-- Decoding an encoded clip gives it back: every field, and the content without its padding.
pub decode_inner-encode_inner : (i : Inner) → IsValid i → decode_inner (encode_inner i) ≡ ok i
decode_inner-encode_inner i v =
    let clamp : clamp_u32 (length i.content) ≡ length i.content =
      rw (le→leb (length i.content) u32_max v.small) in
    let lay = rw clamp at (encode_inner-layout i) in
    let long : inner_header_len + length i.content ≤ length (encode_inner i) = omega (
      arith,
      length-encode_inner i v.device,
      (padded_len_bounds (inner_header_len + length i.content)).0,
    ) in
    decode_inner-Fields i (encode_inner i) (padding i) v (rw lay (unfold byte_at in refl))
      (rw lay (unfold byte_at in refl)) (rw lay (unfold byte_at in refl))
      (rw lay (
        parts-Fields _ _ _ i.device_id _ _ _ _ v.device.size (length-to_be 8 i.seq)
          (length-to_be 8 i.ts_ms) (length-to_be 4 (length i.content))))
      long

-- Two associated data of well-formed ids that are equal were built from the same version, type code,
-- epoch, room and message, so a ciphertext is bound to all of them.
pub build_aad-injective :
    (version version' type_code type_code' epoch epoch' : ℕ) (room room' msg msg' : List ℕ)
    → IsU32 epoch
    → IsU32 epoch'
    → IsArray 16 room
    → IsArray 16 room'
    → IsArray 16 msg
    → IsArray 16 msg'
    → build_aad version type_code epoch room msg ≡ build_aad version' type_code' epoch' room' msg'
    → (version ≡ version')
      × (type_code ≡ type_code')
      × (epoch ≡ epoch')
      × (room ≡ room')
      × (msg ≡ msg')
unfolding build_aad byte_at
build_aad-injective v v' t t' e e' room room' msg msg' he he' hr hr' hm hm' p =
    let tails = ap (drop 13) p in
    let (ee, rest) =
      append-split (to_be 4 e) _ (to_be 4 e') _ (length-to_be 4 e ∙ sym (length-to_be 4 e'))
        tails in
    let (rr, rest') = append-split room _ room' _ (hr.size ∙ sym hr'.size) (ap (drop 1) rest) in
    (
      ap (byte_at 11) p,
      ap (byte_at 12) p,
      to_be-injective 4 e e' (omega (arith, he)) (omega (arith, he')) ee,
      rr,
      ap (drop 1) rest',
    )

-- Decoding blames the payload, never the assembly.
pub decode_inner-ne-incomplete : (buf : List ℕ) → decode_inner buf ≢ err chunk_incomplete
unfolding decode_inner from_code
decode_inner-ne-incomplete buf e = ground arith
