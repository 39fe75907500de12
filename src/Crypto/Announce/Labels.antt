-- ===== src/Crypto/Announce/Labels.antt =====
-- An announcement back from its plaintext, and names cut to fit one.
use asli.Prelude.{
  ℕ, zero, suc, ◌+◌, ◌-◌, ◌≡◌, ◌≤◌, refl, ◌∙◌, ap, arith, ltb, leb, false, All, IsU64, List, some,
  [], ◌∷◌, ◌++◌, length, length-append, length-replicate, take, drop, replicate, get_elem?,
  append_assoc, le→ltb, Bool-cases, inl, inr, leb→le,
}
use asli.Prelude.Bytes.{
  IsArray, to_be, from_be, slice, byte_at, length-to_be, from_be-to_be, take-append_of,
  drop-append_of, drop-drop,
}
use asli.Prelude.Utf8.{IsScalar, as_bytes, encode_char, from_utf8-as_bytes}
use asli.Crypto.Error.{ok}
use asli.Crypto.Announce.{
  Announce, truncate_utf8, encode, decode, field, max_field_bytes, plaintext_len,
}
use asli.Crypto.Msg.Framing.{any_set-zeros}

-- A shortened text fits its bytes.
pub length-truncate_utf8 :
    (text : List ℕ) (max : ℕ) → length (as_bytes (truncate_utf8 text max)) ≤ max
unfolding truncate_utf8 as_bytes
length-truncate_utf8 [] max = omega arith
length-truncate_utf8 (c ∷ cs) max = elim (Bool-cases (leb (length (encode_char c)) max)) [
  | inr cut ↦ rw cut (omega arith)
  | inl fits ↦
      let rest = truncate_utf8 cs (max - length (encode_char c)) in
      rw fits (
        omega (
          arith,
          length-append (encode_char c) (as_bytes rest),
          length-truncate_utf8 cs (max - length (encode_char c)),
          leb→le _ _ fits,
        ))
]

get_elem?-append_of :
    (pre : List ℕ) (x : ℕ) (post : List ℕ) (at : ℕ)
    → length pre ≡ at
    → get_elem? (pre ++ (x ∷ post)) at ≡ some x
get_elem?-append_of [] x post zero size = refl
get_elem?-append_of [] x post (suc at) size = absurd (omega arith)
get_elem?-append_of (y ∷ pre) x post zero size = absurd (omega arith)
get_elem?-append_of (y ∷ pre) x post (suc at) size = get_elem?-append_of pre x post at (omega arith)

-- A text with its length in front, after `at` bytes.
field-at :
    (pre text post : List ℕ) (at : ℕ)
    → length pre ≡ at
    → All IsScalar text
    → length (as_bytes text) ≤ max_field_bytes
    → field (pre ++ (length (as_bytes text) ∷ as_bytes text ++ post)) at
      ≡ ok (text, at + 1 + length (as_bytes text))
unfolding field slice
field-at pre text post at size scalars short =
    let bytes = as_bytes text in
    let buf = pre ++ (length bytes ∷ bytes ++ post) in
    let whole : length buf ≡ at + suc (length bytes + length post) =
      omega
        (arith, length-append pre (length bytes ∷ bytes ++ post), length-append bytes post, size) in
    let small : ltb max_field_bytes (length bytes) ≡ false = le→ltb _ _ short in
    let inside : ltb (length buf) (at + 1 + length bytes) ≡ false =
      le→ltb _ _ (omega (arith, whole)) in
    let ahead : drop (at + 1) buf ≡ bytes ++ post =
      drop-drop at 1 buf ∙ ap (drop 1) (drop-append_of at pre _ size) in
    let text_bytes : take (length bytes) (drop (at + 1) buf) ≡ bytes =
      ap (take (length bytes)) ahead ∙ take-append_of (length bytes) bytes post refl in
    rw
      (
        get_elem?-append_of pre (length bytes) (bytes ++ post) at size,
        small,
        inside,
        text_bytes,
        from_utf8-as_bytes text scalars,
      )
      refl

-- What the types of an announcement's fields say.
pub record IsValid (a : Announce) : Type 0 where
  pub id : IsArray 16 a.device_id
  pub time : IsU64 a.ts_ms
  pub name : All IsScalar a.name
  pub os : All IsScalar a.os

abbrev counted : List ℕ → List ℕ
counted text = length (as_bytes text) ∷ as_bytes text

abbrev written : Announce → List ℕ
written a = 1 ∷ 16 ∷ a.device_id ++ (to_be 8 a.ts_ms ++ (counted a.name ++ counted a.os))

abbrev padding : Announce → List ℕ
padding a = replicate (plaintext_len - length (written a)) 0

encode-written :
    (a : Announce) (plaintext : List ℕ)
    → encode a ≡ ok plaintext
    → (plaintext ≡ written a ++ padding a)
      × (length (as_bytes a.name) ≤ max_field_bytes)
      × (length (as_bytes a.os) ≤ max_field_bytes)
unfolding encode
encode-written a plaintext e = ground arith

length-written :
    (a : Announce)
    → IsValid a
    → length (written a) ≡ 28 + (length (as_bytes a.name) + length (as_bytes a.os))
length-written a v = omega (
  arith,
  length-append a.device_id (to_be 8 a.ts_ms ++ (counted a.name ++ counted a.os)),
  length-append (to_be 8 a.ts_ms) (counted a.name ++ counted a.os),
  length-append (counted a.name) (counted a.os),
  length-to_be 8 a.ts_ms,
  v.id.size,
)

-- The bytes before the name, and those before the system.
abbrev head : Announce → List ℕ
head a = 1 ∷ 16 ∷ a.device_id ++ to_be 8 a.ts_ms

layout_name :
    (a : Announce) (pad : List ℕ)
    → written a ++ pad ≡ head a ++ (counted a.name ++ (counted a.os ++ pad))
layout_name a pad = simp append_assoc

layout_os :
    (a : Announce) (pad : List ℕ)
    → written a ++ pad ≡ (head a ++ counted a.name) ++ (counted a.os ++ pad)
layout_os a pad = simp append_assoc

-- Whatever `encode` made decodes to the announcement, and has the one length of all of them.
pub decode-encode_announce :
    (a : Announce) (plaintext : List ℕ)
    → IsValid a
    → encode a ≡ ok plaintext
    → (decode plaintext ≡ ok a) × (length plaintext ≡ plaintext_len)
unfolding decode slice byte_at
decode-encode_announce a plaintext v e =
    let (shape, short1, short2) = encode-written a plaintext e in
    let n1 = length (as_bytes a.name) in
    let n2 = length (as_bytes a.os) in
    let pad = padding a in
    let size : length (written a ++ pad) ≡ 256 = omega (
      arith,
      length-written a v,
      length-append (written a) pad,
      length-replicate {A = ℕ} (plaintext_len - length (written a)) 0,
      short1,
      short2,
    ) in
    let before : length (head a) ≡ 26 =
      omega
        (arith, length-append a.device_id (to_be 8 a.ts_ms), length-to_be 8 a.ts_ms, v.id.size) in
    let between : length (head a ++ counted a.name) ≡ 27 + n1 =
      omega (arith, before, length-append (head a) (counted a.name)) in
    let name : field (written a ++ pad) 26 ≡ ok (a.name, 27 + n1) =
      ap (λ b. field b 26) (layout_name a pad)
      ∙ (field-at (head a) a.name (counted a.os ++ pad) 26 before v.name short1) in
    let os : field (written a ++ pad) (27 + n1) ≡ ok (a.os, 27 + n1 + 1 + n2) =
      ap (λ b. field b (27 + n1)) (layout_os a pad)
      ∙ (field-at (head a ++ counted a.name) a.os pad (27 + n1) between v.os short2) in
    let tail = counted a.name ++ (counted a.os ++ pad) in
    let parts : drop 2 (written a ++ pad) ≡ a.device_id ++ (to_be 8 a.ts_ms ++ tail) =
      ap (drop 2) (layout_name a pad) ∙ append_assoc a.device_id (to_be 8 a.ts_ms) tail in
    let later : drop 18 (written a ++ pad) ≡ to_be 8 a.ts_ms ++ tail =
      drop-drop 2 16 (written a ++ pad)
      ∙ ap (drop 16) parts
      ∙ drop-append_of 16 a.device_id _ v.id.size in
    let id : take 16 (drop 2 (written a ++ pad)) ≡ a.device_id =
      ap (take 16) parts ∙ take-append_of 16 a.device_id _ v.id.size in
    let ts : from_be (take 8 (drop 18 (written a ++ pad))) ≡ a.ts_ms =
      ap (λ xs. from_be (take 8 xs)) later
      ∙ ap from_be (take-append_of 8 (to_be 8 a.ts_ms) tail (length-to_be 8 a.ts_ms))
      ∙ from_be-to_be 8 a.ts_ms (omega (arith, v.time)) in
    let rest : drop (27 + n1 + 1 + n2) (written a ++ pad) ≡ pad =
      drop-append_of (27 + n1 + 1 + n2) (written a) pad (omega (arith, length-written a v)) in
    rw shape (rw (size, name, os, rest, any_set-zeros, id, ts) refl, size)
