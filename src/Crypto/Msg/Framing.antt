-- ===== src/Crypto/Msg/Framing.antt =====
-- What the framing of a message gives back, and what it refuses.
use asli.Prelude.{
  ℕ, zero, suc, ◌+◌, ◌-◌, ◌*◌, ◌%◌, ◌≤◌, ◌≡◌, refl, ap, ◌∙◌, arith, ltb, false, u32_max, List, ◌∷◌,
  ◌++◌, some, length, length-append, take, drop, replicate, length-replicate, append_assoc, le→ltb,
}
use asli.Prelude.Bytes.{
  to_be, from_be, slice, byte_at, length-to_be, from_be-to_be, take-append_of, drop-append_of,
  drop-drop,
}
use asli.Crypto.Error.{ok}
use asli.Crypto.Aead.{Aead}
use asli.Crypto.Clip.{div_ceil, build_aad, protocol_version, seal_typed, open_typed}
use asli.Crypto.Msg.{
  Kind, code, from_code, frame, any_set, unframe, seal, open_msg, pad_to, msg_version, type_msg,
}

-- Every byte names a kind whose byte it is, so a kind that this version does not know is kept.
pub code-from_code : (c : ℕ) → code (from_code c) ≡ c
unfolding code from_code
code-from_code c = ground arith

pub any_set-zeros : (n : ℕ) → any_set (replicate n 0) ≡ false
unfolding any_set
any_set-zeros zero = refl
any_set-zeros (suc n) = any_set-zeros n

abbrev padding : List ℕ → List ℕ
padding body = replicate (div_ceil (6 + length body) pad_to * pad_to - (6 + length body)) 0

frame-layout :
    (kind : Kind) (body : List ℕ)
    → frame kind body ≡ msg_version ∷ code kind ∷ (to_be 4 (length body) ++ (body ++ padding body))
unfolding frame to_be
frame-layout kind body = simp append_assoc

-- A frame is as long as its header and body, rounded up to a multiple of 256.
length-frame :
    (kind : Kind) (body : List ℕ)
    → length (frame kind body) ≡ div_ceil (6 + length body) pad_to * pad_to
length-frame kind body = rw frame-layout (
    omega (
      arith,
      length-append (to_be 4 (length body)) (body ++ padding body),
      length-append body (padding body),
      length-to_be 4 (length body),
      length-replicate {A = ℕ} (div_ceil (6 + length body) pad_to * pad_to - (6 + length body)) 0,
    ))

-- A plaintext with its parts in their places is read as those parts.
unframe-parts :
    (buf body tail : List ℕ) (c : ℕ)
    → 6 ≤ length buf
    → length buf % pad_to ≡ 0
    → byte_at 0 buf ≡ msg_version
    → byte_at 1 buf ≡ c
    → from_be (slice 2 4 buf) ≡ length body
    → drop 6 buf ≡ body ++ tail
    → 6 + length body ≤ length buf
    → any_set tail ≡ false
    → unframe buf ≡ ok (from_code c, body)
unfolding unframe slice
unframe-parts buf body tail c long whole e0 e1 n parts fits clear =
    let h0 : ltb (length buf) 6 ≡ false = le→ltb (length buf) 6 long in
    let h1 : ltb (length buf) (6 + length body) ≡ false = le→ltb _ _ fits in
    let d : drop (6 + length body) buf ≡ tail =
      drop-drop 6 (length body) buf
      ∙ ap (drop (length body)) parts
      ∙ drop-append_of (length body) body tail refl in
    let b : take (length body) (drop 6 buf) ≡ body =
      ap (take (length body)) parts ∙ take-append_of (length body) body tail refl in
    rw (h0, whole, e0, e1, n, h1, d, clear, b) refl

-- Reading a framed body gives it back with the kind that its byte names.
unframe-frame :
    (kind : Kind) (body : List ℕ)
    → length body ≤ u32_max
    → unframe (frame kind body) ≡ ok (from_code (code kind), body)
unfolding byte_at slice
unframe-frame kind body h =
    let lay = frame-layout kind body in
    let size = length-frame kind body in
    let be = to_be 4 (length body) in
    let n : from_be (take 4 (be ++ (body ++ padding body))) ≡ length body =
      rw (take-append_of 4 be (body ++ padding body) (length-to_be 4 (length body)))
        (from_be-to_be 4 (length body) (omega (arith, h))) in
    unframe-parts (frame kind body) body (padding body) (code kind) (omega (arith, size))
      (omega (arith, size)) (rw lay refl) (rw lay refl) (rw lay n)
      (rw lay (drop-append_of 4 be (body ++ padding body) (length-to_be 4 (length body))))
      (omega (arith, size)) (any_set-zeros _)

module _ (aead : Aead) where
  open aead use {encrypt, decrypt, decrypts}

  -- When the generator gives a nonce, the body fits its length field and the cipher accepts the
  -- frame, sealing succeeds, and opening what it returns, under the same key, epoch, room and
  -- message id, gives the kind and the body back; a kind built from a byte comes back unchanged.
  pub open_msg-seal :
      (key : List ℕ) (epoch : ℕ) (room msg nonce sealed : List ℕ) (c : ℕ) (body : List ℕ)
      → length body ≤ u32_max
      → encrypt key nonce
          (build_aad protocol_version type_msg epoch room msg)
          (frame (from_code c) body)
        ≡ some sealed
      → (seal aead (some nonce) key epoch room msg (from_code c) body
          ≡ ok (record { nonce = nonce; ciphertext = sealed }))
        × (open_msg aead key epoch room msg nonce sealed ≡ ok (from_code c, body))
  unfolding seal open_msg seal_typed open_typed
  open_msg-seal key epoch room msg nonce sealed c body h e =
      let fits : ltb u32_max (length body) ≡ false = le→ltb _ _ h in
      let d = decrypts key nonce _ _ sealed e in
      (rw (fits, e) refl, rw (d, unframe-frame (from_code c) body h, code-from_code c) refl)
