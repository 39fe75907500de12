-- ===== src/Crypto/Clip/Sealing.antt =====
-- Sealing a clip and opening it again.
use asli.Prelude.{ℕ, ◌≡◌, refl, List, Option, some, arith}
use asli.Crypto.Error.{ok, ok_or, ok_or_ok, >>=-ok, rng, seal_failed}
use asli.Crypto.Aead.{Aead}
use asli.Crypto.Clip.{
  Inner, Sealed, seal_with_nonce, build_aad, protocol_version, type_clip, encode_inner, seal,
  open_clip, seal_typed, open_typed,
}
use asli.Crypto.Clip.Layout.{IsValid, decode_inner-encode_inner}

module _ (aead : Aead) where
  open aead use {encrypt, decrypt, decrypts}

  pub open_typed-seal_typed :
      (type_code : ℕ) (key : List ℕ) (epoch : ℕ) (room msg nonce plaintext sealed : List ℕ)
      → seal_typed aead type_code key epoch room msg nonce plaintext ≡ ok sealed
      → open_typed aead type_code key epoch room msg nonce sealed ≡ ok plaintext
  unfolding seal_typed open_typed
  open_typed-seal_typed type_code key epoch room msg nonce plaintext sealed e =
      let aad = build_aad protocol_version type_code epoch room msg in
      rw
        (decrypts key nonce aad plaintext sealed
          (ok_or_ok (encrypt key nonce aad plaintext) seal_failed sealed e))
        refl

  -- When the generator gives a nonce and the cipher accepts the plaintext, sealing succeeds, and
  -- opening what it returns, under the same key, epoch, room and message, gives the clip back.
  pub open_clip-seal :
      (key : List ℕ) (epoch : ℕ) (room msg nonce sealed : List ℕ) (i : Inner)
      → IsValid i
      → encrypt key nonce (build_aad protocol_version type_clip epoch room msg) (encode_inner i)
        ≡ some sealed
      → (seal aead (some nonce) key epoch room msg i
          ≡ ok (record { nonce = nonce; ciphertext = sealed }))
        × (open_clip aead key epoch room msg nonce sealed ≡ ok i)
  unfolding seal open_clip seal_typed open_typed
  open_clip-seal key epoch room msg nonce sealed i v e = (
    rw e refl,
    rw
        (decrypts key nonce (build_aad protocol_version type_clip epoch room msg) (encode_inner i)
          sealed e)
        (decode_inner-encode_inner i v),
  )

  -- Whatever `seal` made opens again.
  pub open_clip-sealed :
      (random : Option (List ℕ)) (key : List ℕ) (epoch : ℕ) (room msg : List ℕ) (i : Inner)
      (out : Sealed)
      → IsValid i
      → seal aead random key epoch room msg i ≡ ok out
      → open_clip aead key epoch room msg out.nonce out.ciphertext ≡ ok i
  unfolding seal seal_with_nonce open_clip
  open_clip-sealed random key epoch room msg i out v e =
      let (nonce, drawn, more) = >>=-ok (ok_or random rng) _ e in
      let (sealed, made, last) =
        >>=-ok (seal_typed aead type_clip key epoch room msg nonce (encode_inner i)) _ more in
      let opened =
        open_typed-seal_typed type_clip key epoch room msg nonce (encode_inner i) sealed made in
      let same : out ≡ record { nonce = nonce; ciphertext = sealed } = ground arith in
      rw (same, opened) (decode_inner-encode_inner i v)

  -- What `seal` made holds the nonce that was drawn, and what the cipher made of the plaintext.
  pub seal_ok :
      (random : Option (List ℕ)) (key : List ℕ) (epoch : ℕ) (room msg : List ℕ) (i : Inner)
      (out : Sealed)
      → seal aead random key epoch room msg i ≡ ok out
      → (random ≡ some out.nonce)
        × (encrypt key out.nonce
              (build_aad protocol_version type_clip epoch room msg)
              (encode_inner i)
            ≡ some out.ciphertext)
  unfolding seal seal_with_nonce seal_typed
  seal_ok random key epoch room msg i out e =
      let (nonce, drawn, more) = >>=-ok (ok_or random rng) _ e in
      let aad = build_aad protocol_version type_clip epoch room msg in
      let (sealed, made, last) =
        >>=-ok (ok_or (encrypt key nonce aad (encode_inner i)) seal_failed) _ more in
      let same : out ≡ record { nonce = nonce; ciphertext = sealed } = ground arith in
      rw same (
        ok_or_ok random rng nonce drawn,
        ok_or_ok (encrypt key nonce aad (encode_inner i)) seal_failed sealed made,
      )
