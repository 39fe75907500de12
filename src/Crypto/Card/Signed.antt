-- ===== src/Crypto/Card/Signed.antt =====
-- A card, and any signed body, back from what its device made.
use asli.Prelude.{
  ℕ, ◌+◌, ◌-◌, ◌≡◌, ◌≤◌, refl, sym, ◌∙◌, ap, subst, arith, ltb, not, ◌||◌, false, true, All, IsU64,
  List, [], ◌∷◌, ◌++◌, length, length-append, append_assoc, append-nil, le→ltb, Bool, take,
}
use asli.Prelude.Bytes.{
  IsArray, to_be, length-to_be, same_bytes, same_bytes→eq, take-append_of, drop-append_of,
}
use asli.Prelude.Utf8.{IsScalar, as_bytes}
use asli.Crypto.Error.{
  Result, ok, err, ◌>>=◌, ◌>>◌, >>=-ok, refuse_if, refuse_if_ok, bad_public_key,
}
use asli.Crypto.Auth.{verify_signature}
use asli.Crypto.Primitives.{Primitives}
use asli.Crypto.Device.{DeviceKeys, sign, sign_pub, box_pub}
use asli.Crypto.Fields.{reader, write_text, max_text_bytes}
use asli.Crypto.Fields.Reading.{
  Ahead, reader-Ahead, advance-Ahead, read_bytes-Ahead, read_u8-Ahead, read_be-Ahead,
  read_text-Ahead, done-Ahead,
}
use asli.Crypto.Fields.Writing.{counted, write_text-ok}
use asli.Crypto.Card.{
  Card, signed_bytes, sign_into, verify_tail, encode, decode, label_card, signature_len,
}

-- What the types of a card's fields say.
pub record IsValid (c : Card) : Type 0 where
  pub id : IsArray 16 c.device_id
  pub signs : IsArray 32 c.sign_pub
  pub boxes : IsArray 32 c.box_pub
  pub time : IsU64 c.ts_ms
  pub conn_id : All IsScalar c.conn_id
  pub name : All IsScalar c.name
  pub os : All IsScalar c.os

module _ (crypto : Primitives) where
  -- The signature at the end of a body verifies under the key that made it, for its room and label.
  pub verify_tail-sign_into :
      (keys : DeviceKeys) (label room body : List ℕ)
      → verify_tail crypto label room (sign_into crypto keys label room body) (sign_pub crypto keys)
        ≡ ok body
  unfolding verify_tail sign_into verify_signature sign_pub sign
  verify_tail-sign_into keys label room body =
      let message = signed_bytes label room body in
      let sig = crypto.ed.sign keys.signing_key message in
      let size : length sig ≡ 64 = (crypto.ed.sign-IsArray keys.signing_key message).size in
      let whole : length (body ++ sig) ≡ length body + 64 =
        omega (arith, length-append body sig, size) in
      let long : ltb (length (body ++ sig)) signature_len ≡ false =
        le→ltb _ _ (omega (arith, whole)) in
      let split : length (body ++ sig) - 64 ≡ length body = omega (arith, whole) in
      rw
        (
          long,
          split,
          take-append_of (length body) body sig refl,
          drop-append_of (length body) body sig refl,
          crypto.ed.from_bytes-verifying_key,
          crypto.ed.verifies,
        )
        refl

  -- The body of a card before its signature.
  abbrev fields : Card → List ℕ
  fields c =
      ((((((1 ∷ c.device_id) ++ c.sign_pub) ++ c.box_pub) ++ to_be 8 c.ts_ms) ++ counted c.conn_id)
        ++ counted c.name)
      ++ counted c.os

  encode-fields :
      (c : Card) (keys : DeviceKeys) (room body : List ℕ)
      → encode crypto c keys room ≡ ok body
      → (c.sign_pub ≡ sign_pub crypto keys)
        × (body ≡ sign_into crypto keys label_card room (fields c))
        × (length (as_bytes c.conn_id) ≤ max_text_bytes)
        × (length (as_bytes c.name) ≤ max_text_bytes)
        × (length (as_bytes c.os) ≤ max_text_bytes)
  unfolding encode
  encode-fields c keys room body e =
      let mine : Bool =
        not (same_bytes (sign_pub crypto keys) c.sign_pub)
        || not (same_bytes (box_pub crypto keys) c.box_pub) in
      let (done, tested, more) = >>=-ok (refuse_if mine bad_public_key) _ e in
      let agrees : same_bytes (sign_pub crypto keys) c.sign_pub ≡ true =
        ground (arith, refuse_if_ok mine bad_public_key (ground arith)) in
      let start = (((1 ∷ c.device_id) ++ c.sign_pub) ++ c.box_pub) ++ to_be 8 c.ts_ms in
      let (one, wrote1, more1) = >>=-ok (write_text start c.conn_id) _ more in
      let (two, wrote2, more2) = >>=-ok (write_text one c.name) _ more1 in
      let (all, wrote3, last) = >>=-ok (write_text two c.os) _ more2 in
      let (shape1, short1) = write_text-ok start c.conn_id one wrote1 in
      let (shape2, short2) = write_text-ok one c.name two wrote2 in
      let (shape3, short3) = write_text-ok two c.os all wrote3 in
      let whole : all ≡ fields c =
        shape3 ∙ ap (λ x. x ++ counted c.os) (shape2 ∙ ap (λ x. x ++ counted c.name) shape1) in
      let out : body ≡ sign_into crypto keys label_card room all = cc in
      (
        sym (same_bytes→eq (sign_pub crypto keys) c.sign_pub agrees),
        out ∙ ap (sign_into crypto keys label_card room) whole,
        short1,
        short2,
        short3,
      )

  layout :
      (id sp bp ts conn name os sig : List ℕ)
      → ((((((((1 ∷ id) ++ sp) ++ bp) ++ ts) ++ conn) ++ name) ++ os) ++ sig)
        ≡ 1 ∷ (id ++ (sp ++ (bp ++ (ts ++ (conn ++ (name ++ (os ++ (sig ++ []))))))))
  layout id sp bp ts conn name os sig = simp (append_assoc, append-nil)

  -- `verify_tail` on a body and 64 bytes after it.
  verify_tail-parts :
      (label room body sig key : List ℕ)
      → length sig ≡ 64
      → verify_tail crypto label room (body ++ sig) key
        ≡ (verify_signature crypto.sha crypto.ed key (signed_bytes label room body) sig >> ok body)
  unfolding verify_tail
  verify_tail-parts label room body sig key size =
      let whole : length (body ++ sig) ≡ length body + 64 =
        omega (arith, length-append body sig, size) in
      let long : ltb (length (body ++ sig)) signature_len ≡ false =
        le→ltb _ _ (omega (arith, whole)) in
      let split : length (body ++ sig) - 64 ≡ length body = omega (arith, whole) in
      rw
        (
          long,
          split,
          take-append_of (length body) body sig refl,
          drop-append_of (length body) body sig refl,
        )
        refl

  -- A sequence that ends in `ok` goes on with its value.
  then_ok {ℓ} :
      {W : Type ℓ} (r : Result (Unit {0})) (x : List ℕ) (w : W)
      → ((r >> ok x) >>= λ got. ok w) ≡ (r >> ok w)
  then_ok (ok done) x w = refl
  then_ok (err failure) x w = refl

  -- A body with the fields of a card in their order, and 64 bytes after them.
  decode-parts :
      (c : Card) (room sig : List ℕ)
      → IsValid c
      → length (as_bytes c.conn_id) ≤ max_text_bytes
      → length (as_bytes c.name) ≤ max_text_bytes
      → length (as_bytes c.os) ≤ max_text_bytes
      → length sig ≡ 64
      → decode crypto (fields c ++ sig) room ≡ (
          verify_signature crypto.sha crypto.ed c.sign_pub
            (signed_bytes label_card room (fields c))
            sig
          >> ok c)
  unfolding decode
  decode-parts c room sig v short1 short2 short3 size =
      let body = fields c ++ sig in
      let shape =
        layout c.device_id c.sign_pub c.box_pub (to_be 8 c.ts_ms) (counted c.conn_id)
          (counted c.name) (counted c.os) sig in
      let n1 = length (as_bytes c.conn_id) in
      let n2 = length (as_bytes c.name) in
      let n3 = length (as_bytes c.os) in
      let a0 = subst (Ahead (reader body)) shape (reader-Ahead body) in
      let a1 = advance-Ahead _ 1 (1 ∷ []) _ refl a0 in
      let a2 = advance-Ahead _ 16 c.device_id _ v.id.size a1 in
      let a3 = advance-Ahead _ 32 c.sign_pub _ v.signs.size a2 in
      let a4 = advance-Ahead _ 32 c.box_pub _ v.boxes.size a3 in
      let a5 = advance-Ahead _ 8 (to_be 8 c.ts_ms) _ (length-to_be 8 c.ts_ms) a4 in
      let b5 = advance-Ahead _ 1 (n1 ∷ []) _ refl a5 in
      let a6 = advance-Ahead _ n1 (as_bytes c.conn_id) _ refl b5 in
      let b6 = advance-Ahead _ 1 (n2 ∷ []) _ refl a6 in
      let a7 = advance-Ahead _ n2 (as_bytes c.name) _ refl b6 in
      let b7 = advance-Ahead _ 1 (n3 ∷ []) _ refl a7 in
      let a8 = advance-Ahead _ n3 (as_bytes c.os) _ refl b7 in
      let a9 = advance-Ahead _ 64 sig [] size a8 in
      rw
        (
          read_u8-Ahead _ 1 _ a0,
          read_bytes-Ahead _ 16 c.device_id _ v.id.size a1,
          read_bytes-Ahead _ 32 c.sign_pub _ v.signs.size a2,
          read_bytes-Ahead _ 32 c.box_pub _ v.boxes.size a3,
          read_be-Ahead _ 8 c.ts_ms _ (omega (arith, v.time)) a4,
          read_text-Ahead _ c.conn_id _ v.conn_id short1 a5,
          read_text-Ahead _ c.name _ v.name short2 a6,
          read_text-Ahead _ c.os _ v.os short3 a7,
          read_bytes-Ahead _ 64 sig [] size a8,
          done-Ahead _ a9,
          verify_tail-parts label_card room (fields c) sig c.sign_pub size,
        )
        (then_ok _ (fields c) c)

  -- A card with well-formed fields that its device encoded for a room decodes to that card, for
  -- that room; and with any 64 bytes in place of the signature, the same body decodes to the card
  -- exactly when they verify under the card's own key for the label, the room and the fields, and
  -- otherwise fails as the verification does.
  pub decode-encode_card :
      (c : Card) (keys : DeviceKeys) (room body sig : List ℕ)
      → IsValid c
      → length sig ≡ 64
      → encode crypto c keys room ≡ ok body
      → (decode crypto body room ≡ ok c)
        × (decode crypto (take (length body - 64) body ++ sig) room ≡ (
            verify_signature crypto.sha crypto.ed c.sign_pub
              (signed_bytes label_card room (take (length body - 64) body))
              sig
            >> ok c))
  unfolding sign_into sign sign_pub verify_signature
  decode-encode_card c keys room body sig v size e =
      let (mine, shape, short1, short2, short3) = encode-fields c keys room body e in
      let own = crypto.ed.sign keys.signing_key (signed_bytes label_card room (fields c)) in
      let own_size : length own ≡ 64 =
        (crypto.ed.sign-IsArray keys.signing_key (signed_bytes label_card room (fields c))).size in
      let split : length (fields c ++ own) - 64 ≡ length (fields c) =
        omega (arith, length-append (fields c) own, own_size) in
      let front : take (length body - 64) body ≡ fields c =
        rw (shape, split) (take-append_of (length (fields c)) (fields c) own refl) in
      (
        rw shape (
            decode-parts c room own v short1 short2 short3 own_size
            ∙ rw (mine, crypto.ed.from_bytes-verifying_key, crypto.ed.verifies) refl),
        rw front (decode-parts c room sig v short1 short2 short3 size),
      )
