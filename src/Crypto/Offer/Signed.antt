-- ===== src/Crypto/Offer/Signed.antt =====
-- crates/asli-crypto/src/file.rs: an offer back from what its device signed.
use asli.Prelude.{
  ℕ, ◌≡◌, ◌<◌, ◌≤◌, refl, ap, ◌∙◌, subst, arith, ltb, ◌==◌, ◌||◌, false, Bool, List, [], ◌∷◌, ◌++◌,
  length, All, IsU64, append_assoc, append-nil, le→ltb,
}
use asli.Prelude.Bytes.{to_be, length-to_be}
use asli.Prelude.Utf8.{IsScalar, as_bytes, from_utf8-as_bytes}
use asli.Crypto.Error.{ok, >>=-ok, refuse_if, refuse_if_ok, announce_field}
use asli.Crypto.Primitives.{Primitives}
use asli.Crypto.Device.{DeviceKeys, sign_pub}
use asli.Crypto.Signing.{sign, verify, verify-sign}
use asli.Crypto.About.{unsigned}
use asli.Crypto.About.Signed.{unsigned-sign}
use asli.Crypto.Fields.{reader, write_text}
use asli.Crypto.Fields.Reading.{
  Ahead, reader-Ahead, advance-Ahead, read_bytes-Ahead, read_be-Ahead, read_text-Ahead,
  version-Ahead, done-Ahead,
}
use asli.Crypto.File.{chunk_bytes_max}
use asli.Crypto.Offer.{Offer, write_direct, encode_offer, decode_offer, label_offer, max_name_bytes}
use asli.Crypto.Fields.Writing.{counted, IsShort, write_text-ok}
use asli.Crypto.Offer.Addresses.{
  direct_bytes, IsDirect, HasScalars, write_direct-ok, read_direct-Ahead,
}

-- What the types of an offer's fields say.
pub record IsOffer (o : Offer) : Type 0 where
  pub id : length o.offer_id ≡ 16
  pub sender : length o.from_device_id ≡ 16
  pub receiver : length o.to_device_id ≡ 16
  pub bytes : IsU64 o.size
  pub hash : length o.sha256 ≡ 32
  pub time : IsU64 o.ts_ms
  pub reply : All IsScalar o.reply_to
  pub named : All IsScalar o.name
  pub addrs : HasScalars o.direct

abbrev before : Offer → List ℕ
before o =
    ((((((1 ∷ o.offer_id) ++ o.from_device_id) ++ o.to_device_id) ++ to_be 8 o.size) ++ o.sha256)
      ++ to_be 4 o.chunk_bytes)
    ++ to_be 8 o.ts_ms

-- The body of an offer before its signature.
abbrev fields : Offer → List ℕ
fields o =
    (((before o ++ counted o.reply_to) ++ to_be 2 (length (as_bytes o.name))) ++ as_bytes o.name)
    ++ direct_bytes o.direct

sized_lem : (n : ℕ) → 0 < n → n ≤ chunk_bytes_max → (n == 0 || ltb chunk_bytes_max n) ≡ false
sized_lem n some_bytes few = ground arith

layout :
    (id sender receiver size hash chunk time reply len name direct : List ℕ)
    → ((((((((((1 ∷ id) ++ sender) ++ receiver) ++ size) ++ hash) ++ chunk) ++ time) ++ reply)
            ++ len)
          ++ name)
        ++ direct
      ≡ 1
        ∷ (id
            ++ (sender
                ++ (receiver
                    ++ (size
                        ++ (hash
                            ++ (chunk
                                ++ (time ++ (reply ++ (len ++ (name ++ (direct ++ [])))))))))))
layout id sender receiver size hash chunk time reply len name direct =
    simp (append_assoc, append-nil)

module _ (crypto : Primitives) where
  encode_offer-fields :
      (o : Offer) (keys : DeviceKeys) (room body : List ℕ)
      → encode_offer crypto o keys room ≡ ok body
      → (body ≡ sign crypto keys label_offer room (fields o))
        × (length (as_bytes o.name) ≤ max_name_bytes)
        × IsShort o.reply_to
        × IsDirect o.direct
  unfolding encode_offer
  encode_offer-fields o keys room body e =
      let long : Bool = ltb max_name_bytes (length (as_bytes o.name)) in
      let (passed, tested, e1) =
        >>=-ok (refuse_if (ltb 65535 (length (as_bytes o.name))) announce_field) _ e in
      let (passed2, tested2, e2) = >>=-ok (refuse_if long announce_field) _ e1 in
      let (first, wrote, e3) = >>=-ok (write_text (before o) o.reply_to) _ e2 in
      let (shape, short) = write_text-ok (before o) o.reply_to first wrote in
      let (all, wrote2, e4) = >>=-ok (write_direct _ o.direct) _ e3 in
      let (shape2, direct) = write_direct-ok _ o.direct all wrote2 in
      let len = to_be 2 (length (as_bytes o.name)) in
      let whole : all ≡ fields o =
        shape2 ∙ ap (λ x. ((x ++ len) ++ as_bytes o.name) ++ direct_bytes o.direct) shape in
      let out : body ≡ sign crypto keys label_offer room all = cc in
      (
        out ∙ ap (sign crypto keys label_offer room) whole,
        ground (arith, refuse_if_ok long announce_field (ground arith)),
        short,
        direct,
      )

  decode_offer-parts :
      (o : Offer) (body room key : List ℕ)
      → IsOffer o
      → length (as_bytes o.name) ≤ max_name_bytes
      → IsShort o.reply_to
      → IsDirect o.direct
      → 0 < o.chunk_bytes
      → o.chunk_bytes ≤ chunk_bytes_max
      → verify crypto label_offer room body key ≡ ok tt
      → unsigned body ≡ fields o
      → decode_offer crypto body room key ≡ ok o
  unfolding decode_offer
  decode_offer-parts o body room key v named short direct some_bytes few verified bare =
      let name_len = length (as_bytes o.name) in
      let reply_len = length (as_bytes o.reply_to) in
      let shape =
        layout o.offer_id o.from_device_id o.to_device_id (to_be 8 o.size) o.sha256
          (to_be 4 o.chunk_bytes) (to_be 8 o.ts_ms) (counted o.reply_to) (to_be 2 name_len)
          (as_bytes o.name) (direct_bytes o.direct) in
      let a0 = subst (Ahead (reader (fields o))) shape (reader-Ahead (fields o)) in
      let a1 = advance-Ahead _ 1 (1 ∷ []) _ refl a0 in
      let a2 = advance-Ahead _ 16 o.offer_id _ v.id a1 in
      let a3 = advance-Ahead _ 16 o.from_device_id _ v.sender a2 in
      let a4 = advance-Ahead _ 16 o.to_device_id _ v.receiver a3 in
      let a5 = advance-Ahead _ 8 (to_be 8 o.size) _ (length-to_be 8 o.size) a4 in
      let a6 = advance-Ahead _ 32 o.sha256 _ v.hash a5 in
      let a7 = advance-Ahead _ 4 (to_be 4 o.chunk_bytes) _ (length-to_be 4 o.chunk_bytes) a6 in
      let a8 = advance-Ahead _ 8 (to_be 8 o.ts_ms) _ (length-to_be 8 o.ts_ms) a7 in
      let b8 = advance-Ahead _ 1 (reply_len ∷ []) _ refl a8 in
      let a9 = advance-Ahead _ reply_len (as_bytes o.reply_to) _ refl b8 in
      let a10 = advance-Ahead _ 2 (to_be 2 name_len) _ (length-to_be 2 name_len) a9 in
      let a11 = advance-Ahead _ name_len (as_bytes o.name) _ refl a10 in
      let (s, (read, rest)) = read_direct-Ahead _ o.direct [] direct v.addrs a11 in
      let fits : ltb max_name_bytes name_len ≡ false = le→ltb _ _ named in
      let sized : (o.chunk_bytes == 0 || ltb chunk_bytes_max o.chunk_bytes) ≡ false =
        sized_lem o.chunk_bytes some_bytes few in
      rw
        (
          verified,
          bare,
          version-Ahead _ _ a0,
          read_bytes-Ahead _ 16 o.offer_id _ v.id a1,
          read_bytes-Ahead _ 16 o.from_device_id _ v.sender a2,
          read_bytes-Ahead _ 16 o.to_device_id _ v.receiver a3,
          read_be-Ahead _ 8 o.size _ (omega (arith, v.bytes)) a4,
          read_bytes-Ahead _ 32 o.sha256 _ v.hash a5,
          read_be-Ahead _ 4 o.chunk_bytes _ (omega (arith, few)) a6,
          read_be-Ahead _ 8 o.ts_ms _ (omega (arith, v.time)) a7,
          read_text-Ahead _ o.reply_to _ v.reply short a8,
          read_be-Ahead _ 2 name_len _ (omega (arith, named)) a9,
          fits,
          read_bytes-Ahead _ name_len (as_bytes o.name) _ refl a10,
          from_utf8-as_bytes o.name v.named,
          read,
          done-Ahead s rest,
          sized,
        )
        refl

  -- An offer that its device encoded and signed for a room decodes to that offer under the key of
  -- that device, its addresses included. Its fields have their lengths, and its pieces between
  -- one byte and 256 KiB.
  pub decode_offer-encode_offer :
      (o : Offer) (keys : DeviceKeys) (room body : List ℕ)
      → IsOffer o
      → 0 < o.chunk_bytes
      → o.chunk_bytes ≤ chunk_bytes_max
      → encode_offer crypto o keys room ≡ ok body
      → decode_offer crypto body room (sign_pub crypto keys) ≡ ok o
  decode_offer-encode_offer o keys room body v some_bytes few e =
      let (shape, named, short, direct) = encode_offer-fields o keys room body e in
      rw shape (
        decode_offer-parts o _ room (sign_pub crypto keys) v named short direct some_bytes few
          (verify-sign crypto keys label_offer room (fields o))
          (unsigned-sign crypto keys label_offer room (fields o)))
