-- ===== src/Crypto/Offer/Runs.antt =====
-- A concrete offer and goodbye, and the theorems at concrete inputs.
use asli.Crypto.Device as Device
use asli.Crypto.Signing.{sign}
use asli.Prelude.Utf8.{as_bytes}
use asli.Prelude.{ℕ, ◌≡◌, refl, List, [], ◌∷◌, ◌++◌, some, replicate, arith}
use asli.Prelude.Bytes.{to_be}
use asli.Crypto.Error.{ok}
use asli.Crypto.Primitives.{constant}
use asli.Crypto.Device.{DeviceKeys, sign_pub}
use asli.Crypto.Offer.{Offer, encode_offer, decode_offer}
use asli.Crypto.Offer.Addresses.{HasScalars}
use asli.Crypto.Offer.Signed.{IsOffer, decode_offer-encode_offer}

abbrev keys : DeviceKeys
keys = record { secret = replicate 32 1; signing_key = replicate 32 2; box_secret = replicate 32 3 }

abbrev room : List ℕ
room = replicate 16 4

abbrev offer : Offer
offer = record {
  offer_id = replicate 16 1;
  from_device_id = replicate 16 2;
  to_device_id = replicate 16 3;
  size = 600000;
  sha256 = replicate 32 4;
  chunk_bytes = 262144;
  ts_ms = 1000;
  reply_to = b'c' ∷ [];
  name = 233 ∷ [];
  direct = some (record { addrs = (b'a' ∷ []) ∷ (b'b' ∷ []) ∷ []; sealed_key = 7 ∷ 8 ∷ [] });
}

offer-IsOffer : IsOffer offer
unfolding HasScalars
offer-IsOffer = record {
  id = refl;
  sender = refl;
  receiver = refl;
  bytes = omega arith;
  hash = refl;
  time = omega arith;
  reply = ground arith;
  named = ground arith;
  addrs = ground arith;
}

abbrev body : List ℕ
body =
    (1 ∷ replicate 16 1)
    ++ (replicate 16 2
        ++ (replicate 16 3
            ++ (to_be 8 600000
                ++ (replicate 32 4
                    ++ (to_be 4 262144
                        ++ (to_be 8 1000
                            ++ ((1 ∷ b'c' ∷ 0 ∷ 2 ∷ 195 ∷ 169 ∷ 2 ∷ 1 ∷ b'a' ∷ 1 ∷ b'b' ∷ 0 ∷ 0 ∷ 0
                                  ∷ 2 ∷ 7 ∷ 8 ∷ [])
                                ++ replicate 64 0)))))))

made : encode_offer constant offer keys room ≡ ok body
unfolding encode_offer as_bytes sign Device.sign to_be
made = refl

decode_offer-encode_offer_example :
    decode_offer constant body room (sign_pub constant keys) ≡ ok offer
decode_offer-encode_offer_example =
    decode_offer-encode_offer constant offer keys room body offer-IsOffer (omega arith)
      (omega arith) made
