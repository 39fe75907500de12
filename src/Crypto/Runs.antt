-- ===== src/Crypto/Runs.antt =====
-- Concrete cards, boxes and announcements, and the theorems at concrete inputs.
use asli.Crypto.Device.{sign}
use asli.Prelude.Utf8.{as_bytes}
use asli.Crypto.Fields.{write_text}
use asli.Crypto.Device.{sign_pub}
use asli.Prelude.Bytes.{same_bytes}
use asli.Prelude.{ℕ, ◌≡◌, refl, List, [], ◌∷◌, ◌++◌, arith, replicate, take, length, ◌-◌}
use asli.Prelude.Bytes.{to_be}
use asli.Crypto.Error.{ok, ◌>>◌}
use asli.Crypto.Primitives.{constant}
use asli.Crypto.Device.{DeviceKeys, box_pub, seal_box_with}
use asli.Crypto.Auth.{verify_signature}
use asli.Crypto.Card.{Card, encode, decode, signed_bytes, label_card}
use asli.Crypto.Card.Signed.{IsValid, decode-encode_card}
use asli.Crypto.Announce.{Announce, plaintext_len}
use asli.Crypto.Announce as Announce
use asli.Crypto.Announce.Labels as Labels

abbrev keys : DeviceKeys
keys = record { secret = replicate 32 1; signing_key = replicate 32 2; box_secret = replicate 32 3 }

abbrev room : List ℕ
room = replicate 16 9

abbrev shown : Card
shown = record {
  device_id = replicate 16 1;
  sign_pub = replicate 32 0;
  box_pub = replicate 32 0;
  ts_ms = 1000;
  conn_id = b'c' ∷ [];
  name = 233 ∷ [];
  os = [];
}

abbrev body : List ℕ
body =
    1
    ∷ (replicate 16 1
        ++ (replicate 64 0 ++ (to_be 8 1000 ++ (1 ∷ b'c' ∷ 2 ∷ 195 ∷ 169 ∷ 0 ∷ replicate 64 0))))

shown-IsValid : IsValid shown
shown-IsValid = record {
  id = record { size = refl; bytes = ground arith };
  signs = record { size = refl; bytes = ground arith };
  boxes = record { size = refl; bytes = ground arith };
  time = omega arith;
  conn_id = ground arith;
  name = ground arith;
  os = tt;
}

made : encode constant shown keys room ≡ ok body
unfolding encode same_bytes sign_pub box_pub write_text as_bytes to_be sign
made = refl

decode-encode_card_example :
    (decode constant body room ≡ ok shown)
    × (decode constant (take (length body - 64) body ++ replicate 64 9) room ≡ (
        verify_signature constant.sha constant.ed shown.sign_pub
          (signed_bytes label_card room (take (length body - 64) body))
          (replicate 64 9)
        >> ok shown))
decode-encode_card_example =
    decode-encode_card constant shown keys room body (replicate 64 9) shown-IsValid refl made

abbrev nonce : List ℕ
nonce = replicate 24 5

abbrev hidden : List ℕ
hidden = replicate 33 1

boxed :
    seal_box_with constant (replicate 32 4) nonce (box_pub constant keys) room hidden
    ≡ ok (replicate 32 0 ++ (nonce ++ hidden))
unfolding seal_box_with
boxed = refl

abbrev named : Announce
named = record {
  device_id = replicate 16 1;
  ts_ms = 1000;
  name = 233 ∷ [];
  os = b'm' ∷ b'a' ∷ b'c' ∷ [];
}

abbrev plaintext : List ℕ
plaintext =
    1 ∷ 16 ∷ replicate 16 1
    ++ (to_be 8 1000 ++ (2 ∷ 195 ∷ 169 ∷ 3 ∷ b'm' ∷ b'a' ∷ b'c' ∷ replicate 223 0))

named-IsValid : Labels.IsValid named
named-IsValid = record {
  id = record { size = refl; bytes = ground arith };
  time = omega arith;
  name = ground arith;
  os = ground arith;
}

encoded : Announce.encode named ≡ ok plaintext
unfolding Announce.encode as_bytes to_be
encoded = refl
