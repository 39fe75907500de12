-- ===== src/Crypto/Clip/Runs.antt =====
-- Concrete clips, and the theorems at concrete inputs.
use asli.Prelude.{ℕ, ◌≤◌, ◌≡◌, refl, arith, List, [], ◌∷◌, length, some}
use asli.Prelude.Bytes.{to_be, byte_at, IsArray}
use asli.Crypto.Error.{ok, err, inner_version, inner_malformed}
use asli.Crypto.Aead.{transparent}
use asli.Crypto.Clip.{Inner, text, code, padded_len, encode_inner, decode_inner, seal, open_clip}
use asli.Crypto.Clip.Layout.{IsValid}
use asli.Crypto.Clip.Sealing.{open_clip-seal}

abbrev sixteen : ℕ → List ℕ
sixteen b = b ∷ b ∷ b ∷ b ∷ b ∷ b ∷ b ∷ b ∷ b ∷ b ∷ b ∷ b ∷ b ∷ b ∷ b ∷ b ∷ []

abbrev hello : Inner
hello = record {
  content_type = text;
  device_id = sixteen 7;
  seq = 300;
  ts_ms = 1700000000000;
  content = b'h' ∷ b'i' ∷ [];
}

hello-IsValid : IsValid hello
hello-IsValid = omega arith

one_bucket : length (encode_inner hello) ≡ 256
unfolding encode_inner padded_len to_be code
one_bucket = refl

large_bucket : padded_len 65537 ≡ 131072
unfolding padded_len
large_bucket = refl

wrong_version : decode_inner (9 ∷ encode_inner hello) ≡ err (inner_version 9)
unfolding encode_inner decode_inner padded_len to_be code byte_at
wrong_version = refl

too_short : decode_inner (sixteen 1) ≡ err inner_malformed
unfolding decode_inner
too_short = refl

sixteen-IsArray : (b : ℕ) → b ≤ 255 → IsArray 16 (sixteen b)
sixteen-IsArray b h = record { size = refl; bytes = omega arith }

open_clip-seal_example :
    (seal transparent (some (sixteen 3)) (sixteen 4) 1 (sixteen 1) (sixteen 9) hello
      ≡ ok (record { nonce = sixteen 3; ciphertext = encode_inner hello }))
    × (open_clip transparent (sixteen 4) 1 (sixteen 1) (sixteen 9) (sixteen 3) (encode_inner hello)
        ≡ ok hello)
open_clip-seal_example =
    open_clip-seal transparent (sixteen 4) 1 (sixteen 1) (sixteen 9) (sixteen 3)
      (encode_inner hello) hello hello-IsValid refl
