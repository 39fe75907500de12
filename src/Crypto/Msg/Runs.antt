-- ===== src/Crypto/Msg/Runs.antt =====
-- Concrete messages, and the theorems at concrete inputs.
use asli.Prelude.{ℕ, ◌≡◌, refl, arith, List, [], ◌∷◌, ◌++◌, some, length, replicate}
use asli.Prelude.Bytes.{to_be, byte_at, from_be, slice}
use asli.Crypto.Error.{ok, err, inner_malformed}
use asli.Crypto.Aead.{transparent}
use asli.Crypto.Msg.{about, code, from_code, frame, any_set, unframe, seal, open_msg}
use asli.Crypto.Msg.Framing.{open_msg-seal}

abbrev body : List ℕ
body = b'h' ∷ b'i' ∷ []

abbrev key : List ℕ
key = replicate 32 4

abbrev room : List ℕ
room = replicate 16 1

abbrev message : List ℕ
message = replicate 16 9

one_block : length (frame about body) ≡ 256
unfolding frame to_be
one_block = refl

unknown_kind : code (from_code 99) ≡ 99
unfolding code from_code
unknown_kind = refl

too_short : unframe body ≡ err inner_malformed
unfolding unframe
too_short = refl

set_padding : unframe (1 ∷ 8 ∷ replicate 253 0 ++ (1 ∷ [])) ≡ err inner_malformed
unfolding unframe any_set byte_at from_be slice
set_padding = refl

open_msg-seal_example :
    (seal transparent (some (replicate 24 3)) key 1 room message (from_code 8) body
      ≡ ok (record { nonce = replicate 24 3; ciphertext = frame (from_code 8) body }))
    × (open_msg transparent key 1 room message (replicate 24 3) (frame (from_code 8) body)
        ≡ ok (from_code 8, body))
open_msg-seal_example =
    open_msg-seal transparent key 1 room message (replicate 24 3) (frame (from_code 8) body) 8 body
      (omega arith) refl
