-- ===== src/Crypto/Base32/Runs.antt =====
-- Encodings of concrete bytes, and the theorems at concrete inputs.
use asli.Prelude.{ℕ, ◌≡◌, refl, arith, List, [], ◌∷◌}
use asli.Crypto.Error.{ok, err, token_alphabet, token_length}
use asli.Crypto.Base32.{symbol, encode, decode}
use asli.Crypto.Base32.RoundTrip.{decode-encode}

abbrev hello : List ℕ
hello = b'h' ∷ b'e' ∷ b'l' ∷ b'l' ∷ b'o' ∷ b'!' ∷ []

hello_encoded :
    encode hello ≡ b'D' ∷ b'1' ∷ b'J' ∷ b'P' ∷ b'R' ∷ b'V' ∷ b'3' ∷ b'F' ∷ b'4' ∷ b'4' ∷ []
unfolding encode symbol
hello_encoded = refl

-- "d-ijp", as retyped by hand.
abbrev retyped : List ℕ
retyped = b'd' ∷ b'-' ∷ b'i' ∷ b'j' ∷ b'p' ∷ []

retyped_decoded : decode (b'd' ∷ b'-' ∷ b'i' ∷ b'j' ∷ b'g' ∷ []) ≡ ok (b'h' ∷ b'e' ∷ [])
unfolding decode
retyped_decoded = refl

cut_off : decode retyped ≡ err token_length
unfolding decode
cut_off = refl

letter_u : decode (b'D' ∷ b'U' ∷ []) ≡ err token_alphabet
unfolding decode
letter_u = refl

decode-encode_example : decode (encode hello) ≡ ok hello
decode-encode_example = decode-encode hello (omega arith)
