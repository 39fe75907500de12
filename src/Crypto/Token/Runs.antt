-- ===== src/Crypto/Token/Runs.antt =====
-- Tokens of a concrete secret, and the theorems at concrete inputs.
use asli.Prelude.{ℕ, ◌≡◌, refl, arith, List, [], ◌∷◌, ◌++◌, some, length, replicate}
use asli.Prelude.Text.{trim}
use asli.Prelude.Bytes.{IsArray}
use asli.Crypto.Error
use asli.Crypto.Error.{ok, err, token_length}
use asli.Crypto.Base32
use asli.Crypto.Token.{
  Sha256, token_prefix, token_version, checksum, encode, parse, strip_prefix_ignore_ascii_case,
}
use asli.Crypto.Token.Parsing.{parse-encode}
use asli.Crypto.Token.Accepted.{parse-Accepted}

-- A digest of the right size, to show that the law can hold.
abbrev constant : Sha256
constant = record {
  digest = λ input. replicate 32 7;
  digest-IsArray = λ input. record { size = refl; bytes = omega arith };
}

abbrev secret : List ℕ
secret = replicate 32 200

secret-IsArray : IsArray 32 secret
secret-IsArray = record { size = refl; bytes = omega arith }

no_prefix : parse constant (b'h' ∷ b'i' ∷ []) ≡ err Error.token_prefix
unfolding parse trim
no_prefix = refl

no_body : parse constant (b' ' ∷ token_prefix) ≡ err token_length
unfolding parse trim Base32.decode
no_body = refl

parse-Accepted_example :
    (body : List ℕ) × (strip_prefix_ignore_ascii_case (trim (encode constant secret)) token_prefix
      ≡ some body)
    × (length secret ≡ 32)
    × (Base32.decode body
        ≡ ok (token_version ∷ secret ++ checksum constant (token_version ∷ secret)))
parse-Accepted_example =
    parse-Accepted constant (encode constant secret) secret
      (parse-encode constant secret secret-IsArray)
