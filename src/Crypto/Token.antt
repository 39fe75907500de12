-- ===== src/Crypto/Token.antt =====
-- crates/asli-crypto/src/token.rs: the join token. A text is the list of its characters.
pub mod Parsing
pub mod Accepted
pub mod Runs
use asli.Prelude.{
  ℕ, ◌+◌, ◌==◌, leb, if◌then◌else◌, Bool, true, false, not, ◌&&◌, List, [], ◌∷◌, ◌++◌, ◌≡◌, Option,
  none, some, length, take, drop, All,
}
use asli.Prelude.Text.{trim}
use asli.Prelude.Bytes.{same_bytes, byte_at, IsArray}
use asli.Crypto.Error.{Result, ok, err, ◌>>=◌, ◌>>◌, refuse_if, ok_or, token_length, token_checksum}
use asli.Crypto.Error
use asli.Crypto.Base32

-- SHA-256, which the source takes from the crate sha2.
pub record Sha256 : Type 0 where
  pub digest : List ℕ → List ℕ
  -- A digest is an array of 32 bytes.
  pub digest-IsArray : (input : List ℕ) → IsArray 32 (digest input)

abbrev pub key_len : ℕ
key_len = 32

-- "asli1_"
abbrev pub token_prefix : List ℕ
token_prefix = b'a' ∷ b's' ∷ b'l' ∷ b'i' ∷ b'1' ∷ b'_' ∷ []

abbrev pub token_version : ℕ
token_version = 1

-- "asli/v1/join-check"
abbrev pub label_join_check : List ℕ
label_join_check =
    b'a' ∷ b's' ∷ b'l' ∷ b'i' ∷ b'/' ∷ b'v' ∷ b'1' ∷ b'/' ∷ b'j' ∷ b'o' ∷ b'i' ∷ b'n' ∷ b'-' ∷ b'c'
    ∷ b'h' ∷ b'e' ∷ b'c' ∷ b'k' ∷ []

abbrev pub checksum_len : ℕ
checksum_len = 3

abbrev pub token_body_chars : ℕ
token_body_chars = 58

abbrev pub token_chars : ℕ
token_chars = length token_prefix + token_body_chars

-- `to_ascii_lowercase`
abbrev lower : ℕ → ℕ
lower c = if leb b'A' c && leb c b'Z' then c + 32 else c

unfoldable pub eq_ignore_ascii_case : List ℕ → List ℕ → Bool
eq_ignore_ascii_case [] [] = true
eq_ignore_ascii_case [] (d ∷ ds) = false
eq_ignore_ascii_case (c ∷ cs) [] = false
eq_ignore_ascii_case (c ∷ cs) (d ∷ ds) = lower c == lower d && eq_ignore_ascii_case cs ds

unfoldable pub strip_prefix_ignore_ascii_case : List ℕ → List ℕ → Option (List ℕ)
unfolding eq_ignore_ascii_case
strip_prefix_ignore_ascii_case input prefix =
    if eq_ignore_ascii_case (take (length prefix) input) prefix
    then some (drop (length prefix) input)
    else none

module _ (sha : Sha256) where
  open sha use {digest}

  unfoldable pub checksum : List ℕ → List ℕ
  checksum payload = take checksum_len (digest (label_join_check ++ payload))

  unfoldable pub encode : List ℕ → List ℕ
  unfolding checksum
  encode secret =
      let payload = token_version ∷ secret in
      token_prefix ++ Base32.encode (payload ++ checksum payload)

  -- `parse` after the prefix.
  unfoldable pub parse_body : List ℕ → Result (List ℕ)
  unfolding checksum same_bytes
  parse_body body = do
    decoded ← Base32.decode body
    refuse_if (not (length decoded == 1 + key_len + checksum_len)) token_length
    let version = byte_at 0 decoded
    refuse_if (not (version == token_version)) (Error.token_version version)
    let payload = take (1 + key_len) decoded
    let sum = drop (1 + key_len) decoded
    refuse_if (not (same_bytes (checksum payload) sum)) token_checksum
    ok (drop 1 payload)

  unfoldable pub parse : List ℕ → Result (List ℕ)
  unfolding parse_body strip_prefix_ignore_ascii_case
  parse input = do
    body ← ok_or (strip_prefix_ignore_ascii_case (trim input) token_prefix) Error.token_prefix
    parse_body body
