-- ===== src/Crypto/Token/Parsing.antt =====
-- Parsing a token that was rendered, and what every accepted text is.
use asli.Prelude.{
  ℕ, ◌≡◌, refl, ap, arith, List, [], ◌∷◌, ◌++◌, length, length-append, length-take, All-take, take,
  drop, All, All-append, IsByte,
}
use asli.Prelude.Text.{is_whitespace, trim, trim_start, trim_end}
use asli.Prelude.Bytes.{same_bytes_self, byte_at, IsArray, take-append_of, drop-append_of}
use asli.Crypto.Error.{ok}
use asli.Crypto.Base32
use asli.Crypto.Base32.Symbols.{Visible, symbol-Visible, encode-All, length-encode}
use asli.Crypto.Base32.RoundTrip.{decode-encode}
use asli.Crypto.Token.{
  Sha256, token_version, token_chars, checksum, encode, parse, parse_body,
  strip_prefix_ignore_ascii_case, eq_ignore_ascii_case, label_join_check,
}

trim_end-Visible : (cs : List ℕ) → All Visible cs → trim_end cs ≡ cs
unfolding trim_end Visible
trim_end-Visible [] h = refl
trim_end-Visible (c ∷ []) (h, k) = rw h refl
trim_end-Visible (c ∷ d ∷ ds) (h, hs) = rw (trim_end-Visible (d ∷ ds) hs) refl

trim-Visible : (cs : List ℕ) → All Visible cs → trim cs ≡ cs
unfolding trim trim_start Visible
trim-Visible [] h = refl
trim-Visible (c ∷ cs) (h, hs) = rw h (trim_end-Visible (c ∷ cs) (h, hs))

module _ (sha : Sha256) where
  open sha use {digest, digest-IsArray}

  token-Visible : (secret : List ℕ) → All Visible (encode sha secret)
  unfolding encode Visible is_whitespace
  token-Visible secret =
      (refl, (refl, (refl, (refl, (refl, (refl, encode-All Visible symbol-Visible _))))))

  checksum-IsArray : (payload : List ℕ) → IsArray 3 (checksum sha payload)
  unfolding checksum
  checksum-IsArray payload =
      let d = digest-IsArray (label_join_check ++ payload) in
      record {
        size = length-take 3 (digest (label_join_check ++ payload)) (omega (arith, d.size));
        bytes = All-take IsByte 3 (digest (label_join_check ++ payload)) d.bytes;
      }

  -- A body that decodes to a payload with its checksum gives the secret of the payload.
  parse_body-accepts :
      (body secret : List ℕ)
      → IsArray 32 secret
      → Base32.decode body ≡ ok (token_version ∷ secret ++ checksum sha (token_version ∷ secret))
      → parse_body sha body ≡ ok secret
  unfolding parse_body byte_at
  parse_body-accepts body secret s e =
      let payload = token_version ∷ secret in
      let c = checksum-IsArray payload in
      let n : length (payload ++ checksum sha payload) ≡ 36 =
        omega (arith, length-append payload (checksum sha payload), c.size, s.size) in
      let p : take 33 (payload ++ checksum sha payload) ≡ payload =
        take-append_of 33 payload _ (omega (arith, s.size)) in
      let q : drop 33 (payload ++ checksum sha payload) ≡ checksum sha payload =
        drop-append_of 33 payload _ (omega (arith, s.size)) in
      rw (e, n, p, q, same_bytes_self (checksum sha payload))
        (ap ok (take-append_of 32 secret (checksum sha payload) s.size))

  -- Parsing the token of a secret gives the secret back.
  pub parse-encode :
      (secret : List ℕ) → IsArray 32 secret → parse sha (encode sha secret) ≡ ok secret
  unfolding parse encode strip_prefix_ignore_ascii_case eq_ignore_ascii_case
  parse-encode secret s =
      let payload = token_version ∷ secret in
      let c = checksum-IsArray payload in
      let t : trim (encode sha secret) ≡ encode sha secret =
        trim-Visible (encode sha secret) (token-Visible secret) in
      let b = All-append IsByte payload (checksum sha payload) (omega arith, s.bytes) c.bytes in
      let e = parse_body-accepts _ secret s (decode-encode (payload ++ checksum sha payload) b) in
      rw t e

  -- A token has 64 characters, as the source's constant says.
  pub length-encode_token :
      (secret : List ℕ) → IsArray 32 secret → length (encode sha secret) ≡ token_chars
  unfolding encode
  length-encode_token secret s =
      let payload = token_version ∷ secret in
      let c = checksum-IsArray payload in
      omega (
        arith,
        length-encode (payload ++ checksum sha payload),
        length-append payload (checksum sha payload),
        c.size,
        s.size,
      )
