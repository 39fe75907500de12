-- ===== src/Crypto/Enroll.antt =====
-- crates/asli-crypto/src/enroll.rs: the join code, and the request, the grant and the refusal that
-- follow it. A text is its characters; the generator's answers are arguments.
pub mod Messages
pub mod Genuine
pub mod Granting
mod Runs
pub mod Codes
use asli.Prelude.{
  ℕ, zero, suc, ◌+◌, ◌-◌, ◌/◌, ◌%◌, ◌==◌, ltb, not, ◌||◌, ◌&&◌, Bool, true, false, if◌then◌else◌,
  List, [], ◌∷◌, ◌++◌, Option, length, take, drop,
}
use asli.Prelude.Text.{is_whitespace}
use asli.Prelude.Utf8.{as_bytes}
use asli.Prelude.Bytes.{same_bytes, byte_at, slice, from_be}
use asli.Crypto.Error as Error
use asli.Crypto.Error.{
  Result, ok, err, ◌>>=◌, ◌>>◌, refuse_if, ok_or, rng, inner_malformed, bad_public_key,
  bad_signature, announce_field, token_alphabet, token_length, token_checksum,
}
use asli.Crypto.Base32 as Base32
use asli.Crypto.Token.{strip_prefix_ignore_ascii_case, key_len}
use asli.Crypto.Primitives.{Primitives}
use asli.Crypto.Device.{DeviceKeys, sign_pub, box_pub, open_box, seal_box}
use asli.Crypto.Identity.{Identity, from_secret}
use asli.Crypto.Card.{signature_len}
use asli.Crypto.Signing.{sign, verify}
use asli.Crypto.Fields.{
  Reader, reader, write_bytes, write_u8, write_u64, write_text, write_blob, read_bytes, read_be,
  read_text, read_blob, done, version, write_texts, read_texts, read_u8,
}

-- "asli2_"
abbrev pub code_prefix : List ℕ
code_prefix = b'a' ∷ b's' ∷ b'l' ∷ b'i' ∷ b'2' ∷ b'_' ∷ []

abbrev pub code_version : ℕ
code_version = 2

abbrev pub meeting_secret_len : ℕ
meeting_secret_len = 12

abbrev pub fingerprint_len : ℕ
fingerprint_len = 6

abbrev pub checksum_len : ℕ
checksum_len = 3

abbrev pub code_body_chars : ℕ
code_body_chars = 36

abbrev pub request_id_len : ℕ
request_id_len = 16

-- "asli/v2/approver"
abbrev pub label_fingerprint : List ℕ
label_fingerprint =
    b'a' ∷ b's' ∷ b'l' ∷ b'i' ∷ b'/' ∷ b'v' ∷ b'2' ∷ b'/' ∷ b'a' ∷ b'p' ∷ b'p' ∷ b'r' ∷ b'o' ∷ b'v'
    ∷ b'e' ∷ b'r' ∷ []

-- "asli/v2/join-check"
abbrev pub label_check : List ℕ
label_check =
    b'a' ∷ b's' ∷ b'l' ∷ b'i' ∷ b'/' ∷ b'v' ∷ b'2' ∷ b'/' ∷ b'j' ∷ b'o' ∷ b'i' ∷ b'n' ∷ b'-' ∷ b'c'
    ∷ b'h' ∷ b'e' ∷ b'c' ∷ b'k' ∷ []

-- "asli/v2/enroll-salt"
abbrev pub label_enroll_salt : List ℕ
label_enroll_salt =
    b'a' ∷ b's' ∷ b'l' ∷ b'i' ∷ b'/' ∷ b'v' ∷ b'2' ∷ b'/' ∷ b'e' ∷ b'n' ∷ b'r' ∷ b'o' ∷ b'l' ∷ b'l'
    ∷ b'-' ∷ b's' ∷ b'a' ∷ b'l' ∷ b't' ∷ []

-- "asli/v2/enroll"
abbrev pub label_enroll : List ℕ
label_enroll =
    b'a' ∷ b's' ∷ b'l' ∷ b'i' ∷ b'/' ∷ b'v' ∷ b'2' ∷ b'/' ∷ b'e' ∷ b'n' ∷ b'r' ∷ b'o' ∷ b'l' ∷ b'l'
    ∷ []

-- "asli/v2/compare"
abbrev pub label_compare : List ℕ
label_compare =
    b'a' ∷ b's' ∷ b'l' ∷ b'i' ∷ b'/' ∷ b'v' ∷ b'2' ∷ b'/' ∷ b'c' ∷ b'o' ∷ b'm' ∷ b'p' ∷ b'a' ∷ b'r'
    ∷ b'e' ∷ []

-- "asli/v2/join-direct"
abbrev pub label_join_direct : List ℕ
label_join_direct =
    b'a' ∷ b's' ∷ b'l' ∷ b'i' ∷ b'/' ∷ b'v' ∷ b'2' ∷ b'/' ∷ b'j' ∷ b'o' ∷ b'i' ∷ b'n' ∷ b'-' ∷ b'd'
    ∷ b'i' ∷ b'r' ∷ b'e' ∷ b'c' ∷ b't' ∷ []

-- "asli/v2/join-request"
abbrev pub label_request : List ℕ
label_request =
    b'a' ∷ b's' ∷ b'l' ∷ b'i' ∷ b'/' ∷ b'v' ∷ b'2' ∷ b'/' ∷ b'j' ∷ b'o' ∷ b'i' ∷ b'n' ∷ b'-' ∷ b'r'
    ∷ b'e' ∷ b'q' ∷ b'u' ∷ b'e' ∷ b's' ∷ b't' ∷ []

-- "asli/v2/join-grant"
abbrev pub label_grant : List ℕ
label_grant =
    b'a' ∷ b's' ∷ b'l' ∷ b'i' ∷ b'/' ∷ b'v' ∷ b'2' ∷ b'/' ∷ b'j' ∷ b'o' ∷ b'i' ∷ b'n' ∷ b'-' ∷ b'g'
    ∷ b'r' ∷ b'a' ∷ b'n' ∷ b't' ∷ []

-- "asli/v2/join-decline"
abbrev pub label_decline : List ℕ
label_decline =
    b'a' ∷ b's' ∷ b'l' ∷ b'i' ∷ b'/' ∷ b'v' ∷ b'2' ∷ b'/' ∷ b'j' ∷ b'o' ∷ b'i' ∷ b'n' ∷ b'-' ∷ b'd'
    ∷ b'e' ∷ b'c' ∷ b'l' ∷ b'i' ∷ b'n' ∷ b'e' ∷ []

pub record JoinCode : Type 0 where
  pub meeting_secret : List ℕ
  pub approver_fingerprint : List ℕ

pub record JoinRequest : Type 0 where
  pub request_id : List ℕ
  pub device_id : List ℕ
  pub sign_pub : List ℕ
  pub box_pub : List ℕ
  pub ts_ms : ℕ
  pub name : List ℕ
  pub os : List ℕ

pub record Granted : Type 0 where
  pub secret : List ℕ
  pub never_exported : Bool

-- The filter of `parse`: neither white space nor a dash stays.
unfoldable pub compact : List ℕ → List ℕ
compact [] = []
compact (c ∷ cs) =
    let rest = compact cs in if not (is_whitespace c) && not (c == b'-') then c ∷ rest else rest

-- `map_err` on a decoding.
unfoldable pub alphabet : Result (List ℕ) → Result (List ℕ)
alphabet (ok bytes) = ok bytes
alphabet (err failure) = err token_alphabet

-- The last `n` decimal digits of a number, as `{value:06}` has them.
unfoldable pub digits : ℕ → ℕ → List ℕ
digits zero value = []
digits (suc n) value = digits n (value / 10) ++ ((b'0' + value % 10) ∷ [])

module _ (crypto : Primitives) where
  unfoldable pub fingerprint : List ℕ → List ℕ
  fingerprint sign_pub = take fingerprint_len (crypto.sha.digest (label_fingerprint ++ sign_pub))

  unfoldable pub checksum : List ℕ → List ℕ
  checksum payload = take checksum_len (crypto.sha.digest (label_check ++ payload))

  unfoldable pub generate : Option (List ℕ) → DeviceKeys → Result JoinCode
  unfolding fingerprint
  generate random approver = do
    meeting_secret ← ok_or random rng
    ok (record {
      meeting_secret = meeting_secret;
      approver_fingerprint = fingerprint (sign_pub crypto approver);
    })

  unfoldable pub encode_code : JoinCode → List ℕ
  unfolding checksum
  encode_code c =
      let payload = code_version ∷ c.meeting_secret ++ c.approver_fingerprint in
      code_prefix ++ Base32.encode (payload ++ checksum payload)

  -- `parse` after the prefix.
  unfoldable pub parse_code_body : List ℕ → Result JoinCode
  unfolding checksum alphabet
  parse_code_body body = do
    refuse_if (not (length (as_bytes body) == code_body_chars)) token_length
    decoded ← alphabet (Base32.decode body)
    refuse_if (not (length decoded == 1 + meeting_secret_len + fingerprint_len + checksum_len))
        token_length
    refuse_if (not (byte_at 0 decoded == code_version)) (Error.token_version (byte_at 0 decoded))
    let split = length decoded - checksum_len
    refuse_if (not (same_bytes (checksum (take split decoded)) (drop split decoded))) token_checksum
    ok (record { meeting_secret = slice 1 12 decoded; approver_fingerprint = slice 13 6 decoded })

  unfoldable pub parse_code : List ℕ → Result JoinCode
  unfolding parse_code_body compact
  parse_code input = do
    body ← ok_or (strip_prefix_ignore_ascii_case (compact input) code_prefix) Error.token_prefix
    parse_code_body body

  unfoldable pub meeting : JoinCode → Identity
  meeting c =
      let prk = crypto.hkdf.extract label_enroll_salt c.meeting_secret in
      from_secret crypto (crypto.hkdf.expand prk label_enroll)

  unfoldable pub direct_key : JoinCode → List ℕ
  direct_key c =
      crypto.hkdf.expand (crypto.hkdf.extract label_enroll_salt c.meeting_secret) label_join_direct

  unfoldable pub made_by : JoinCode → List ℕ → Bool
  unfolding fingerprint
  made_by c sign_pub = same_bytes (fingerprint sign_pub) c.approver_fingerprint

  -- The six digits that both devices show, with a space in the middle.
  unfoldable pub comparison_code : JoinCode → JoinRequest → List ℕ
  unfolding digits
  comparison_code c q =
      let digest =
        crypto.sha.digest
          (label_compare ++ (c.meeting_secret ++ (q.request_id ++ (q.sign_pub ++ q.box_pub)))) in
      let six = digits 6 (from_be (take 4 digest) % 1000000) in take 3 six ++ (b' ' ∷ drop 3 six)
