-- ===== src/Crypto/Enroll/Codes.antt =====
-- crates/asli-crypto/src/enroll.rs: join codes back from their text.
use asli.Prelude.{
  ℕ, suc, ◌<◌, ◌≡◌, refl, ap, arith, not, ◌&&◌, ◌==◌, true, false, Bool, List, [], ◌∷◌, ◌++◌,
  length, length-append, append_assoc, length-take, All-take, take, drop, All, All-append, IsByte,
  ltb,
}
use asli.Prelude.Text.{is_whitespace}
use asli.Prelude.Utf8.{as_bytes, encode_char}
use asli.Prelude.Bytes.{IsArray, same_bytes_self, byte_at, slice, take-append_of, drop-append_of}
use asli.Crypto.Error.{ok}
use asli.Crypto.Base32
use asli.Crypto.Base32.Symbols.{encode-All, length-encode, every_below, symbol-every}
use asli.Crypto.Base32.RoundTrip.{decode-encode}
use asli.Crypto.Primitives.{Primitives}
use asli.Crypto.Token.{strip_prefix_ignore_ascii_case, eq_ignore_ascii_case}
use asli.Crypto.Enroll.{
  JoinCode, code_version, label_check, compact, alphabet, checksum, encode_code, parse_code,
  parse_code_body,
}

-- A character that `parse` keeps and that UTF-8 has in one byte.
unfoldable is_typed : ℕ → Bool
is_typed c = (not (is_whitespace c) && not (c == b'-')) && ltb c 128

abbrev Typed : ℕ → Type 0
Typed c = is_typed c ≡ true

symbol-Typed : (i : ℕ) → i < 32 → Typed (Base32.symbol i)
unfolding every_below is_typed is_whitespace
symbol-Typed = symbol-every is_typed refl

both : (a b : Bool) → (a && b) ≡ true → (a ≡ true) × (b ≡ true)
both true b h = (refl, h)
both false b h = cc

compact-Typed : (cs : List ℕ) → All Typed cs → compact cs ≡ cs
unfolding compact is_typed
compact-Typed [] h = refl
compact-Typed (c ∷ cs) (h, hs) =
    let (kept, small) = both (not (is_whitespace c) && not (c == b'-')) (ltb c 128) h in
    rw (kept, compact-Typed cs hs) refl

length-as_bytes : (cs : List ℕ) → All Typed cs → length (as_bytes cs) ≡ length cs
unfolding as_bytes is_typed encode_char
length-as_bytes [] h = refl
length-as_bytes (c ∷ cs) (h, hs) =
    let (kept, small) = both (not (is_whitespace c) && not (c == b'-')) (ltb c 128) h in
    rw small (ap suc (length-as_bytes cs hs))

module _ (crypto : Primitives) where
  encode_code-Typed : (c : JoinCode) → All Typed (encode_code crypto c)
  unfolding encode_code is_typed is_whitespace
  encode_code-Typed c =
      (refl, (refl, (refl, (refl, (refl, (refl, encode-All Typed symbol-Typed _))))))

  checksum-IsArray : (payload : List ℕ) → IsArray 3 (checksum crypto payload)
  unfolding checksum
  checksum-IsArray payload =
      let d = crypto.sha.digest-IsArray (label_check ++ payload) in
      record {
        size = length-take 3 (crypto.sha.digest (label_check ++ payload)) (omega (arith, d.size));
        bytes = All-take IsByte 3 (crypto.sha.digest (label_check ++ payload)) d.bytes;
      }

  -- A body of 36 characters that decodes to a payload with its checksum gives the code of the payload.
  parse_code_body-accepts :
      (body : List ℕ) (c : JoinCode)
      → length (as_bytes body) ≡ 36
      → length c.meeting_secret ≡ 12
      → length c.approver_fingerprint ≡ 6
      → Base32.decode body
        ≡ ok (
            (code_version ∷ c.meeting_secret ++ c.approver_fingerprint)
            ++ checksum crypto (code_version ∷ c.meeting_secret ++ c.approver_fingerprint))
      → parse_code_body crypto body ≡ ok c
  unfolding parse_code_body byte_at alphabet slice
  parse_code_body-accepts body c chars s f e =
      let secret = c.meeting_secret in
      let print = c.approver_fingerprint in
      let payload = code_version ∷ secret ++ print in
      let sum = checksum crypto payload in
      let m : length payload ≡ 19 = omega (arith, length-append secret print, s, f) in
      let n : length (payload ++ sum) ≡ 22 =
        omega (arith, length-append payload sum, (checksum-IsArray payload).size, m) in
      let p : take 19 (payload ++ sum) ≡ payload = take-append_of 19 payload sum m in
      let q : drop 19 (payload ++ sum) ≡ sum = drop-append_of 19 payload sum m in
      let first : take 12 ((secret ++ print) ++ sum) ≡ secret =
        rw (append_assoc secret print sum) (take-append_of 12 secret (print ++ sum) s) in
      let second : take 6 (drop 12 ((secret ++ print) ++ sum)) ≡ print =
        rw (append_assoc secret print sum, drop-append_of 12 secret (print ++ sum) s)
          (take-append_of 6 print sum f) in
      rw (chars, e, n, p, q, same_bytes_self sum, first, second) refl

  -- A join code parses back from its text: its secret of 12 bytes and its fingerprint of 6.
  pub parse_code-encode_code :
      (c : JoinCode)
      → IsArray 12 c.meeting_secret
      → IsArray 6 c.approver_fingerprint
      → parse_code crypto (encode_code crypto c) ≡ ok c
  unfolding parse_code encode_code strip_prefix_ignore_ascii_case eq_ignore_ascii_case
  parse_code-encode_code c s f =
      let payload = code_version ∷ c.meeting_secret ++ c.approver_fingerprint in
      let sum = checksum-IsArray payload in
      let whole = payload ++ checksum crypto payload in
      let kept = compact-Typed (encode_code crypto c) (encode_code-Typed c) in
      let bytes : All IsByte whole =
        All-append IsByte payload (checksum crypto payload)
          (omega arith, All-append IsByte c.meeting_secret c.approver_fingerprint s.bytes f.bytes)
          sum.bytes in
      let chars : length (as_bytes (Base32.encode whole)) ≡ 36 = omega (
        arith,
        length-as_bytes (Base32.encode whole) (encode-All Typed symbol-Typed whole),
        length-encode whole,
        length-append payload (checksum crypto payload),
        length-append c.meeting_secret c.approver_fingerprint,
        sum.size,
        s.size,
        f.size,
      ) in
      rw kept (
        parse_code_body-accepts (Base32.encode whole) c chars s.size f.size
          (decode-encode whole bytes))
