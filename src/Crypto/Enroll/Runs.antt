-- ===== src/Crypto/Enroll/Runs.antt =====
-- A concrete join, and the theorems at concrete inputs.
use asli.Crypto.Device.{open_box}
use asli.Crypto.Auth.{verify_signature}
use asli.Crypto.Signing.{verify}
use asli.Prelude.Bytes.{same_bytes}
use asli.Crypto.Fields.{done}
use asli.Prelude.Bytes.{from_be}
use asli.Crypto.Fields.{read_be}
use asli.Crypto.Fields.{read_blob}
use asli.Prelude.Bytes.{slice}
use asli.Prelude.Bytes.{byte_at}
use asli.Crypto.Fields.{read_bytes}
use asli.Crypto.Fields.{read_u8}
use asli.Crypto.Fields.{version}
use asli.Crypto.Device.{box_pub}
use asli.Crypto.Device as Device
use asli.Prelude.Bytes.{to_be}
use asli.Crypto.Device.{sign_pub}
use asli.Crypto.Signing.{sign}
use asli.Crypto.Fields.{write_blob}
use asli.Crypto.Device.{seal_box}
use asli.Prelude.{ℕ, ◌≡◌, refl, List, [], ◌∷◌, ◌++◌, Option, some, true, replicate, arith, length}
use asli.Crypto.Error.{ok}
use asli.Crypto.Aead.{tagged, tagged-IsTagged}
use asli.Crypto.Primitives.{Primitives, constant}
use asli.Crypto.Device.{DeviceKeys}
use asli.Crypto.Enroll.{JoinCode, JoinRequest, generate, encode_code, parse_code}
use asli.Crypto.Enroll.Messages.{grant, open_grant}
use asli.Crypto.Enroll.Codes.{parse_code-encode_code}
use asli.Crypto.Enroll.Granting.{open_grant-grant}
use asli.Crypto.Enroll.Genuine.{Genuine, open_grant-Genuine}

abbrev crypto : Primitives
crypto = record constant { aead = tagged }

abbrev keys : DeviceKeys
keys = record { secret = replicate 32 1; signing_key = replicate 32 2; box_secret = replicate 32 3 }

abbrev code : JoinCode
code = record { meeting_secret = replicate 12 7; approver_fingerprint = replicate 6 0 }

abbrev request : JoinRequest
request = record {
  request_id = replicate 16 5;
  device_id = replicate 16 6;
  sign_pub = replicate 32 0;
  box_pub = replicate 32 0;
  ts_ms = 1000;
  name = b'x' ∷ [];
  os = [];
}

abbrev secret : List ℕ
secret = replicate 32 9

abbrev room : List ℕ
room = replicate 16 4

generated : generate crypto (some (replicate 12 7)) keys ≡ ok code
unfolding generate
generated = refl

abbrev drawn : Option (List ℕ)
drawn = some (replicate 24 8)

drawn-length : (nonce : List ℕ) → drawn ≡ some nonce → length nonce ≡ 24
drawn-length nonce e = let same : replicate 24 8 ≡ nonce = ground arith in rw (← same) refl

abbrev body : List ℕ
body =
    ((((1 ∷ replicate 16 5) ++ replicate 32 0) ++ replicate 32 0)
      ++ ((0 ∷ 0 ∷ 0 ∷ 106 ∷ [])
          ++ (replicate 32 0 ++ (replicate 24 8 ++ ((1 ∷ secret ++ (1 ∷ [])) ++ replicate 16 0)))))
    ++ replicate 64 0

granted : grant crypto (some (replicate 32 1)) drawn keys room request secret true ≡ ok body
unfolding grant seal_box write_blob sign Device.sign sign_pub to_be
granted = refl

parse_code-encode_code_example : parse_code crypto (encode_code crypto code) ≡ ok code
parse_code-encode_code_example =
    parse_code-encode_code crypto code (record { size = refl; bytes = ground arith })
      (record { size = refl; bytes = ground arith })

open_grant-grant_example :
    open_grant crypto code room keys (replicate 16 5) body
    ≡ ok (record { secret = secret; never_exported = true })
unfolding sign_pub box_pub
open_grant-grant_example =
    open_grant-grant crypto (some (replicate 12 7)) (some (replicate 32 1)) drawn keys keys code
      room request secret true body tagged-IsTagged drawn-length generated refl refl refl refl
      granted

opened :
    open_grant crypto code room keys (replicate 16 5) body
    ≡ ok (record { secret = secret; never_exported = true })
unfolding open_grant version read_u8 read_bytes byte_at slice read_blob read_be from_be done
    same_bytes sign_pub verify verify_signature open_box
opened = refl

open_grant-Genuine_example : Genuine crypto code room keys (replicate 16 5) body
open_grant-Genuine_example = open_grant-Genuine crypto code room keys (replicate 16 5) body _ opened
