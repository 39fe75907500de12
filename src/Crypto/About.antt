-- ===== src/Crypto/About.antt =====
-- crates/asli-crypto/src/about.rs: what a device says of the Asli it runs, and its goodbye.
pub mod Signed
use asli.Prelude.{ℕ, ◌-◌, ◌==◌, if◌then◌else◌, Bool, true, false, List, [], ◌∷◌, length, take}
use asli.Prelude.Bytes.{to_be}
use asli.Crypto.Error.{Result, ok, err, ◌>>=◌, ◌>>◌, inner_malformed}
use asli.Crypto.Primitives.{Primitives}
use asli.Crypto.Device.{DeviceKeys}
use asli.Crypto.Card.{signature_len}
use asli.Crypto.Signing.{sign, verify}
use asli.Crypto.Fields.{
  reader, write_bytes, write_u8, write_u64, write_text, read_bytes, read_u8, read_be, read_text,
  done, version,
}

-- "asli/v2/about"
abbrev pub label_about : List ℕ
label_about =
    b'a' ∷ b's' ∷ b'l' ∷ b'i' ∷ b'/' ∷ b'v' ∷ b'2' ∷ b'/' ∷ b'a' ∷ b'b' ∷ b'o' ∷ b'u' ∷ b't' ∷ []

-- "asli/v2/leave"
abbrev pub label_leave : List ℕ
label_leave =
    b'a' ∷ b's' ∷ b'l' ∷ b'i' ∷ b'/' ∷ b'v' ∷ b'2' ∷ b'/' ∷ b'l' ∷ b'e' ∷ b'a' ∷ b'v' ∷ b'e' ∷ []

pub record About : Type 0 where
  pub from_device_id : List ℕ
  pub ask : Bool
  pub reply_to : List ℕ
  pub build : ℕ
  pub version_text : List ℕ

pub record Leave : Type 0 where
  pub from_device_id : List ℕ
  pub ts_ms : ℕ

-- A byte that stands for a `bool`.
unfoldable pub bool_from : ℕ → Result Bool
bool_from code = if code == 0 then ok false else if code == 1 then ok true else err inner_malformed

-- The body without the signature at its end.
abbrev pub unsigned : List ℕ → List ℕ
unsigned body = take (length body - signature_len) body

-- `About::claimed_sender`
unfoldable pub claimed_sender : List ℕ → Result (List ℕ)
claimed_sender body = do r ← version (reader body); sender ← read_bytes r 16; ok sender.0

module _ (crypto : Primitives) where
  unfoldable pub encode_about : About → DeviceKeys → List ℕ → Result (List ℕ)
  encode_about a keys room = do
    let start = write_bytes (write_u8 [] 1) a.from_device_id
    with_reply ← write_text (write_u8 start (if a.ask then 1 else 0)) a.reply_to
    body ← write_text (write_bytes with_reply (to_be 4 a.build)) a.version_text
    ok (sign crypto keys label_about room body)

  unfoldable pub decode_about : List ℕ → List ℕ → List ℕ → Result About
  unfolding bool_from
  decode_about body room sign_pub = do
    verify crypto label_about room body sign_pub
    r ← version (reader (unsigned body))
    from_device_id ← read_bytes r 16
    code ← read_u8 from_device_id.1
    ask ← bool_from code.0
    reply_to ← read_text code.1
    build ← read_be 4 reply_to.1
    version_text ← read_text build.1
    done version_text.1
    ok (record {
      from_device_id = from_device_id.0;
      ask = ask;
      reply_to = reply_to.0;
      build = build.0;
      version_text = version_text.0;
    })

  unfoldable pub encode_leave : Leave → DeviceKeys → List ℕ → List ℕ
  encode_leave l keys room =
      sign crypto keys label_leave room
        (write_u64 (write_bytes (write_u8 [] 1) l.from_device_id) l.ts_ms)

  unfoldable pub decode_leave : List ℕ → List ℕ → List ℕ → Result Leave
  decode_leave body room sign_pub = do
    verify crypto label_leave room body sign_pub
    r ← version (reader (unsigned body))
    from_device_id ← read_bytes r 16
    ts_ms ← read_be 8 from_device_id.1
    done ts_ms.1
    ok (record { from_device_id = from_device_id.0; ts_ms = ts_ms.0 })
