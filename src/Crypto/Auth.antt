-- ===== src/Crypto/Auth.antt =====
-- crates/asli-crypto/src/auth.rs, with the room id and the signatures of identity.rs: the signed
-- input of the handshake, its signature and its verification. A write into the zeroed array at the
-- running offset is the concatenation of what is written.
pub mod Handshake
pub mod Runs
use asli.Prelude.{ℕ, ◌==◌, not, Bool, true, false, List, [], ◌∷◌, ◌++◌, ◌≡◌, take}
use asli.Prelude.Bytes.{same_bytes, to_be, IsArray}
use asli.Crypto.Error.{
  Result, ok, ◌>>=◌, ◌>>◌, refuse_if, bad_public_key, bad_signature, room_binding,
}
use asli.Crypto.Clip.{protocol_version, room_id_len}
use asli.Crypto.Token.{Sha256}

-- Ed25519, which the source takes from the crate ed25519-dalek.
pub record Ed25519 : Type 0 where
  -- `SigningKey::sign`, and `SigningKey::verifying_key`.
  pub sign : List ℕ → List ℕ → List ℕ
  pub verifying_key : List ℕ → List ℕ
  -- Whether `VerifyingKey::from_bytes` succeeds, and `verify_strict` does.
  pub from_bytes : List ℕ → Bool
  pub verify_strict : List ℕ → List ℕ → List ℕ → Bool
  -- The verifying key of a signing key is an encoding of 32 bytes, and verifies what that key signs.
  pub key-IsArray : (key : List ℕ) → IsArray 32 (verifying_key key)
  -- A signature is an array of 64 bytes.
  pub sign-IsArray : (key message : List ℕ) → IsArray 64 (sign key message)
  pub from_bytes-verifying_key : (key : List ℕ) → from_bytes (verifying_key key) ≡ true
  pub verifies :
      (key message : List ℕ) → verify_strict (verifying_key key) message (sign key message) ≡ true

-- "asli/v1/room"
abbrev pub label_room : List ℕ
label_room = b'a' ∷ b's' ∷ b'l' ∷ b'i' ∷ b'/' ∷ b'v' ∷ b'1' ∷ b'/' ∷ b'r' ∷ b'o' ∷ b'o' ∷ b'm' ∷ []

-- "asli/v1/auth"
abbrev pub label_auth : List ℕ
label_auth = b'a' ∷ b's' ∷ b'l' ∷ b'i' ∷ b'/' ∷ b'v' ∷ b'1' ∷ b'/' ∷ b'a' ∷ b'u' ∷ b't' ∷ b'h' ∷ []

abbrev pub pub_key_len : ℕ
pub_key_len = 32

abbrev pub server_nonce_len : ℕ
server_nonce_len = 32

abbrev pub client_nonce_len : ℕ
client_nonce_len = 16

unfoldable pub build_sig_input : ℕ → List ℕ → List ℕ → List ℕ → List ℕ → ℕ → List ℕ
build_sig_input version room_id public_key server_nonce client_nonce client_time_ms =
    label_auth
    ++ (version ∷ room_id_len ∷ room_id
        ++ (pub_key_len ∷ public_key
            ++ (server_nonce_len ∷ server_nonce
                ++ (client_nonce_len ∷ client_nonce ++ to_be 8 client_time_ms))))

module _ (sha : Sha256) (ed : Ed25519) where
  open sha use {digest}
  open ed use {sign, verifying_key, from_bytes, verify_strict}

  unfoldable pub room_id_for_public_key : List ℕ → List ℕ
  room_id_for_public_key public_key = take room_id_len (digest (label_room ++ public_key))

  unfoldable pub verify_room_binding : List ℕ → List ℕ → Result (Unit {0})
  unfolding room_id_for_public_key
  verify_room_binding room_id public_key =
      refuse_if (not (same_bytes (room_id_for_public_key public_key) room_id)) room_binding

  unfoldable pub verify_signature : List ℕ → List ℕ → List ℕ → Result (Unit {0})
  verify_signature public_key message signature = do
    refuse_if (not (from_bytes public_key)) bad_public_key
    refuse_if (not (verify_strict public_key message signature)) bad_signature

  -- An identity is its signing key, from which `Identity::from_secret` makes the room id.
  unfoldable pub sign_auth : List ℕ → List ℕ → List ℕ → ℕ → List ℕ
  unfolding build_sig_input room_id_for_public_key
  sign_auth signing_key server_nonce client_nonce client_time_ms =
      let public_key = verifying_key signing_key in
      sign signing_key (
        build_sig_input protocol_version (room_id_for_public_key public_key) public_key server_nonce
          client_nonce client_time_ms)

  unfoldable pub verify_auth : List ℕ → List ℕ → List ℕ → List ℕ → ℕ → List ℕ → Result (Unit {0})
  unfolding verify_room_binding build_sig_input verify_signature
  verify_auth room_id public_key server_nonce client_nonce client_time_ms signature = do
    verify_room_binding room_id public_key
    let input =
        build_sig_input protocol_version room_id public_key server_nonce client_nonce client_time_ms
    verify_signature public_key input signature
