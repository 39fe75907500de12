-- ===== src/Crypto/Auth/Runs.antt =====
-- Concrete handshakes, and the theorems at concrete inputs.
use asli.Prelude.{ℕ, ◌≡◌, ◌≢◌, ◌⊎◌, refl, arith, true, List, [], replicate}
use asli.Prelude.Bytes.{IsArray, same_bytes}
use asli.Crypto.Error.{ok, err, room_binding}
use asli.Crypto.Token.{Sha256}
use asli.Crypto.Auth.{
  Ed25519, room_id_for_public_key, verify_room_binding, verify_signature, verify_auth,
}
use asli.Crypto.Auth.Handshake.{verify_auth_binds}

-- A digest and a signature that say nothing, to show that the laws can hold.
abbrev constant : Sha256
constant = record {
  digest = λ input. replicate 32 7;
  digest-IsArray = λ input. record { size = refl; bytes = omega arith };
}

abbrev trusting : Ed25519
trusting = record {
  sign = λ key message. replicate 64 0;
  verifying_key = λ key. replicate 32 1;
  from_bytes = λ bytes. true;
  verify_strict = λ key message signature. true;
  key-IsArray = λ key. record { size = refl; bytes = omega arith };
  sign-IsArray = λ key message. record { size = refl; bytes = omega arith };
  from_bytes-verifying_key = λ key. refl;
  verifies = λ key message. refl;
}

abbrev room : List ℕ
room = replicate 16 7

abbrev key : List ℕ
key = replicate 32 1

other_room : verify_auth constant trusting (replicate 16 8) key key room 5 [] ≡ err room_binding
unfolding verify_auth verify_room_binding same_bytes
other_room = refl

sixteen-IsArray : IsArray 16 room
sixteen-IsArray = record { size = refl; bytes = omega arith }

key-IsArray : IsArray 32 key
key-IsArray = record { size = refl; bytes = omega arith }

-- The nonce of another challenge.
abbrev other_key : List ℕ
other_key = replicate 32 2

other_key-IsArray : IsArray 32 other_key
other_key-IsArray = record { size = refl; bytes = omega arith }

accepted : verify_auth constant trusting room key key room 5 [] ≡ ok tt
unfolding verify_auth verify_room_binding same_bytes verify_signature
accepted = refl

accepted_again : verify_auth constant trusting room key other_key room 6 [] ≡ ok tt
unfolding verify_auth verify_room_binding same_bytes verify_signature
accepted_again = refl

verify_auth_binds_example :
    (room_id_for_public_key constant trusting key ≡ room)
    × (((room ≡ room) × (key ≡ other_key) × (room ≡ room) × (◌≡◌ {A = ℕ} 5 6))
        ⊎ ((m : List ℕ) × (n : List ℕ) × (m ≢ n)
            × (trusting.verify_strict key m [] ≡ true)
            × (trusting.verify_strict key n [] ≡ true)))
verify_auth_binds_example =
    verify_auth_binds constant trusting room room key key other_key room room [] 5 6 sixteen-IsArray
      sixteen-IsArray key-IsArray key-IsArray other_key-IsArray sixteen-IsArray sixteen-IsArray
      (omega arith) (omega arith) accepted accepted_again
