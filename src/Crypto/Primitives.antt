-- ===== src/Crypto/Primitives.antt =====
-- What crates/asli-crypto takes from the crates chacha20poly1305, sha2, ed25519-dalek, hkdf and
-- x25519-dalek, as one parameter.
use asli.Prelude.{ℕ, ◌≡◌, refl, List, Bool, true, replicate, arith}
use asli.Prelude.Bytes.{IsArray}
use asli.Crypto.Aead.{Aead, transparent}
use asli.Crypto.Token.{Sha256}
use asli.Crypto.Auth.{Ed25519}

-- HKDF-SHA-256: `Hkdf::extract`, and `expand` to 32 bytes, the one length that the source asks for.
pub record Hkdf : Type 0 where
  pub extract : List ℕ → List ℕ → List ℕ
  pub expand : List ℕ → List ℕ → List ℕ
  pub expand-IsArray : (prk info : List ℕ) → IsArray 32 (expand prk info)

-- X25519 on secrets and public keys of 32 bytes.
pub record X25519 : Type 0 where
  pub public_key : List ℕ → List ℕ
  pub diffie_hellman : List ℕ → List ℕ → List ℕ
  pub was_contributory : List ℕ → Bool
  pub public_key-IsArray : (secret : List ℕ) → IsArray 32 (public_key secret)
  -- Both sides of an exchange come to the same secret.
  pub agrees : (a b : List ℕ) → diffie_hellman a (public_key b) ≡ diffie_hellman b (public_key a)

pub record Primitives : Type 0 where
  pub aead : Aead
  pub sha : Sha256
  pub ed : Ed25519
  pub hkdf : Hkdf
  pub x25519 : X25519

-- Constants in place of the functions, to show that the laws can hold.
abbrev zeros : List ℕ
zeros = replicate 32 0

pub zeros-IsArray : IsArray 32 zeros
zeros-IsArray = record { size = refl; bytes = ground arith }

abbrev blank : List ℕ
blank = replicate 64 0

pub signature-IsArray : IsArray 64 blank
signature-IsArray = record { size = refl; bytes = ground arith }

abbrev pub constant : Primitives
constant = record {
  aead = transparent;
  sha = record { digest = λ input. zeros; digest-IsArray = λ input. zeros-IsArray };
  ed = record {
    sign = λ key message. blank;
    verifying_key = λ key. zeros;
    from_bytes = λ key. true;
    verify_strict = λ key message signature. true;
    key-IsArray = λ key. zeros-IsArray;
    sign-IsArray = λ key message. signature-IsArray;
    from_bytes-verifying_key = λ key. refl;
    verifies = λ key message. refl;
  };
  hkdf = record {
    extract = λ salt ikm. zeros;
    expand = λ prk info. zeros;
    expand-IsArray = λ prk info. zeros-IsArray;
  };
  x25519 = record {
    public_key = λ secret. zeros;
    diffie_hellman = λ secret other. zeros;
    was_contributory = λ shared. true;
    public_key-IsArray = λ secret. zeros-IsArray;
    agrees = λ a b. refl;
  };
}
