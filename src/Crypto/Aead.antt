-- ===== src/Crypto/Aead.antt =====
-- XChaCha20-Poly1305, which crates/asli-crypto takes from the crate chacha20poly1305, as a
-- parameter: keys, nonces, associated data and messages are byte strings, and `none` is its error.
use asli.Prelude.{
  ℕ, ◌+◌, length, ◌≡◌, refl, sym, List, ◌++◌, ◌-◌, take, replicate, arith, length-append, Option,
  some,
}
use asli.Prelude.Bytes.{take-append_of}

pub record Aead : Type 0 where
  pub encrypt : List ℕ → List ℕ → List ℕ → List ℕ → Option (List ℕ)
  pub decrypt : List ℕ → List ℕ → List ℕ → List ℕ → Option (List ℕ)
  -- What was encrypted decrypts under the same key, nonce and associated data.
  pub decrypts :
      (key nonce aad msg sealed : List ℕ)
      → encrypt key nonce aad msg ≡ some sealed
      → decrypt key nonce aad sealed ≡ some msg

-- The tag of XChaCha20-Poly1305 has 16 bytes.
abbrev pub IsTagged : Aead → Type 0
IsTagged aead =
    (key nonce aad msg sealed : List ℕ)
    → aead.encrypt key nonce aad msg ≡ some sealed
    → length sealed ≡ length msg + 16

-- A cipher that hides nothing, to show that the law can hold.
abbrev pub transparent : Aead
transparent = record {
  encrypt = λ key nonce aad msg. some msg;
  decrypt = λ key nonce aad sealed. some sealed;
  decrypts = λ key nonce aad msg sealed e. sym e;
}

abbrev tag : List ℕ
tag = replicate 16 0

abbrev untag : List ℕ → List ℕ
untag sealed = take (length sealed - 16) sealed

pub untag-append :
    (msg sealed : List ℕ) → some (msg ++ tag) ≡ some sealed → some (untag sealed) ≡ some msg
untag-append msg sealed e =
    let whole : msg ++ tag ≡ sealed = ground arith in
    let size : length msg ≡ length (msg ++ tag) - 16 = omega (arith, length-append msg tag) in
    rw (← whole, take-append_of (length (msg ++ tag) - 16) msg tag size) refl

-- A cipher that hides nothing, with a tag of 16 bytes.
abbrev pub tagged : Aead
tagged = record {
  encrypt = λ key nonce aad msg. some (msg ++ tag);
  decrypt = λ key nonce aad sealed. some (untag sealed);
  decrypts = λ key nonce aad msg sealed e. untag-append msg sealed e;
}

pub tagged-IsTagged : IsTagged tagged
tagged-IsTagged key nonce aad msg sealed e =
    let whole : msg ++ tag ≡ sealed = ground arith in rw (← whole) (length-append msg tag)
