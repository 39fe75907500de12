-- ===== src/Crypto/Direct.antt =====
-- crates/asli-crypto/src/direct.rs: the frames of a direct connection. A cipher is its key. The
-- counters are u64 and count frames, so that they stay far below their limit.
pub mod Frames
pub mod Nonces
mod Runs
use asli.Prelude.{
  ℕ, ◌+◌, ◌==◌, Bool, ◌&&◌, List, [], ◌∷◌, ◌++◌, Option, none, some, length, replicate, drop,
}
use asli.Prelude.Bytes.{to_be, byte_at, same_bytes}
use asli.Crypto.Error.{Result, ok, err, ok_or, seal_failed, open_failed}
use asli.Crypto.Primitives.{Primitives}

-- "asli/v2/file-direct"
abbrev pub label_direct : List ℕ
label_direct =
    b'a' ∷ b's' ∷ b'l' ∷ b'i' ∷ b'/' ∷ b'v' ∷ b'2' ∷ b'/' ∷ b'f' ∷ b'i' ∷ b'l' ∷ b'e' ∷ b'-' ∷ b'd'
    ∷ b'i' ∷ b'r' ∷ b'e' ∷ b'c' ∷ b't' ∷ []

abbrev pub salt_len : ℕ
salt_len = 16

pub data Side : Type 0 where
  receiver sender : Side

unfoldable pub code : Side → ℕ
code receiver = 0
code sender = 1

unfoldable pub other : Side → Side
other receiver = sender
other sender = receiver

pub record Stream : Type 0 where
  pub key : List ℕ
  pub aad : List ℕ
  pub me : Side
  pub sent : ℕ
  pub received : ℕ

unfoldable pub nonce : Side → ℕ → List ℕ
unfolding code
nonce side counter = code side ∷ to_be 8 counter ++ replicate 15 0

unfoldable pub hello : List ℕ → List ℕ
hello offer_id = 1 ∷ offer_id

unfoldable pub is_hello : List ℕ → List ℕ → Bool
is_hello plaintext offer_id =
    length plaintext == 17 && (byte_at 0 plaintext == 1 && same_bytes (drop 1 plaintext) offer_id)

module _ (crypto : Primitives) where
  unfoldable pub new : List ℕ → List ℕ → List ℕ → Side → Stream
  new transfer_key salt offer_id me = record {
    key = crypto.hkdf.expand (crypto.hkdf.extract salt transfer_key) label_direct;
    aad = label_direct ++ offer_id;
    me = me;
    sent = 0;
    received = 0;
  }

  -- The counter goes on also when the cipher fails.
  unfoldable pub seal : Stream → List ℕ → Stream × Result (List ℕ)
  unfolding nonce
  seal s plaintext = (
    record s { sent = s.sent + 1 },
    ok_or (crypto.aead.encrypt s.key (nonce s.me s.sent) s.aad plaintext) seal_failed,
  )

  -- The source's `open`. The counter stays when the frame is refused.
  unfoldable pub open_frame : Stream → List ℕ → Stream × Result (List ℕ)
  unfolding nonce other
  open_frame s sealed =
      elim (crypto.aead.decrypt s.key (nonce (other s.me) s.received) s.aad sealed) [
        | none ↦ (s, err open_failed)
        | some plaintext ↦ (record s { received = s.received + 1 }, ok plaintext)
      ]
