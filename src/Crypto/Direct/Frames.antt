-- ===== src/Crypto/Direct/Frames.antt =====
-- crates/asli-crypto/src/direct.rs: frames in order, and nonces that are used once.
use asli.Prelude.{
  ℕ, ◌+◌, ◌<◌, ◌^◌, ◌≡◌, refl, sym, ap, ◌∙◌, List, [], ◌∷◌, ◌++◌, arith, inl, inr, replicate,
}
use asli.Prelude.Bytes.{to_be, length-to_be, to_be-injective, append-split}
use asli.Crypto.Error.{Result, ok, err, ok_or_ok, seal_failed, Result-cases}
use asli.Crypto.Primitives.{Primitives}
use asli.Crypto.Direct.{Side, receiver, sender, Stream, code, other, nonce, seal, open_frame}

code-injective : (a b : Side) → code a ≡ code b → a ≡ b
unfolding code
code-injective receiver receiver e = refl
code-injective sender sender e = refl
code-injective receiver sender e = absurd (omega (arith, e))
code-injective sender receiver e = absurd (omega (arith, e))

-- No two frames of a connection have the same nonce, whichever sides send them: a nonce
-- determines its side and its counter, which is a u64.
pub nonce-injective :
    (a b : Side) (m n : ℕ) → m < 256 ^ 8 → n < 256 ^ 8 → nonce a m ≡ nonce b n → (a ≡ b) × (m ≡ n)
unfolding nonce
nonce-injective a b m n h k e =
    let sides : code a ≡ code b = ground arith in
    let rest : to_be 8 m ++ replicate 15 0 ≡ to_be 8 n ++ replicate 15 0 = ground arith in
    let (counters, same) =
      append-split (to_be 8 m) _ (to_be 8 n) _ (length-to_be 8 m ∙ sym (length-to_be 8 n)) rest in
    (code-injective a b sides, to_be-injective 8 m n h k counters)

-- The two ends of a connection, when all that one has sent has been received by the other.
pub record InStep (a b : Stream) : Type 0 where
  pub key : a.key ≡ b.key
  pub aad : a.aad ≡ b.aad
  pub sides : a.me ≡ other b.me
  pub count : a.sent ≡ b.received

module _ (crypto : Primitives) where
  unfoldable pub seal_all : Stream → List (List ℕ) → Stream × Result (List (List ℕ))
  seal_all s [] = (s, ok [])
  seal_all s (m ∷ ms) =
      let first = seal crypto s m in
      let rest = seal_all first.0 ms in
      elim first.1 [
        | err failure ↦ (first.0, err failure)
        | ok frame ↦ elim rest.1 [
          | err failure ↦ (rest.0, err failure)
          | ok frames ↦ (rest.0, ok (frame ∷ frames))
        ]
      ]

  unfoldable pub open_all : Stream → List (List ℕ) → Stream × Result (List (List ℕ))
  open_all s [] = (s, ok [])
  open_all s (f ∷ fs) =
      let first = open_frame crypto s f in
      let rest = open_all first.0 fs in
      elim first.1 [
        | err failure ↦ (first.0, err failure)
        | ok message ↦ elim rest.1 [
          | err failure ↦ (rest.0, err failure)
          | ok messages ↦ (rest.0, ok (message ∷ messages))
        ]
      ]

  open_frame-seal :
      (a b : Stream) (message frame : List ℕ)
      → InStep a b
      → (seal crypto a message).1 ≡ ok frame
      → open_frame crypto b frame ≡ (record b { received = b.received + 1 }, ok message)
  unfolding seal open_frame
  open_frame-seal a b message frame v made =
      let cipher = ok_or_ok _ seal_failed frame made in
      let opens = crypto.aead.decrypts a.key (nonce a.me a.sent) a.aad message frame cipher in
      let there = rw (v.key, v.aad, v.sides, v.count) at opens in rw (open_frame, there) refl

  -- The frames of one end, in the order in which it sealed them, open at the other end to the
  -- messages, and leave the two ends in step.
  pub open_all-seal_all :
      (a b : Stream) (messages frames : List (List ℕ))
      → InStep a b
      → (seal_all a messages).1 ≡ ok frames
      → ((open_all b frames).1 ≡ ok messages) × InStep (seal_all a messages).0 (open_all b frames).0
  unfolding seal_all open_all
  open_all-seal_all a b [] frames v made =
      let empty : [] ≡ frames = ground arith in rw (← empty) (refl, v)
  open_all-seal_all a b (m ∷ ms) frames v made = elim (Result-cases (seal crypto a m).1) [
    | inr (failure, broken) ↦ cc (rw (seal_all, broken) at made)
    | inl (frame, first) ↦
        let c = (seal crypto a m).0 in
        elim (Result-cases (seal_all c ms).1) [
          | inr (failure, broken) ↦ cc (rw (seal_all, first, broken) at made)
          | inl (later, rest) ↦
              let whole : frames ≡ frame ∷ later = cc (rw (seal_all, first, rest) at made) in
              let one = open_frame-seal a b m frame v first in
              let d = (open_frame crypto b frame).0 in
              let next : d ≡ record b { received = b.received + 1 } = ap (λ r. r.0) one in
              let answer = ap (λ r. r.1) one in
              let step : InStep c (record b { received = b.received + 1 }) =
                unfold seal in
                record {
                  key = v.key;
                  aad = v.aad;
                  sides = v.sides;
                  count = ap (λ n. n + 1) v.count;
                } in
              let (opened, end) = open_all-seal_all c d ms later (rw next step) rest in
              rw (whole, seal_all, first, rest, open_all, answer, opened) (refl, end)
        ]
  ]
