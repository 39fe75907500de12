-- ===== src/Crypto/Direct/Nonces.antt =====
-- crates/asli-crypto/src/direct.rs: the nonces of all the frames that a connection seals.
use asli.Prelude.{
  ℕ, zero, suc, ◌+◌, ◌<◌, ◌≤◌, ◌^◌, ◌≡◌, ◌≢◌, refl, ap, List, [], ◌∷◌, ◌++◌, All, All-append, ◌⊎◌,
  some, length, arith, inl, inr,
}
use asli.Crypto.Error.{ok, seal_failed, ok_or_ok, Result-cases}
use asli.Crypto.Primitives.{Primitives}
use asli.Crypto.Aead.{Aead}
use asli.Crypto.Direct.{Side, receiver, sender, Stream, code, nonce, new, seal}
use asli.Crypto.Direct.Frames.{nonce-injective, seal_all}

-- A list whose elements differ from one another.
abbrev pub HasDistinct : List (List ℕ) → Type 0
HasDistinct [] = Unit {0}
HasDistinct (x ∷ xs) = All (λ y. x ≢ y) xs × HasDistinct xs

-- The frames are what the cipher makes of the messages, each under the nonce in its place.
unfoldable pub Encrypted :
    Aead → List ℕ → List ℕ → List (List ℕ) → List (List ℕ) → List (List ℕ) → Type 0
Encrypted aead key aad [] [] [] = Unit {0}
Encrypted aead key aad (n ∷ ns) (m ∷ ms) (f ∷ fs) =
    (aead.encrypt key n aad m ≡ some f) × Encrypted aead key aad ns ms fs
Encrypted aead key aad _ _ _ = ⊥

-- The nonces of one side from a counter on.
unfoldable nonces_from : Side → ℕ → ℕ → List (List ℕ)
nonces_from side start zero = []
nonces_from side start (suc count) = nonce side start ∷ nonces_from side (start + 1) count

-- A nonce that is of another side, or comes before the rest.
nonces_from-All :
    (a b : Side) (m start count : ℕ)
    → ((a ≢ b) ⊎ (m < start))
    → m < 256 ^ 8
    → start + count ≤ 256 ^ 8
    → All (λ n. nonce a m ≢ n) (nonces_from b start count)
unfolding nonces_from
nonces_from-All a b m start zero apart low high = tt
nonces_from-All a b m start (suc count) apart low high =
    let later : (a ≢ b) ⊎ (m < start + 1) = elim apart [
      | inl sides ↦ inl sides
      | inr before ↦ inr (omega (arith, before))
    ] in
    (
      λ same.
          let (side, counter) = nonce-injective a b m start low (omega (arith, high)) same in
          elim apart [ inl sides ↦ sides side | inr before ↦ omega (arith, before, counter) ],
      nonces_from-All a b m (start + 1) count later low (omega (arith, high)),
    )

nonces_from-HasDistinct :
    (side : Side) (start count : ℕ)
    → start + count ≤ 256 ^ 8
    → HasDistinct (nonces_from side start count)
unfolding nonces_from
nonces_from-HasDistinct side start zero high = tt
nonces_from-HasDistinct side start (suc count) high = (
  nonces_from-All side side start (start + 1) count (inr (omega arith)) (omega (arith, high))
      (omega (arith, high)),
  nonces_from-HasDistinct side (start + 1) count (omega (arith, high)),
)

receiver_sender : receiver ≢ sender
unfolding code
receiver_sender same =
    let codes : code receiver ≡ code sender = ap code same in omega (arith, codes)

-- The nonces of the receiver, from a counter on, and all those of the sender.
both_sides :
    (start count others : ℕ)
    → start + count ≤ 256 ^ 8
    → others ≤ 256 ^ 8
    → HasDistinct (nonces_from receiver start count ++ nonces_from sender 0 others)
unfolding nonces_from
both_sides start zero others high few = nonces_from-HasDistinct sender 0 others (omega (arith, few))
both_sides start (suc count) others high few = (
  All-append (λ n. nonce receiver start ≢ n) (nonces_from receiver (start + 1) count)
      (nonces_from sender 0 others)
      (nonces_from-All receiver receiver start (start + 1) count (inr (omega arith))
        (omega (arith, high)) (omega (arith, high)))
      (nonces_from-All receiver sender start 0 others (inl receiver_sender) (omega (arith, high))
        (omega (arith, few))),
  both_sides (start + 1) count others (omega (arith, high)) few,
)

Encrypted-append :
    (aead : Aead) (key aad : List ℕ) (ns ms fs ns' ms' fs' : List (List ℕ))
    → Encrypted aead key aad ns ms fs
    → Encrypted aead key aad ns' ms' fs'
    → Encrypted aead key aad (ns ++ ns') (ms ++ ms') (fs ++ fs')
unfolding Encrypted
Encrypted-append aead key aad [] [] [] ns' ms' fs' v w = w
Encrypted-append aead key aad (n ∷ ns) (m ∷ ms) (f ∷ fs) ns' ms' fs' (one, v) w =
    (one, Encrypted-append aead key aad ns ms fs ns' ms' fs' v w)
Encrypted-append aead key aad [] [] (f ∷ fs) ns' ms' fs' v w = absurd v
Encrypted-append aead key aad [] (m ∷ ms) fs ns' ms' fs' v w = absurd v
Encrypted-append aead key aad (n ∷ ns) [] fs ns' ms' fs' v w = absurd v
Encrypted-append aead key aad (n ∷ ns) (m ∷ ms) [] ns' ms' fs' v w = absurd v

module _ (crypto : Primitives) where
  seal-encrypt :
      (s : Stream) (message frame : List ℕ)
      → (seal crypto s message).1 ≡ ok frame
      → crypto.aead.encrypt s.key (nonce s.me s.sent) s.aad message ≡ some frame
  unfolding seal
  seal-encrypt s message frame made = ok_or_ok _ seal_failed frame made

  seal-counts :
      (s : Stream) (message : List ℕ) → (seal crypto s message).0 ≡ record s { sent = s.sent + 1 }
  unfolding seal
  seal-counts s message = refl

  seal_all-Encrypted :
      (s : Stream) (messages frames : List (List ℕ))
      → (seal_all crypto s messages).1 ≡ ok frames
      → Encrypted crypto.aead s.key s.aad
          (nonces_from s.me s.sent (length messages))
          messages
          frames
  unfolding seal_all Encrypted nonces_from
  seal_all-Encrypted s [] frames made = let empty : [] ≡ frames = ground arith in rw (← empty) tt
  seal_all-Encrypted s (m ∷ ms) frames made = elim (Result-cases (seal crypto s m).1) [
    | inr (failure, broken) ↦ absurd (cc (rw (seal_all, broken) at made))
    | inl (frame, first) ↦
        let c : Stream = record s { sent = s.sent + 1 } in
        let next = seal-counts s m in
        elim (Result-cases (seal_all crypto c ms).1) [
          | inr (failure, broken) ↦ absurd (cc (rw (seal_all, first, next, broken) at made))
          | inl (later, rest) ↦
              let whole : frame ∷ later ≡ frames = cc (rw (seal_all, first, next, rest) at made) in
              let more = seal_all-Encrypted c ms later rest in
              rw (← whole) (seal-encrypt s m frame first, more)
        ]
  ]

  -- Over a whole connection no nonce is used twice: when its two ends, from `new` on, seal lists of
  -- at most 2^64 messages each and every sealing succeeds, every frame of either is its message
  -- encrypted under a nonce that no other frame has, with the one key of the connection and its
  -- associated data.
  pub seal_all-HasDistinct :
      (transfer_key salt offer_id : List ℕ) (ms ns fs gs : List (List ℕ))
      → length ms ≤ 256 ^ 8
      → length ns ≤ 256 ^ 8
      → (seal_all crypto (new crypto transfer_key salt offer_id receiver) ms).1 ≡ ok fs
      → (seal_all crypto (new crypto transfer_key salt offer_id sender) ns).1 ≡ ok gs
      → (nonces : List (List ℕ)) × (Encrypted crypto.aead
            (new crypto transfer_key salt offer_id receiver).key
            (new crypto transfer_key salt offer_id receiver).aad
            nonces
            (ms ++ ns)
            (fs ++ gs)
          × HasDistinct nonces)
  unfolding new
  seal_all-HasDistinct transfer_key salt offer_id ms ns fs gs many more made built =
      let a = new crypto transfer_key salt offer_id receiver in
      let mine = nonces_from receiver 0 (length ms) in
      let theirs = nonces_from sender 0 (length ns) in
      let one = seal_all-Encrypted (new crypto transfer_key salt offer_id receiver) ms fs made in
      let two = seal_all-Encrypted (new crypto transfer_key salt offer_id sender) ns gs built in
      (
        mine ++ theirs,
        (
          Encrypted-append crypto.aead a.key a.aad mine ms fs theirs ns gs one two,
          both_sides 0 (length ms) (length ns) (omega (arith, many)) more,
        ),
      )
