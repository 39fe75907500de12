-- ===== src/Crypto/Base32/Symbols.antt =====
-- The characters that an encoding has, and how many.
use asli.Prelude.{
  ℕ, zero, suc, ◌+◌, ◌-◌, ◌*◌, ◌/◌, ◌%◌, ◌<◌, ◌≡◌, refl, arith, ltb, leb, if◌then◌else◌, Bool, true,
  false, not, ◌&&◌, ◌==◌, ==→eq, ==→ne, Bool-cases, inl, inr, List, [], ◌∷◌, All, All-append,
  length, length-append,
}
use asli.Prelude.Text.{is_whitespace}
use asli.Crypto.Base32.{symbol, drain, encode_from, encode}

module _ (P : ℕ → Type 0) (known : (i : ℕ) → i < 32 → P (symbol i)) where
  All-if : (b : Bool) (p q : List ℕ × ℕ) → All P p.0 → All P q.0 → All P (if b then p else q).0
  All-if true p q hp hq = hp
  All-if false p q hp hq = hq

  All-if_list : (b : Bool) (p : List ℕ) → All P p → All P (if b then p else [])
  All-if_list true p hp = hp
  All-if_list false p hp = tt

  drain-All : (rounds buffer bits : ℕ) → All P (drain rounds buffer bits).0
  unfolding drain
  drain-All zero buffer bits = tt
  drain-All (suc rounds) buffer bits =
      All-if (leb 5 bits) _ _ (known _ (omega arith), drain-All rounds buffer (bits - 5)) tt

  encode_from-All : (buffer bits : ℕ) (bs : List ℕ) → All P (encode_from buffer bits bs)
  unfolding encode_from
  encode_from-All buffer bits [] = All-if_list (ltb 0 bits) _ (known _ (omega arith), tt)
  encode_from-All buffer bits (b ∷ bs) =
      let next = (buffer * 256 + b) % 65536 in
      All-append P (drain 3 next (bits + 8)).0 (encode_from next (drain 3 next (bits + 8)).1 bs)
        (drain-All 3 next (bits + 8)) (encode_from-All next (drain 3 next (bits + 8)).1 bs)

  -- What holds of every symbol of the alphabet holds of every character of an encoding.
  pub encode-All : (bs : List ℕ) → All P (encode bs)
  unfolding encode
  encode-All bs = encode_from-All 0 0 bs

drained :
    (rounds buffer bits : ℕ)
    → bits < 5 * (rounds + 1)
    → (length (drain rounds buffer bits).0 ≡ bits / 5) × ((drain rounds buffer bits).1 ≡ bits % 5)
unfolding drain
drained zero buffer bits h = (omega arith, omega arith)
drained (suc rounds) buffer bits h = let e = drained rounds buffer (bits - 5) in ground (arith, e)

length-encode_from :
    (bs : List ℕ) (buffer bits : ℕ)
    → bits < 5
    → length (encode_from buffer bits bs) ≡ (8 * length bs + bits + 4) / 5
unfolding encode_from
length-encode_from [] buffer bits h = ground arith
length-encode_from (b ∷ bs) buffer bits h =
    let next = (buffer * 256 + b) % 65536 in
    let (n, r) = drained 3 next (bits + 8) (omega arith) in
    let e =
      length-append (drain 3 next (bits + 8)).0 (encode_from next (drain 3 next (bits + 8)).1 bs) in
    let i = length-encode_from bs next (drain 3 next (bits + 8)).1 (omega (arith, r)) in
    omega (arith, n, r, e, i)

-- An encoding has one character for every five bits, the last of them completed with zeros.
pub length-encode : (bs : List ℕ) → length (encode bs) ≡ (8 * length bs + 4) / 5
unfolding encode
length-encode bs = omega (arith, length-encode_from bs 0 0 (omega arith))

-- White space is no symbol: the table, checked symbol by symbol.
unfoldable pub Visible : ℕ → Type 0
Visible c = is_whitespace c ≡ false

-- A test of the first symbols of the alphabet.
unfoldable pub every_below : (ℕ → Bool) → ℕ → Bool
unfolding symbol
every_below test zero = true
every_below test (suc n) = test (symbol n) && every_below test n

both : (a b : Bool) → (a && b) ≡ true → (a ≡ true) × (b ≡ true)
both true b h = (refl, h)
both false b h = cc

symbol-every_below :
    (test : ℕ → Bool) (n i : ℕ) → every_below test n ≡ true → i < n → test (symbol i) ≡ true
unfolding every_below
symbol-every_below test zero i h k = absurd (omega arith)
symbol-every_below test (suc n) i h k =
    let (v, t) = both (test (symbol n)) (every_below test n) h in
    elim (Bool-cases (i == n)) [
      | inl e ↦ rw (==→eq i n e) v
      | inr e ↦ symbol-every_below test n i t (omega (arith, ==→ne i n e))
    ]

-- A test that every symbol passes.
pub symbol-every :
    (test : ℕ → Bool) → every_below test 32 ≡ true → (i : ℕ) → i < 32 → test (symbol i) ≡ true
symbol-every test h i = symbol-every_below test 32 i h

not_lem : (a : Bool) → not a ≡ true → a ≡ false
not_lem true h = cc
not_lem false h = refl

pub symbol-Visible : (i : ℕ) → i < 32 → Visible (symbol i)
unfolding every_below Visible is_whitespace
symbol-Visible i h = not_lem _ (symbol-every (λ c. not (is_whitespace c)) refl i h)
