-- ===== src/Crypto/Base32/Tolerance.antt =====
-- What a reader may change in a base32 text: hyphens, the case of letters, and the letters that are
-- taken for digits.
use asli.Prelude.{
  ℕ, ◌%◌, ◌*◌, ◌+◌, ◌-◌, ◌==◌, ◌≡◌, refl, arith, if◌then◌else◌, true, false, ◌||◌, List, [], ◌∷◌,
  Bool-cases, inl, inr,
}
use asli.Crypto.Error.{Result-cases}
use asli.Crypto.Base32.{upper, symbol_value, decode_from, decode, dash}

-- O is read as 0, and I and L as 1.
abbrev folded : ℕ → ℕ
folded u = if u == b'O' then b'0' else if u == b'I' || u == b'L' then b'1' else u

fold_char : ℕ → ℕ
fold_char c = folded (upper c)

-- The text with the hyphens left out, in upper case, with the letters folded.
unfoldable pub canonical : List ℕ → List ℕ
unfolding fold_char
canonical [] = []
canonical (c ∷ cs) = if c == dash then canonical cs else (fold_char c ∷ canonical cs)

symbol_value-fold_char : (c : ℕ) → symbol_value (fold_char c) ≡ symbol_value c
unfolding symbol_value fold_char
symbol_value-fold_char c = ground arith

fold_char-ne-dash : (c : ℕ) → (c == dash) ≡ false → (fold_char c == dash) ≡ false
unfolding fold_char
fold_char-ne-dash c h = ground arith

decode_dash :
    (buffer bits c : ℕ) (cs : List ℕ)
    → (c == dash) ≡ true
    → decode_from buffer bits (c ∷ cs) ≡ decode_from buffer bits cs
unfolding decode_from
decode_dash buffer bits c cs e = ground (arith, e)

-- Two characters of one value before texts that are read alike.
decode_alike :
    (buffer bits c d : ℕ) (cs ds : List ℕ)
    → (c == dash) ≡ false
    → (d == dash) ≡ false
    → symbol_value c ≡ symbol_value d
    → ((next left : ℕ) → decode_from next left cs ≡ decode_from next left ds)
    → decode_from buffer bits (c ∷ cs) ≡ decode_from buffer bits (d ∷ ds)
unfolding decode_from
decode_alike buffer bits c d cs ds h k v same = elim (Result-cases (symbol_value d)) [
  | inl (x, e) ↦
      let next = (buffer * 32 + x) % 65536 in
      ground (arith, h, k, v, e, same next (bits + 5), same next (bits + 5 - 8))
  | inr (x, e) ↦ ground (arith, h, k, v, e)
]

decode_from-canonical :
    (input : List ℕ) (buffer bits : ℕ)
    → decode_from buffer bits (canonical input) ≡ decode_from buffer bits input
unfolding canonical
decode_from-canonical [] buffer bits = refl
decode_from-canonical (c ∷ cs) buffer bits = elim (Bool-cases (c == dash)) [
  | inl e ↦ ground (arith, e, decode_dash buffer bits c cs e, decode_from-canonical cs buffer bits)
  | inr e ↦
      let k =
        decode_alike buffer bits (fold_char c) c (canonical cs) cs (fold_char-ne-dash c e) e
          (symbol_value-fold_char c) (decode_from-canonical cs) in
      ground (arith, e, k)
]

-- Decoding reads a text and its canonical form alike: hyphens are left out, the case of letters does
-- not matter, and O, I and L stand for digits.
pub decode-canonical : (input : List ℕ) → decode (canonical input) ≡ decode input
unfolding decode
decode-canonical input = decode_from-canonical input 0 0
