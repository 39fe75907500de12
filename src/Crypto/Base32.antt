-- ===== src/Crypto/Base32.antt =====
-- crates/asli-crypto/src/base32.rs: Crockford base32. Texts are lists of characters. The u16 buffer
-- keeps its wrap-around; `a << n | b` on disjoint bits is `a * 2 ^ n + b`, and a mask of low bits
-- is a remainder.
pub mod Symbols
pub mod RoundTrip
pub mod Tolerance
pub mod Runs
use asli.Prelude.{
  ℕ, zero, suc, ◌+◌, ◌-◌, ◌*◌, ◌/◌, ◌%◌, ◌^◌, ◌==◌, ltb, leb, if◌then◌else◌, Bool, true, false, not,
  ◌&&◌, ◌||◌, List, [], ◌∷◌, ◌++◌,
}
use asli.Prelude.Bytes.{byte_at}
use asli.Crypto.Error.{Result, ok, err, ◌>>=◌, ◌>>◌, refuse_if, token_alphabet, token_length}

-- "0123456789ABCDEFGHJKMNPQRSTVWXYZ"
abbrev pub alphabet : List ℕ
alphabet =
    b'0' ∷ b'1' ∷ b'2' ∷ b'3' ∷ b'4' ∷ b'5' ∷ b'6' ∷ b'7' ∷ b'8' ∷ b'9' ∷ b'A' ∷ b'B' ∷ b'C' ∷ b'D'
    ∷ b'E' ∷ b'F' ∷ b'G' ∷ b'H' ∷ b'J' ∷ b'K' ∷ b'M' ∷ b'N' ∷ b'P' ∷ b'Q' ∷ b'R' ∷ b'S' ∷ b'T'
    ∷ b'V' ∷ b'W' ∷ b'X' ∷ b'Y' ∷ b'Z' ∷ []

unfoldable pub symbol : ℕ → ℕ
unfolding byte_at
symbol index = byte_at index alphabet

-- `while bits >= 5`, for at most so many rounds: what it pushes, and the bits that remain.
unfoldable pub drain : ℕ → ℕ → ℕ → List ℕ × ℕ
drain zero buffer bits = ([], bits)
drain (suc rounds) buffer bits =
    let more = drain rounds buffer (bits - 5) in
    if leb 5 bits then (symbol (buffer / 2 ^ (bits - 5) % 32) ∷ more.0, more.1) else ([], bits)

-- The loop over the bytes and the last symbol. Below five bits are left of the bytes before, so a
-- byte more gives two symbols at most, and three rounds of `drain` are enough.
unfoldable pub encode_from : ℕ → ℕ → List ℕ → List ℕ
unfolding drain
encode_from buffer bits [] =
    if ltb 0 bits then symbol (buffer * 2 ^ (5 - bits) % 65536 % 32) ∷ [] else []
encode_from buffer bits (byte ∷ rest) =
    let next = (buffer * 256 + byte) % 65536 in
    let out = drain 3 next (bits + 8) in out.0 ++ encode_from next out.1 rest

unfoldable pub encode : List ℕ → List ℕ
unfolding encode_from
encode input = encode_from 0 0 input

-- `to_ascii_uppercase`
abbrev pub upper : ℕ → ℕ
upper c = if leb b'a' c && leb c b'z' then c - 32 else c

abbrev in_range : ℕ → ℕ → ℕ → Bool
in_range lo hi c = leb lo c && leb c hi

abbrev symbol_value_upper : ℕ → Result ℕ
symbol_value_upper u =
    if u == b'0' || u == b'O'
    then ok 0
    else if u == b'1' || (u == b'I' || u == b'L')
    then ok 1
    else if in_range b'2' b'9' u
    then ok (u - b'0')
    else if in_range b'A' b'H' u
    then ok (u - b'A' + 10)
    else if u == b'J' || u == b'K'
    then ok (u - b'J' + 18)
    else if u == b'M' || u == b'N'
    then ok (u - b'M' + 20)
    else if in_range b'P' b'T' u
    then ok (u - b'P' + 22)
    else if in_range b'V' b'Z' u
    then ok (u - b'V' + 27)
    else err token_alphabet

pub symbol_value : ℕ → Result ℕ
symbol_value ch = symbol_value_upper (upper ch)

abbrev pub dash : ℕ
dash = b'-'

-- The loop over the characters and the check of the bits that are left. What is pushed first stands
-- first in the result.
pub decode_from : ℕ → ℕ → List ℕ → Result (List ℕ)
unfolding symbol_value
decode_from buffer bits [] = do
  refuse_if (ltb 0 bits && not (buffer % 2 ^ bits == 0)) token_length
  ok []
decode_from buffer bits (ch ∷ rest) = elim (ch == dash) [
  | true ↦ decode_from buffer bits rest
  | false ↦ do
    value ← symbol_value ch
    let next = (buffer * 32 + value) % 65536
    let whole = leb 8 (bits + 5)
    let left = if whole then bits + 5 - 8 else bits + 5
    out ← decode_from next left rest
    ok (if whole then (next / 2 ^ left % 256) ∷ out else out)
]

unfoldable pub decode : List ℕ → Result (List ℕ)
unfolding decode_from
decode input = decode_from 0 0 input
