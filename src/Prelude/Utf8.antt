-- ===== src/Prelude/Utf8.antt =====
-- UTF-8, as `str::as_bytes` gives it and `String::from_utf8` reads it: no overlong form, no
-- surrogate, nothing past U+10FFFF.
use Prim.Native.Nat.{ℕ, zero, suc, ◌+◌, ◌-◌, ◌*◌, ◌/◌, ◌%◌, ◌<◌, ◌≤◌}
use mathlib.Core.Path.{◌≡◌, refl, ap, ◌∙◌}
use mathlib.Core.Logic.{◌⊎◌, inl, inr}
use mathlib.Core.Bool.{◌&&◌}
use mathlib.Core.List.{List, [], ◌∷◌, ◌++◌}
use mathlib.Core.Option.{Option, none, some}
use native.Mathlib.Omega.{arith}
use asli.Prelude.Tests.{
  ltb, leb, ◌==◌, if◌then◌else◌, Bool-cases, ltb→lt, ltb→le, le→leb, le→ltb, lt→leb, ne→==,
}
use asli.Prelude.Lists.{All, All-append}
use asli.Prelude.Words.{IsByte}

-- A Unicode scalar value, the values of `char`.
abbrev pub IsScalar : ℕ → Type 0
IsScalar c = (c < 0xd800) ⊎ ((0xe000 ≤ c) × (c < 0x110000))

unfoldable pub encode_char : ℕ → List ℕ
encode_char c =
    if ltb c 0x80
    then c ∷ []
    else if ltb c 0x800
    then (192 + c / 64) ∷ (128 + c % 64) ∷ []
    else if ltb c 0x10000
    then (224 + c / 4096) ∷ (128 + c / 64 % 64) ∷ (128 + c % 64) ∷ []
    else (240 + c / 262144) ∷ (128 + c / 4096 % 64) ∷ (128 + c / 64 % 64) ∷ (128 + c % 64) ∷ []

unfoldable pub as_bytes : List ℕ → List ℕ
unfolding encode_char
as_bytes [] = []
as_bytes (c ∷ cs) = encode_char c ++ as_bytes cs

abbrev prepend : ℕ → Option (List ℕ) → Option (List ℕ)
prepend c none = none
prepend c (some cs) = some (c ∷ cs)

-- The bytes that a character still needs, its bits so far, and the bounds of the next byte.
unfoldable pub decode_bytes : ℕ → ℕ → ℕ → ℕ → List ℕ → Option (List ℕ)
decode_bytes zero value low high [] = some []
decode_bytes (suc need) value low high [] = none
decode_bytes zero value low high (b ∷ rest) =
    let one = prepend b (decode_bytes 0 0 128 191 rest) in
    let two = decode_bytes 1 (b - 192) 128 191 rest in
    let three =
      decode_bytes 2 (b - 224) (if b == 224 then 160 else 128) (if b == 237 then 159 else 191)
        rest in
    let four =
      decode_bytes 3 (b - 240) (if b == 240 then 144 else 128) (if b == 244 then 143 else 191)
        rest in
    if ltb b 128
    then one
    else if leb 194 b && leb b 223
    then two
    else if leb 224 b && leb b 239
    then three
    else if leb 240 b && leb b 244
    then four
    else none
decode_bytes (suc need) value low high (b ∷ rest) =
    let next = value * 64 + (b - 128) in
    let whole = prepend next (decode_bytes 0 0 128 191 rest) in
    let more = decode_bytes need next 128 191 rest in
    if leb low b && leb b high then (if need == 0 then whole else more) else none

unfoldable pub from_utf8 : List ℕ → Option (List ℕ)
unfolding decode_bytes
from_utf8 bytes = decode_bytes 0 0 128 191 bytes

-- Each kind of byte, where the decoder stands when it meets it.
last_byte :
    (value low high b : ℕ) (rest : List ℕ)
    → low ≤ b
    → b ≤ high
    → decode_bytes 1 value low high (b ∷ rest)
      ≡ prepend (value * 64 + (b - 128)) (decode_bytes 0 0 128 191 rest)
unfolding decode_bytes
last_byte value low high b rest h k = ground arith

inner_byte :
    (need value low high b : ℕ) (rest : List ℕ)
    → low ≤ b
    → b ≤ high
    → decode_bytes (suc (suc need)) value low high (b ∷ rest)
      ≡ decode_bytes (suc need) (value * 64 + (b - 128)) 128 191 rest
unfolding decode_bytes
inner_byte need value low high b rest h k =
    rw (le→leb low b h, le→leb b high k, ne→== (suc need) 0 (omega arith)) refl

lead_two :
    (b : ℕ) (rest : List ℕ)
    → 194 ≤ b
    → b ≤ 223
    → decode_bytes 0 0 128 191 (b ∷ rest) ≡ decode_bytes 1 (b - 192) 128 191 rest
unfolding decode_bytes
lead_two b rest h k = ground arith

lead_three :
    (b : ℕ) (rest : List ℕ)
    → 224 ≤ b
    → b ≤ 239
    → decode_bytes 0 0 128 191 (b ∷ rest)
      ≡ decode_bytes 2
          (b - 224)
          (if b == 224 then 160 else 128)
          (if b == 237 then 159 else 191)
          rest
unfolding decode_bytes
lead_three b rest h k = ground arith

lead_four :
    (b : ℕ) (rest : List ℕ)
    → 240 ≤ b
    → b ≤ 244
    → decode_bytes 0 0 128 191 (b ∷ rest)
      ≡ decode_bytes 3
          (b - 240)
          (if b == 240 then 144 else 128)
          (if b == 244 then 143 else 191)
          rest
unfolding decode_bytes
lead_four b rest h k =
    rw
      (
        le→ltb b 128 (omega arith),
        le→leb 194 b (omega arith),
        lt→leb b 223 (omega arith),
        le→leb 224 b (omega arith),
        lt→leb b 239 (omega arith),
        le→leb 240 b h,
        le→leb b 244 k,
      )
      refl

ascii :
    (c : ℕ) (rest : List ℕ)
    → c < 128
    → decode_bytes 0 0 128 191 (c ∷ rest) ≡ prepend c (decode_bytes 0 0 128 191 rest)
unfolding decode_bytes
ascii c rest h = ground arith

two_bytes :
    (c : ℕ) (rest : List ℕ)
    → 0x80 ≤ c
    → c < 0x800
    → decode_bytes 0 0 128 191 ((192 + c / 64) ∷ (128 + c % 64) ∷ rest)
      ≡ prepend c (decode_bytes 0 0 128 191 rest)
two_bytes c rest h k =
    let e : (192 + c / 64 - 192) * 64 + (128 + c % 64 - 128) ≡ c = omega arith in
    lead_two (192 + c / 64) ((128 + c % 64) ∷ rest) (omega arith) (omega arith)
    ∙ last_byte (192 + c / 64 - 192) 128 191 (128 + c % 64) rest (omega arith) (omega arith)
    ∙ ap (λ v. prepend v (decode_bytes 0 0 128 191 rest)) e

three_bytes :
    (c : ℕ) (rest : List ℕ)
    → IsScalar c
    → 0x800 ≤ c
    → c < 0x10000
    → decode_bytes 0 0 128 191 ((224 + c / 4096) ∷ (128 + c / 64 % 64) ∷ (128 + c % 64) ∷ rest)
      ≡ prepend c (decode_bytes 0 0 128 191 rest)
three_bytes c rest s h k =
    let a = 224 + c / 4096 in
    let v = (a - 224) * 64 + (128 + c / 64 % 64 - 128) in
    let e : v * 64 + (128 + c % 64 - 128) ≡ c = omega arith in
    lead_three a ((128 + c / 64 % 64) ∷ (128 + c % 64) ∷ rest) (omega arith) (omega arith)
    ∙ inner_byte 0 (a - 224) (if a == 224 then 160 else 128) (if a == 237 then 159 else 191)
        (128 + c / 64 % 64) ((128 + c % 64) ∷ rest) (ground (arith, s)) (ground (arith, s))
    ∙ last_byte v 128 191 (128 + c % 64) rest (omega arith) (omega arith)
    ∙ ap (λ v. prepend v (decode_bytes 0 0 128 191 rest)) e

four_bytes :
    (c : ℕ) (rest : List ℕ)
    → 0x10000 ≤ c
    → c < 0x110000
    → decode_bytes 0 0 128 191
        ((240 + c / 262144) ∷ (128 + c / 4096 % 64) ∷ (128 + c / 64 % 64) ∷ (128 + c % 64) ∷ rest)
      ≡ prepend c (decode_bytes 0 0 128 191 rest)
four_bytes c rest h k =
    let a = 240 + c / 262144 in
    let v = (a - 240) * 64 + (128 + c / 4096 % 64 - 128) in
    let w = v * 64 + (128 + c / 64 % 64 - 128) in
    let e : w * 64 + (128 + c % 64 - 128) ≡ c = omega arith in
    lead_four a _ (omega arith) (omega arith)
    ∙ inner_byte 1 (a - 240) (if a == 240 then 144 else 128) (if a == 244 then 143 else 191)
        (128 + c / 4096 % 64) ((128 + c / 64 % 64) ∷ (128 + c % 64) ∷ rest) (ground arith)
        (ground arith)
    ∙ inner_byte 0 v 128 191 (128 + c / 64 % 64) ((128 + c % 64) ∷ rest) (omega arith) (omega arith)
    ∙ last_byte w 128 191 (128 + c % 64) rest (omega arith) (omega arith)
    ∙ ap (λ v. prepend v (decode_bytes 0 0 128 191 rest)) e

decode_char :
    (c : ℕ) (rest : List ℕ)
    → IsScalar c
    → decode_bytes 0 0 128 191 (encode_char c ++ rest) ≡ prepend c (decode_bytes 0 0 128 191 rest)
unfolding encode_char
decode_char c rest s = elim (Bool-cases (ltb c 0x80)) [
  | inl e ↦ rw e (ascii c rest (ltb→lt _ _ e))
  | inr e ↦ elim (Bool-cases (ltb c 0x800)) [
    | inl f ↦ rw (e, f) (two_bytes c rest (ltb→le _ _ e) (ltb→lt _ _ f))
    | inr f ↦ elim (Bool-cases (ltb c 0x10000)) [
      | inl g ↦ rw (e, f, g) (three_bytes c rest s (ltb→le _ _ f) (ltb→lt _ _ g))
      | inr g ↦ rw (e, f, g) (four_bytes c rest (ltb→le _ _ g) (omega (arith, s, ltb→le _ _ g)))
    ]
  ]
]

-- The bytes of a text are read back as that text.
pub from_utf8-as_bytes : (cs : List ℕ) → All IsScalar cs → from_utf8 (as_bytes cs) ≡ some cs
unfolding from_utf8 as_bytes
from_utf8-as_bytes [] h = refl
from_utf8-as_bytes (c ∷ cs) (h, hs) =
    decode_char c (as_bytes cs) h ∙ ap (prepend c) (from_utf8-as_bytes cs hs)

encode_char-IsByte : (c : ℕ) → IsScalar c → All IsByte (encode_char c)
unfolding encode_char
encode_char-IsByte c s = ground arith

pub as_bytes-IsByte : (cs : List ℕ) → All IsScalar cs → All IsByte (as_bytes cs)
unfolding as_bytes
as_bytes-IsByte [] h = tt
as_bytes-IsByte (c ∷ cs) (h, hs) =
    All-append IsByte (encode_char c) (as_bytes cs) (encode_char-IsByte c h) (as_bytes-IsByte cs hs)
