-- ===== src/Prelude/Text.antt =====
-- Rust's `str` as the list of its Unicode scalar values, and the standard library's operations on
-- it that the program uses.
use Prim.Native.Nat.{ℕ}
use mathlib.Core.Bool.{Bool, true, false, ◌&&◌, ◌||◌}
use mathlib.Core.List.{List, [], ◌∷◌}
use asli.Prelude.Tests.{leb, ◌==◌, if◌then◌else◌}

abbrev between : ℕ → ℕ → ℕ → Bool
between lo hi c = leb lo c && leb c hi

-- `char::is_whitespace`, the Unicode property White_Space.
unfoldable pub is_whitespace : ℕ → Bool
is_whitespace c =
    between 9 13 c
    || c == 32
    || c == 0x85
    || c == 0xa0
    || c == 0x1680
    || between 0x2000 0x200a c
    || c == 0x2028
    || c == 0x2029
    || c == 0x202f
    || c == 0x205f
    || c == 0x3000

unfoldable pub trim_start : List ℕ → List ℕ
unfolding is_whitespace
trim_start [] = []
trim_start (c ∷ cs) = if is_whitespace c then trim_start cs else c ∷ cs

unfoldable pub trim_end : List ℕ → List ℕ
unfolding is_whitespace
trim_end [] = []
trim_end (c ∷ cs) = elim (trim_end cs) [
  | [] ↦ if is_whitespace c then [] else c ∷ []
  | d ∷ ds ↦ c ∷ d ∷ ds
]

unfoldable pub trim : List ℕ → List ℕ
unfolding trim_start trim_end
trim cs = trim_end (trim_start cs)

unfoldable pub contains_char : List ℕ → ℕ → Bool
contains_char [] c = false
contains_char (d ∷ ds) c = d == c || contains_char ds c

unfoldable pub is_empty : List ℕ → Bool
is_empty [] = true
is_empty (c ∷ cs) = false
