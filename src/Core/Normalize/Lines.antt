-- ===== src/Core/Normalize/Lines.antt =====
-- The form that goes on the wire has no carriage return.
use asli.Prelude.{ℕ, ◌≡◌, refl, sym, false, List, [], ◌∷◌, arith, Bool-cases, inl, inr}
use asli.Prelude.Text.{contains_char}
use asli.Core.Normalize.{normalize, convert_lines, stripped, cr}

contains_char-convert_lines : (t : List ℕ) → contains_char (convert_lines t) cr ≡ false
unfolding convert_lines contains_char
contains_char-convert_lines [] = refl
contains_char-convert_lines (c ∷ []) = ground arith
contains_char-convert_lines (c ∷ d ∷ rest) =
    ground (arith, contains_char-convert_lines rest, contains_char-convert_lines (d ∷ rest))

pub convert_lines-plain : (t : List ℕ) → contains_char t cr ≡ false → convert_lines t ≡ t
unfolding convert_lines contains_char
convert_lines-plain [] h = refl
convert_lines-plain (c ∷ []) h = ground arith
convert_lines-plain (c ∷ d ∷ rest) h = ground (arith, convert_lines-plain (d ∷ rest))

-- The early path of `normalize` for a text without carriage returns gives what the loop would.
pub normalize-stripped : (t : List ℕ) → normalize t ≡ convert_lines (stripped t)
unfolding normalize
normalize-stripped t = elim (Bool-cases (contains_char (stripped t) cr)) [
  | inl h ↦ rw (h, normalize) refl
  | inr h ↦ rw (h, normalize) (sym (convert_lines-plain (stripped t) h))
]

-- A normalized text holds no carriage return, whatever the platform gave.
pub contains_char-normalize : (t : List ℕ) → contains_char (normalize t) cr ≡ false
contains_char-normalize t = rw (normalize-stripped t) (contains_char-convert_lines (stripped t))
