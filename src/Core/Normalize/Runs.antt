-- ===== src/Core/Normalize/Runs.antt =====
-- Concrete runs of normalize.rs, and the theorems at concrete inputs.
use asli.Prelude.{ℕ, ◌≡◌, ◌↔◌, refl, Bool, true, false, List, [], ◌∷◌, arith}
use asli.Core.Normalize.{normalize, bom, is_syncable}
use asli.Prelude.Text.{is_empty, contains_char}
use asli.Core.Normalize.Platform.{IsPlain, normalize_two_marks}

-- "\u{feff}a\r\nb\rc\n\0"
windows_text :
    normalize (bom ∷ b'a' ∷ 13 ∷ 10 ∷ b'b' ∷ 13 ∷ b'c' ∷ 10 ∷ 0 ∷ [])
    ≡ b'a' ∷ 10 ∷ b'b' ∷ 10 ∷ b'c' ∷ 10 ∷ []
unfolding normalize
windows_text = refl

white_space : is_syncable (9 ∷ 32 ∷ 13 ∷ 10 ∷ []) ≡ false
unfolding is_syncable is_empty
white_space = refl

abbrev two_lines : List ℕ
two_lines = b'a' ∷ 10 ∷ b'b' ∷ []

two_lines-IsPlain : IsPlain two_lines
two_lines-IsPlain = record {
  no_cr = unfold asli.Prelude.Text.contains_char in refl;
  no_bom = omega arith;
  no_nul = omega arith;
}

normalize_two_marks_example : normalize (normalize (bom ∷ bom ∷ two_lines)) ≡ two_lines
normalize_two_marks_example = (normalize_two_marks two_lines two_lines-IsPlain).1
