-- ===== src/Core/Normalize/Platform.antt =====
-- What one machine writes for its platform, another normalizes back to the same text.
use asli.Prelude.{ℕ, ◌≡◌, ◌≢◌, refl, ◌∙◌, ap, false, List, [], ◌∷◌, arith, Bool-cases, inl, inr}
use asli.Prelude.Text.{contains_char}
use asli.Core.Normalize.{
  normalize, convert_lines, stripped, strip_prefix, strip_suffix, cr, newline, bom, nul, LineEnding,
  lf, crlf, replace_newlines, to_platform,
}
use asli.Core.Normalize.Lines.{convert_lines-plain, normalize-stripped}

abbrev last_or : ℕ → List ℕ → ℕ
last_or x [] = x
last_or x (y ∷ ys) = last_or y ys

abbrev StartsOther : ℕ → List ℕ → Type 0
StartsOther c [] = Unit {0}
StartsOther c (d ∷ ds) = d ≢ c

abbrev EndsOther : ℕ → List ℕ → Type 0
EndsOther c [] = Unit {0}
EndsOther c (d ∷ ds) = last_or d ds ≢ c

EndsOther-cons : (c x : ℕ) (t : List ℕ) → x ≢ c → EndsOther c t → EndsOther c (x ∷ t)
EndsOther-cons c x [] h k = h
EndsOther-cons c x (d ∷ ds) h k = k

-- Nothing for `normalize` to change: no carriage return, no mark in front, no NUL at the end.
pub record IsPlain (t : List ℕ) : Type 0 where
  pub no_cr : contains_char t cr ≡ false
  pub no_bom : StartsOther bom t
  pub no_nul : EndsOther nul t

strip_prefix-other : (c : ℕ) (t : List ℕ) → StartsOther c t → strip_prefix c t ≡ t
unfolding strip_prefix
strip_prefix-other c [] h = refl
strip_prefix-other c (d ∷ ds) h = ground arith

strip_suffix-other : (c : ℕ) (t : List ℕ) → EndsOther c t → strip_suffix c t ≡ t
unfolding strip_suffix
strip_suffix-other c [] h = refl
strip_suffix-other c (d ∷ []) h = ground arith
strip_suffix-other c (d ∷ e ∷ ds) h = ap (◌∷◌ d) (strip_suffix-other c (e ∷ ds) h)

-- A plain text is stripped of nothing.
stripped-plain : (t : List ℕ) → StartsOther bom t → EndsOther nul t → stripped t ≡ t
unfolding stripped
stripped-plain t h k = rw (strip_prefix-other bom t h) (strip_suffix-other nul t k)

convert_lines-replace_newlines :
    (t : List ℕ) → contains_char t cr ≡ false → convert_lines (replace_newlines t) ≡ t
unfolding convert_lines replace_newlines contains_char
convert_lines-replace_newlines [] h = refl
convert_lines-replace_newlines (c ∷ []) h = ground arith
convert_lines-replace_newlines (c ∷ d ∷ rest) h =
    ground (arith, convert_lines-replace_newlines (d ∷ rest))

last_or-replace_newlines : (x : ℕ) (t : List ℕ) → last_or x (replace_newlines t) ≡ last_or x t
unfolding replace_newlines
last_or-replace_newlines x [] = refl
last_or-replace_newlines x (c ∷ rest) =
    ground (arith, last_or-replace_newlines newline rest, last_or-replace_newlines c rest)

StartsOther-replace_newlines :
    (t : List ℕ) → StartsOther bom t → StartsOther bom (replace_newlines t)
unfolding replace_newlines
StartsOther-replace_newlines [] h = tt
StartsOther-replace_newlines (c ∷ rest) h = ground arith

EndsOther-replace_newlines : (t : List ℕ) → EndsOther nul t → EndsOther nul (replace_newlines t)
unfolding replace_newlines
EndsOther-replace_newlines [] h = tt
EndsOther-replace_newlines (c ∷ rest) h =
    ground (arith, last_or-replace_newlines newline rest, last_or-replace_newlines c rest)

normalize-plain : (t : List ℕ) → IsPlain t → normalize t ≡ t
normalize-plain t p =
    normalize-stripped t ∙ rw (stripped-plain t p.no_bom p.no_nul) (convert_lines-plain t p.no_cr)

-- A plain text comes back unchanged from either platform's form, so every machine hashes the same
-- text; with `lf` this says that `normalize` changes nothing in a plain text.
pub normalize-to_platform :
    (t : List ℕ) (e : LineEnding) → IsPlain t → normalize (to_platform t e) ≡ t
unfolding to_platform
normalize-to_platform t lf p = normalize-plain t p
normalize-to_platform t crlf p = elim (Bool-cases (contains_char t newline)) [
  | inl h ↦
      let same =
        stripped-plain (replace_newlines t) (StartsOther-replace_newlines t p.no_bom)
          (EndsOther-replace_newlines t p.no_nul) in
      rw h (
        normalize-stripped (replace_newlines t)
        ∙ rw same (convert_lines-replace_newlines t p.no_cr))
  | inr h ↦ rw h (normalize-plain t p)
]

-- One mark is taken off at a time: a text with two of them in front changes again when it is
-- normalized a second time, so the machine that writes the first result hashes another text when
-- it reads it back.
pub normalize_two_marks :
    (t : List ℕ)
    → IsPlain t
    → (normalize (bom ∷ bom ∷ t) ≡ bom ∷ t) × (normalize (normalize (bom ∷ bom ∷ t)) ≡ t)
unfolding strip_prefix stripped
normalize_two_marks t p = (once, rw once twice)
  where
    plain_end : strip_suffix nul (bom ∷ t) ≡ bom ∷ t
    plain_end = strip_suffix-other nul (bom ∷ t) (EndsOther-cons nul bom t (omega arith) p.no_nul)

    once : normalize (bom ∷ bom ∷ t) ≡ bom ∷ t
    once =
        normalize-stripped (bom ∷ bom ∷ t)
        ∙ rw plain_end (convert_lines-plain (bom ∷ t) (unfold contains_char in p.no_cr))

    twice : normalize (bom ∷ t) ≡ t
    twice =
        normalize-stripped (bom ∷ t)
        ∙ rw (strip_suffix-other nul t p.no_nul) (convert_lines-plain t p.no_cr)
