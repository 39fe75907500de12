-- ===== src/Core/Normalize/Blank.antt =====
-- `is_syncable`: which texts are worth sending.
use asli.Prelude.{
  ℕ, ◌≡◌, ◌↔◌, refl, true, false, not, List, [], ◌∷◌, arith, All, Bool-cases, inl, inr,
}
use asli.Prelude.Text.{is_whitespace, trim, trim_start, trim_end, is_empty}
use asli.Core.Normalize.{is_syncable}

abbrev pub IsBlank : List ℕ → Type 0
IsBlank = All (λ c. is_whitespace c ≡ true)

trim_start-IsBlank : (t : List ℕ) → IsBlank t → trim_start t ≡ []
unfolding trim_start
trim_start-IsBlank [] h = refl
trim_start-IsBlank (c ∷ cs) h = rw h.0 (trim_start-IsBlank cs h.1)

IsBlank-trim_start : (t : List ℕ) → IsBlank (trim_start t) → IsBlank t
unfolding trim_start
IsBlank-trim_start [] h = tt
IsBlank-trim_start (c ∷ cs) h = elim (Bool-cases (is_whitespace c)) [
  | inl e ↦ (e, IsBlank-trim_start cs (rw e at h))
  | inr e ↦ rw e at h
]

IsBlank-trim_end : (t : List ℕ) → trim_end t ≡ [] → IsBlank t
unfolding trim_end
IsBlank-trim_end [] h = tt
IsBlank-trim_end (c ∷ cs) h = ground (arith, IsBlank-trim_end cs)

-- A text is not worth syncing exactly when every character of it is white space.
pub is_syncable-IsBlank : (t : List ℕ) → (is_syncable t ≡ false) ↔ IsBlank t
unfolding is_syncable trim is_empty
is_syncable-IsBlank t = (
  λ h.
      IsBlank-trim_start t (IsBlank-trim_end (trim_start t) (empty_of (trim_end (trim_start t)) h)),
  λ h. rw (trim_start-IsBlank t h) refl,
)
  where
    empty_of : (xs : List ℕ) → not (is_empty xs) ≡ false → xs ≡ []
    empty_of [] e = refl
    empty_of (x ∷ xs) e = cc
