-- ===== src/History/Shown.antt =====
-- crates/asli-history/src/lib.rs: a preview is one short line.
use asli.Prelude.{
  ℕ, zero, suc, ◌+◌, ◌-◌, ◌≤◌, ◌≡◌, ◌⊎◌, refl, ltb, if◌then◌else◌, Bool, true, false, ◌||◌, List,
  [], ◌∷◌, ◌++◌, length, All, All-append, arith, inl, inr, Bool-cases, length-append, ltb→le,
  le→ltb, ap,
}
use asli.Prelude.Text.{is_whitespace}
use asli.History.Preview.{
  preview_chars, ellipsis, space, is_control, pop_char, ends_with_space, shorten, preview_from,
  preview,
}

-- A character that a row can show: a space, or neither white space nor a control character.
abbrev pub IsShown : ℕ → Type 0
IsShown c = (c ≡ space) ⊎ ((is_whitespace c || is_control c) ≡ false)

length-pop_char : (c : ℕ) (cs : List ℕ) → suc (length (pop_char (c ∷ cs))) ≡ length (c ∷ cs)
unfolding pop_char
length-pop_char c [] = refl
length-pop_char c (d ∷ cs) = ap suc (length-pop_char d cs)

All-pop_char : (P : ℕ → Type 0) (cs : List ℕ) → All P cs → All P (pop_char cs)
unfolding pop_char
All-pop_char P [] v = tt
All-pop_char P (c ∷ []) v = tt
All-pop_char P (c ∷ d ∷ cs) v = (v.0, All-pop_char P (d ∷ cs) v.1)

or_false : (a b : Bool) → (a || b) ≡ false → (a ≡ false) × (b ≡ false)
or_false true b h = cc
or_false false b h = (refl, h)

-- The loop ends, and leaves room for one character after something else than a space.
shorten_room :
    (rounds : ℕ) (out : List ℕ) (count : ℕ)
    → length out ≤ rounds
    → length out ≡ count
    → (length (shorten rounds out count) + 1 ≤ preview_chars)
      × (ends_with_space (shorten rounds out count) ≡ false)
unfolding shorten
shorten_room zero [] count h e = unfold ends_with_space in (omega arith, refl)
shorten_room (suc rounds) [] count h e =
    unfold ends_with_space in
    let short : ltb preview_chars (count + 1) ≡ false = le→ltb _ _ (omega (arith, e)) in
    rw short (omega arith, refl)
shorten_room zero (c ∷ cs) count h e = absurd (omega arith)
shorten_room (suc rounds) (c ∷ cs) count h e =
    elim (Bool-cases (ltb preview_chars (count + 1) || ends_with_space (c ∷ cs))) [
      | inl more ↦ rw more (
          shorten_room rounds (pop_char (c ∷ cs)) (count - 1)
            (omega (arith, h, length-pop_char c cs)) (omega (arith, e, length-pop_char c cs)))
      | inr fits ↦
          let (low, plain) =
            or_false (ltb preview_chars (count + 1)) (ends_with_space (c ∷ cs)) fits in
          rw fits (omega (arith, e, ltb→le _ _ low), plain)
    ]

All-shorten :
    (P : ℕ → Type 0) (rounds : ℕ) (out : List ℕ) (count : ℕ)
    → All P out
    → All P (shorten rounds out count)
unfolding shorten
All-shorten P zero out count v = v
All-shorten P (suc rounds) out count v =
    elim (Bool-cases (ltb preview_chars (count + 1) || ends_with_space out)) [
      | inl more ↦ rw more (All-shorten P rounds (pop_char out) (count - 1) (All-pop_char P out v))
      | inr fits ↦ rw fits v
    ]

dots : (is_whitespace ellipsis || is_control ellipsis) ≡ false
unfolding is_whitespace is_control
dots = refl

length-push :
    (out : List ℕ) (count : ℕ) (gap : Bool) (c : ℕ)
    → length out ≡ count
    → length ((if gap then out ++ (space ∷ []) else out) ++ (c ∷ []))
      ≡ count + ((if gap then 1 else 0) + 1)
length-push out count true c e =
    omega (arith, e, length-append out (space ∷ []), length-append (out ++ (space ∷ [])) (c ∷ []))
length-push out count false c e = omega (arith, e, length-append out (c ∷ []))

All-push :
    (out : List ℕ) (gap : Bool) (c : ℕ)
    → All IsShown out
    → IsShown c
    → All IsShown ((if gap then out ++ (space ∷ []) else out) ++ (c ∷ []))
All-push out true c v shown =
    All-append IsShown (out ++ (space ∷ [])) (c ∷ [])
      (All-append IsShown out (space ∷ []) v (inl refl, tt)) (shown, tt)
All-push out false c v shown = All-append IsShown out (c ∷ []) v (shown, tt)

preview_from-IsShown :
    (out : List ℕ) (count : ℕ) (gap : Bool) (cs : List ℕ)
    → length out ≡ count
    → count ≤ preview_chars
    → All IsShown out
    → (length (preview_from out count gap cs) ≤ preview_chars)
      × All IsShown (preview_from out count gap cs)
unfolding preview_from
preview_from-IsShown out count gap [] e small v = (omega (arith, e, small), v)
preview_from-IsShown out count gap (c ∷ cs) e small v =
    elim (Bool-cases (is_whitespace c || is_control c)) [
      | inl skipped ↦ rw skipped (preview_from-IsShown out count (ltb 0 count) cs e small v)
      | inr plain ↦ elim (Bool-cases (ltb preview_chars (count + ((if gap then 1 else 0) + 1)))) [
        | inl full ↦
            let front = shorten (length out) out count in
            rw (plain, full)
              (
                omega (
                  arith,
                  (shorten_room (length out) out count (omega arith) e).0,
                  length-append front (ellipsis ∷ []),
                ),
                All-append IsShown front (ellipsis ∷ [])
                    (All-shorten IsShown (length out) out count v) (inr dots, tt),
              )
        | inr fits ↦
            rw (plain, fits)
              (preview_from-IsShown _ (count + ((if gap then 1 else 0) + 1)) false cs
                (length-push out count gap c e) (ltb→le _ _ fits)
                (All-push out gap c v (inr plain)))
      ]
    ]

-- A preview has at most 120 characters, and is one line: every white space or control character of
-- the text is gone or has become a space.
pub preview-IsShown : (t : List ℕ) → (length (preview t) ≤ preview_chars) × All IsShown (preview t)
unfolding preview
preview-IsShown t = preview_from-IsShown [] 0 false t refl (omega arith) tt
