-- ===== src/History/Eviction.antt =====
-- crates/asli-history/src/lib.rs: what `evict` keeps.
use asli.Prelude.{
  ℕ, zero, suc, ◌-◌, ◌≤◌, ◌<◌, ◌≡◌, refl, sym, ap, ◌∙◌, ltb, leb, if◌then◌else◌, Bool, true, false,
  not, List, [], ◌∷◌, none, some, length, take, arith, inl, inr, Bool-cases, Option-cases, tests,
  ltb→lt, ltb→le,
}
use asli.History.{
  Entry, Limits, len, pop, pop_while, same_kind, total, rposition, remove_at, evict_rounds,
  evict_by_budget, evict,
}

-- What is left when every entry of a kind is dropped.
unfoldable pub others : Bool → List Entry → List Entry
others images [] = []
others images (e ∷ es) =
    let rest = others images es in if same_kind images e then rest else e ∷ rest

-- The entries from the newest on, those of the kind only as long as they fit the budget.
unfoldable pub within : Bool → ℕ → List Entry → List Entry
unfolding others
within images budget [] = []
within images budget (e ∷ es) =
    if not (same_kind images e)
    then e ∷ within images budget es
    else if leb (len e.content) budget
    then e ∷ within images (budget - len e.content) es
    else others images es

length-pop : (e : Entry) (es : List Entry) → suc (length (pop (e ∷ es))) ≡ length (e ∷ es)
unfolding pop
length-pop e [] = refl
length-pop e (f ∷ es) = ap suc (length-pop f es)

take-pop :
    (n : ℕ) (e : Entry) (es : List Entry) → n ≤ length es → take n (pop (e ∷ es)) ≡ take n (e ∷ es)
unfolding pop
take-pop zero e es h = refl
take-pop (suc n) e [] h = absurd (omega arith)
take-pop (suc n) e (f ∷ es) h = ap (◌∷◌ e) (take-pop n f es (omega arith))

pub take_all : (n : ℕ) (es : List Entry) → length es ≤ n → take n es ≡ es
take_all zero [] h = refl
take_all zero (e ∷ es) h = absurd (omega arith)
take_all (suc n) [] h = refl
take_all (suc n) (e ∷ es) h = ap (◌∷◌ e) (take_all n es (omega arith))

-- With a round for each entry, the loop keeps the newest `max` entries.
pub pop_while-take :
    (rounds max : ℕ) (es : List Entry) → length es ≤ rounds → pop_while rounds max es ≡ take max es
unfolding pop_while
pop_while-take zero max [] h = sym (take_all max [] (omega arith))
pop_while-take zero max (e ∷ es) h = absurd (omega arith)
pop_while-take (suc rounds) max [] h = elim (Bool-cases (ltb max 0)) [
  | inl more ↦ absurd (omega (tests, more))
  | inr fits ↦ rw fits (sym (take_all max [] (omega arith)))
]
pop_while-take (suc rounds) max (e ∷ es) h = elim (Bool-cases (ltb max (length (e ∷ es)))) [
  | inl more ↦ rw more (
      pop_while-take rounds max (pop (e ∷ es)) (omega (arith, length-pop e es))
      ∙ take-pop max e es (omega (tests, more)))
  | inr fits ↦ rw fits (sym (take_all max (e ∷ es) (omega (tests, fits))))
]

-- Entries whose total fits stay as they are.
pub within_all :
    (images : Bool) (budget : ℕ) (es : List Entry)
    → total images es ≤ budget
    → within images budget es ≡ es
unfolding within total
within_all images budget [] h = refl
within_all images budget (e ∷ es) h =
    ground (arith, within_all images budget es, within_all images (budget - len e.content) es)

no_position : (images : Bool) (es : List Entry) → rposition images es ≡ none → total images es ≡ 0
unfolding rposition total
no_position images [] h = refl
no_position images (e ∷ es) h = elim (Option-cases (rposition images es)) [
  | inl missing ↦ ground (arith, no_position images es missing)
  | inr (i, found) ↦ ground arith
]

others_all : (images : Bool) (es : List Entry) → rposition images es ≡ none → others images es ≡ es
unfolding rposition others
others_all images [] h = refl
others_all images (e ∷ es) h = elim (Option-cases (rposition images es)) [
  | inl missing ↦ ground (arith, others_all images es missing)
  | inr (i, found) ↦ ground arith
]

others-remove_at :
    (images : Bool) (es : List Entry) (i : ℕ)
    → rposition images es ≡ some i
    → others images (remove_at es i) ≡ others images es
unfolding rposition others remove_at
others-remove_at images [] i h = cc
others-remove_at images (e ∷ es) zero h = elim (Option-cases (rposition images es)) [
  | inl missing ↦ ground arith
  | inr (j, found) ↦ ground arith
]
others-remove_at images (e ∷ es) (suc i) h = elim (Option-cases (rposition images es)) [
  | inl missing ↦ ground arith
  | inr (j, found) ↦ ground (arith, others-remove_at images es i)
]

-- Without its last entry of the kind, a list whose total is over the budget keeps the same.
within-remove_at :
    (images : Bool) (budget : ℕ) (es : List Entry) (i : ℕ)
    → rposition images es ≡ some i
    → budget < total images es
    → within images budget (remove_at es i) ≡ within images budget es
unfolding within rposition remove_at total
within-remove_at images budget [] i found over = cc
within-remove_at images budget (e ∷ es) zero found over =
    elim (Option-cases (rposition images es)) [
      | inl missing ↦
          let spent = no_position images es missing in
          ground (arith, within_all images budget es, others_all images es missing)
      | inr (j, there) ↦ ground arith
    ]
within-remove_at images budget (e ∷ es) (suc i) found over =
    elim (Option-cases (rposition images es)) [
      | inl missing ↦ ground arith
      | inr (j, there) ↦ ground (
        arith,
        within-remove_at images budget es i,
        within-remove_at images (budget - len e.content) es i,
        others-remove_at images es i,
      )
    ]

length-remove_at :
    (images : Bool) (es : List Entry) (i : ℕ)
    → rposition images es ≡ some i
    → suc (length (remove_at es i)) ≡ length es
unfolding rposition remove_at
length-remove_at images [] i h = cc
length-remove_at images (e ∷ es) zero h = refl
length-remove_at images (e ∷ es) (suc i) h = elim (Option-cases (rposition images es)) [
  | inl missing ↦ ground arith
  | inr (j, there) ↦ ap suc (length-remove_at images es i (ground arith))
]

-- With a round for each entry, the loop keeps what fits the budget.
evict_rounds-within :
    (rounds : ℕ) (images : Bool) (budget : ℕ) (es : List Entry)
    → length es ≤ rounds
    → evict_rounds rounds images budget es ≡ within images budget es
unfolding evict_rounds
evict_rounds-within zero images budget [] h = unfold within in refl
evict_rounds-within zero images budget (e ∷ es) h = absurd (omega arith)
evict_rounds-within (suc rounds) images budget es h =
    elim (Bool-cases (ltb budget (total images es))) [
      | inl over ↦ elim (Option-cases (rposition images es)) [
        | inl missing ↦ absurd (omega (tests, over, no_position images es missing))
        | inr (i, found) ↦
            rw (over, found)
              (evict_rounds-within rounds images budget (remove_at es i)
                  (omega (arith, length-remove_at images es i found))
                ∙ within-remove_at images budget es i found (ltb→lt _ _ over))
      ]
      | inr fits ↦ rw fits (sym (within_all images budget es (ltb→le _ _ fits)))
    ]

-- Eviction keeps the newest entries, and of each kind only the newest as long as they fit: it is the
-- function that walks the list once from the newest on. Each of the three loops, which takes one
-- entry a round, is done after a round for each entry.
pub evict-within :
    (l : Limits) (es : List Entry)
    → evict l es
      ≡ within true l.max_image_bytes (within false l.max_text_bytes (take l.max_entries es))
unfolding evict evict_by_budget
evict-within l es =
    let newest = pop_while-take (length es) l.max_entries es (omega arith) in
    let texts =
      evict_rounds-within (length (take l.max_entries es)) false l.max_text_bytes
        (take l.max_entries es) (omega arith) in
    let kept = within false l.max_text_bytes (take l.max_entries es) in
    let images = evict_rounds-within (length kept) true l.max_image_bytes kept (omega arith) in
    rw (newest, texts, images) refl
