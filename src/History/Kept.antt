-- ===== src/History/Kept.antt =====
-- crates/asli-history/src/lib.rs: a predicate on entries that lose some of their company.
use asli.Prelude.{
  ℕ, zero, suc, ◌-◌, ◌≡◌, subst, leb, Bool, true, false, List, [], ◌∷◌, some, All, All-take,
  get_elem?, arith, inl, inr, Bool-cases,
}
use asli.History.{Entry, Limits, len, same_kind, remove_at, evict}
use asli.History.Eviction.{evict-within, within, others}

module _ (P : Entry → Type 0) where
  pub All-remove_at : (es : List Entry) (i : ℕ) → All P es → All P (remove_at es i)
  unfolding remove_at
  All-remove_at [] i v = tt
  All-remove_at (e ∷ es) zero v = v.1
  All-remove_at (e ∷ es) (suc i) v = (v.0, All-remove_at es i v.1)

  pub All-get_elem? :
      (es : List Entry) (i : ℕ) (e : Entry) → All P es → get_elem? es i ≡ some e → P e
  All-get_elem? [] i e v h = cc
  All-get_elem? (f ∷ es) zero e v h = subst P (ground arith) v.0
  All-get_elem? (f ∷ es) (suc i) e v h = All-get_elem? es i e v.1 h

  All-others : (images : Bool) (es : List Entry) → All P es → All P (others images es)
  unfolding others
  All-others images [] v = tt
  All-others images (e ∷ es) v = elim (Bool-cases (same_kind images e)) [
    | inl counted ↦ rw counted (All-others images es v.1)
    | inr free ↦ rw free (v.0, All-others images es v.1)
  ]

  pub All-within :
      (images : Bool) (budget : ℕ) (es : List Entry) → All P es → All P (within images budget es)
  unfolding within
  All-within images budget [] v = tt
  All-within images budget (e ∷ es) v = elim (Bool-cases (same_kind images e)) [
    | inr free ↦ rw free (v.0, All-within images budget es v.1)
    | inl counted ↦ elim (Bool-cases (leb (len e.content) budget)) [
      | inl fits ↦ rw (counted, fits) (v.0, All-within images (budget - len e.content) es v.1)
      | inr over ↦ rw (counted, over) (All-others images es v.1)
    ]
  ]

  pub All-evict : (l : Limits) (es : List Entry) → All P es → All P (evict l es)
  All-evict l es v = rw (evict-within l es) (
      All-within true l.max_image_bytes _
        (All-within false l.max_text_bytes _ (All-take P l.max_entries es v)))
