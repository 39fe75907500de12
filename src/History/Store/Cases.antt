-- ===== src/History/Store/Cases.antt =====
-- crates/asli-history/src/lib.rs: what `append_from` comes to, on every branch.
use asli.Prelude.{
  ℕ, zero, suc, ◌≤◌, ◌≡◌, refl, ap, ◌∙◌, subst, ltb, ◌==◌, Bool, true, false, List, [], ◌∷◌, none,
  some, get_elem?, arith, inl, inr, Bool-cases, Option-cases, ltb→le,
}
use asli.Prelude.Results.{done, failed, >>=-done, done-injective}
use asli.Crypto.Primitives.{Primitives}
use asli.History.{Error, Result, Content, Entry, len, same_content, remove_at, evict}
use asli.History.Store.{
  Store, Disk, System, Appended, stored, moved_to_top, already_newest, changed, position, persist,
  saving, move_to_top, store_new, append_from, refused_sensitive, refused_empty, refused_too_large,
}

-- The history after a content that it does not hold, and after one that it holds further down.
abbrev pub with_new : Store → List ℕ → Content → ℕ → List ℕ → Store
with_new s id content ts_ms device_id = record s {
  entries =
      evict s.limits
        (record { id = id; ts_ms = ts_ms; content = content; device_id = device_id } ∷ s.entries);
}

abbrev pub with_moved : Store → ℕ → Entry → ℕ → List ℕ → Store
with_moved s i e ts_ms device_id = record s {
  entries = record e { ts_ms = ts_ms; device_id = device_id } ∷ remove_at s.entries i;
}

-- The position that is found holds the content.
pub position-get_elem? :
    (c : Content) (es : List Entry) (i : ℕ)
    → position c es ≡ some i
    → (e : Entry) × (get_elem? es i ≡ some e) × (same_content e.content c ≡ true)
unfolding position
position-get_elem? c [] i h = cc
position-get_elem? c (e ∷ es) zero h = elim (Bool-cases (same_content e.content c)) [
  | inl same ↦ (e, refl, same)
  | inr other ↦ elim (Option-cases (position c es)) [
    | inl missing ↦ ground arith
    | inr (j, found) ↦ ground arith
  ]
]
position-get_elem? c (e ∷ es) (suc i) h = elim (Bool-cases (same_content e.content c)) [
  | inl same ↦ ground arith
  | inr other ↦ elim (Option-cases (position c es)) [
    | inl missing ↦ ground arith
    | inr (j, found) ↦ position-get_elem? c es i (ground arith)
  ]
]

-- An answer that changes nothing is not the one that stores.
pub changed-stored :
    (a : Appended) (id : List ℕ)
    → changed a ≡ false
    → ◌≡◌ {A = Result Appended} (done a) (done (stored id))
    → changed (stored id) ≡ false
changed-stored a id plain e = subst (λ b. changed b ≡ false) (done-injective _ _ e) plain

module _ (crypto : Primitives) where
  pub saving-value {ℓ} :
      {A : Type ℓ} (s : Store) (disk : Disk) (system : System) (value got : A)
      → (saving crypto s disk system value).2 ≡ done got
      → value ≡ got
  unfolding saving
  saving-value s disk system value got h =
      done-injective _ _ (>>=-done (persist crypto s disk system).1 (λ v. done value) h).2

  move_to_top-elim {ℓ} :
      (P : Store × Disk × Result Appended → Type ℓ) (s : Store) (disk : Disk) (system : System)
      (i : ℕ) (e : Entry) (ts_ms : ℕ) (device_id : List ℕ)
      → P (s, disk, done (already_newest e.id))
      → ((j : ℕ)
          → i ≡ suc j
          → P (
              saving crypto
                (with_moved s (suc j) e ts_ms device_id)
                disk
                system
                (moved_to_top e.id)))
      → P (move_to_top crypto s disk system i e ts_ms device_id)
  unfolding move_to_top
  move_to_top-elim P s disk system zero e ts_ms device_id newest moves = newest
  move_to_top-elim P s disk system (suc j) e ts_ms device_id newest moves = moves j refl

  -- What holds of every outcome holds of `append_from`: a refusal or an entry that is already the
  -- newest leaves all as it was, and so does a generator that fails; else the history is saved.
  pub append_from-elim {ℓ} :
      (P : Store × Disk × Result Appended → Type ℓ) (s : Store) (disk : Disk) (system : System)
      (content : Content) (sensitive : Bool) (ts_ms : ℕ) (device_id : List ℕ)
      → ((a : Appended) → changed a ≡ false → P (s, disk, done a))
      → ((failure : Error) → P (s, disk, failed failure))
      → ((i : ℕ) (e : Entry)
          → get_elem? s.entries (suc i) ≡ some e
          → same_content e.content content ≡ true
          → position content s.entries ≡ some (suc i)
          → P (
              saving crypto
                (with_moved s (suc i) e ts_ms device_id)
                disk
                system
                (moved_to_top e.id)))
      → ((id : List ℕ)
          → system.id ≡ some id
          → position content s.entries ≡ none
          → sensitive ≡ false
          → len content ≤ s.limits.max_entry_bytes
          → P (saving crypto (with_new s id content ts_ms device_id) disk system (stored id)))
      → P (append_from crypto s disk system content sensitive ts_ms device_id)
  unfolding append_from changed
  append_from-elim P s disk system content sensitive ts_ms device_id kept refused moves stores =
      elim (Bool-cases sensitive) [
        | inl secret ↦ rw secret (kept refused_sensitive refl)
        | inr plain ↦ elim (Bool-cases (len content == 0)) [
          | inl empty ↦ rw (plain, empty) (kept refused_empty refl)
          | inr full ↦ elim (Bool-cases (ltb s.limits.max_entry_bytes (len content))) [
            | inl large ↦
                rw (plain, full, large)
                  (kept (refused_too_large (len content) s.limits.max_entry_bytes) refl)
            | inr fits ↦ elim (Option-cases (position content s.entries)) [
              | inl missing ↦ elim (Option-cases system.id) [
                | inl broken ↦ rw (plain, full, fits, missing, store_new, broken) (refused _)
                | inr (id, drawn) ↦
                    rw (plain, full, fits, missing, store_new, drawn)
                      (stores id drawn missing plain (ltb→le _ _ fits))
              ]
              | inr (i, found) ↦
                  let (e, here, same) = position-get_elem? content s.entries i found in
                  rw (plain, full, fits, found, here)
                    (move_to_top-elim P s disk system i e ts_ms device_id
                      (kept (already_newest e.id) refl)
                      (λ j at.
                        moves j e (subst (λ n. get_elem? s.entries n ≡ some e) at here) same
                          (found ∙ ap some at)))
            ]
          ]
        ]
      ]
