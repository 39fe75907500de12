-- ===== src/Core/Replay/Table.antt =====
-- The `HashMap<[u8; 16], u64>` of replay.rs as an association list, with its laws. A new key goes
-- to the end.
use asli.Prelude.{
  ℕ, ◌==◌, ◌≡◌, refl, ◌≢◌, if◌then◌else◌, Bool, true, false, ◌||◌, List, [], ◌∷◌, ◌++◌, Option,
  none, some, length, arith,
}

unfoldable pub lookup : ℕ → List (ℕ × ℕ) → Option ℕ
lookup k [] = none
lookup k ((j, v) ∷ rest) = if j == k then some v else lookup k rest

unfoldable pub insert : ℕ → ℕ → List (ℕ × ℕ) → List (ℕ × ℕ)
insert k v [] = (k, v) ∷ []
insert k v ((j, w) ∷ rest) = if j == k then (k, v) ∷ rest else (j, w) ∷ insert k v rest

unfoldable pub remove : ℕ → List (ℕ × ℕ) → List (ℕ × ℕ)
remove k [] = []
remove k ((j, w) ∷ rest) = if j == k then rest else (j, w) ∷ remove k rest

unfoldable pub contains_key : ℕ → List (ℕ × ℕ) → Bool
contains_key k [] = false
contains_key k ((j, w) ∷ rest) = j == k || contains_key k rest

abbrev pub keys : List (ℕ × ℕ) → List ℕ
keys [] = []
keys ((k, v) ∷ rest) = k ∷ keys rest

-- The key occurs nowhere in a list, and no key twice.
abbrev pub Absent : ℕ → List ℕ → Type 0
Absent k [] = Unit {0}
Absent k (j ∷ js) = (j ≢ k) × Absent k js

abbrev pub Distinct : List ℕ → Type 0
Distinct [] = Unit {0}
Distinct (k ∷ ks) = Absent k ks × Distinct ks

pub lookup-insert :
    (k j v : ℕ) (t : List (ℕ × ℕ))
    → lookup j (insert k v t) ≡ (if k == j then some v else lookup j t)
unfolding lookup insert
lookup-insert k j v [] = refl
lookup-insert k j v ((i, w) ∷ t) = ground (arith, lookup-insert k j v t)

pub contains_key-lookup : (k : ℕ) (t : List (ℕ × ℕ)) → contains_key k t ≡ false → lookup k t ≡ none
unfolding lookup contains_key
contains_key-lookup k [] h = refl
contains_key-lookup k ((j, w) ∷ t) h = ground (arith, contains_key-lookup k t)

pub lookup-contains_key : (k : ℕ) (t : List (ℕ × ℕ)) → lookup k t ≡ none → contains_key k t ≡ false
unfolding lookup contains_key
lookup-contains_key k [] h = refl
lookup-contains_key k ((j, w) ∷ t) h = ground (arith, lookup-contains_key k t)

pub Absent-lookup : (k : ℕ) (t : List (ℕ × ℕ)) → Absent k (keys t) → lookup k t ≡ none
unfolding lookup
Absent-lookup k [] a = refl
Absent-lookup k ((j, w) ∷ t) a = ground (arith, Absent-lookup k t a.1)

pub contains_key-Absent : (k : ℕ) (t : List (ℕ × ℕ)) → contains_key k t ≡ false → Absent k (keys t)
unfolding contains_key
contains_key-Absent k [] h = tt
contains_key-Absent k ((j, w) ∷ t) h = (ground arith, contains_key-Absent k t (ground arith))

pub Absent-contains_key : (k : ℕ) (t : List (ℕ × ℕ)) → Absent k (keys t) → contains_key k t ≡ false
unfolding contains_key
Absent-contains_key k [] a = refl
Absent-contains_key k ((j, w) ∷ t) a = ground (arith, Absent-contains_key k t a.1)

pub keys-insert_known :
    (k v : ℕ) (t : List (ℕ × ℕ)) → contains_key k t ≡ true → keys (insert k v t) ≡ keys t
unfolding insert contains_key
keys-insert_known k v [] h = absurd (ground arith)
keys-insert_known k v ((j, w) ∷ t) h = ground (arith, keys-insert_known k v t)

pub keys-insert_new :
    (k v : ℕ) (t : List (ℕ × ℕ))
    → contains_key k t ≡ false
    → keys (insert k v t) ≡ keys t ++ (k ∷ [])
unfolding insert contains_key
keys-insert_new k v [] h = refl
keys-insert_new k v ((j, w) ∷ t) h = ground (arith, keys-insert_new k v t)

pub keys-remove_first : (k v : ℕ) (t : List (ℕ × ℕ)) → remove k ((k, v) ∷ t) ≡ t
unfolding remove
keys-remove_first k v t = ground arith

pub lookup-remove_other : (k j : ℕ) (t : List (ℕ × ℕ)) → k ≢ j → lookup j (remove k t) ≡ lookup j t
unfolding lookup remove
lookup-remove_other k j [] h = refl
lookup-remove_other k j ((i, w) ∷ t) h = ground (arith, lookup-remove_other k j t h)

pub length-keys : (t : List (ℕ × ℕ)) → length (keys t) ≡ length t
length-keys [] = refl
length-keys ((k, v) ∷ t) = omega (arith, length-keys t)

pub Absent-push : (k j : ℕ) (ks : List ℕ) → Absent k ks → j ≢ k → Absent k (ks ++ (j ∷ []))
Absent-push k j [] a h = (h, tt)
Absent-push k j (i ∷ ks) a h = (a.0, Absent-push k j ks a.1 h)

pub Distinct-push : (k : ℕ) (ks : List ℕ) → Distinct ks → Absent k ks → Distinct (ks ++ (k ∷ []))
Distinct-push k [] d a = (tt, tt)
Distinct-push k (i ∷ ks) d a =
    (Absent-push i k ks d.0 (λ e. a.0 (omega arith)), Distinct-push k ks d.1 a.1)
